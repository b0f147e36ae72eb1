-- ===== src/Inventory/Fifo/Spec.antt =====
-- What an allocation promises, in terms of quantities.
use wbme.Common.{ℕ, ◌+◌, ◌≤◌, List, [], ◌∷◌, ◌≡◌, ◌⊎◌, if◌then◌else◌, ◌==◌}
use wbme.Inventory.Fifo.{Batch, BatchAllocation}

-- The stock of an item: what its batches hold together.
unfoldable pub stock : ℕ → List Batch → ℕ
stock item_id [] = 0
stock item_id (b ∷ bs) =
    (if b.inventory_item_id == item_id then b.remaining_qty else 0) + stock item_id bs

unfoldable pub total : List BatchAllocation → ℕ
total [] = 0
total (a ∷ more) = a.qty + total more

unfoldable pub row_total : List Batch → ℕ
row_total [] = 0
row_total (b ∷ bs) = b.remaining_qty + row_total bs

-- Allocations take the batches in order, something from each, and a later batch is touched only when
-- all before it are used up.
unfoldable pub IsFifo : List Batch → List BatchAllocation → Type 0
IsFifo rows [] = Unit
IsFifo [] (a ∷ more) = ⊥
IsFifo (row ∷ rows) (a ∷ more) =
    (a.batch_id ≡ row.id)
    × (1 ≤ a.qty)
    × (a.qty ≤ row.remaining_qty)
    × ((more ≡ []) ⊎ (a.qty ≡ row.remaining_qty))
    × IsFifo rows more
