-- ===== src/Inventory/Fifo.antt =====
-- `allocateFifoBatches`: stock leaves by batches, the earliest received first. Quantities and times
-- are natural numbers. The result comes with the batches as the statements left them; when the
-- function throws, its caller's transaction undoes them.
pub mod Spec
pub mod Loop
pub mod Laws
pub mod Stock
use wbme.Common.{
  ℕ, ◌-◌, min, Bool, true, false, List, [], ◌∷◌, Result, ok, err, if◌then◌else◌, ◌&&◌, ◌||◌, ◌==◌,
  ltb, leb, keep_if, order_by, update_where,
}

pub record Batch : Type 0 where
  pub id : ℕ
  pub inventory_item_id : ℕ
  pub remaining_qty : ℕ
  pub received_at : ℕ

pub record BatchAllocation : Type 0 where
  pub batch_id : ℕ
  pub qty : ℕ

pub data InventoryError : Type 0 where
  insufficient_stock : InventoryError

-- ORDER BY received_at ASC, id ASC
abbrev pub received_before : Batch → Batch → Bool
received_before a b =
    ltb a.received_at b.received_at || (a.received_at == b.received_at && leb a.id b.id)

-- WHERE inventory_item_id = … AND remaining_qty > 0
abbrev pub in_stock : ℕ → Batch → Bool
in_stock item_id b = b.inventory_item_id == item_id && ltb 0 b.remaining_qty

unfoldable pub fifo_rows : ℕ → List Batch → List Batch
fifo_rows item_id batches = order_by received_before (keep_if (in_stock item_id) batches)

-- SET remaining_qty = remaining_qty - qty WHERE id = batch_id
abbrev pub deduct : ℕ → ℕ → List Batch → List Batch
deduct batch_id qty =
    update_where (λ b. b.id == batch_id) (λ b. record b { remaining_qty = b.remaining_qty - qty })

pub record LoopEnd : Type 0 where
  pub batches : List Batch
  pub allocations : List BatchAllocation
  pub remaining : ℕ

abbrev push : BatchAllocation → LoopEnd → LoopEnd
push a e = record e { allocations = a ∷ e.allocations }

-- The loop over the locked rows, from `remaining` on.
unfoldable pub allocate : List Batch → List Batch → ℕ → LoopEnd
allocate [] batches remaining = record {
  batches = batches;
  allocations = [];
  remaining = remaining;
}
allocate (row ∷ rows) batches remaining =
    let done : LoopEnd = record { batches = batches; allocations = []; remaining = remaining } in
    let qty = min row.remaining_qty remaining in
    let rest =
      push (record { batch_id = row.id; qty = qty })
        (allocate rows (deduct row.id qty batches) (remaining - qty)) in
    if leb remaining 0 then done else rest

unfoldable pub allocate_fifo_batches :
    List Batch → ℕ → ℕ → List Batch × Result InventoryError (List BatchAllocation)
unfolding allocate fifo_rows
allocate_fifo_batches batches item_id qty =
    let e = allocate (fifo_rows item_id batches) batches qty in
    (e.batches, (if ltb 0 e.remaining then err insufficient_stock else ok e.allocations))
