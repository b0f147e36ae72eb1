-- ===== src/Inventory/Tests.antt =====
-- The inventory theorems at concrete batches, items and storage places.
use wbme.Common.{
  ℕ, true, false, ◌&&◌, none, some, List, [], ◌∷◌, ok, err, ◌≡◌, ◌<◌, ◌↔◌, refl, Distinct, Sorted,
  keep_if, inl, inr, any, arith, ◌≤◌,
}
use wbme.Inventory.Quota.{quarter, compute_cycle_key}
use wbme.Inventory.Quota.Laws.{key_of, resets, compute_cycle_key-key_of}
use wbme.Inventory.Fifo.{Batch, BatchAllocation, insufficient_stock, allocate_fifo_batches}
use wbme.Inventory.Fifo.Spec.{stock}
use wbme.Inventory.Fifo.Laws.{
  IsAllocated, allocate_fifo_batches_success, allocate_fifo_batches_fails_iff,
}
use wbme.Inventory.Items.{
  InventoryItem, Consumable, BorrowRecord, ItemInput, includes, is_joined, lock_inventory_items,
  locked, lock_or_create_item, find_by_key, has_key, transaction_aborted,
}
use wbme.Inventory.Items.Laws.{
  id_lt, holds, lock_inventory_items-Sorted, lock_inventory_items-holds,
}
use wbme.Inventory.Items.Creation.{
  IsLocked, lock_or_create_item-IsLocked, lock_or_create_item-aborted_iff,
}
use wbme.Inventory.Warehouse.{
  Warehouse, WarehousePathRow, find_unique, load_warehouse_with_path, join,
}
use wbme.Inventory.Warehouse.Laws.{Chain, top, up, names_of, load_warehouse_with_path_of_Chain}

abbrev batch : ℕ → ℕ → ℕ → ℕ → Batch
batch id item qty at = record {
  id = id;
  inventory_item_id = item;
  remaining_qty = qty;
  received_at = at;
}

abbrev batches : List Batch
batches = batch 1 7 5 30 ∷ batch 2 7 4 20 ∷ batch 3 8 9 10 ∷ []

batches-Distinct : Distinct (λ b. b.id) batches
batches-Distinct =
    (((λ e. omega arith), ((λ e. omega arith), tt)), (((λ e. omega arith), tt), (tt, tt)))

allocate_fifo_batches_success_example :
    (taken : List BatchAllocation) × ((allocate_fifo_batches batches 7 6).1 ≡ ok taken)
    × IsAllocated 7 6 batches (allocate_fifo_batches batches 7 6).0 taken
unfolding stock
allocate_fifo_batches_success_example =
    allocate_fifo_batches_success batches 7 6 batches-Distinct (omega arith)

allocate_fifo_batches_fails_iff_example :
    ((allocate_fifo_batches batches 7 10).1 ≡ err insufficient_stock) ↔ (stock 7 batches < 10)
allocate_fifo_batches_fails_iff_example = allocate_fifo_batches_fails_iff batches 7 10

abbrev item : ℕ → ℕ → InventoryItem
item id qty = record {
  id = id;
  consumable_id = 1;
  spec = "A4";
  warehouse_id = some id;
  warehouse_name = "shelf";
  warehouse_path = "hall/shelf";
  book_qty = qty;
  reserved_qty = 0;
}

abbrev items : List InventoryItem
items = item 9 0 ∷ item 4 2 ∷ []

abbrev paper : Consumable
paper = record { id = 1; name = "paper" }

items-Distinct : Distinct (λ r. r.id) items
items-Distinct = (((λ e. omega arith), tt), (tt, tt))

lock_inventory_items-Sorted_example :
    Sorted id_lt (lock_inventory_items (paper ∷ []) items (9 ∷ 4 ∷ 9 ∷ []))
lock_inventory_items-Sorted_example =
    lock_inventory_items-Sorted (paper ∷ []) items (9 ∷ 4 ∷ 9 ∷ []) items-Distinct

lock_inventory_items-holds_example :
    holds 9 (lock_inventory_items (paper ∷ []) items (9 ∷ 4 ∷ 9 ∷ []))
    ≡ (includes (9 ∷ 4 ∷ 9 ∷ []) 9 && holds 9 (keep_if (is_joined (paper ∷ [])) items))
lock_inventory_items-holds_example =
    lock_inventory_items-holds (paper ∷ []) items (9 ∷ 4 ∷ 9 ∷ []) 9

abbrev loan : BorrowRecord
loan = record { inventory_item_id = 9; qty = 2; returned_qty = 1; written_off_qty = 1 }

abbrev wanted : ItemInput
wanted = record {
  consumable_id = 1;
  spec = "A4";
  warehouse_id = some 5;
  warehouse_name = "shelf";
  warehouse_path = "hall/shelf";
}

lock_or_create_item-IsLocked_example :
    (r : InventoryItem) × ((lock_or_create_item true items (item 5 3 ∷ []) wanted 12).1
      ≡ ok (locked r))
    × IsLocked wanted (lock_or_create_item true items (item 5 3 ∷ []) wanted 12).0 r
lock_or_create_item-IsLocked_example =
    lock_or_create_item-IsLocked true items (item 5 3 ∷ []) wanted 12 (inl refl) (omega arith)

lock_or_create_item-aborted_iff_example :
    ((lock_or_create_item false items (item 5 3 ∷ []) wanted 12).1 ≡ err transaction_aborted)
    ↔ ((find_by_key wanted items ≡ none) × (any (has_key wanted) (item 5 3 ∷ []) ≡ true))
lock_or_create_item-aborted_iff_example =
    lock_or_create_item-aborted_iff items (item 5 3 ∷ []) wanted 12

abbrev shelf : Warehouse
shelf = record { id = 2; parent_id = some 1; name = "shelf"; is_active = true }

abbrev hall : Warehouse
hall = record { id = 1; parent_id = none; name = "hall"; is_active = false }

abbrev places : List Warehouse
places = hall ∷ shelf ∷ []

shelf-Chain : Chain places (some 1) (hall ∷ [])
unfolding find_unique
shelf-Chain = up refl top

load_warehouse_with_path_of_Chain_example :
    load_warehouse_with_path places (some 2)
    ≡ some (record { id = 2; name = "shelf"; path = join (names_of (hall ∷ []) ("shelf" ∷ [])) })
unfolding find_unique
load_warehouse_with_path_of_Chain_example =
    load_warehouse_with_path_of_Chain places 2 shelf (hall ∷ []) refl refl shelf-Chain (omega arith)

abbrev shelf_row : WarehousePathRow
shelf_row = record { id = 2; name = "shelf"; path = "hall/shelf" }

-- Before the reset of 15 January the quarter is the last one of the year before.
compute_cycle_key-key_of_example :
    (compute_cycle_key quarter 15 2026 1 14 ≡ key_of quarter (resets 15 2026 1 14))
    × (resets 15 2026 1 14 ≤ resets 15 2026 1 15)
compute_cycle_key-key_of_example =
    compute_cycle_key-key_of quarter 15 2026 1 14 2026 1 15 (omega arith) (omega arith)
      (omega arith) (omega arith) (inr (inr (refl, refl, omega arith)))
