-- ===== src/Inventory/Fifo/Laws.antt =====
-- First in, first out: what is allocated, from which batches, and when there is too little.
use wbme.Common.{
  ℕ, ◌+◌, ◌≤◌, ◌<◌, true, List, [], ◌∷◌, ok, err, ◌≡◌, refl, ap, ◌∙◌, ◌≢◌, ◌↔◌, arith, keep_if,
  order_by, insert_by, All, Distinct, Sorted, order_by-Sorted, All-order_by, All-keep_if_test,
}
use wbme.Inventory.Fifo.{
  Batch, BatchAllocation, insufficient_stock, received_before, in_stock, fifo_rows, allocate,
  allocate_fifo_batches,
}
use wbme.Inventory.Fifo.Spec.{stock, total, row_total, IsFifo}
use wbme.Inventory.Fifo.Loop.{allocate-total, allocate-IsFifo}
use wbme.Inventory.Fifo.Stock.{allocate-stock, allocate-other, fifo_rows-IsQueue}

row_total-insert_by :
    (b : Batch) (bs : List Batch)
    → row_total (insert_by received_before b bs) ≡ b.remaining_qty + row_total bs
unfolding row_total
row_total-insert_by b [] = refl
row_total-insert_by b (c ∷ bs) = ground (arith, row_total-insert_by b bs)

row_total-order_by : (bs : List Batch) → row_total (order_by received_before bs) ≡ row_total bs
unfolding row_total order_by
row_total-order_by [] = refl
row_total-order_by (b ∷ bs) =
    row_total-insert_by b (order_by received_before bs)
    ∙ ap (◌+◌ b.remaining_qty) (row_total-order_by bs)

row_total-keep_if :
    (item_id : ℕ) (bs : List Batch) → row_total (keep_if (in_stock item_id) bs) ≡ stock item_id bs
unfolding row_total stock
row_total-keep_if item_id [] = refl
row_total-keep_if item_id (b ∷ bs) = ground (arith, row_total-keep_if item_id bs)

-- The locked rows hold the whole stock of the item.
row_total-fifo_rows :
    (item_id : ℕ) (bs : List Batch) → row_total (fifo_rows item_id bs) ≡ stock item_id bs
unfolding fifo_rows
row_total-fifo_rows item_id bs =
    row_total-order_by (keep_if (in_stock item_id) bs) ∙ row_total-keep_if item_id bs

fifo_rows-pos :
    (item_id : ℕ) (bs : List Batch) → All (λ b. 1 ≤ b.remaining_qty) (fifo_rows item_id bs)
unfolding fifo_rows
fifo_rows-pos item_id bs =
    All-order_by (λ b. 1 ≤ b.remaining_qty) received_before (keep_if (in_stock item_id) bs)
      (All-keep_if_test (λ b. 1 ≤ b.remaining_qty) (in_stock item_id) bs (each bs))
  where
    each : (cs : List Batch) → All (λ b. in_stock item_id b ≡ true → 1 ≤ b.remaining_qty) cs
    each [] = tt
    each (c ∷ cs) = ((λ e. ground arith), each cs)

-- The rows are taken by time of receipt, then by id.
pub fifo_rows-Sorted :
    (item_id : ℕ) (bs : List Batch) → Sorted received_before (fifo_rows item_id bs)
unfolding fifo_rows
fifo_rows-Sorted item_id bs =
    order_by-Sorted received_before (λ x y e. ground arith) (λ x y z e f. ground arith)
      (keep_if (in_stock item_id) bs)

-- What a successful allocation of `qty` units of an item promises: exactly `qty` units, taken from
-- the item's batches first in, first out, and gone from its stock.
pub record IsAllocated (item_id qty : ℕ) (before after : List Batch) (taken : List BatchAllocation)
    : Type 0 where
  pub exact : total taken ≡ qty
  pub in_order : IsFifo (fifo_rows item_id before) taken
  pub sorted : Sorted received_before (fifo_rows item_id before)
  pub deducted : stock item_id after + qty ≡ stock item_id before

-- If an item's stock covers the quantity, the allocation succeeds: it takes exactly that quantity,
-- from the batches in the order of their receipt, a later one only when those before it are used
-- up, and the item's stock is less by that quantity. Batch ids are distinct.
pub allocate_fifo_batches_success :
    (batches : List Batch) (item_id qty : ℕ)
    → Distinct (λ b. b.id) batches
    → qty ≤ stock item_id batches
    → (taken : List BatchAllocation) × ((allocate_fifo_batches batches item_id qty).1 ≡ ok taken)
      × IsAllocated item_id qty batches (allocate_fifo_batches batches item_id qty).0 taken
unfolding allocate_fifo_batches
allocate_fifo_batches_success batches item_id qty d le =
    let rows = fifo_rows item_id batches in
    let (sum, rest) = allocate-total rows batches qty in
    let all_taken : (allocate rows batches qty).remaining ≡ 0 =
      omega (arith, row_total-fifo_rows item_id batches) in
    (
      (allocate rows batches qty).allocations,
      ground arith,
      record {
        exact = omega arith;
        in_order = allocate-IsFifo rows batches qty (fifo_rows-pos item_id batches);
        sorted = fifo_rows-Sorted item_id batches;
        deducted =
            omega (
              arith,
              allocate-stock item_id rows batches qty (fifo_rows-IsQueue item_id batches d),
            );
      },
    )

-- An allocation fails, with INSUFFICIENT_STOCK, exactly if the item's stock is less than the
-- quantity.
pub allocate_fifo_batches_fails_iff :
    (batches : List Batch) (item_id qty : ℕ)
    → ((allocate_fifo_batches batches item_id qty).1 ≡ err insufficient_stock)
      ↔ (stock item_id batches < qty)
unfolding allocate_fifo_batches
allocate_fifo_batches_fails_iff batches item_id qty =
    let rest = (allocate-total (fifo_rows item_id batches) batches qty).1 in
    let all = row_total-fifo_rows item_id batches in (λ e. ground arith, λ h. ground arith)

-- An allocation leaves the stock of every other item as it was. Batch ids are distinct.
pub allocate_fifo_batches_other :
    (batches : List Batch) (item_id qty other : ℕ)
    → Distinct (λ b. b.id) batches
    → other ≢ item_id
    → stock other (allocate_fifo_batches batches item_id qty).0 ≡ stock other batches
unfolding allocate_fifo_batches
allocate_fifo_batches_other batches item_id qty other d ne =
    allocate-other item_id other (fifo_rows item_id batches) batches qty ne
      (fifo_rows-IsQueue item_id batches d)
