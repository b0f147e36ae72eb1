-- ===== src/Inventory/Fifo/Stock.antt =====
-- What deductions do to the stock of an item and of the others.
use wbme.Common.{
  ℕ, ◌+◌, ◌-◌, ◌≤◌, min, true, List, [], ◌∷◌, ◌≡◌, refl, sym, ◌∙◌, ◌≢◌, ◌⊎◌, inl, inr, arith, leb,
  All, Distinct, Bool-cases, keep_if, All-order_by, All-keep_if_test, All-keep_if,
  Distinct-order_by, Distinct-keep_if,
}
use wbme.Inventory.Fifo.{Batch, deduct, allocate, fifo_rows, in_stock, received_before}
use wbme.Inventory.Fifo.Spec.{stock, total}

-- The batch stands in the table, as the only one with its id.
pub Owns : Batch → List Batch → Type 0
Owns r [] = ⊥
Owns r (b ∷ bs) = ((b ≡ r) × All (λ c. c.id ≢ r.id) bs) ⊎ ((b.id ≢ r.id) × Owns r bs)

deduct_absent :
    (id qty item : ℕ) (bs : List Batch)
    → All (λ c. c.id ≢ id) bs
    → stock item (deduct id qty bs) ≡ stock item bs
unfolding stock
deduct_absent id qty item [] h = refl
deduct_absent id qty item (b ∷ bs) h = ground (arith, h.0, deduct_absent id qty item bs h.1)

deduct_owned :
    (r : Batch) (qty : ℕ) (bs : List Batch)
    → qty ≤ r.remaining_qty
    → Owns r bs
    → stock r.inventory_item_id (deduct r.id qty bs) + qty ≡ stock r.inventory_item_id bs
unfolding stock Owns
deduct_owned r qty [] le h = absurd h
deduct_owned r qty (b ∷ bs) le (inl (e, h)) =
    ground (arith, deduct_absent r.id qty r.inventory_item_id bs h)
deduct_owned r qty (b ∷ bs) le (inr (d, h)) = ground (arith, deduct_owned r qty bs le h)

deduct_other :
    (r : Batch) (qty other : ℕ) (bs : List Batch)
    → other ≢ r.inventory_item_id
    → Owns r bs
    → stock other (deduct r.id qty bs) ≡ stock other bs
unfolding stock Owns
deduct_other r qty other [] ne h = absurd h
deduct_other r qty other (b ∷ bs) ne (inl (e, h)) =
    ground (arith, deduct_absent r.id qty other bs h)
deduct_other r qty other (b ∷ bs) ne (inr (d, h)) = ground (arith, deduct_other r qty other bs ne h)

deduct_keeps_absent :
    (id qty other : ℕ) (bs : List Batch)
    → All (λ c. c.id ≢ other) bs
    → All (λ c. c.id ≢ other) (deduct id qty bs)
deduct_keeps_absent id qty other [] h = tt
deduct_keeps_absent id qty other (b ∷ bs) h =
    (ground (arith, h.0), deduct_keeps_absent id qty other bs h.1)

deduct-Owns :
    (r s : Batch) (qty : ℕ) (bs : List Batch)
    → s.id ≢ r.id
    → Owns s bs
    → Owns s (deduct r.id qty bs)
unfolding Owns
deduct-Owns r s qty [] d h = h
deduct-Owns r s qty (b ∷ bs) d (inl (e, h)) =
    inl (ground arith, deduct_keeps_absent r.id qty s.id bs h)
deduct-Owns r s qty (b ∷ bs) d (inr (e, h)) = inr (ground arith, deduct-Owns r s qty bs d h)

All-Owns_cons :
    (b : Batch) (bs ss : List Batch)
    → All (λ s. s.id ≢ b.id) ss
    → All (λ s. Owns s bs) ss
    → All (λ s. Owns s (b ∷ bs)) ss
unfolding Owns
All-Owns_cons b bs [] d h = tt
All-Owns_cons b bs (s ∷ ss) d h = (inr ((λ e. d.0 (sym e)), h.0), All-Owns_cons b bs ss d.1 h.1)

Distinct-Owns : (bs : List Batch) → Distinct (λ b. b.id) bs → All (λ b. Owns b bs) bs
unfolding Owns
Distinct-Owns [] d = tt
Distinct-Owns (b ∷ bs) d = (inl (refl, d.0), All-Owns_cons b bs bs d.0 (Distinct-Owns bs d.1))

-- The rows that the loop still has before it, all of one item.
pub record IsQueue (item_id : ℕ) (rows batches : List Batch) : Type 0 where
  pub owned : All (λ r. Owns r batches) rows
  pub of_item : All (λ r. r.inventory_item_id ≡ item_id) rows
  pub distinct : Distinct (λ r. r.id) rows

deduct-All-Owns :
    (r : Batch) (qty : ℕ) (bs rows : List Batch)
    → All (λ s. s.id ≢ r.id) rows
    → All (λ s. Owns s bs) rows
    → All (λ s. Owns s (deduct r.id qty bs)) rows
deduct-All-Owns r qty bs [] d h = tt
deduct-All-Owns r qty bs (s ∷ rows) d h =
    (deduct-Owns r s qty bs d.0 h.0, deduct-All-Owns r qty bs rows d.1 h.1)

IsQueue-tail :
    (item_id qty : ℕ) (row : Batch) (rows batches : List Batch)
    → IsQueue item_id (row ∷ rows) batches
    → IsQueue item_id rows (deduct row.id qty batches)
IsQueue-tail item_id qty row rows batches q = record {
  owned = deduct-All-Owns row qty batches rows q.distinct.0 q.owned.1;
  of_item = q.of_item.1;
  distinct = q.distinct.1;
}

module _ (item_id : ℕ) where
  pub allocate-stock :
      (rows batches : List Batch) (qty : ℕ)
      → IsQueue item_id rows batches
      → stock item_id (allocate rows batches qty).batches
          + total (allocate rows batches qty).allocations
        ≡ stock item_id batches
  unfolding allocate total
  allocate-stock [] batches qty q = omega arith
  allocate-stock (row ∷ rows) batches qty q = elim (Bool-cases (leb qty 0)) [
    | inl e ↦ rw e (omega arith)
    | inr e ↦
        let taken : ℕ = min row.remaining_qty qty in
        rw e (
          omega (
            arith,
            allocate-stock rows (deduct row.id taken batches) (qty - taken)
                (IsQueue-tail item_id taken row rows batches q),
            rw q.of_item.0 at (deduct_owned row taken batches (omega arith) q.owned.0),
          ))
  ]

  pub allocate-other :
      (other : ℕ) (rows batches : List Batch) (qty : ℕ)
      → other ≢ item_id
      → IsQueue item_id rows batches
      → stock other (allocate rows batches qty).batches ≡ stock other batches
  unfolding allocate
  allocate-other other [] batches qty ne q = refl
  allocate-other other (row ∷ rows) batches qty ne q = elim (Bool-cases (leb qty 0)) [
    | inl e ↦ rw e refl
    | inr e ↦
        let taken : ℕ = min row.remaining_qty qty in
        rw e (
          allocate-other other rows (deduct row.id taken batches) (qty - taken) ne
            (IsQueue-tail item_id taken row rows batches q)
          ∙ deduct_other row taken other batches (λ p. ne (p ∙ q.of_item.0)) q.owned.0)
  ]

  in_stock-item : (b : Batch) → in_stock item_id b ≡ true → b.inventory_item_id ≡ item_id
  in_stock-item b e = ground arith

  pub fifo_rows-IsQueue :
      (batches : List Batch)
      → Distinct (λ b. b.id) batches
      → IsQueue item_id (fifo_rows item_id batches) batches
  unfolding fifo_rows
  fifo_rows-IsQueue batches d = record {
    owned =
        All-order_by (λ b. Owns b batches) received_before (keep_if (in_stock item_id) batches)
          (All-keep_if (λ b. Owns b batches) (in_stock item_id) batches (Distinct-Owns batches d));
    of_item =
        All-order_by (λ b. b.inventory_item_id ≡ item_id) received_before
          (keep_if (in_stock item_id) batches)
          (All-keep_if_test (λ b. b.inventory_item_id ≡ item_id) (in_stock item_id) batches
            (each batches));
    distinct =
        Distinct-order_by (λ b. b.id) received_before (keep_if (in_stock item_id) batches)
          (Distinct-keep_if (λ b. b.id) (in_stock item_id) batches d);
  }
    where
      each :
          (cs : List Batch)
          → All (λ b. in_stock item_id b ≡ true → b.inventory_item_id ≡ item_id) cs
      each [] = tt
      each (c ∷ cs) = (in_stock-item c, each cs)
