-- ===== src/Inventory/Fifo/Loop.antt =====
-- The loop: how much it allocates, and from which rows.
use wbme.Common.{
  ℕ, ◌+◌, ◌-◌, ◌≤◌, min, Bool, true, false, List, [], ◌∷◌, ◌≡◌, refl, ap, ◌∙◌, ◌⊎◌, inl, inr, arith,
  leb, All, Bool-cases,
}
use wbme.Inventory.Fifo.{Batch, deduct, allocate}
use wbme.Inventory.Fifo.Spec.{total, row_total, IsFifo}

pub allocate-total :
    (rows batches : List Batch) (qty : ℕ)
    → (total (allocate rows batches qty).allocations + (allocate rows batches qty).remaining ≡ qty)
      × ((allocate rows batches qty).remaining ≡ qty - row_total rows)
unfolding allocate total row_total
allocate-total [] batches qty = (omega arith, omega arith)
allocate-total (row ∷ rows) batches qty = ground (
  arith,
  allocate-total rows (deduct row.id (min row.remaining_qty qty) batches)
      (qty - min row.remaining_qty qty),
)

allocate-zero : (rows batches : List Batch) → (allocate rows batches 0).allocations ≡ []
unfolding allocate
allocate-zero [] batches = refl
allocate-zero (row ∷ rows) batches = refl

pub allocate-IsFifo :
    (rows batches : List Batch) (qty : ℕ)
    → All (λ b. 1 ≤ b.remaining_qty) rows
    → IsFifo rows (allocate rows batches qty).allocations
unfolding allocate IsFifo
allocate-IsFifo [] batches qty h = tt
allocate-IsFifo (row ∷ rows) batches qty h = elim (Bool-cases (leb qty 0)) [
  | inl e ↦ rw e tt
  | inr e ↦ rw e (
    refl,
    ground (arith, h.0),
    omega arith,
    last (leb row.remaining_qty qty) refl,
    allocate-IsFifo rows (deduct row.id (min row.remaining_qty qty) batches)
        (qty - min row.remaining_qty qty) h.1,
  )
]
  where
    last :
        (b : Bool)
        → leb row.remaining_qty qty ≡ b
        → ((allocate rows
              (deduct row.id (min row.remaining_qty qty) batches)
              (qty - min row.remaining_qty qty)).allocations
            ≡ [])
          ⊎ (min row.remaining_qty qty ≡ row.remaining_qty)
    last true e = inr (ground arith)
    last false e = inl (
        ap (λ n. (allocate rows (deduct row.id (min row.remaining_qty qty) batches) n).allocations)
          (ground arith)
        ∙ allocate-zero rows (deduct row.id (min row.remaining_qty qty) batches))
