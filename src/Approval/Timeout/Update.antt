-- ===== src/Approval/Timeout/Update.antt =====
-- One conditional cancellation: which rows it meets, and what it does to the others.
use wbme.Common.{
  ℕ, ◌+◌, ◌≤◌, ◌≡◌, refl, sym, ap, ◌∙◌, ◌≢◌, ◌⊎◌, inl, inr, Bool, true, false, ◌&&◌, pos, List, [],
  ◌∷◌, ℤ, arith, All, Bool-cases, count_if, update_where, Distinct,
}
use wbme.Approval.Timeout.{Request, OverdueApprovalRow, is_overdue, is_hit, cancel_request, to_row}

-- A request that the row names and that is still overdue.
abbrev pub is_pick : ℤ → OverdueApprovalRow → Request → Bool
is_pick cutoff row r = is_hit row r && is_overdue cutoff r

module _ (cutoff : ℤ) (now : ℕ) where
  -- A row that was hit is neither hit again nor overdue any longer.
  pub not_hit_after :
      (row row' : OverdueApprovalRow) (r : Request) → is_hit row' (cancel_request now r) ≡ false
  unfolding is_hit
  not_hit_after row row' r = ground arith

  pub not_overdue_after : (r : Request) → is_overdue cutoff (cancel_request now r) ≡ false
  unfolding is_overdue
  not_overdue_after r = refl

  hit_ids : (row : OverdueApprovalRow) (r : Request) → is_hit row r ≡ true → r.id ≡ row.id
  unfolding is_hit
  hit_ids row r e = ground arith

  pick_other :
      (row other : OverdueApprovalRow) (r : Request)
      → other.id ≢ row.id
      → is_hit row r ≡ true
      → is_hit other r ≡ false
  unfolding is_hit
  pick_other row other r d e = ground arith

  -- Cancelling one row leaves the requests that another row names.
  pub picks-update_where :
      (row other : OverdueApprovalRow) (rs : List Request)
      → other.id ≢ row.id
      → count_if (is_pick cutoff other) (update_where (is_hit row) (cancel_request now) rs)
        ≡ count_if (is_pick cutoff other) rs
  picks-update_where row other [] d = refl
  picks-update_where row other (r ∷ rs) d = ground (
    arith,
    pick_other row other r d,
    not_hit_after row other r,
    picks-update_where row other rs d,
  )

  -- The overdue requests that are left, and those that the row named, are those that there were.
  pub overdue-update_where :
      (row : OverdueApprovalRow) (rs : List Request)
      → count_if (is_overdue cutoff) (update_where (is_hit row) (cancel_request now) rs)
          + count_if (is_pick cutoff row) rs
        ≡ count_if (is_overdue cutoff) rs
  overdue-update_where row [] = omega arith
  overdue-update_where row (r ∷ rs) =
      ground (arith, not_overdue_after r, overdue-update_where row rs)

pub picks-le-hits :
    (cutoff : ℤ) (row : OverdueApprovalRow) (rs : List Request)
    → count_if (is_pick cutoff row) rs ≤ count_if (is_hit row) rs
picks-le-hits cutoff row [] = omega arith
picks-le-hits cutoff row (r ∷ rs) = ground (arith, picks-le-hits cutoff row rs)

-- With distinct ids a row read from an overdue request names that request alone.
module _ (cutoff : ℤ) where
  no_picks :
      (r : Request) (rs : List Request)
      → All (λ s. s.id ≢ r.id) rs
      → count_if (is_pick cutoff (to_row r)) rs ≡ 0
  unfolding is_hit
  no_picks r [] h = refl
  no_picks r (s ∷ rs) h = ground (arith, h.0, no_picks r rs h.1)

  picks_self : (r : Request) → is_overdue cutoff r ≡ true → is_pick cutoff (to_row r) r ≡ true
  unfolding is_hit is_overdue
  picks_self r e = ground arith

  picks_head : (r s : Request) → s.id ≢ r.id → is_pick cutoff (to_row s) r ≡ false
  unfolding is_hit
  picks_head r s d = ground arith

  abbrev pub Single : List Request → Request → Type 0
  Single rs r = is_overdue cutoff r ≡ true → count_if (is_pick cutoff (to_row r)) rs ≡ 1

  Single-cons :
      (r : Request) (rs ss : List Request)
      → All (λ s. s.id ≢ r.id) ss
      → All (Single rs) ss
      → All (Single (r ∷ rs)) ss
  Single-cons r rs [] d h = tt
  Single-cons r rs (s ∷ ss) d h =
      ((λ e. rw (picks_head r s d.0) (h.0 e)), Single-cons r rs ss d.1 h.1)

  pub Distinct-Single : (rs : List Request) → Distinct (λ r. r.id) rs → All (Single rs) rs
  Distinct-Single [] h = tt
  Distinct-Single (r ∷ rs) h = (
    (λ e. ground (arith, picks_self r e, no_picks r rs h.0)),
    Single-cons r rs rs h.0 (Distinct-Single rs h.1),
  )

-- With distinct ids at most one request is hit.
no_hits :
    (row : OverdueApprovalRow) (id : ℕ) (rs : List Request)
    → row.id ≡ id
    → All (λ s. s.id ≢ id) rs
    → count_if (is_hit row) rs ≡ 0
unfolding is_hit
no_hits row id [] e h = refl
no_hits row id (s ∷ rs) e h = ground (arith, h.0, no_hits row id rs e h.1)

hits-le-one :
    (row : OverdueApprovalRow) (rs : List Request)
    → Distinct (λ r. r.id) rs
    → count_if (is_hit row) rs ≤ 1
hits-le-one row [] h = omega arith
hits-le-one row (r ∷ rs) h = elim (Bool-cases (is_hit row r)) [
  | inl e ↦ rw e (omega (arith, no_hits row r.id rs (sym (hit_ids (pos 0) 0 row r e)) h.0))
  | inr e ↦ rw e (hits-le-one row rs h.1)
]

module _ (cutoff : ℤ) (now : ℕ) where
  -- What a scan may do to a request: nothing, or cancel it if it is overdue.
  abbrev pub Evolves : Request → Request → Type 0
  Evolves r s = (s ≡ r) ⊎ ((is_overdue cutoff r ≡ true) × (s ≡ cancel_request now r))

  abbrev pub Evolved : List Request → List Request → Type 0
  Evolved [] [] = Unit
  Evolved [] (s ∷ ss) = ⊥
  Evolved (r ∷ rs) [] = ⊥
  Evolved (r ∷ rs) (s ∷ ss) = Evolves r s × Evolved rs ss

  pub Evolved-refl : (rs : List Request) → Evolved rs rs
  Evolved-refl [] = tt
  Evolved-refl (r ∷ rs) = (inl refl, Evolved-refl rs)

  Evolves-trans : (r s t : Request) → Evolves r s → Evolves s t → Evolves r t
  Evolves-trans r s t (inl e) (inl f) = inl (f ∙ e)
  Evolves-trans r s t (inl e) (inr (o, f)) = inr (rw e at o, f ∙ ap (cancel_request now) e)
  Evolves-trans r s t (inr (o, e)) (inl f) = inr (o, f ∙ e)
  Evolves-trans r s t (inr (o, e)) (inr (o', f)) =
      absurd (cc (rw e at o', not_overdue_after cutoff now r))

  pub Evolved-trans : (rs ss ts : List Request) → Evolved rs ss → Evolved ss ts → Evolved rs ts
  Evolved-trans [] [] [] h k = tt
  Evolved-trans (r ∷ rs) (s ∷ ss) (t ∷ ts) h k =
      (Evolves-trans r s t h.0 k.0, Evolved-trans rs ss ts h.1 k.1)
  Evolved-trans [] [] (t ∷ ts) h k = k
  Evolved-trans [] (s ∷ ss) ts h k = absurd h
  Evolved-trans (r ∷ rs) [] ts h k = absurd h
  Evolved-trans (r ∷ rs) (s ∷ ss) [] h k = k

  -- Where no request is hit but the overdue ones, the update only cancels overdue requests.
  Evolved-update_where :
      (row : OverdueApprovalRow) (rs : List Request)
      → count_if (is_hit row) rs ≤ count_if (is_pick cutoff row) rs
      → Evolved rs (update_where (is_hit row) (cancel_request now) rs)
  Evolved-update_where row [] h = tt
  Evolved-update_where row (r ∷ rs) h = elim (Bool-cases (is_hit row r)) [
    | inl e ↦ elim (Bool-cases (is_overdue cutoff r)) [
      | inl o ↦ (inr (o, ground arith), Evolved-update_where row rs (ground arith))
      | inr o ↦ absurd (ground (arith, picks-le-hits cutoff row rs))
    ]
    | inr e ↦ (inl (ground arith), Evolved-update_where row rs (ground arith))
  ]

  pub Evolved-cancel :
      (row : OverdueApprovalRow) (rs : List Request)
      → Distinct (λ r. r.id) rs
      → count_if (is_pick cutoff row) rs ≡ 1
      → Evolved rs (update_where (is_hit row) (cancel_request now) rs)
  Evolved-cancel row rs d p = Evolved-update_where row rs (omega (arith, hits-le-one row rs d))
