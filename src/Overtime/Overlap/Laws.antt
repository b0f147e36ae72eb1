-- ===== src/Overtime/Overlap/Laws.antt =====
-- Two intervals overlap where they have a minute in common.
use wbme.Common.{
  ℕ, ◌≤◌, ◌<◌, ◌≡◌, refl, ◌↔◌, true, false, Bool-cases, inl, inr, List, [], ◌∷◌, All, arith, leb,
}
use wbme.Overtime.Overlap.{Interval, overlaps, find_overlapping}

abbrev pub Covers : (start end minute : ℕ) → Type 0
Covers start end minute = (start ≤ minute) × (minute < end)

-- No minute is in both.
abbrev pub IsApart : (start end : ℕ) → Interval → Type 0
IsApart start end x =
    (minute : ℕ) → Covers start end minute → Covers x.start_minute x.end_minute minute → ⊥

pub IsApart-overlaps :
    (start end : ℕ) (x : Interval)
    → overlaps start end x.start_minute x.end_minute ≡ false
    → IsApart start end x
unfolding overlaps
IsApart-overlaps start end x h minute a b = absurd (ground arith)

overlap_of :
    (start end : ℕ) (x : Interval)
    → start < end
    → x.start_minute < x.end_minute
    → overlaps start end x.start_minute x.end_minute ≡ true
    → IsApart start end x
    → ⊥
unfolding overlaps
overlap_of start end x a b h apart = elim (Bool-cases (leb start x.start_minute)) [
  | inl t ↦ apart x.start_minute (ground arith, ground arith) (omega arith, b)
  | inr t ↦ apart start (omega arith, a) (ground arith, ground arith)
]

-- Among existing intervals that are not empty none is found to overlap with a new one that is not
-- empty exactly if the new one has no minute in common with any of them.
pub find_overlapping-eq-nil_iff :
    (start end : ℕ) (existing : List Interval)
    → start < end
    → All (λ x. x.start_minute < x.end_minute) existing
    → (find_overlapping start end existing ≡ []) ↔ All (IsApart start end) existing
unfolding find_overlapping
find_overlapping-eq-nil_iff start end [] a h = ((λ e. tt), (λ k. refl))
find_overlapping-eq-nil_iff start end (x ∷ xs) a h =
    let rest = find_overlapping-eq-nil_iff start end xs a h.1 in
    elim (Bool-cases (overlaps start end x.start_minute x.end_minute)) [
      | inl t ↦ ((λ e. absurd (cc (rw t at e))), (λ k. absurd (overlap_of start end x a h.0 t k.0)))
      | inr t ↦
          ((λ e. (IsApart-overlaps start end x t, rest.0 (rw t at e))), (λ k. rw t (rest.1 k.1)))
    ]
