-- ===== src/Overtime/Overlap.antt =====
-- apps/hr/src/modules/overtime/overtime-overlap.ts: intervals of minutes, without their ends.
pub mod Laws
use wbme.Common.{ℕ, Bool, ◌&&◌, List, keep_if, ltb}

pub record Interval : Type 0 where
  pub start_minute : ℕ
  pub end_minute : ℕ

unfoldable pub overlaps : (a_start a_end b_start b_end : ℕ) → Bool
overlaps a_start a_end b_start b_end = ltb a_start b_end && ltb b_start a_end

unfoldable pub find_overlapping : (start end : ℕ) → List Interval → List Interval
unfolding overlaps
find_overlapping start end existing =
    keep_if (λ x. overlaps start end x.start_minute x.end_minute) existing
