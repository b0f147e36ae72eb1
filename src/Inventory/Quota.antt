-- ===== src/Inventory/Quota.antt =====
-- apps/asset/src/shared/quota-period.ts: the period of a quota that a time falls into. The year, the
-- month and the day are those of Beijing; a key is given by its parts.
pub mod Laws
use wbme.Common.{ℕ, ◌+◌, ◌-◌, ◌*◌, ◌/◌, Bool, ◌&&◌, if◌then◌else◌, ltb, ◌==◌}

pub data QuotaCycle : Type 0 where
  month quarter year : QuotaCycle

-- `2026-08`, `2026-Q3`, `2026`
pub data CycleKey : Type 0 where
  month_key : (y m : ℕ) → CycleKey
  quarter_key : (y q : ℕ) → CycleKey
  year_key : (y : ℕ) → CycleKey

-- `Math.ceil(m / 3)`
abbrev pub quarter_of : ℕ → ℕ
quarter_of m = (m + 2) / 3

abbrev pub first_month : ℕ → ℕ
first_month m = (m - 1) / 3 * 3 + 1

unfoldable pub compute_cycle_key : QuotaCycle → (reset_day y m d : ℕ) → CycleKey
compute_cycle_key year reset_day y m d =
    if ltb d reset_day && m == 1 then year_key (y - 1) else year_key y
compute_cycle_key quarter reset_day y m d =
    if ltb d reset_day && m == first_month m
    then (if first_month m == 1
        then quarter_key (y - 1) (quarter_of 10)
        else quarter_key y (quarter_of (first_month m - 3)))
    else quarter_key y (quarter_of (first_month m))
compute_cycle_key month reset_day y m d =
    if ltb d reset_day
    then (if m == 1 then month_key (y - 1) 12 else month_key y (m - 1))
    else month_key y m
