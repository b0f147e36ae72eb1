-- ===== src/Inventory/Quota/Laws.antt =====
-- One counter of months decides the periods of all three cycles.
use wbme.Common.{ℕ, ◌+◌, ◌-◌, ◌*◌, ◌/◌, ◌%◌, ◌≤◌, ◌<◌, ◌≡◌, ◌⊎◌, if◌then◌else◌, ltb, arith}
use wbme.Inventory.Quota.{
  QuotaCycle, month, quarter, year, CycleKey, month_key, quarter_key, year_key, compute_cycle_key,
}

-- How many resets there have been: one each month, on the day of the reset.
unfoldable pub resets : (reset_day y m d : ℕ) → ℕ
resets reset_day y m d = if ltb d reset_day then 12 * y + m - 2 else 12 * y + m - 1

-- The period of a number of resets.
unfoldable pub key_of : QuotaCycle → ℕ → CycleKey
key_of month n = month_key (n / 12) (n % 12 + 1)
key_of quarter n = quarter_key (n / 12) (n % 12 / 3 + 1)
key_of year n = year_key (n / 12)

-- One date is not after another.
abbrev pub NotAfter : (y m d y' m' d' : ℕ) → Type 0
NotAfter y m d y' m' d' = (y < y') ⊎ ((y ≡ y') × (m < m')) ⊎ ((y ≡ y') × (m ≡ m') × (d ≤ d'))

resets_mono :
    (reset_day y m d y' m' d' : ℕ)
    → 1 ≤ m
    → m ≤ 12
    → 1 ≤ m'
    → NotAfter y m d y' m' d'
    → resets reset_day y m d ≤ resets reset_day y' m' d'
unfolding resets
resets_mono reset_day y m d y' m' d' a b c h = ground arith

cycle_key-key_of :
    (cycle : QuotaCycle) (reset_day y m d : ℕ)
    → 1 ≤ y
    → 1 ≤ m
    → m ≤ 12
    → compute_cycle_key cycle reset_day y m d ≡ key_of cycle (resets reset_day y m d)
unfolding compute_cycle_key resets key_of
cycle_key-key_of month reset_day y m d a b c = ground arith
cycle_key-key_of quarter reset_day y m d a b c = ground arith
cycle_key-key_of year reset_day y m d a b c = ground arith

-- The period of a date, in each of the three cycles, is the month, the quarter or the year of one
-- number, how many resets there have been; and that number does not fall from a date to a later one.
-- Years are from 1 on, months from 1 to 12.
pub compute_cycle_key-key_of :
    (cycle : QuotaCycle) (reset_day y m d y' m' d' : ℕ)
    → 1 ≤ y
    → 1 ≤ m
    → m ≤ 12
    → 1 ≤ m'
    → NotAfter y m d y' m' d'
    → (compute_cycle_key cycle reset_day y m d ≡ key_of cycle (resets reset_day y m d))
      × (resets reset_day y m d ≤ resets reset_day y' m' d')
compute_cycle_key-key_of cycle reset_day y m d y' m' d' a b c e h =
    (cycle_key-key_of cycle reset_day y m d a b c, resets_mono reset_day y m d y' m' d' b c e h)
