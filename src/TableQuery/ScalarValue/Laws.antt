-- ===== src/TableQuery/ScalarValue/Laws.antt =====
-- Times of day and relative ranges of dates.
use wbme.Common.{
  some-injective, ℕ, ◌+◌, ◌-◌, ◌*◌, ◌/◌, ◌%◌, ◌≤◌, ◌<◌, ◌≡◌, refl, subst, Option, none, some, List,
  [], ◌∷◌, codes, arith,
}
use wbme.TableQuery.{TableOperator, today, this_week, last_7_days, last_30_days, Platform}
use wbme.TableQuery.ScalarValue.{
  time_minutes, DateRange, relative_date_range, day_ms, range_of, some_range, next_day,
}

time_of_five : (a b c d e m : ℕ) → time_minutes (a ∷ b ∷ c ∷ d ∷ e ∷ []) ≡ some m → m ≤ 1440
unfolding time_minutes codes
time_of_five a b c d e m h = ground arith

-- A time of day is at most 24:00, 1440 minutes.
pub time_minutes-le : (s : List ℕ) (m : ℕ) → time_minutes s ≡ some m → m ≤ 1440
unfolding time_minutes
time_minutes-le (a ∷ b ∷ c ∷ d ∷ e ∷ []) m h = time_of_five a b c d e m h
time_minutes-le [] m h = absurd (cc h)
time_minutes-le (a ∷ []) m h = absurd (cc h)
time_minutes-le (a ∷ b ∷ []) m h = absurd (cc h)
time_minutes-le (a ∷ b ∷ c ∷ []) m h = absurd (cc h)
time_minutes-le (a ∷ b ∷ c ∷ d ∷ []) m h = absurd (cc h)
time_minutes-le (a ∷ b ∷ c ∷ d ∷ e ∷ f ∷ s) m h = absurd (cc h)

-- HH:mm
unfoldable pub time_text : ℕ → List ℕ
time_text m =
    (48 + m / 60 / 10)
    ∷ (48 + (m / 60) % 10)
    ∷ b':'
    ∷ (48 + (m % 60) / 10)
    ∷ (48 + (m % 60) % 10)
    ∷ []

-- Every time from 00:00 to 24:00 is read back from its text.
pub time_minutes-time_text : (m : ℕ) → m ≤ 1440 → time_minutes (time_text m) ≡ some m
unfolding time_minutes time_text codes
time_minutes-time_text m h = ground arith

-- How many days a relative range covers, where that is fixed.
unfoldable pub days_of : TableOperator → Option ℕ
days_of today = some 1
days_of this_week = some 7
days_of last_7_days = some 7
days_of last_30_days = some 30
days_of _ = none

-- An interval around `now` that lasts n days.
abbrev pub Covers : ℕ → ℕ → DateRange → Type 0
Covers now n r = (r.gte ≤ now) × (now < r.lt) × (r.lt ≡ r.gte + n * day_ms)

week_day : (d : ℕ) → (d + 6) % 7 ≤ 6
week_day d = omega arith

-- How far the clock of Shanghai is ahead of UTC, in milliseconds.
abbrev pub shanghai_offset : ℕ
shanghai_offset = 8 * 3600000

-- The day with this number since 1970-01-01, a Thursday, is a Monday.
abbrev pub IsMonday : ℕ → Type 0
IsMonday day = (day + 4) % 7 ≡ 1

-- A week starts with a Monday in Shanghai; the other ranges end with the day that starts at `start`.
abbrev pub Aligned : TableOperator → (start : ℕ) → DateRange → Type 0
Aligned this_week start r = (m : ℕ) × (r.gte + shanghai_offset ≡ m * day_ms) × IsMonday m
Aligned _ start r = r.lt ≡ start + day_ms

Some : Option DateRange → (DateRange → Type 0) → Type 0
Some o P = (r : DateRange) × (o ≡ some r) × P r

range_around :
    {now : ℕ} (start : ℕ) (o : TableOperator) (g l n k : ℕ)
    → some n ≡ some k
    → g ≤ now
    → now < l
    → l ≡ g + n * day_ms
    → Aligned o start (record { gte = g; lt = l })
    → Some (some_range g l) (λ r. Covers now k r × Aligned o start r)
unfolding Some
range_around {now} start o g l n k e a b c d =
    subst (λ j. Some (some_range g l) (λ r. Covers now j r × Aligned o start r)) (some-injective e)
      (_, refl, ((a, b, c), d))

-- Going back from a day to the Monday before.
back-IsMonday : (day : ℕ) → 7 ≤ day → IsMonday (day - ((day + 4) % 7 + 6) % 7)
back-IsMonday day h = omega arith

module _ (p : Platform) (now start day : ℕ) (a : start ≤ now) (b : now < start + day_ms)
    (late : 30 * day_ms ≤ start) (counted : start + shanghai_offset ≡ day * day_ms)
    (named : p.utc_day (p.format_shanghai_date now) ≡ (day + 4) % 7) where
  range_of-Covers :
      (o : TableOperator) (n : ℕ)
      → days_of o ≡ some n
      → Some
          (range_of p o (p.format_shanghai_date now) start)
          (λ r. Covers now n r × Aligned o start r)
  unfolding days_of Some
  range_of-Covers today n e =
      range_around start today start (next_day start) 1 n e a b (omega arith) refl
  range_of-Covers this_week n e =
      let back = ((day + 4) % 7 + 6) % 7 in
      let short : back ≤ 6 = week_day ((day + 4) % 7) in
      let from : start - back * day_ms + shanghai_offset ≡ (day - back) * day_ms = omega arith in
      rw named (
        range_around start this_week (start - back * day_ms) (start - back * day_ms + 7 * day_ms) 7
          n e (omega arith) (omega arith) refl (day - back, from, back-IsMonday day (omega arith)))
  range_of-Covers last_7_days n e =
      range_around start last_7_days (start - 6 * day_ms) (next_day start) 7 n e (omega arith) b
        (omega arith) refl
  range_of-Covers last_30_days n e =
      range_around start last_30_days (start - 29 * day_ms) (next_day start) 30 n e (omega arith) b
        (omega arith) refl
  range_of-Covers _ n e = absurd (cc e)

-- Where the day of now is read as starting at most a day before now and 30 days or more after 1970,
-- eight hours before a day of UTC whose weekday is read right: TODAY, THIS_WEEK, LAST_7_DAYS and
-- LAST_30_DAYS stand for an interval that contains now and lasts 1, 7, 7 and 30 days; the week
-- starts with a Monday, the others end with the day of now.
pub relative_date_range-Covers :
    (p : Platform) (o : TableOperator) (now start day n : ℕ)
    → p.shanghai_day_start (p.format_shanghai_date now) ≡ some start
    → start ≤ now
    → now < start + day_ms
    → 30 * day_ms ≤ start
    → start + shanghai_offset ≡ day * day_ms
    → p.utc_day (p.format_shanghai_date now) ≡ (day + 4) % 7
    → days_of o ≡ some n
    → (r : DateRange) × (relative_date_range p o now ≡ some r)
      × (Covers now n r × Aligned o start r)
unfolding relative_date_range Some
relative_date_range-Covers p o now start day n reads a b late counted named e =
    rw reads (range_of-Covers p now start day a b late counted named o n e)
