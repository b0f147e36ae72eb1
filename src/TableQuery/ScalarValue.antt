-- ===== src/TableQuery/ScalarValue.antt =====
-- scalarValue: the text of a filter's value at the type of its field; relativeDateRange.
pub mod Laws
use wbme.Common.{
  ℕ, ◌+◌, ◌-◌, ◌*◌, ◌%◌, Bool, true, false, Option, none, some, List, [], ◌∷◌, ◌++◌, String, Result,
  ok, err, if◌then◌else◌, ltb, leb, ◌==◌, ◌&&◌, ◌||◌, length, take, all, codes, codes_eq, is_digit,
  drop, str_eq,
}
use wbme.TableQuery.{
  TableOperator, equals, not_equals, contains, not_contains, greater_than, greater_than_or_equal,
  less_than, less_than_or_equal, before, after, between, is_empty, is_not_empty, starts_with,
  ends_with, today, this_week, this_month, this_year, last_7_days, last_30_days, unknown,
  TableFilterCondition, FieldType, Scalar, TableQueryError, bad_number, bad_time, bad_date,
  Platform,
}

abbrev pub day_ms : ℕ
day_ms = 24 * 60 * 60 * 1000

abbrev pub operator_names : List (String × TableOperator)
operator_names =
    ("EQUALS", equals)
    ∷ ("NOT_EQUALS", not_equals)
    ∷ ("CONTAINS", contains)
    ∷ ("NOT_CONTAINS", not_contains)
    ∷ ("GREATER_THAN", greater_than)
    ∷ ("GREATER_THAN_OR_EQUAL", greater_than_or_equal)
    ∷ ("LESS_THAN", less_than)
    ∷ ("LESS_THAN_OR_EQUAL", less_than_or_equal)
    ∷ ("BEFORE", before)
    ∷ ("AFTER", after)
    ∷ ("BETWEEN", between)
    ∷ ("IS_EMPTY", is_empty)
    ∷ ("IS_NOT_EMPTY", is_not_empty)
    ∷ ("STARTS_WITH", starts_with)
    ∷ ("ENDS_WITH", ends_with)
    ∷ ("TODAY", today)
    ∷ ("THIS_WEEK", this_week)
    ∷ ("THIS_MONTH", this_month)
    ∷ ("THIS_YEAR", this_year)
    ∷ ("LAST_7_DAYS", last_7_days)
    ∷ ("LAST_30_DAYS", last_30_days)
    ∷ []

named : String → List (String × TableOperator) → TableOperator
named s [] = unknown
named s ((name, o) ∷ names) = if str_eq name s then o else named s names

-- The operator that the comparisons of the source find in a condition.
unfoldable pub operator_of : TableFilterCondition → TableOperator
unfolding named
operator_of c = named c.operator operator_names

abbrev pub is_valueless : TableOperator → Bool
is_valueless is_empty = true
is_valueless is_not_empty = true
is_valueless _ = false

abbrev pub is_relative_date : TableOperator → Bool
is_relative_date today = true
is_relative_date this_week = true
is_relative_date this_month = true
is_relative_date this_year = true
is_relative_date last_7_days = true
is_relative_date last_30_days = true
is_relative_date _ = false

abbrev pub strip_minus : List ℕ → List ℕ
strip_minus [] = []
strip_minus (c ∷ s) = if c == b'-' then s else c ∷ s

-- What is left behind the first digits.
drop_digits : List ℕ → List ℕ
drop_digits [] = []
drop_digits (c ∷ s) = if is_digit c then drop_digits s else c ∷ s

abbrev pub is_fraction : List ℕ → Bool
is_fraction [] = true
is_fraction (c ∷ s) = c == b'.' && ltb 0 (length s) && all is_digit s

abbrev pub decimal_tail : List ℕ → List ℕ → Bool
decimal_tail s rest = ltb (length rest) (length s) && is_fraction rest

-- /^-?\d+(?:\.\d+)?$/
unfoldable pub is_decimal : List ℕ → Bool
unfolding drop_digits
is_decimal s = decimal_tail (strip_minus s) (drop_digits (strip_minus s))

abbrev pub digit : ℕ → ℕ
digit c = c - 48

abbrev pub in_digits : ℕ → ℕ → ℕ → Bool
in_digits low high c = leb low c && leb c high

-- [01]\d|2[0-3]
abbrev pub is_hour : ℕ → ℕ → Bool
is_hour a b = (in_digits 48 49 a && is_digit b) || (a == 50 && in_digits 48 51 b)

-- /^(?:([01]\d|2[0-3]):([0-5]\d)|(24):00)$/, with the minutes since the start of the day.
unfoldable pub time_minutes : List ℕ → Option ℕ
time_minutes (a ∷ b ∷ c ∷ d ∷ e ∷ []) =
    if c == b':' && is_hour a b && in_digits 48 53 d && is_digit e
    then some ((10 * digit a + digit b) * 60 + (10 * digit d + digit e))
    else if codes_eq (a ∷ b ∷ c ∷ d ∷ e ∷ []) (codes "24:00")
    then some 1440
    else none
time_minutes _ = none

-- /^\d{4}-\d{2}-\d{2}$/
abbrev pub is_date_text : List ℕ → Bool
is_date_text s =
    length s == 10
    && all is_digit (take 4 s ++ take 2 (drop 5 s) ++ drop 8 s)
    && codes_eq (take 1 (drop 4 s) ++ take 1 (drop 7 s)) (codes "--")

abbrev pub number_scalar : Option ℕ → Result TableQueryError Scalar
number_scalar none = err bad_number
number_scalar (some n) = ok (Scalar.number n)

abbrev pub time_scalar : Platform → Option ℕ → Result TableQueryError Scalar
time_scalar p none = err bad_time
time_scalar p (some m) = ok (Scalar.number (p.rank m))

abbrev pub date_scalar : Platform → List ℕ → Option ℕ → Result TableQueryError Scalar
date_scalar p s none = err bad_date
date_scalar p s (some d) =
    if codes_eq (p.format_shanghai_date d) s then ok (Scalar.date d) else err bad_date

unfoldable pub scalar_value : Platform → String → FieldType → Result TableQueryError Scalar
unfolding is_decimal time_minutes codes
scalar_value p v FieldType.text = ok (Scalar.text v)
scalar_value p v FieldType.enum = ok (Scalar.text v)
scalar_value p v FieldType.number =
    if is_decimal (codes v) then number_scalar (p.number_of v) else err bad_number
scalar_value p v FieldType.time = time_scalar p (time_minutes (codes v))
scalar_value p v FieldType.date =
    if is_date_text (codes v)
    then date_scalar p (codes v) (p.shanghai_day_start (codes v))
    else err bad_date

abbrev pub next_day : ℕ → ℕ
next_day d = d + day_ms

-- An interval of dates, without its end.
pub record DateRange : Type 0 where
  pub gte : ℕ
  pub lt : ℕ

abbrev pub some_range : ℕ → ℕ → Option DateRange
some_range a b = some (record { gte = a; lt = b })

abbrev pub range_between : Option ℕ → Option ℕ → Option DateRange
range_between (some a) (some b) = some_range a b
range_between _ _ = none

abbrev pub decimal_value : List ℕ → ℕ → ℕ
decimal_value [] acc = acc
decimal_value (c ∷ s) acc = decimal_value s (10 * acc + digit c)

-- `padStart(2, '0')`
abbrev pub pad : List ℕ → List ℕ
pad [] = codes "00"
pad (c ∷ []) = b'0' ∷ c ∷ []
pad s = s

abbrev pub next_month : Platform → ℕ → ℕ → List ℕ
next_month p year month =
    if month == 12
    then p.show_number (year + 1) ++ codes "-01-01"
    else p.show_number year ++ b'-' ∷ pad (p.show_number (month + 1)) ++ codes "-01"

-- `start` is the start of the day `day`, and a range does not begin before 1970. `none` stands for
-- a range with an invalid date.
abbrev pub range_of : Platform → TableOperator → List ℕ → ℕ → Option DateRange
range_of p today day start = some_range start (next_day start)
range_of p this_week day start =
    let monday = start - (p.utc_day day + 6) % 7 * day_ms in some_range monday (monday + 7 * day_ms)
range_of p this_month day start = range_between (p.shanghai_day_start (take 7 day ++ codes "-01")) (
    p.shanghai_day_start
      (next_month p (decimal_value (take 4 day) 0) (decimal_value (take 2 (drop 5 day)) 0)))
range_of p this_year day start =
    range_between
      (p.shanghai_day_start (p.show_number (decimal_value (take 4 day) 0) ++ codes "-01-01"))
      (p.shanghai_day_start (p.show_number (decimal_value (take 4 day) 0 + 1) ++ codes "-01-01"))
range_of p last_7_days day start = some_range (start - 6 * day_ms) (next_day start)
range_of p last_30_days day start = some_range (start - 29 * day_ms) (next_day start)
range_of p _ day start = none

abbrev pub range_from : Platform → TableOperator → List ℕ → Option ℕ → Option DateRange
range_from p o day none = none
range_from p o day (some start) = range_of p o day start

unfoldable pub relative_date_range : Platform → TableOperator → ℕ → Option DateRange
unfolding codes
relative_date_range p o now =
    range_from p o (p.format_shanghai_date now) (p.shanghai_day_start (p.format_shanghai_date now))
