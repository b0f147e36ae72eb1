-- ===== src/TableQuery/Memory.antt =====
-- One condition on one cell of a row in memory: what filterAndSortTableRows tests.
pub mod Rows
pub mod Documented
pub mod Laws
use wbme.Common.{
  ℕ, suc, Bool, true, false, Option, none, some, List, [], ◌∷◌, map, String, Result, ok, err, ◌>>=◌,
  if◌then◌else◌, ltb, leb, ◌==◌, ◌&&◌, ◌||◌, not, str_eq, codes_eq, includes,
}
use wbme.Common.{starts_with as codes_start_with, ends_with as codes_end_with}
use wbme.TableQuery.{
  TableOperator, equals, not_equals, contains, not_contains, greater_than, greater_than_or_equal,
  less_than, less_than_or_equal, before, after, between, is_empty, is_not_empty, starts_with,
  ends_with, TableFilterCondition, Logic, and, or, TableFilterTreeNode, TableFilterTreeNodes, leaf,
  group, no_nodes, node, TableFilterTreeGroup, Direction, asc, desc, Sort, TableQueryInput,
  FieldType, Scalar, Cell, Sign, negative, zero, positive, nan, TableQueryError,
  unsupported_operator, Platform,
}
use wbme.TableQuery.Filters.{parse_filters, parse_sorts}
use wbme.TableQuery.ScalarValue.{
  operator_of, is_valueless, is_relative_date, scalar_value, next_day, DateRange,
}
use wbme.TableQuery.Context.{date_range_for, range_end, field_definition}

pub record TableInMemoryField {ℓ} (Row : Type ℓ) : Type ℓ where
  pub type : FieldType
  pub value : Row → Cell

abbrev pub is_missing : Cell → Bool
is_missing Cell.null = true
is_missing Cell.undefined = true
is_missing _ = false

abbrev pub is_empty_text : Cell → Bool
is_empty_text (Cell.text s) = str_eq s ""
is_empty_text v = is_missing v

abbrev pub is_empty_cell : FieldType → Cell → Bool
is_empty_cell FieldType.text v = is_empty_text v
is_empty_cell _ v = is_missing v

abbrev pub date_of : Result TableQueryError Scalar → Option ℕ
date_of (ok (Scalar.date d)) = some d
date_of _ = none

-- An invalid date or text counts as missing.
unfoldable pub memory_date : Platform → Cell → Option ℕ
unfolding scalar_value
memory_date p (Cell.date d) = d
memory_date p (Cell.text s) = date_of (scalar_value p s FieldType.date)
memory_date p _ = none

-- `typeof v === 'number' ? v : Number(v)`; the null value is 0. `none` where it is not finite.
unfoldable pub memory_number : Platform → Cell → Option ℕ
memory_number p (Cell.number n) = n
memory_number p (Cell.text s) = p.number_of s
memory_number p (Cell.date none) = none
memory_number p (Cell.date (some d)) = some (p.date_number d)
memory_number p Cell.null = some (p.rank 0)
memory_number p Cell.undefined = none

-- `String(v ?? '')`
abbrev pub memory_text : Platform → Cell → String
memory_text p (Cell.text s) = s
memory_text p (Cell.number none) = p.show_nan
memory_text p (Cell.number (some n)) = p.show_finite n
memory_text p (Cell.date none) = p.show_invalid_date
memory_text p (Cell.date (some d)) = p.show_date d
memory_text p _ = ""

module _ (p : Platform) (c : TableFilterCondition) where
  abbrev pub unsupported : Result TableQueryError Bool
  unsupported = err (unsupported_operator c.field c.operator)

  abbrev pub text_match : TableOperator → List ℕ → List ℕ → Result TableQueryError Bool
  text_match equals left right = ok (codes_eq left right)
  text_match not_equals left right = ok (not (codes_eq left right))
  text_match contains left right = ok (includes left right)
  text_match not_contains left right = ok (not (includes left right))
  text_match starts_with left right = ok (codes_start_with left right)
  text_match ends_with left right = ok (codes_end_with left right)
  text_match _ left right = unsupported

  abbrev pub enum_match : TableOperator → String → String → Result TableQueryError Bool
  enum_match equals left right = ok (str_eq left right)
  enum_match not_equals left right = ok (not (str_eq left right))
  enum_match _ left right = unsupported

  abbrev pub up_to : ℕ → Scalar → Bool
  up_to left (Scalar.number e) = leb left e
  up_to left _ = false

  abbrev pub number_match : FieldType → TableOperator → ℕ → ℕ → Result TableQueryError Bool
  number_match type equals left v = ok (left == v)
  number_match type not_equals left v = ok (not (left == v))
  number_match type greater_than left v = ok (ltb v left)
  number_match type greater_than_or_equal left v = ok (leb v left)
  number_match type less_than left v = ok (ltb left v)
  number_match type less_than_or_equal left v = ok (leb left v)
  number_match type between left v =
      range_end p c type (Scalar.number v) >>= (λ e. ok (leb v left && up_to left e))
  number_match type _ left v = unsupported

  abbrev pub until_day : ℕ → Scalar → Bool
  until_day left (Scalar.date e) = ltb left (next_day e)
  until_day left _ = false

  abbrev pub date_match : TableOperator → ℕ → ℕ → Result TableQueryError Bool
  date_match equals left v = ok (leb v left && ltb left (next_day v))
  date_match not_equals left v = ok (ltb left v || leb (next_day v) left)
  date_match before left v = ok (ltb left v)
  date_match after left v = ok (leb (next_day v) left)
  date_match between left v =
      range_end p c FieldType.date (Scalar.date v) >>= (λ e. ok (leb v left && until_day left e))
  date_match _ left v = unsupported

  abbrev pub number_match_if :
      FieldType → TableOperator → Option ℕ → Scalar → Result TableQueryError Bool
  number_match_if type o (some left) (Scalar.number v) = number_match type o left v
  number_match_if type o _ _ = ok false

  abbrev pub date_match_if : TableOperator → Option ℕ → Scalar → Result TableQueryError Bool
  date_match_if o (some left) (Scalar.date v) = date_match o left v
  date_match_if o _ _ = ok false

  abbrev pub scalar_text : Scalar → String
  scalar_text (Scalar.text s) = s
  scalar_text (Scalar.number n) = p.show_finite n
  scalar_text (Scalar.date d) = p.show_date d

  abbrev pub value_match : FieldType → TableOperator → Cell → Scalar → Result TableQueryError Bool
  value_match FieldType.text o v e =
      text_match o (p.lower (memory_text p v)) (p.lower (scalar_text e))
  value_match FieldType.enum o v e = enum_match o (memory_text p v) (scalar_text e)
  value_match FieldType.number o v e = number_match_if FieldType.number o (memory_number p v) e
  value_match FieldType.time o v e = number_match_if FieldType.time o (memory_number p v) e
  value_match FieldType.date o v e = date_match_if o (memory_date p v) e

  abbrev pub valueless_match : FieldType → TableOperator → Cell → Bool
  valueless_match type is_empty v = is_empty_cell type v
  valueless_match type _ v = not (is_empty_cell type v)

  abbrev pub in_range_if : ℕ → FieldType → Option ℕ → Result TableQueryError Bool
  in_range_if now FieldType.date none = ok false
  in_range_if now FieldType.date (some left) =
      date_range_for p now c FieldType.date >>= (λ r. ok (leb r.gte left && ltb left r.lt))
  in_range_if now _ left = unsupported

  -- A condition on a cell, at the type of its field.
  unfoldable pub match_cell : ℕ → FieldType → Cell → Result TableQueryError Bool
  unfolding scalar_value range_end memory_date memory_number
  match_cell now type v =
      if is_valueless (operator_of c)
      then ok (valueless_match type (operator_of c) v)
      else if is_relative_date (operator_of c)
      then in_range_if now type (memory_date p v)
      else scalar_value p c.value type >>= value_match type (operator_of c) v
