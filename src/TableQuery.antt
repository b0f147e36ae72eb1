-- ===== src/TableQuery.antt =====
-- packages/server/src/table-query.ts: the filters and sorts that a table sends, compiled for
-- Prisma, for SQL, or applied to rows in memory. Its types, and what of the platform it uses.
--
-- A number is given by its rank among the finite numbers of JavaScript, 0 and -0 being one: the
-- order and the equality of numbers are those of their ranks. A date is the number of milliseconds
-- since the earliest date that JavaScript has.
pub mod Filters
pub mod ScalarValue
pub mod Context
pub mod Prisma
pub mod Sql
pub mod Memory
pub mod Samples
pub mod Tests
pub mod RowTests
use wbme.Common.{ℕ, Option, List, String, Json}

-- `unknown` is any other text: the source casts the operator without a test.
pub data TableOperator : Type 0 where
  equals not_equals contains not_contains greater_than greater_than_or_equal less_than :
      TableOperator
  less_than_or_equal before after between is_empty is_not_empty starts_with : TableOperator
  ends_with today this_week this_month this_year last_7_days last_30_days : TableOperator
  unknown : TableOperator

pub record TableFilterCondition : Type 0 where
  pub field : String
  pub operator : String
  pub value : String
  pub value_end : Option String

pub data Logic : Type 0 where
  and or : Logic

mutual
  pub data TableFilterTreeNode : Type 0 where
    leaf : TableFilterCondition → TableFilterTreeNode
    group : (logic : Logic) (conditions : TableFilterTreeNodes) → TableFilterTreeNode

  pub data TableFilterTreeNodes : Type 0 where
    no_nodes : TableFilterTreeNodes
    node : (first : TableFilterTreeNode) (others : TableFilterTreeNodes) → TableFilterTreeNodes

pub record TableFilterTreeGroup : Type 0 where
  pub logic : Logic
  pub conditions : TableFilterTreeNodes

pub data Direction : Type 0 where
  asc desc : Direction

pub record Sort : Type 0 where
  pub field : String
  pub direction : Direction

pub record TableQueryInput : Type 0 where
  pub filters : Option String
  pub sorts : Option String

pub data FieldType : Type 0 where
  text number enum date time : FieldType

-- The value of a condition, read at the type of its field.
pub data Scalar : Type 0 where
  text : String → Scalar
  number : ℕ → Scalar
  date : ℕ → Scalar

-- The reasons of `validationError`.
pub data TableQueryError : Type 0 where
  malformed_filters malformed_sorts : TableQueryError
  bad_number bad_time bad_date : TableQueryError
  unsupported_field : String → TableQueryError
  unsupported_sort : String → TableQueryError
  unsupported_operator : String → String → TableQueryError
  missing_end : String → TableQueryError
  bad_range : String → TableQueryError
  -- A relative range with an invalid date, which the source passes on; no year before 9999 has one.
  invalid_range : TableQueryError

-- A value in a row in memory; a number is `none` where it is not finite, a date where it is invalid.
pub data Cell : Type 0 where
  text : String → Cell
  number : Option ℕ → Cell
  date : Option ℕ → Cell
  null undefined : Cell

-- The sign of a comparison's number, or `NaN`.
pub data Sign : Type 0 where
  negative zero positive nan : Sign

-- What the platform provides.
pub record Platform : Type 0 where
  -- `JSON.parse`; `none` where it throws.
  pub parse_json : String → Option Json
  -- `Number` of a text; `none` where it is not finite.
  pub number_of : String → Option ℕ
  -- A natural number as a number.
  pub rank : ℕ → ℕ
  -- The start of a day, given as YYYY-MM-DD, in Shanghai; `none` is an invalid date.
  pub shanghai_day_start : List ℕ → Option ℕ
  -- The day of a date in Shanghai, as YYYY-MM-DD.
  pub format_shanghai_date : ℕ → List ℕ
  -- The day of the week of a day given as YYYY-MM-DD, 0 for Sunday.
  pub utc_day : List ℕ → ℕ
  -- `String` of a natural number.
  pub show_number : ℕ → List ℕ
  -- `Number` of a date.
  pub date_number : ℕ → ℕ
  -- `String` of a finite number, of a valid date, and of those that are neither.
  pub show_finite : ℕ → String
  pub show_date : ℕ → String
  pub show_nan : String
  pub show_invalid_date : String
  -- The codes of `toLocaleLowerCase('zh-CN')`.
  pub lower : String → List ℕ
  -- `localeCompare` with the options of the source.
  pub locale_compare : String → String → Sign
