-- ===== src/TableQuery/Sql.antt =====
-- One condition as SQL with numbered parameters. A text of SQL is a list of pieces, where
-- `placeholder n` is `$n`; the parameters are threaded through, as `nextParam` pushes them.
pub mod Numbering
pub mod Query
use wbme.Common.{
  ℕ, suc, ◌+◌, Option, none, some, List, [], ◌∷◌, ◌++◌, String, Result, ok, err, ◌>>=◌,
  if◌then◌else◌, any, str_eq, length,
}
use wbme.TableQuery.{
  TableOperator, equals, not_equals, contains, not_contains, greater_than, greater_than_or_equal,
  less_than, less_than_or_equal, before, after, between, is_empty, starts_with, ends_with,
  TableFilterCondition, Logic, and, or, TableFilterTreeNode, TableFilterTreeNodes, leaf, group,
  no_nodes, node, TableFilterTreeGroup, Direction, desc, Sort, TableQueryInput, FieldType, Scalar,
  TableQueryError, unsupported_sort, unsupported_operator, Platform,
}
use wbme.TableQuery.Filters.{parse_filters, parse_sorts}
use wbme.TableQuery.ScalarValue.{
  operator_of, is_valueless, is_relative_date, scalar_value, next_day,
}
use wbme.TableQuery.Context.{
  date_range_for, range_end, TableConditionContext, field_definition, context_of,
}

pub data Piece : Type 0 where
  sql : String → Piece
  placeholder : ℕ → Piece

-- The text so far and all the parameters that are registered.
abbrev pub Registered : Type 0
Registered = List Piece × List Scalar

-- A custom predicate takes the parameters so far and returns them with its own behind.
pub data TableSqlField : Type 0 where
  column : String → FieldType → TableSqlField
  custom :
      FieldType
      → (TableConditionContext → List Scalar → Option (List Piece) × List Scalar)
      → TableSqlField

-- `$n` of the parameter that is pushed next.
abbrev pub next_param : (offset : ℕ) → List Scalar → Piece
next_param offset params = placeholder (offset + suc (length params))

module _ (offset : ℕ) (col : String) (c : TableFilterCondition) where
  abbrev unsupported : Result TableQueryError Registered
  unsupported = err (unsupported_operator c.field c.operator)

  -- `col`, an operator, the parameter, and a text behind.
  abbrev pub test : String → String → Scalar → List Scalar → Result TableQueryError Registered
  test before_it behind_it v params =
      ok (sql col ∷ sql before_it ∷ next_param offset params ∷ sql behind_it ∷ [], params ++ v ∷ [])

  abbrev pub text_sql : TableOperator → Scalar → List Scalar → Result TableQueryError Registered
  text_sql equals v params = test " ILIKE " "" v params
  text_sql not_equals v params = test " NOT ILIKE " "" v params
  text_sql contains v params = test " ILIKE '%' || " " || '%'" v params
  text_sql not_contains v params = test " NOT ILIKE '%' || " " || '%'" v params
  text_sql starts_with v params = test " ILIKE " " || '%'" v params
  text_sql ends_with v params = test " ILIKE '%' || " "" v params
  text_sql _ v params = unsupported

  abbrev pub enum_sql : TableOperator → Scalar → List Scalar → Result TableQueryError Registered
  enum_sql equals v params = test " = " "" v params
  enum_sql not_equals v params = test " <> " "" v params
  enum_sql _ v params = unsupported

  -- Two tests with the parameters v and w, joined by a text.
  abbrev pub two_tests :
      String → String → String → String → String → Scalar → Scalar → List Scalar → Registered
  two_tests opening first joint second closing v w params = (
    sql opening
        ∷ sql col
        ∷ sql first
        ∷ next_param offset params
        ∷ sql joint
        ∷ sql col
        ∷ sql second
        ∷ next_param offset (params ++ v ∷ [])
        ∷ sql closing
        ∷ [],
    params ++ v ∷ w ∷ [],
  )

  abbrev pub number_sql :
      Platform
      → FieldType
      → TableOperator
      → Scalar
      → List Scalar
      → Result TableQueryError Registered
  number_sql p type equals v params = test " = " "" v params
  number_sql p type not_equals v params = test " <> " "" v params
  number_sql p type greater_than v params = test " > " "" v params
  number_sql p type greater_than_or_equal v params = test " >= " "" v params
  number_sql p type less_than v params = test " < " "" v params
  number_sql p type less_than_or_equal v params = test " <= " "" v params
  number_sql p type between v params =
      range_end p c type v >>= (λ e. ok (two_tests "" " >= " " AND " " <= " "" v e params))
  number_sql p type _ v params = unsupported

  abbrev pub after_date : Scalar → Scalar
  after_date (Scalar.date d) = Scalar.date (next_day d)
  after_date v = v

  -- For AFTER the value itself is registered too, and no text names it.
  abbrev pub date_sql :
      Platform → TableOperator → Scalar → List Scalar → Result TableQueryError Registered
  date_sql p equals v params = ok (two_tests "" " >= " " AND " " < " "" v (after_date v) params)
  date_sql p not_equals v params =
      ok (two_tests "(" " < " " OR " " >= " ")" v (after_date v) params)
  date_sql p before v params = test " < " "" v params
  date_sql p after v params = ok (
    sql col ∷ sql " >= " ∷ next_param offset (params ++ v ∷ []) ∷ [],
    params ++ v ∷ after_date v ∷ [],
  )
  date_sql p between v params =
      range_end p c FieldType.date v
      >>= (λ e. ok (two_tests "" " >= " " AND " " < " "" v (after_date e) params))
  date_sql p _ v params = unsupported

  abbrev pub value_sql :
      Platform
      → FieldType
      → TableOperator
      → Scalar
      → List Scalar
      → Result TableQueryError Registered
  value_sql p FieldType.text o v params = text_sql o v params
  value_sql p FieldType.enum o v params = enum_sql o v params
  value_sql p FieldType.number o v params = number_sql p FieldType.number o v params
  value_sql p FieldType.time o v params = number_sql p FieldType.time o v params
  value_sql p FieldType.date o v params = date_sql p o v params

  abbrev pub valueless_sql : FieldType → TableOperator → List Piece
  valueless_sql FieldType.text is_empty =
      sql "(" ∷ sql col ∷ sql " IS NULL OR " ∷ sql col ∷ sql " = '')" ∷ []
  valueless_sql FieldType.text _ =
      sql "(" ∷ sql col ∷ sql " IS NOT NULL AND " ∷ sql col ∷ sql " <> '')" ∷ []
  valueless_sql _ is_empty = sql col ∷ sql " IS NULL" ∷ []
  valueless_sql _ _ = sql col ∷ sql " IS NOT NULL" ∷ []

  -- A condition on a field with a column.
  unfoldable pub compile_column :
      Platform → ℕ → FieldType → List Scalar → Result TableQueryError Registered
  unfolding scalar_value range_end
  compile_column p now type params =
      if is_valueless (operator_of c)
      then ok (valueless_sql type (operator_of c), params)
      else if is_relative_date (operator_of c)
      then date_range_for p now c type >>= (λ r.
        ok (two_tests "" " >= " " AND " " < " "" (Scalar.date r.gte) (Scalar.date r.lt) params))
      else scalar_value p c.value type >>= (λ v. value_sql p type (operator_of c) v params)

  abbrev pub custom_result : Option (List Piece) × List Scalar → Result TableQueryError Registered
  custom_result (none, params) = unsupported
  custom_result (some pieces, params) = ok (pieces, params)
