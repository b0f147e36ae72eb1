-- ===== src/TableQuery/Prisma.antt =====
-- One condition as a Prisma filter. What Prisma makes of it is not modelled.
pub mod Columns
pub mod Query
use wbme.Common.{
  ℕ, Bool, true, false, Option, none, some, List, [], ◌∷◌, ◌++◌, map, String, Result, ok, err,
  ◌>>=◌, if◌then◌else◌, any, str_eq,
}
use wbme.TableQuery.{
  TableOperator, equals, not_equals, contains, not_contains, greater_than, greater_than_or_equal,
  less_than, less_than_or_equal, before, after, between, is_empty, starts_with, ends_with,
  TableFilterCondition, Logic, and, or, TableFilterTreeNode, TableFilterTreeNodes, leaf, group,
  no_nodes, node, TableFilterTreeGroup, Direction, desc, Sort, TableQueryInput, FieldType, Scalar,
  TableQueryError, unsupported_sort, unsupported_operator, Platform,
}
use wbme.TableQuery.Filters.{parse_filters, parse_sorts}
use wbme.TableQuery.ScalarValue.{
  operator_of, is_valueless, is_relative_date, scalar_value, next_day,
}
use wbme.TableQuery.Context.{
  date_range_for, range_end, TableConditionContext, field_definition, context_of,
}

pub data TextTest : Type 0 where
  equal_to containing starting_with ending_with : TextTest

-- What stands under a column: `is v` is the value itself, `is_not v` is { not: v }, and a test on a
-- text ignores case (mode: 'insensitive').
pub data PrismaTest : Type 0 where
  is_null not_null : PrismaTest
  is is_not : Scalar → PrismaTest
  text not_text : TextTest → Scalar → PrismaTest
  gt gte lt lte : Scalar → PrismaTest
  gte_lte gte_lt : Scalar → Scalar → PrismaTest

-- `fragment` is any other object, as a custom predicate may return it, by its JSON text.
mutual
  pub data PrismaWhere : Type 0 where
    column : String → PrismaTest → PrismaWhere
    combine : Logic → PrismaWheres → PrismaWhere
    negate : PrismaWhere → PrismaWhere
    fragment : String → PrismaWhere

  pub data PrismaWheres : Type 0 where
    no_wheres : PrismaWheres
    where_also : (first : PrismaWhere) (others : PrismaWheres) → PrismaWheres

pub data PrismaColumns : Type 0 where
  one_column : String → PrismaColumns
  columns : List String → PrismaColumns

-- `prisma_field` and `compile` are both optional here; the type of the source asks for one of them.
pub record TablePrismaField : Type 0 where
  pub prisma_field : Option PrismaColumns
  pub type : FieldType
  pub compile : Option (TableConditionContext → Option PrismaWhere)

pub wheres : List PrismaWhere → PrismaWheres
wheres [] = no_wheres
wheres (w ∷ ws) = where_also w (wheres ws)

-- `results.length === 1 ? results[0] : { [multipleLogic]: results }`
abbrev pub join_columns : Logic → List PrismaWhere → PrismaWhere
join_columns logic (w ∷ []) = w
join_columns logic ws = combine logic (wheres ws)

unfoldable pub for_each_field : List String → (String → PrismaWhere) → Logic → PrismaWhere
unfolding wheres
for_each_field fs make_filter logic = join_columns logic (map make_filter fs)

abbrev pub two : PrismaWhere → PrismaWhere → PrismaWheres
two a b = where_also a (where_also b no_wheres)

abbrev pub empty_text : String → PrismaWhere
empty_text f = combine or (two (column f is_null) (column f (is (Scalar.text ""))))

abbrev pub filled_text : String → PrismaWhere
filled_text f =
    combine and (two (negate (column f is_null)) (negate (column f (is (Scalar.text "")))))

abbrev pub valueless_filter : List String → FieldType → Bool → PrismaWhere
valueless_filter fs FieldType.text true = for_each_field fs empty_text and
valueless_filter fs FieldType.text false = for_each_field fs filled_text and
valueless_filter fs _ true = for_each_field fs (λ f. column f is_null) or
valueless_filter fs _ false = for_each_field fs (λ f. column f not_null) or

abbrev pub is_is_empty : TableOperator → Bool
is_is_empty is_empty = true
is_is_empty _ = false

abbrev pub unsupported {ℓ} : {A : Type ℓ} → TableFilterCondition → Result TableQueryError A
unsupported c = err (unsupported_operator c.field c.operator)

module _ (fs : List String) (c : TableFilterCondition) where
  abbrev pub each : (Scalar → PrismaTest) → Scalar → Logic → Result TableQueryError PrismaWhere
  each test v logic = ok (for_each_field fs (λ f. column f (test v)) logic)

  abbrev pub text_filter : TableOperator → Scalar → Result TableQueryError PrismaWhere
  text_filter equals v = each (PrismaTest.text equal_to) v or
  text_filter not_equals v = each (not_text equal_to) v and
  text_filter contains v = each (PrismaTest.text containing) v or
  text_filter not_contains v = each (not_text containing) v and
  text_filter starts_with v = each (PrismaTest.text starting_with) v or
  text_filter ends_with v = each (PrismaTest.text ending_with) v or
  text_filter _ v = unsupported c

  abbrev pub enum_filter : TableOperator → Scalar → Result TableQueryError PrismaWhere
  enum_filter equals v = each is v or
  enum_filter not_equals v = each is_not v or
  enum_filter _ v = unsupported c

  abbrev pub number_filter :
      Platform → FieldType → TableOperator → Scalar → Result TableQueryError PrismaWhere
  number_filter p type equals v = each is v or
  number_filter p type not_equals v = each is_not v or
  number_filter p type greater_than v = each gt v or
  number_filter p type greater_than_or_equal v = each gte v or
  number_filter p type less_than v = each lt v or
  number_filter p type less_than_or_equal v = each lte v or
  number_filter p type between v = range_end p c type v >>= (λ e. each (gte_lte v) e or)
  number_filter p type _ v = unsupported c

  abbrev pub outside : Scalar → Scalar → String → PrismaWhere
  outside v w f = combine or (two (column f (lt v)) (column f (gte w)))

  abbrev pub after_date : Scalar → Scalar
  after_date (Scalar.date d) = Scalar.date (next_day d)
  after_date v = v

  abbrev pub date_filter : Platform → TableOperator → Scalar → Result TableQueryError PrismaWhere
  date_filter p equals v = each (gte_lt v) (after_date v) or
  date_filter p not_equals v = ok (for_each_field fs (outside v (after_date v)) or)
  date_filter p before v = each lt v or
  date_filter p after v = each gte (after_date v) or
  date_filter p between v =
      range_end p c FieldType.date v >>= (λ e. each (gte_lt v) (after_date e) or)
  date_filter p _ v = unsupported c

  abbrev pub value_filter :
      Platform → FieldType → TableOperator → Scalar → Result TableQueryError PrismaWhere
  value_filter p FieldType.text o v = text_filter o v
  value_filter p FieldType.enum o v = enum_filter o v
  value_filter p FieldType.number o v = number_filter p FieldType.number o v
  value_filter p FieldType.time o v = number_filter p FieldType.time o v
  value_filter p FieldType.date o v = date_filter p o v

  -- The standard compilation, over the columns of a field.
  unfoldable pub compile_standard : Platform → ℕ → FieldType → Result TableQueryError PrismaWhere
  unfolding scalar_value for_each_field range_end
  compile_standard p now type =
      if is_valueless (operator_of c)
      then ok (valueless_filter fs type (is_is_empty (operator_of c)))
      else if is_relative_date (operator_of c)
      then date_range_for p now c type
        >>= (λ r. each (gte_lt (Scalar.date r.gte)) (Scalar.date r.lt) or)
      else scalar_value p c.value type >>= value_filter p type (operator_of c)
