-- ===== src/Overtime/Months.antt =====
-- apps/hr/src/modules/overtime/month-filter.ts: the month that a filter of the overtime history
-- asks for.
pub mod Laws
use wbme.Common.{
  ◌+◌, ◌∷◌, ℕ, Bool, true, false, Option, none, some, List, [], ◌++◌, String, Result, ok, err,
  ◌>>=◌, if◌then◌else◌, str_eq, any, ltb, length,
}
use wbme.TableQuery.{
  TableFilterCondition, TableFilterTreeNode, TableFilterTreeNodes, leaf, group, no_nodes, node,
  TableFilterTreeGroup, TableQueryError, Platform,
}
use wbme.TableQuery.Filters.{normalize_table_filters}

-- `not_valid` is an error of normalizeTableFilters.
pub data MonthError : Type 0 where
  not_valid : TableQueryError → MonthError
  only_equals only_one_month : MonthError

-- The conditions that `walkMonthConditions` visits, in order.
unfoldable mutual
  pub month_conditions : TableFilterTreeNode → List TableFilterCondition
  month_conditions (leaf c) = if str_eq c.field "month" then c ∷ [] else []
  month_conditions (group logic ns) = month_conditions_each ns

  pub month_conditions_each : TableFilterTreeNodes → List TableFilterCondition
  month_conditions_each no_nodes = []
  month_conditions_each (node n ns) = month_conditions n ++ month_conditions_each ns

-- The set of months after all visits; the first operator other than EQUALS throws.
unfoldable pub collect_months :
    List String → List TableFilterCondition → Result MonthError (List String)
collect_months months [] = ok months
collect_months months (c ∷ cs) =
    let rest =
      collect_months (if any (λ m. str_eq m c.value) months then months else c.value ∷ months) cs in
    if str_eq c.operator "EQUALS" then rest else err only_equals

abbrev pub single : List String → Result MonthError (Unit {0})
single months = if ltb 1 (length months) then err only_one_month else ok tt

abbrev pub conditions_of : Platform → String → Result MonthError (List TableFilterCondition)
conditions_of p raw = elim (normalize_table_filters p raw) [
  | ok tree ↦ ok (month_conditions_each tree.conditions)
  | err e ↦ err (not_valid e)
]

unfoldable pub assert_month_equals_only : Platform → String → Result MonthError (Unit {0})
unfolding collect_months month_conditions normalize_table_filters
assert_month_equals_only p raw = do
  cs ← conditions_of p raw
  months ← collect_months [] cs
  single months

first_month : List TableFilterCondition → Option String
first_month [] = none
first_month (c ∷ cs) =
    let rest = first_month cs in if str_eq c.operator "EQUALS" then some c.value else rest

unfoldable pub extract_month_equals_value : Platform → String → Result MonthError (Option String)
unfolding first_month month_conditions normalize_table_filters
extract_month_equals_value p raw = do cs ← conditions_of p raw; ok (first_month cs)
