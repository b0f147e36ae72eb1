-- ===== src/TableQuery/Tests.antt =====
-- Runs of the table queries and the theorems at concrete inputs.
use wbme.Common.{
  ◌-◌, ◌*◌, ◌≡◌, refl, none, some, List, [], ◌∷◌, String, get, ok, subst, ok-injective, arith,
}
use wbme.TableQuery.{Platform, TableFilterCondition, FieldType, Scalar, this_week}
use wbme.TableQuery.Filters.{normalize_table_filters, parse_filters}
use wbme.TableQuery.Filters.Laws.{
  IsBounded, normalize_table_filters-IsBounded, normalize_table_filters_again,
}
use wbme.TableQuery.Context.{field_definition}
use wbme.TableQuery.ScalarValue.Laws.{
  days_of, Covers, Aligned, shanghai_offset, relative_date_range-Covers,
}
use wbme.TableQuery.Sql.{Piece, sql, placeholder, TableSqlField, column as sql_column}
use wbme.TableQuery.Sql.Query.{TableSqlQuery, build_table_sql_query, compile_sql_condition}
use wbme.TableQuery.Sql.Numbering.{uses, numbers_after}
use wbme.TableQuery.Sql.Query.Laws.{OrderlyNodes, IsOrderly, build_table_sql_query-numbered}
use wbme.TableQuery.ScalarValue.{day_ms, DateRange, relative_date_range, operator_of, scalar_value}
use wbme.TableQuery.Samples.{count_condition, legacy_tree, noon, platform, input}

legacy_normalized : normalize_table_filters platform "legacy" ≡ ok legacy_tree
unfolding normalize_table_filters get
legacy_normalized = refl

pub legacy_parsed : parse_filters platform (some "legacy") ≡ ok (some legacy_tree)
unfolding parse_filters get
legacy_parsed = refl

normalize_table_filters-IsBounded_example : IsBounded legacy_tree
normalize_table_filters-IsBounded_example =
    normalize_table_filters-IsBounded platform "legacy" legacy_tree legacy_normalized

normalize_table_filters_again_example : normalize_table_filters platform "tree" ≡ ok legacy_tree
normalize_table_filters_again_example =
    normalize_table_filters_again platform "legacy" "tree" legacy_tree legacy_normalized refl

-- Day 40 since 1970 starts eight hours earlier in Shanghai; it is a Tuesday.
abbrev tuesday : Platform
tuesday = record platform {
  shanghai_day_start = λ s. some (40 * day_ms - shanghai_offset);
  utc_day = λ s. 2;
}

relative_date_range-Covers_example :
    (r : DateRange) × (relative_date_range tuesday this_week noon ≡ some r)
    × (Covers noon 7 r × Aligned this_week (40 * day_ms - shanghai_offset) r)
unfolding days_of
relative_date_range-Covers_example =
    relative_date_range-Covers tuesday this_week noon (40 * day_ms - shanghai_offset) 40 7 refl
      (omega arith) (omega arith) (omega arith) (omega arith) refl refl

-- SQL
abbrev sql_fields : List (String × TableSqlField)
sql_fields =
    ("count", sql_column "c.count" FieldType.number)
    ∷ ("day", sql_column "c.day" FieldType.date)
    ∷ []

abbrev legacy_sql : List Piece
legacy_sql =
    sql "(" ∷ sql "(" ∷ sql "c.count" ∷ sql " < " ∷ placeholder 3 ∷ sql "" ∷ sql ")" ∷ sql ")" ∷ []

abbrev legacy_sql_query : TableSqlQuery
legacy_sql_query = record {
  where_sql = some legacy_sql;
  params = Scalar.number 5 ∷ [];
  order_by_sql = [];
}

legacy_sql_built : build_table_sql_query platform noon sql_fields 2 input ≡ ok legacy_sql_query
unfolding build_table_sql_query get operator_of scalar_value compile_sql_condition
legacy_sql_built = refl

legacy_orderly : OrderlyNodes 2 sql_fields legacy_tree.conditions
unfolding OrderlyNodes operator_of field_definition
legacy_orderly = (
  (
    (λ d found.
        subst (IsOrderly 2 sql_fields count_condition) (ok-injective found) (λ g. absurd (cc g.0))),
    tt,
  ),
  tt,
)

build_table_sql_query-numbered_example :
    (ps : List Piece) × (some legacy_sql ≡ some ps) × (uses ps ≡ numbers_after 2 1)
build_table_sql_query-numbered_example =
    build_table_sql_query-numbered platform noon sql_fields 2 input legacy_tree legacy_sql_query
      legacy_parsed legacy_orderly legacy_sql_built

-- A comparison by AFTER returns two parameters, and its text names the second only.
after_condition : TableFilterCondition
after_condition = record {
  field = "day";
  operator = "AFTER";
  value = "2026-01-05";
  value_end = none;
}

after_gap :
    compile_sql_condition 0 platform noon sql_fields after_condition []
    ≡ ok (
      sql "c.day" ∷ sql " >= " ∷ placeholder 2 ∷ [],
      Scalar.date (40 * day_ms) ∷ Scalar.date (41 * day_ms) ∷ [],
    )
unfolding compile_sql_condition after_condition operator_of scalar_value
after_gap = refl
