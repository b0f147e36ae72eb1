-- ===== src/Overtime/Tests.antt =====
-- The rules of overtime at concrete inputs.
use wbme.Common.{
  ◌≡◌, ◌*◌, ◌/◌, refl, ◌↔◌, false, none, some, true, List, [], ◌∷◌, All, Json, object, array,
  string, no_members, member, no_values, item, get, ok, arith,
}
use wbme.TableQuery.{
  TableFilterCondition, TableFilterTreeGroup, and, or, leaf, group, no_nodes, node, Platform,
}
use wbme.TableQuery.Samples.{platform}
use wbme.Approval.Types.{approved}
use wbme.Approval.Scope.{DataScope}
use wbme.Overtime.Submission.{
  FunctionAccess, OvertimeItem, OvertimeSubmitDto, Surroundings, insert_items, submit,
}
use wbme.Overtime.Submission.Laws.{NoOverlap, submit-NoOverlap}
use wbme.Overtime.Overlap.{Interval, find_overlapping}
use wbme.Overtime.Overlap.Laws.{IsApart, find_overlapping-eq-nil_iff}
use wbme.TableQuery.Filters.{normalize_table_filters}
use wbme.Overtime.Months.{assert_month_equals_only, extract_month_equals_value}
use wbme.Overtime.Months.Laws.{NodesAskFor, extract_month_equals_value_unique}

abbrev evening : List Interval
evening = record { start_minute = 1080; end_minute = 1200 } ∷ []

find_overlapping-eq-nil_iff_example :
    (find_overlapping 1200 1440 evening ≡ []) ↔ All (IsApart 1200 1440) evening
find_overlapping-eq-nil_iff_example =
    find_overlapping-eq-nil_iff 1200 1440 evening (omega arith) (omega arith, tt)

abbrev august_condition_json : Json
august_condition_json = object (
    member "field" (string "month")
      (member "operator" (string "EQUALS") (member "value" (string "2026-08") no_members)))

-- The condition stands in a group.
abbrev august_json : Json
august_json = object (
    member "conditions"
      (array (
        item
          (object (
            member "logic" (string "OR")
              (member "conditions" (array (item august_condition_json no_values)) no_members)))
          no_values))
      no_members)

abbrev august_platform : Platform
august_platform = record platform { parse_json = λ s. some august_json }

abbrev august : TableFilterCondition
august = record { field = "month"; operator = "EQUALS"; value = "2026-08"; value_end = none }

august_passes : assert_month_equals_only august_platform "august" ≡ ok tt
unfolding assert_month_equals_only get
august_passes = refl

abbrev august_tree : TableFilterTreeGroup
august_tree = record {
  logic = and;
  conditions = node (group or (node (leaf august) no_nodes)) no_nodes;
}

august_parsed : normalize_table_filters august_platform "august" ≡ ok august_tree
unfolding get normalize_table_filters
august_parsed = refl

august_extracted : extract_month_equals_value august_platform "august" ≡ ok (some "2026-08")
unfolding extract_month_equals_value get
august_extracted = refl

extract_month_equals_value_unique_example : NodesAskFor (some "2026-08") august_tree.conditions
extract_month_equals_value_unique_example =
    extract_month_equals_value_unique august_platform "august" august_tree (some "2026-08")
      august_parsed august_passes august_extracted

abbrev proxy : FunctionAccess
proxy = record {
  registered = true;
  system_open = true;
  allowed = true;
  data_scope = some DataScope.company;
}

-- Day 31 of a calendar that counts days in milliseconds; all are active, no day is a holiday.
abbrev office : Surroundings
office = record {
  beijing_date = λ t. t / 86400000;
  now = 31 * 86400000;
  advance_days = 30;
  backfill_days = 7;
  apply_access = proxy;
  proxy_access = proxy;
  is_active = λ u. some true;
  own_departments = λ u. [];
  closure_of_user = λ u. [];
  holiday = λ d. some "WORKDAY";
  head_id = 9;
}

-- The second employee has overtime earlier on the same day, and is named twice.
abbrev night : OvertimeSubmitDto
night = record {
  overtime_date = 30;
  start_minute = 1200;
  end_minute = 1440;
  user_ids = 4 ∷ 5 ∷ 5 ∷ [];
}

abbrev earlier : List OvertimeItem
earlier =
    record {
      request_id = 3;
      user_id = 5;
      overtime_date = 30;
      start_minute = 1080;
      end_minute = 1200;
      date_type = "WORKDAY";
      is_backfill = false;
      status = approved;
    }
    ∷ []

submitted :
    submit office 4 night earlier earlier
    ≡ ok (insert_items office night "WORKDAY" (4 ∷ 5 ∷ []) earlier)
unfolding submit
submitted = refl

submit-NoOverlap_example : NoOverlap (insert_items office night "WORKDAY" (4 ∷ 5 ∷ []) earlier)
submit-NoOverlap_example = submit-NoOverlap office 4 night earlier earlier _ (tt, tt) submitted
