-- ===== src/TableQuery/Samples.antt =====
-- A platform and a filter in the old form, for the tests.
use wbme.Common.{
  ℕ, ◌+◌, ◌*◌, Option, none, some, List, [], String, Json, object, array, string, no_members,
  member, no_values, item, if◌then◌else◌, codes, str_eq,
}
use wbme.TableQuery.{
  TableFilterCondition, or, and, leaf, group, no_nodes, node, TableFilterTreeGroup, TableQueryInput,
  zero, Platform,
}
use wbme.TableQuery.Filters.Laws.{tree_json}
use wbme.TableQuery.ScalarValue.{day_ms}

abbrev pub no_text : List ℕ
no_text = []

-- A platform whose JSON texts are two fixed ones, and on which every digit text is 5.
abbrev pub legacy_json : Json
legacy_json = object (
    member "logic" (string "OR") (
      member "groups"
        (array (
          item
            (object (
              member "logic" (string "AND") (
                member "conditions"
                  (array (
                    item
                      (object (
                        member "field" (string "count") (
                          member "operator" (string "LESS_THAN")
                            (member "value" (string "5") no_members))))
                      no_values))
                  no_members)))
            no_values))
        no_members))

abbrev pub count_condition : TableFilterCondition
count_condition = record { field = "count"; operator = "LESS_THAN"; value = "5"; value_end = none }

abbrev pub legacy_tree : TableFilterTreeGroup
legacy_tree = record {
  logic = or;
  conditions = node (group and (node (leaf count_condition) no_nodes)) no_nodes;
}

abbrev pub sorts_json : Json
sorts_json = array (
    item (object (member "field" (string "count") (member "direction" (string "ASC") no_members)))
      no_values)

abbrev pub parse : String → Option Json
parse s =
    if str_eq s "legacy"
    then some legacy_json
    else if str_eq s "tree"
    then some (tree_json legacy_tree)
    else if str_eq s "sorts"
    then some sorts_json
    else none

abbrev pub noon : ℕ
noon = 40 * day_ms + 43200000

abbrev pub platform : Platform
platform = record {
  parse_json = parse;
  number_of = λ s. some 5;
  rank = λ n. n;
  shanghai_day_start = λ s. some (40 * day_ms);
  format_shanghai_date = λ d. codes "2026-01-05";
  utc_day = λ s. 1;
  show_number = λ n. no_text;
  date_number = λ d. d;
  show_finite = λ n. "5";
  show_date = λ d. "2026-01-05";
  show_nan = "NaN";
  show_invalid_date = "Invalid Date";
  lower = λ s. codes s;
  locale_compare = λ s t. zero;
}

abbrev pub input : TableQueryInput
input = record { filters = some "legacy"; sorts = none }

abbrev pub sorted_input : TableQueryInput
sorted_input = record { filters = some "legacy"; sorts = some "sorts" }
