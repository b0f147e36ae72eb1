-- ===== src/TableQuery/Filters.antt =====
-- normalizeTableFilters: the JSON of a filter, in its three forms, as one tree of bounded depth;
-- collectTableFilterFields and parseSorts.
pub mod Laws
use wbme.Common.{
  Bool, true, false, Option, none, some, List, [], ◌∷◌, ◌++◌, map, String, Result, ok, err,
  if◌then◌else◌, str_eq, ◌>>=◌, Json, Members, Values, object, array, string, no_values, item, get,
  values_of,
}
use wbme.TableQuery.{
  TableFilterCondition, Logic, and, or, TableFilterTreeNode, TableFilterTreeNodes, leaf, group,
  no_nodes, node, TableFilterTreeGroup, Direction, asc, desc, Sort, TableQueryError,
  malformed_filters, malformed_sorts, Platform,
}

-- The errors that `normalizeTableFilters` and `parseSorts` throw and catch.
pub data Malformed : Type 0 where
  not_json not_object nested_group invalid_condition invalid_group not_supported : Malformed
  not_array invalid_sort : Malformed

abbrev pub text_of : Json → Option String
text_of (string s) = some s
text_of _ = none

abbrev condition_of :
    Option String
    → Option String
    → Option String
    → Option String
    → Result Malformed TableFilterCondition
condition_of (some f) (some o) (some v) e =
    ok (record { field = f; operator = o; value = v; value_end = e })
condition_of _ _ _ _ = err invalid_condition

abbrev pub as_condition : Json → Result Malformed TableFilterCondition
as_condition (object m) =
    condition_of (text_of (get "field" m)) (text_of (get "operator" m)) (text_of (get "value" m))
      (text_of (get "valueEnd" m))
as_condition _ = err invalid_condition

abbrev pub array_of : Json → Option Values
array_of (array vs) = some vs
array_of _ = none

-- `isRecord(value) && Array.isArray(value.conditions)`, with the array.
abbrev pub conditions_in : Json → Option Values
conditions_in (object m) = array_of (get "conditions" m)
conditions_in _ = none

abbrev is_text : Json → String → Bool
is_text (string s) t = str_eq s t
is_text _ t = false

-- `logic === 'OR' ? 'OR' : 'AND'`
abbrev pub logic_of : Json → Logic
logic_of (object m) = if is_text (get "logic" m) "OR" then or else and
logic_of _ = and

-- `array.map(f)` where f may throw.
pub map_nodes :
    (Json → Result Malformed TableFilterTreeNode) → Values → Result Malformed TableFilterTreeNodes
map_nodes f no_values = ok no_nodes
map_nodes f (item v vs) = do n ← f v; ns ← map_nodes f vs; ok (node n ns)

abbrev pub as_leaf : Json → Result Malformed TableFilterTreeNode
as_leaf v = do c ← as_condition v; ok (leaf c)

-- A member of a group below the root.
abbrev child_of : Option Values → Json → Result Malformed TableFilterTreeNode
child_of (some vs) v = err nested_group
child_of none v = as_leaf v

abbrev pub as_child : Json → Result Malformed TableFilterTreeNode
as_child v = child_of (conditions_in v) v

abbrev tree_node_of : Option Values → Json → Result Malformed TableFilterTreeNode
tree_node_of (some vs) v = do ns ← map_nodes as_child vs; ok (group (logic_of v) ns)
tree_node_of none v = as_leaf v

abbrev pub as_tree_node : Json → Result Malformed TableFilterTreeNode
as_tree_node v = tree_node_of (conditions_in v) v

-- A group of the old form: `logic` is AND, and its conditions hold no group.
abbrev pub old_group_of : Bool → Option Values → Result Malformed TableFilterTreeNode
old_group_of true (some vs) = do ns ← map_nodes as_leaf vs; ok (group and ns)
old_group_of _ _ = err invalid_group

abbrev pub as_old_group : Json → Result Malformed TableFilterTreeNode
as_old_group (object m) =
    old_group_of (is_text (get "logic" m) "AND") (array_of (get "conditions" m))
as_old_group _ = err invalid_group

abbrev pub old_form : Bool → Option Values → Result Malformed TableFilterTreeGroup
old_form true (some vs) = do
  ns ← map_nodes as_old_group vs
  ok (record { logic = or; conditions = ns })
old_form _ _ = err not_supported

abbrev pub root_of : Option Values → Members → Result Malformed TableFilterTreeGroup
root_of (some vs) m = do
  ns ← map_nodes as_tree_node vs
  ok (record { logic = logic_of (object m); conditions = ns })
root_of none m = old_form (is_text (get "logic" m) "OR") (array_of (get "groups" m))

unfoldable pub normalize_parsed : Option Json → Result Malformed TableFilterTreeGroup
unfolding map_nodes
normalize_parsed none = err not_json
normalize_parsed (some (object m)) = root_of (array_of (get "conditions" m)) m
normalize_parsed (some _) = err not_object

-- `catch` and the error at the end: whatever is wrong has one message.
abbrev pub or_malformed {ℓ} :
    {A : Type ℓ} → TableQueryError → Result Malformed A → Result TableQueryError A
or_malformed e (ok a) = ok a
or_malformed e (err _) = err e

unfoldable pub normalize_table_filters :
    Platform → String → Result TableQueryError TableFilterTreeGroup
unfolding normalize_parsed
normalize_table_filters p raw = or_malformed malformed_filters (normalize_parsed (p.parse_json raw))

-- `raw ? … : …`: a missing and an empty text are alike.
unfoldable pub parse_filters :
    Platform → Option String → Result TableQueryError (Option TableFilterTreeGroup)
unfolding normalize_table_filters
parse_filters p none = ok none
parse_filters p (some raw) =
    if str_eq raw "" then ok none else normalize_table_filters p raw >>= (λ tree. ok (some tree))

-- The fields of the conditions, in the order in which `walk` adds them to the set.
unfoldable mutual
  pub walk : TableFilterTreeNode → List String
  walk (leaf c) = c.field ∷ []
  walk (group logic ns) = walk_each ns

  pub walk_each : TableFilterTreeNodes → List String
  walk_each no_nodes = []
  walk_each (node n ns) = walk n ++ walk_each ns

unfoldable pub collect_table_filter_fields : TableFilterTreeGroup → List String
unfolding walk walk_each
collect_table_filter_fields tree = walk_each tree.conditions

abbrev direction_of : Json → Option Direction
direction_of (string s) =
    if str_eq s "ASC" then some asc else if str_eq s "DESC" then some desc else none
direction_of _ = none

abbrev sort_of : Option String → Option Direction → Result Malformed Sort
sort_of (some f) (some d) = ok (record { field = f; direction = d })
sort_of _ _ = err invalid_sort

abbrev as_sort : Json → Result Malformed Sort
as_sort (object m) = sort_of (text_of (get "field" m)) (direction_of (get "direction" m))
as_sort _ = err invalid_sort

pub as_sorts : Values → Result Malformed (List Sort)
as_sorts no_values = ok []
as_sorts (item v vs) = do s ← as_sort v; ss ← as_sorts vs; ok (s ∷ ss)

abbrev sorts_of : Option Json → Result Malformed (List Sort)
sorts_of none = err not_json
sorts_of (some (array vs)) = as_sorts vs
sorts_of (some _) = err not_array

unfoldable pub parse_sorts : Platform → Option String → Result TableQueryError (List Sort)
unfolding as_sorts
parse_sorts p none = ok []
parse_sorts p (some raw) =
    if str_eq raw "" then ok [] else or_malformed malformed_sorts (sorts_of (p.parse_json raw))
