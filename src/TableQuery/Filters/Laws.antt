-- ===== src/TableQuery/Filters/Laws.antt =====
-- What holds of normalised filters: their depth, that they are fixed points, and their fields.
use wbme.Common.{
  ◌≡◌, refl, ap, Option, none, some, Option-cases, Bool, true, false, inl, inr, String, Result, ok,
  err, Json, Members, Values, object, array, number, string, boolean, not_finite, no_members,
  member, null, no_values, item, get, ok-injective, bind-eq-ok, subst,
}
use wbme.TableQuery.{
  TableFilterCondition, Logic, and, or, TableFilterTreeNode, TableFilterTreeNodes, leaf, group,
  no_nodes, node, TableQueryError, malformed_filters, TableFilterTreeGroup, Platform,
}
use wbme.TableQuery.Filters.{
  Malformed, as_condition, text_of, as_leaf, old_group_of, old_form, root_of, as_child,
  as_tree_node, as_old_group, conditions_in, logic_of, map_nodes, normalize_parsed,
  normalize_table_filters, or_malformed,
}

-- Groups only below the root, and only one level of them.
abbrev IsLeaf : TableFilterTreeNode → Type 0
IsLeaf (leaf c) = Unit
IsLeaf (group logic ns) = ⊥

AllNodes : (TableFilterTreeNode → Type 0) → TableFilterTreeNodes → Type 0
AllNodes P no_nodes = Unit
AllNodes P (node n ns) = P n × AllNodes P ns

abbrev IsShallow : TableFilterTreeNode → Type 0
IsShallow (leaf c) = Unit
IsShallow (group logic ns) = AllNodes IsLeaf ns

pub IsBounded : TableFilterTreeGroup → Type 0
unfolding AllNodes
IsBounded tree = AllNodes IsShallow tree.conditions

-- The tree as the JSON that `JSON.stringify` writes.
abbrev end_members : Option String → Members
end_members none = no_members
end_members (some e) = member "valueEnd" (string e) no_members

abbrev condition_json : TableFilterCondition → Json
condition_json c = object (
    member "field" (string c.field) (
      member "operator" (string c.operator)
        (member "value" (string c.value) (end_members c.value_end))))

abbrev logic_json : Logic → Json
logic_json and = string "AND"
logic_json or = string "OR"

abbrev group_json : Logic → Values → Json
group_json logic vs =
    object (member "logic" (logic_json logic) (member "conditions" (array vs) no_members))

mutual
  node_json : TableFilterTreeNode → Json
  node_json (leaf c) = condition_json c
  node_json (group logic ns) = group_json logic (nodes_json ns)

  nodes_json : TableFilterTreeNodes → Values
  nodes_json no_nodes = no_values
  nodes_json (node n ns) = item (node_json n) (nodes_json ns)

unfoldable pub tree_json : TableFilterTreeGroup → Json
unfolding node_json nodes_json
tree_json tree = group_json tree.logic (nodes_json tree.conditions)

get-end_members : (e : Option String) → text_of (get "valueEnd" (end_members e)) ≡ e
unfolding get
get-end_members none = refl
get-end_members (some e) = refl

as_condition-condition_json : (c : TableFilterCondition) → as_condition (condition_json c) ≡ ok c
unfolding get
as_condition-condition_json c = rw (get-end_members c.value_end) refl

no_conditions : (e : Option String) → get "conditions" (end_members e) ≡ null
unfolding get
no_conditions none = refl
no_conditions (some e) = refl

conditions_in-condition_json : (c : TableFilterCondition) → conditions_in (condition_json c) ≡ none
unfolding get
conditions_in-condition_json c = rw (no_conditions c.value_end) refl

logic_of-group_json : (logic : Logic) (vs : Values) → logic_of (group_json logic vs) ≡ logic
unfolding get
logic_of-group_json and vs = refl
logic_of-group_json or vs = refl

-- Reading back what was written, at the three levels.
map_nodes-nodes_json :
    (f : Json → Result Malformed TableFilterTreeNode) (P : TableFilterTreeNode → Type 0)
    (back : (n : TableFilterTreeNode) → P n → f (node_json n) ≡ ok n) (ns : TableFilterTreeNodes)
    → AllNodes P ns
    → map_nodes f (nodes_json ns) ≡ ok ns
unfolding map_nodes nodes_json AllNodes
map_nodes-nodes_json f P back no_nodes h = refl
map_nodes-nodes_json f P back (node n ns) h =
    rw (back n h.0, map_nodes-nodes_json f P back ns h.1) refl

as_child-node_json : (n : TableFilterTreeNode) → IsLeaf n → as_child (node_json n) ≡ ok n
unfolding node_json
as_child-node_json (leaf c) h =
    rw (conditions_in-condition_json c, as_condition-condition_json c) refl
as_child-node_json (group logic ns) h = absurd h

as_tree_node-group_json :
    (logic : Logic) (vs : Values) (ns : TableFilterTreeNodes)
    → map_nodes as_child vs ≡ ok ns
    → as_tree_node (group_json logic vs) ≡ ok (group logic ns)
unfolding get
as_tree_node-group_json logic vs ns e = rw (e, logic_of-group_json logic vs) refl

as_tree_node-node_json : (n : TableFilterTreeNode) → IsShallow n → as_tree_node (node_json n) ≡ ok n
unfolding node_json
as_tree_node-node_json (leaf c) h =
    rw (conditions_in-condition_json c, as_condition-condition_json c) refl
as_tree_node-node_json (group logic ns) h =
    as_tree_node-group_json logic (nodes_json ns) ns
      (map_nodes-nodes_json as_child IsLeaf as_child-node_json ns h)

normalize-tree_json :
    (tree : TableFilterTreeGroup)
    → IsBounded tree
    → normalize_parsed (some (tree_json tree)) ≡ ok tree
unfolding normalize_parsed tree_json get IsBounded
normalize-tree_json tree h =
    rw
      (
        map_nodes-nodes_json as_tree_node IsShallow as_tree_node-node_json tree.conditions h,
        logic_of-group_json tree.logic (nodes_json tree.conditions),
      )
      refl

-- Whatever a mapping returns has what its function ensures.
map_nodes-AllNodes :
    (f : Json → Result Malformed TableFilterTreeNode) (P : TableFilterTreeNode → Type 0)
    (ensures : (v : Json) (n : TableFilterTreeNode) → f v ≡ ok n → P n) (vs : Values)
    {ns : TableFilterTreeNodes}
    → map_nodes f vs ≡ ok ns
    → AllNodes P ns
unfolding map_nodes AllNodes
map_nodes-AllNodes f P ensures no_values e = subst (AllNodes P) (ok-injective e) tt
map_nodes-AllNodes f P ensures (item v vs) e =
    let (n, en, rest) = bind-eq-ok (f v) _ e in
    let (ns, es, last) = bind-eq-ok (map_nodes f vs) _ rest in
    subst (AllNodes P) (ok-injective last) (ensures v n en, map_nodes-AllNodes f P ensures vs es)

IsLeaf-IsShallow : (n : TableFilterTreeNode) → IsLeaf n → IsShallow n
IsLeaf-IsShallow (leaf c) h = tt
IsLeaf-IsShallow (group logic ns) h = absurd h

as_leaf-IsLeaf : (v : Json) (n : TableFilterTreeNode) → as_leaf v ≡ ok n → IsLeaf n
as_leaf-IsLeaf v n e =
    let (c, ec, last) = bind-eq-ok (as_condition v) _ e in subst IsLeaf (ok-injective last) tt

as_child-IsLeaf : (v : Json) (n : TableFilterTreeNode) → as_child v ≡ ok n → IsLeaf n
as_child-IsLeaf v n e = elim (Option-cases (conditions_in v)) [
  | inl none_there ↦ as_leaf-IsLeaf v n (rw none_there at e)
  | inr (vs, there) ↦ absurd (cc (rw there at e))
]

as_tree_node-IsShallow : (v : Json) (n : TableFilterTreeNode) → as_tree_node v ≡ ok n → IsShallow n
as_tree_node-IsShallow v n e = elim (Option-cases (conditions_in v)) [
  | inl none_there ↦ IsLeaf-IsShallow n (as_leaf-IsLeaf v n (rw none_there at e))
  | inr (vs, there) ↦
      let (ns, es, last) = bind-eq-ok (map_nodes as_child vs) _ (rw there at e) in
      subst IsShallow (ok-injective last) (map_nodes-AllNodes as_child IsLeaf as_child-IsLeaf vs es)
]

old_group_of-IsShallow :
    (is_and : Bool) (o : Option Values) (n : TableFilterTreeNode)
    → old_group_of is_and o ≡ ok n
    → IsShallow n
old_group_of-IsShallow true (some vs) n e =
    let (ns, es, last) = bind-eq-ok (map_nodes as_leaf vs) _ e in
    subst IsShallow (ok-injective last) (map_nodes-AllNodes as_leaf IsLeaf as_leaf-IsLeaf vs es)
old_group_of-IsShallow true none n e = absurd (cc e)
old_group_of-IsShallow false o n e = absurd (cc e)

as_old_group-IsShallow : (v : Json) (n : TableFilterTreeNode) → as_old_group v ≡ ok n → IsShallow n
as_old_group-IsShallow (object m) n e = old_group_of-IsShallow _ _ n e
as_old_group-IsShallow (array vs) n e = absurd (cc e)
as_old_group-IsShallow (number k) n e = absurd (cc e)
as_old_group-IsShallow (string s) n e = absurd (cc e)
as_old_group-IsShallow (boolean b) n e = absurd (cc e)
as_old_group-IsShallow null n e = absurd (cc e)
as_old_group-IsShallow not_finite n e = absurd (cc e)

old_form-IsBounded :
    (is_or : Bool) (o : Option Values) (tree : TableFilterTreeGroup)
    → old_form is_or o ≡ ok tree
    → IsBounded tree
unfolding IsBounded
old_form-IsBounded true (some vs) tree e =
    let (ns, es, last) = bind-eq-ok (map_nodes as_old_group vs) _ e in
    subst (λ t. AllNodes IsShallow t.conditions) (ok-injective last)
      (map_nodes-AllNodes as_old_group IsShallow as_old_group-IsShallow vs es)
old_form-IsBounded true none tree e = absurd (cc e)
old_form-IsBounded false o tree e = absurd (cc e)

root_of-IsBounded :
    (o : Option Values) (m : Members) (tree : TableFilterTreeGroup)
    → root_of o m ≡ ok tree
    → IsBounded tree
unfolding IsBounded
root_of-IsBounded (some vs) m tree e =
    let (ns, es, last) = bind-eq-ok (map_nodes as_tree_node vs) _ e in
    subst (λ t. AllNodes IsShallow t.conditions) (ok-injective last)
      (map_nodes-AllNodes as_tree_node IsShallow as_tree_node-IsShallow vs es)
root_of-IsBounded none m tree e = old_form-IsBounded _ _ tree e

normalize_parsed-IsBounded :
    (o : Option Json) (tree : TableFilterTreeGroup) → normalize_parsed o ≡ ok tree → IsBounded tree
unfolding normalize_parsed
normalize_parsed-IsBounded (some (object m)) tree e = root_of-IsBounded _ m tree e
normalize_parsed-IsBounded none tree e = absurd (cc e)
normalize_parsed-IsBounded (some (array vs)) tree e = absurd (cc e)
normalize_parsed-IsBounded (some (number k)) tree e = absurd (cc e)
normalize_parsed-IsBounded (some (string s)) tree e = absurd (cc e)
normalize_parsed-IsBounded (some (boolean b)) tree e = absurd (cc e)
normalize_parsed-IsBounded (some null) tree e = absurd (cc e)
normalize_parsed-IsBounded (some not_finite) tree e = absurd (cc e)

or_malformed-eq-ok :
    {A : Type 0} {a : A} (x : TableQueryError) (r : Result Malformed A)
    → or_malformed x r ≡ ok a
    → r ≡ ok a
or_malformed-eq-ok x (ok b) e = ap ok (ok-injective e)
or_malformed-eq-ok x (err m) e = absurd (cc e)

-- Whichever form a filter has, what it is normalised to is a tree of conditions and of groups of
-- conditions: the compilers call themselves at most twice on a path.
pub normalize_table_filters-IsBounded :
    (p : Platform) (raw : String) (tree : TableFilterTreeGroup)
    → normalize_table_filters p raw ≡ ok tree
    → IsBounded tree
unfolding normalize_table_filters
normalize_table_filters-IsBounded p raw tree e =
    normalize_parsed-IsBounded (p.parse_json raw) tree (or_malformed-eq-ok malformed_filters _ e)

-- A normalised filter that is written as JSON and parsed again is normalised to itself.
pub normalize_table_filters_again :
    (p : Platform) (raw written : String) (tree : TableFilterTreeGroup)
    → normalize_table_filters p raw ≡ ok tree
    → p.parse_json written ≡ some (tree_json tree)
    → normalize_table_filters p written ≡ ok tree
unfolding normalize_table_filters
normalize_table_filters_again p raw written tree e parsed =
    rw (parsed, normalize-tree_json tree (normalize_table_filters-IsBounded p raw tree e)) refl
