-- ===== src/Menu/Tests.antt =====
-- The menu editor's theorems at a concrete tree.
use wbme.Common.{
  ℕ, ◌+◌, ◌≤◌, ◌≡◌, refl, Bool, true, Option, none, some, List, [], ◌∷◌, String, str_eq, eq_iff,
  subst, Bool-cases, inl, inr, arith,
}
use wbme.Menu.Editor.{
  Nodes, item, group, nil, cons, drag_item, children, delete_group_node, move_editor_node,
  find_group_node, change_children, target_guard_fails, remove_node, remove_here, remove_below,
  insert_node, insert_at,
}
use wbme.Menu.Editor.Counting.{Label, group_label, count, is_group, one}
use wbme.Menu.Editor.Laws.{HasUniqueKeys, move_editor_node-count}
use wbme.Menu.Editor.Groups.{delete_group_node-count}
use wbme.Menu.Editor.Serialize.{rows, serialize_editor_state, serialize_editor_state-count}

-- users, and a group that holds roles and an empty group.
abbrev tree : Nodes
tree =
    cons (item "users" none)
      (cons (group "g1" none (cons (item "roles" none) (cons (group "g2" none nil) nil))) nil)

-- The same with users moved into the inner group.
abbrev moved : Nodes
moved =
    cons
      (group "g1" none
        (cons (item "roles" none) (cons (group "g2" none (cons (item "users" none) nil)) nil)))
      nil

abbrev created : Nodes
created = cons (item "users" none) (
    cons
      (group "g1" none
        (cons (item "roles" none) (cons (group "g2" none (cons (group "g3" none nil) nil)) nil)))
      nil)

abbrev deleted : Nodes
deleted = cons (item "users" none) (cons (group "g1" none (cons (item "roles" none) nil)) nil)

abbrev renamed : Nodes
renamed = cons (item "users" none) (
    cons (group "g1" none (cons (item "roles" none) (cons (group "g2" (some (b'x' ∷ [])) nil) nil)))
      nil)

two_names : (key : String) → one (str_eq "g1" key) + one (str_eq "g2" key) ≤ 1
two_names key = elim (Bool-cases (str_eq "g1" key)) [
  | inl e ↦
      subst (λ k. one (str_eq "g1" k) + one (str_eq "g2" k) ≤ 1) ((eq_iff "g1" key).0 e)
        (omega arith)
  | inr e ↦ rw e (ground arith)
]

tree-HasUniqueKeys : HasUniqueKeys tree
unfolding count
tree-HasUniqueKeys key = omega (arith, two_names key)

move_editor_node-count_example : count (is_group "g1") moved ≡ count (is_group "g1") tree
unfolding move_editor_node target_guard_fails find_group_node remove_node remove_here insert_node
    change_children insert_at
move_editor_node-count_example =
    move_editor_node-count tree (drag_item "users") (children "g2" 0) moved (is_group "g1")
      tree-HasUniqueKeys refl

delete_group_node-count_example :
    (k : String) × (name : Option (List ℕ)) × (str_eq k "g2" ≡ true)
    × ((q : Label → Bool) → count q deleted + one (q (group_label k name)) ≡ count q tree)
unfolding delete_group_node find_group_node remove_node remove_here remove_below
delete_group_node-count_example = delete_group_node-count "g2" tree deleted tree-HasUniqueKeys refl

serialize_editor_state-count_example :
    rows (is_group "g2") (serialize_editor_state tree) ≡ count (is_group "g2") tree
serialize_editor_state-count_example = serialize_editor_state-count (is_group "g2") tree
