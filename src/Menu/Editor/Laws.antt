-- ===== src/Menu/Editor/Laws.antt =====
-- What `moveEditorNode` keeps of a tree.
use wbme.Common.{
  ℕ, ◌≤◌, ◌≡◌, refl, sym, ap, ◌∙◌, String, arith, Option, none, some, Bool, true, false, Bool-cases,
  Option-cases, inl, inr,
}
use mathlib.Core.Option.{some-injective}
use wbme.Menu.Editor.{
  Node, Nodes, item, group, DragRef, drag_item, drag_group, DropTarget, top, children, Removal,
  matches_drag, find_group_node, is_found, target_guard_fails, drag_guard_fails, subtree_has,
  insert_index, remove_node, move_editor_node,
}
use wbme.Menu.Editor.Counting.{
  Label, count, count_node, is_group, find_group_node-count, subtree_has-count,
}
use wbme.Menu.Editor.Remove.{remove_node-IsTaken, remove_node-find, taken-count}
use wbme.Menu.Editor.Insert.{HasTarget, count-insert_node}

-- No two groups of the tree have one key.
abbrev pub HasUniqueKeys : Nodes → Type 0
HasUniqueKeys xs = (key : String) → count (is_group key) xs ≤ 1

guard-found :
    (state : Nodes) (drag : DragRef) (key : String) (i : ℕ)
    → target_guard_fails state drag (children key i) ≡ false
    → is_found (find_group_node key state) ≡ true
unfolding target_guard_fails
guard-found state (drag_item k) key i h = ground arith
guard-found state (drag_group k) key i h = ground arith

guard-subtree :
    (o : Option Node) (x : Node) (key : String)
    → o ≡ some x
    → drag_guard_fails key o ≡ false
    → subtree_has key x ≡ false
guard-subtree none x key e h = absurd (cc)
guard-subtree (some y) x key e h = ap (subtree_has key) (sym (some-injective y x e)) ∙ h

item_has_no_group :
    (k key : String) (x : Node)
    → matches_drag (drag_item k) x ≡ true
    → count_node (is_group key) x ≡ 0
unfolding count_node
item_has_no_group k key (item j n) e = refl
item_has_no_group k key (group j n cs) e = absurd (cc)

group_guard :
    (state : Nodes) (k key : String) (i : ℕ)
    → target_guard_fails state (drag_group k) (children key i) ≡ false
    → drag_guard_fails key (find_group_node k state) ≡ false
unfolding target_guard_fails
group_guard state k key i h = ground arith

-- The guard keeps the target group out of what is dragged.
removed-count :
    (state : Nodes) (drag : DragRef) (key : String) (i : ℕ) (r : Removal)
    → HasUniqueKeys state
    → target_guard_fails state drag (children key i) ≡ false
    → remove_node drag state ≡ some r
    → count_node (is_group key) r.removed ≡ 0
removed-count state (drag_item k) key i r u g h =
    item_has_no_group k key r.removed (remove_node-IsTaken (drag_item k) state r h).named
removed-count state (drag_group k) key i r u g h =
    let least = taken-count k state r (remove_node-IsTaken (drag_group k) state r h) in
    let found = remove_node-find k state r (omega (arith, u k)) h in
    subtree_has-count key r.removed
      (guard-subtree (find_group_node k state) r.removed key found (group_guard state k key i g))

left-HasTarget :
    (state : Nodes) (drag : DragRef) (target : DropTarget) (r : Removal)
    → HasUniqueKeys state
    → target_guard_fails state drag target ≡ false
    → remove_node drag state ≡ some r
    → HasTarget target r.next
left-HasTarget state drag (top i) r u g h = tt
left-HasTarget state drag (children key i) r u g h =
    let there = find_group_node-count key state (guard-found state drag key i g) in
    let away = removed-count state drag key i r u g h in
    let all = (remove_node-IsTaken drag state r h).counts (is_group key) in omega (arith, u key)

module _ (state : Nodes) (drag : DragRef) (target : DropTarget) (after : Nodes) where
  -- Where group keys are unique, a move that succeeds keeps, for every test on kind, key and name,
  -- the number of nodes that pass it, at any depth.
  pub move_editor_node-count :
      (q : Label → Bool)
      → HasUniqueKeys state
      → move_editor_node state drag target ≡ some after
      → count q after ≡ count q state
  unfolding move_editor_node
  move_editor_node-count q u h = elim (Bool-cases (target_guard_fails state drag target)) [
    | inl e ↦ absurd (cc (rw (e, move_editor_node) at h))
    | inr e ↦ elim (Option-cases (remove_node drag state)) [
      | inl k ↦ absurd (cc (rw (k) at (rw (e, move_editor_node) at h)))
      | inr (r, k) ↦
          let same = some-injective _ _ (rw (k) at (rw (e, move_editor_node) at h)) in
          ap (count q) (sym same)
          ∙ count-insert_node q target (insert_index r target) r.removed r.next
              (left-HasTarget state drag target r u e k)
          ∙ (remove_node-IsTaken drag state r k).counts q
    ]
  ]
