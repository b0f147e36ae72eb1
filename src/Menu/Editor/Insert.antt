-- ===== src/Menu/Editor/Insert.antt =====
-- Putting a node into the tree.
use wbme.Common.{ℕ, ◌+◌, ◌≡◌, Bool}
use wbme.Menu.Editor.{Node, Nodes, DropTarget, top, children, insert_at, insert_node}
use wbme.Menu.Editor.Counting.{
  Label, count, count_node, count-insert_at, count-change_children, is_group,
}

-- The group that a drop target names stands in the tree exactly once; the top always does.
abbrev pub HasTarget : DropTarget → Nodes → Type 0
HasTarget (top i) xs = Unit
HasTarget (children key i) xs = count (is_group key) xs ≡ 1

pub count-insert_node :
    (q : Label → Bool) (target : DropTarget) (i : ℕ) (new : Node) (xs : Nodes)
    → HasTarget target xs
    → count q (insert_node target i new xs) ≡ count q xs + count_node q new
unfolding insert_node
count-insert_node q (top j) i new xs h = count-insert_at q xs i new
count-insert_node q (children key j) i new xs h =
    count-change_children q (λ cs. insert_at cs i new) (count_node q new) key xs
      (λ cs. count-insert_at q cs i new) h
