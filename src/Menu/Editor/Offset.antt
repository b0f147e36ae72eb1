-- ===== src/Menu/Editor/Offset.antt =====
-- `moveEditorNodeByOffset`: a node changes places with its neighbour in the same container.
use wbme.Common.{ℕ, zero, suc, ◌+◌, Bool, Option, none, some, if◌then◌else◌, leb, ◌≡◌}
use wbme.Menu.Editor.{
  Nodes, item, group, nil, cons, size, DragRef, DropTarget, top, children, Container, top_container,
  group_container, matches_drag, or_else, move_editor_node,
}
use wbme.Menu.Editor.Counting.{Label, count}
use wbme.Menu.Editor.Laws.{HasUniqueKeys, move_editor_node-count}

pub record LocatedNode : Type 0 where
  pub index : ℕ
  pub size : ℕ
  pub container : Container

-- `located.target(index)`
abbrev target_at : Container → ℕ → DropTarget
target_at top_container index = top index
target_at (group_container key) index = children key index

abbrev next_index : Option ℕ → Option ℕ
next_index none = none
next_index (some i) = some (suc i)

-- `nodes.findIndex(…)`
unfoldable pub find_index : DragRef → Nodes → Option ℕ
find_index drag nil = none
find_index drag (cons x rest) =
    if matches_drag drag x then some 0 else next_index (find_index drag rest)

abbrev located : Nodes → Container → Option ℕ → Option LocatedNode
located nodes container none = none
located nodes container (some i) =
    some (record { index = i; size = size nodes; container = container })

unfoldable pub locate_below : DragRef → Nodes → Option LocatedNode
unfolding find_index
locate_below drag nil = none
locate_below drag (cons (item k n) rest) = locate_below drag rest
locate_below drag (cons (group k n cs) rest) =
    or_else (or_else (located cs (group_container k) (find_index drag cs)) (locate_below drag cs))
      (locate_below drag rest)

unfoldable pub locate_node : Nodes → DragRef → Option LocatedNode
unfolding locate_below
locate_node state drag =
    or_else (located state top_container (find_index drag state)) (locate_below drag state)

-- `delta`, -1 or 1.
pub data Delta : Type 0 where
  up down : Delta

-- The index for `moveEditorNode`, unless the node is at the end.
abbrev target_index_of : Delta → LocatedNode → Option ℕ
target_index_of up l = elim l.index [ zero ↦ none | suc i ↦ if leb l.size i then none else some i ]
target_index_of down l = if leb l.size (l.index + 1) then none else some (l.index + 2)

abbrev move_located : Nodes → DragRef → Container → Option ℕ → Option Nodes
move_located state drag container none = none
move_located state drag container (some i) = move_editor_node state drag (target_at container i)

abbrev by_offset : Nodes → DragRef → Delta → Option LocatedNode → Option Nodes
by_offset state drag delta none = none
by_offset state drag delta (some l) = move_located state drag l.container (target_index_of delta l)

unfoldable pub move_editor_node_by_offset : Nodes → DragRef → Delta → Option Nodes
unfolding locate_node
move_editor_node_by_offset state drag delta = by_offset state drag delta (locate_node state drag)

-- Where group keys are unique, a move by an offset that succeeds keeps how many nodes of every kind,
-- key and name the tree has, at any depth.
move_editor_node_by_offset-count :
    (state : Nodes) (drag : DragRef) (delta : Delta) (after : Nodes) (q : Label → Bool)
    → HasUniqueKeys state
    → move_editor_node_by_offset state drag delta ≡ some after
    → count q after ≡ count q state
unfolding move_editor_node_by_offset
move_editor_node_by_offset-count state drag delta after q u h = go (locate_node state drag) h
  where
    moved :
        (c : Container) (o : Option ℕ)
        → move_located state drag c o ≡ some after
        → count q after ≡ count q state
    moved c none e = absurd (cc)
    moved c (some i) e = move_editor_node-count state drag (target_at c i) after q u e

    go :
        (o : Option LocatedNode)
        → by_offset state drag delta o ≡ some after
        → count q after ≡ count q state
    go none e = absurd (cc)
    go (some l) e = moved l.container (target_index_of delta l) e
