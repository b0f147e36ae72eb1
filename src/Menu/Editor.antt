-- ===== src/Menu/Editor.antt =====
-- apps/web/src/menu-config/editor-state.ts: menu items and nested groups in one order per container.
-- A name is the list of its UTF-16 code units. The container marks '@top' and `g:<key>` are the
-- constructors of `Container`. The key of a new group is a parameter.
pub mod Counting
pub mod Remove
pub mod Insert
pub mod Laws
pub mod Groups
pub mod Serialize
pub mod Offset
use wbme.Common.{
  ℕ, zero, suc, ◌+◌, ◌-◌, min, Bool, true, false, not, ◌&&◌, ◌||◌, Option, none, some, List, [],
  ◌∷◌, ◌++◌, String, if◌then◌else◌, ◌==◌, ltb, leb, str_eq, any, length, trim,
}

mutual
  pub data Node : Type 0 where
    item : (item_key : String) (name_override : Option (List ℕ)) → Node
    group : (node_key : String) (name_override : Option (List ℕ)) (children : Nodes) → Node

  pub data Nodes : Type 0 where
    nil : Nodes
    cons : Node → Nodes → Nodes

abbrev pub size : Nodes → ℕ
size nil = 0
size (cons x xs) = suc (size xs)

pub data DragRef : Type 0 where
  drag_item : String → DragRef
  drag_group : String → DragRef

pub data DropTarget : Type 0 where
  top : (index : ℕ) → DropTarget
  children : (group_key : String) (index : ℕ) → DropTarget

pub data Container : Type 0 where
  top_container : Container
  group_container : String → Container

abbrev pub target_container : DropTarget → Container
target_container (top index) = top_container
target_container (children key index) = group_container key

abbrev pub target_index : DropTarget → ℕ
target_index (top index) = index
target_index (children key index) = index

abbrev pub same_container : Container → Container → Bool
same_container top_container top_container = true
same_container (group_container a) (group_container b) = str_eq a b
same_container _ _ = false

abbrev pub matches_drag : DragRef → Node → Bool
matches_drag (drag_item key) (item k n) = str_eq k key
matches_drag (drag_group key) (group k n cs) = str_eq k key
matches_drag (drag_item key) (group k n cs) = false
matches_drag (drag_group key) (item k n) = false

abbrev pub or_else {ℓ} : {A : Type ℓ} → Option A → Option A → Option A
or_else none b = b
or_else (some a) b = some a

-- The group with the key, as a node; depth first.
unfoldable pub find_group_node : String → Nodes → Option Node
find_group_node key nil = none
find_group_node key (cons (item k n) rest) = find_group_node key rest
find_group_node key (cons (group k n cs) rest) =
    if str_eq k key
    then some (group k n cs)
    else or_else (find_group_node key cs) (find_group_node key rest)

abbrev pub is_found {ℓ} : {A : Type ℓ} → Option A → Bool
is_found none = false
is_found (some a) = true

-- `[...list, node]`
unfoldable pub append_node : Nodes → Node → Nodes
append_node nil new = cons new nil
append_node (cons x xs) new = cons x (append_node xs new)

-- `list.splice(Math.min(index, list.length), 0, node)` on a copy.
unfoldable pub insert_at : Nodes → ℕ → Node → Nodes
insert_at nil index new = cons new nil
insert_at (cons x xs) zero new = cons new (cons x xs)
insert_at (cons x xs) (suc index) new = cons x (insert_at xs index new)

-- `insertInto`: every group with the key that is not below another such group has its children
-- changed by `f`.
unfoldable pub change_children : (Nodes → Nodes) → String → Nodes → Nodes
change_children f key nil = nil
change_children f key (cons (item k n) rest) = cons (item k n) (change_children f key rest)
change_children f key (cons (group k n cs) rest) =
    cons (group k n (if str_eq k key then f cs else change_children f key cs))
      (change_children f key rest)

unfoldable pub create_group_node : String → Nodes → Option String → Option (List ℕ) → Option Nodes
unfolding find_group_node append_node change_children
create_group_node node_key state none name = some (append_node state (group node_key name nil))
create_group_node node_key state (some parent) name =
    if not (is_found (find_group_node parent state))
    then none
    else some (change_children (λ cs. append_node cs (group node_key name nil)) parent state)

-- A node that was taken out, with the container and the index it had, and what is left.
pub record Removal : Type 0 where
  pub next : Nodes
  pub removed : Node
  pub container : Container
  pub index : ℕ

abbrev pub behind : Node → Removal → Removal
behind x r = record r { next = cons x r.next; index = suc r.index }

abbrev beside : Node → Removal → Removal
beside x r = record r { next = cons x r.next }

abbrev pub map_removal : (Removal → Removal) → Option Removal → Option Removal
map_removal f none = none
map_removal f (some r) = some (f r)

-- `nodes.findIndex(…)` and the filter on the index.
unfoldable pub remove_here : DragRef → Container → Nodes → Option Removal
remove_here drag container nil = none
remove_here drag container (cons x rest) =
    if matches_drag drag x
    then some (record { next = rest; removed = x; container = container; index = 0 })
    else map_removal (behind x) (remove_here drag container rest)

abbrev pub in_group : String → Option (List ℕ) → Nodes → Removal → Removal
in_group k n rest r = record r { next = cons (group k n r.next) rest }

-- The loop over the nodes: the children of each group in turn, each level before those below it.
unfoldable pub remove_below : DragRef → Nodes → Option Removal
unfolding remove_here
remove_below drag nil = none
remove_below drag (cons (item k n) rest) = map_removal (beside (item k n)) (remove_below drag rest)
remove_below drag (cons (group k n cs) rest) =
    or_else
      (map_removal (in_group k n rest)
        (or_else (remove_here drag (group_container k) cs) (remove_below drag cs)))
      (map_removal (beside (group k n cs)) (remove_below drag rest))

unfoldable pub remove_node : DragRef → Nodes → Option Removal
unfolding remove_below
remove_node drag state = or_else (remove_here drag top_container state) (remove_below drag state)

-- `deleteGroupNode`: its own search is the one of `remove_node`.
abbrev has_no_children : Option Node → Bool
has_no_children (some (group k n nil)) = true
has_no_children _ = false

abbrev next_of : Option Removal → Option Nodes
next_of none = none
next_of (some r) = some r.next

unfoldable pub delete_group_node : String → Nodes → Option Nodes
unfolding find_group_node remove_node
delete_group_node key state =
    if has_no_children (find_group_node key state)
    then next_of (remove_node (drag_group key) state)
    else none

-- Whether a group with the key stands anywhere in the list.
unfoldable pub has_group : String → Nodes → Bool
has_group key nil = false
has_group key (cons (item k n) rest) = has_group key rest
has_group key (cons (group k n cs) rest) = str_eq k key || has_group key cs || has_group key rest

-- `collectGroupSubtreeKeys(node).has(key)`
unfoldable pub subtree_has : String → Node → Bool
unfolding has_group
subtree_has key (item k n) = false
subtree_has key (group k n cs) = str_eq k key || has_group key cs

abbrev pub drag_guard_fails : String → Option Node → Bool
drag_guard_fails key none = true
drag_guard_fails key (some dragged) = subtree_has key dragged

unfoldable pub target_guard_fails : Nodes → DragRef → DropTarget → Bool
unfolding find_group_node subtree_has
target_guard_fails state drag (top index) = false
target_guard_fails state (drag_item key) (children group_key index) =
    not (is_found (find_group_node group_key state))
target_guard_fails state (drag_group key) (children group_key index) =
    if not (is_found (find_group_node group_key state))
    then true
    else drag_guard_fails group_key (find_group_node key state)

abbrev pub insert_index : Removal → DropTarget → ℕ
insert_index r target =
    if same_container r.container (target_container target) && ltb r.index (target_index target)
    then target_index target - 1
    else target_index target

unfoldable pub insert_node : DropTarget → ℕ → Node → Nodes → Nodes
unfolding insert_at change_children
insert_node (top index) i new state = insert_at state i new
insert_node (children key index) i new state = change_children (λ cs. insert_at cs i new) key state

abbrev pub dropped : DropTarget → Option Removal → Option Nodes
dropped target none = none
dropped target (some r) = some (insert_node target (insert_index r target) r.removed r.next)

unfoldable pub move_editor_node : Nodes → DragRef → DropTarget → Option Nodes
unfolding target_guard_fails remove_node insert_node
move_editor_node state drag target =
    if target_guard_fails state drag target then none else dropped target (remove_node drag state)

pub data RenameRef : Type 0 where
  rename_item : String → RenameRef
  rename_group : String → RenameRef

-- `rawName.trim() === '' ? null : rawName.trim()`
unfoldable pub name_of : List ℕ → Option (List ℕ)
name_of raw_name = if length (trim raw_name) == 0 then none else some (trim raw_name)

abbrev pub is_renamed_item : RenameRef → String → Bool
is_renamed_item (rename_item key) k = str_eq k key
is_renamed_item (rename_group key) k = false

abbrev pub is_renamed_group : RenameRef → String → Bool
is_renamed_group (rename_item key) k = false
is_renamed_group (rename_group key) k = str_eq k key

-- The walk of `renameEditorNode`; it does not go below a group that it renames.
unfoldable pub rename_walk : RenameRef → Option (List ℕ) → Nodes → Nodes
rename_walk target name nil = nil
rename_walk target name (cons (item k n) rest) =
    cons (item k (if is_renamed_item target k then name else n)) (rename_walk target name rest)
rename_walk target name (cons (group k n cs) rest) =
    cons
      (group k (if is_renamed_group target k then name else n)
        (if is_renamed_group target k then cs else rename_walk target name cs))
      (rename_walk target name rest)

-- The flag `found` at the end of the walk.
unfoldable pub rename_found : RenameRef → Nodes → Bool
rename_found target nil = false
rename_found target (cons (item k n) rest) = is_renamed_item target k || rename_found target rest
rename_found target (cons (group k n cs) rest) =
    is_renamed_group target k || rename_found target cs || rename_found target rest

unfoldable pub rename_editor_node : Nodes → RenameRef → List ℕ → Option Nodes
unfolding rename_walk rename_found name_of
rename_editor_node state target raw_name =
    if rename_found target state then some (rename_walk target (name_of raw_name) state) else none
