-- ===== src/Menu/Merge/Parents.antt =====
-- resolveNode: the parents of all groups, free of cycles, by a depth-first search.
pub mod Laws
pub mod Climb
pub mod Termination
pub mod Respect
use wbme.Common.{
  ℕ, zero, suc, Bool, true, false, not, ◌&&◌, ◌||◌, Option, none, some, List, [], ◌∷◌, String,
  if◌then◌else◌, str_eq, any,
}
use wbme.Menu.Merge.{has_key}

-- The groups that are done, the last one first, with their parents.
abbrev pub Done : Type 0
Done = List (String × Option String)

unfoldable pub find_parent : String → Done → Option (Option String)
find_parent key [] = none
find_parent key ((k, parent) ∷ d) = if str_eq k key then some parent else find_parent key d

abbrev pub differs : Option String → String → Bool
differs none p = true
differs (some e) p = not (str_eq p e)

-- `usable`: there is a parent, it is not the excluded one, and it is not being visited.
abbrev pub usable : List String → Option String → Option String → Bool
usable visiting none exclude = false
usable visiting (some p) exclude = differs exclude p && not (has_key visiting p)

-- The candidate, the default parent, or none; without a candidate a group is at the top.
abbrev pub choose : List String → Option String → Option String → Option String
choose visiting none default_parent = none
choose visiting (some c) default_parent =
    if usable visiting (some c) none
    then some c
    else if usable visiting default_parent (some c)
    then default_parent
    else none

abbrev pub finish : String → String → Option Done → Option Done
finish key p none = none
finish key p (some d) = some ((key, some p) ∷ d)

abbrev pub settle : (String → Option Done) → String → Done → Option String → Option Done
settle resolve key d none = some ((key, none) ∷ d)
settle resolve key d (some p) = finish key p (resolve p)

abbrev pub unless_done : Option Done → Done → Option (Option String) → Option Done
unless_done settled d (some parent) = some d
unless_done settled d none = settled

abbrev pub with_done : Option Done → (Done → Option Done) → Option Done
with_done none f = none
with_done (some d) f = f d

module _ (candidate default_parent : String → Option String) where
  -- `visiting` is the chain of calls. `none` is a run without enough fuel.
  unfoldable pub resolve_node : (fuel : ℕ) → List String → Done → String → Option Done
  unfolding find_parent
  resolve_node zero visiting d key = none
  resolve_node (suc n) visiting d key =
      unless_done
        (settle (resolve_node n (key ∷ visiting) d) key d
          (choose (key ∷ visiting) (candidate key) (default_parent key)))
        d (find_parent key d)

  -- The loop over all groups.
  unfoldable pub resolve_all : (fuel : ℕ) → Done → List String → Option Done
  unfolding resolve_node
  resolve_all fuel d [] = some d
  resolve_all fuel d (key ∷ keys) =
      with_done (resolve_node fuel [] d key) (λ e. resolve_all fuel e keys)
