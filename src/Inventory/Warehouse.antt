-- ===== src/Inventory/Warehouse.antt =====
-- `loadWarehouseWithPath`: a storage place with the names of the places that contain it, outermost
-- first. The climb stops after 64 places.
pub mod Laws
use wbme.Common.{
  ℕ, zero, suc, Bool, true, false, not, Option, none, some, List, [], ◌∷◌, String, if◌then◌else◌,
  ◌==◌, ◌&&◌,
}
use Prim.Native.String

pub record Warehouse : Type 0 where
  pub id : ℕ
  pub parent_id : Option ℕ
  pub name : String
  pub is_active : Bool

pub record WarehousePathRow : Type 0 where
  pub id : ℕ
  pub name : String
  pub path : String

unfoldable pub find_unique : ℕ → List Warehouse → Option Warehouse
find_unique id [] = none
find_unique id (w ∷ ws) = if w.id == id then some w else find_unique id ws

-- `names.join('/')`
unfoldable pub join : List String → String
join [] = ""
join (s ∷ []) = s
join (s ∷ t ∷ more) = String.◌++◌ s (String.◌++◌ "/" (join (t ∷ more)))

-- `names[names.length - 1] ?? ''`
unfoldable pub last_name : List String → String
last_name [] = ""
last_name (s ∷ []) = s
last_name (s ∷ t ∷ more) = last_name (t ∷ more)

-- The loop from the `rounds`-th last round on; `first` says whether the depth is 0.
unfoldable pub climb : ℕ → Bool → List Warehouse → Option ℕ → List String → Option (List String)
climb zero first ws current names = some names
climb (suc rounds) first ws none names = some names
climb (suc rounds) first ws (some id) names = elim (find_unique id ws) [
  | none ↦ none
  | some w ↦
      if first && not w.is_active then none else climb rounds false ws w.parent_id (w.name ∷ names)
]

abbrev path_row : ℕ → Option (List String) → Option WarehousePathRow
path_row id none = none
path_row id (some names) = some (record { id = id; name = last_name names; path = join names })

unfoldable pub load_warehouse_with_path : List Warehouse → Option ℕ → Option WarehousePathRow
unfolding climb join last_name find_unique
load_warehouse_with_path ws none = none
load_warehouse_with_path ws (some id) = path_row id (climb 64 true ws (some id) [])
