-- ===== src/Menu/Merge/Resolve.antt =====
-- resolveMenuConfig: every group and item with its place, its name and its order.
pub mod Laws
pub mod Placement
use wbme.Common.{
  ℕ, zero, suc, min, Bool, true, false, not, ◌||◌, Option, none, some, List, [], ◌∷◌, map, String,
  if◌then◌else◌, str_eq, keep_if, length,
}
use wbme.Menu.Editor.Serialize.{MenuGroupConfigRow, MenuItemConfigRow, SystemMenuConfig}
use wbme.Menu.Merge.{
  NavigationItem, has_key, find_group, find_item, config_from_defaults, all_group_keys,
  candidate_parent, identity_parent, last_with,
}
use wbme.Menu.Merge.Parents.{Done, find_parent, resolve_all}

pub record ResolvedMenuItemRow : Type 0 where
  pub item_key : String
  pub name_override : Option (List ℕ)
  pub parent_key : Option String
  pub order : Option ℕ
  pub default_index : ℕ

pub record ResolvedMenuGroupRow : Type 0 where
  pub node_key : String
  pub parent_key : Option String
  pub name_override : Option (List ℕ)
  pub order : Option ℕ
  pub default_index : Option ℕ

pub record ResolvedMenu : Type 0 where
  pub items : List ResolvedMenuItemRow
  pub groups : List ResolvedMenuGroupRow

-- The parents of all groups; the search is given more fuel than there are groups.
unfoldable pub resolved_parents : SystemMenuConfig → SystemMenuConfig → Option Done
unfolding all_group_keys candidate_parent identity_parent resolve_all
resolved_parents identity config =
    resolve_all (candidate_parent identity config) (identity_parent identity)
      (suc (length (all_group_keys identity config))) [] (all_group_keys identity config)

abbrev same_parent : Option String → String → Bool
same_parent none key = false
same_parent (some p) key = str_eq p key

-- `Math.min`, where `none` is +∞.
abbrev min_index : Option ℕ → Option ℕ → Option ℕ
min_index none b = b
min_index (some a) none = some a
min_index (some a) (some b) = some (min a b)

first_index : String → ℕ → List MenuItemConfigRow → Option ℕ
first_index key index [] = none
first_index key index (row ∷ rows) =
    if same_parent row.parent_key key then some index else first_index key (suc index) rows

-- The least index over the children of a group.
least_below : (String → Option ℕ) → String → List MenuGroupConfigRow → Option ℕ
least_below f key [] = none
least_below f key (row ∷ rows) =
    if same_parent row.parent_key key
    then min_index (f row.node_key) (least_below f key rows)
    else least_below f key rows

-- The key of a child extends that of its parent, so that a chain of children is no longer than the
-- list of groups, which is the fuel.
subtree_first_index : ℕ → SystemMenuConfig → String → Option ℕ
unfolding first_index least_below
subtree_first_index zero identity key = none
subtree_first_index (suc n) identity key =
    min_index (first_index key 0 identity.items)
      (least_below (subtree_first_index n identity) key identity.groups)

abbrev flatten : Option (Option String) → Option String
flatten none = none
flatten (some parent) = parent

abbrev name_of_group : Option MenuGroupConfigRow → Option (List ℕ)
name_of_group none = none
name_of_group (some row) = row.name_override

abbrev order_of_group : Option MenuGroupConfigRow → Option ℕ
order_of_group none = none
order_of_group (some row) = some row.sort_order

abbrev index_of_group : SystemMenuConfig → String → Option MenuGroupConfigRow → Option ℕ
index_of_group identity key none = none
index_of_group identity key (some base) =
    subtree_first_index (suc (length identity.groups)) identity key

unfoldable pub resolve_group :
    SystemMenuConfig → SystemMenuConfig → Done → String → ResolvedMenuGroupRow
unfolding subtree_first_index last_with find_parent
resolve_group identity config d key = record {
  node_key = key;
  parent_key = flatten (find_parent key d);
  name_override = name_of_group (find_group config.groups key);
  order = order_of_group (find_group config.groups key);
  default_index = index_of_group identity key (find_group identity.groups key);
}

-- The configured place is at the top or in a group that exists.
abbrev has_place : List String → Option String → Bool
has_place keys none = true
has_place keys (some parent) = has_key keys parent

abbrev default_row : ℕ → String → Option (List ℕ) → Option String → ResolvedMenuItemRow
default_row index key name parent = record {
  item_key = key;
  name_override = name;
  parent_key = parent;
  order = none;
  default_index = index;
}

abbrev item_row :
    List String → ℕ → String → Option String → Option MenuItemConfigRow → ResolvedMenuItemRow
item_row keys index key parent none = default_row index key none parent
item_row keys index key parent (some row) =
    if has_place keys row.parent_key
    then record {
      item_key = key;
      name_override = row.name_override;
      parent_key = row.parent_key;
      order = some row.sort_order;
      default_index = index;
    }
    else default_row index key row.name_override parent

-- The identity configuration has one row for each default item, in order.
resolve_items :
    SystemMenuConfig → List String → ℕ → List MenuItemConfigRow → List ResolvedMenuItemRow
unfolding last_with
resolve_items config keys index [] = []
resolve_items config keys index (base ∷ rows) =
    item_row keys index base.item_key base.parent_key (find_item config.items base.item_key)
    ∷ resolve_items config keys (suc index) rows

abbrev menu_of : SystemMenuConfig → SystemMenuConfig → Option Done → Option ResolvedMenu
menu_of identity config none = none
menu_of identity config (some d) = some (record {
  items = resolve_items config (all_group_keys identity config) 0 identity.items;
  groups = map (resolve_group identity config d) (all_group_keys identity config);
})

unfoldable pub resolve_menu_config : List NavigationItem → SystemMenuConfig → Option ResolvedMenu
unfolding config_from_defaults resolved_parents resolve_group resolve_items
resolve_menu_config defaults config =
    menu_of (config_from_defaults defaults) config
      (resolved_parents (config_from_defaults defaults) config)
