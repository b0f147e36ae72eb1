-- ===== src/Menu/Merge.antt =====
-- apps/web/src/menu-config/merge.ts: the default navigation and the saved configuration as one menu.
-- A map is an association list; `none` stands for an order of +∞.
pub mod Parents
pub mod Identity
pub mod Resolve
use Prim.Native.String.{◌++◌ as concat}
use text.Mathlib.Text.{starts_with as text_starts_with}
use wbme.Common.{
  ℕ, zero, suc, ◌+◌, min, Bool, true, false, not, ◌&&◌, ◌||◌, Option, none, some, List, [], ◌∷◌,
  ◌++◌, map, String, if◌then◌else◌, ◌==◌, str_eq, any, keep_if, length, codes,
}
use wbme.Menu.Editor.Serialize.{MenuGroupConfigRow, MenuItemConfigRow, SystemMenuConfig}

-- The part of a navigation item that the merge reads.
pub record NavigationItem : Type 0 where
  pub key : String
  pub label : List ℕ
  pub group : Option String
  pub sub_group : Option String

unfoldable pub is_custom_group_node_key : String → Bool
is_custom_group_node_key key = text_starts_with key "custom:"

-- `Map.get` of the last entry for a key, as `new Map(rows)` keeps it.
abbrev pub or_later {ℓ} : {A : Type ℓ} → Option A → Option A → Option A
or_later (some a) earlier = some a
or_later none earlier = earlier

unfoldable pub last_with {ℓ} : {A : Type ℓ} → (A → Bool) → List A → Option A
last_with p [] = none
last_with p (x ∷ xs) = or_later (last_with p xs) (if p x then some x else none)

abbrev pub has_key : List String → String → Bool
has_key keys key = any (λ k. str_eq k key) keys

-- `${parentKey}/${name}`
abbrev pub child_key : Option String → String → String
child_key none name = name
child_key (some parent) name = concat parent (concat "/" name)

abbrev pub scope_of : Option String → String
scope_of none = "@top"
scope_of (some parent) = parent

-- How far `configFromDefaults` has come: rows in order, and one scope for each order that was given.
pub record Progress : Type 0 where
  pub groups : List MenuGroupConfigRow
  pub items : List MenuItemConfigRow
  pub orders : List String

-- `nextOrder`
abbrev pub next_order : Progress → String → ℕ
next_order s scope = length (keep_if (λ o. str_eq o scope) s.orders)

abbrev pub add_group : Progress → Option String → String → Progress
add_group s parent key = if has_key (map (λ g. g.node_key) s.groups) key then s else record s {
  groups =
      s.groups
      ++ record {
        node_key = key;
        parent_key = parent;
        name_override = none;
        sort_order = next_order s (scope_of parent);
      }
        ∷ [];
  orders = scope_of parent ∷ s.orders;
}

-- The groups along a path of names; the key of the last one is the parent of the item.
add_path : Progress → Option String → List String → Progress × Option String
add_path s parent [] = (s, parent)
add_path s parent (name ∷ names) =
    add_path (add_group s parent (child_key parent name)) (some (child_key parent name)) names

-- `[item.group, item.subGroup].filter(Boolean)`
abbrev pub named : Option String → List String
named none = []
named (some name) = if str_eq name "" then [] else name ∷ []

abbrev pub add_item : Progress × Option String → NavigationItem → Progress
add_item (s, parent) item = record s {
  items =
      s.items
      ++ record {
        item_key = item.key;
        parent_key = parent;
        name_override = none;
        sort_order = next_order s (scope_of parent);
      }
        ∷ [];
  orders = scope_of parent ∷ s.orders;
}

add_items : Progress → List NavigationItem → Progress
unfolding add_path
add_items s [] = s
add_items s (item ∷ items) =
    add_items (add_item (add_path s none (named item.group ++ named item.sub_group)) item) items

unfoldable pub config_from_defaults : List NavigationItem → SystemMenuConfig
unfolding add_items
config_from_defaults defaults =
    let s = add_items (record { groups = []; items = []; orders = [] }) defaults in
    record { groups = s.groups; items = s.items }

-- `new Set(keys)`: each key once, where it stands first.
unfoldable pub distinct_keys : List String → List String → List String
distinct_keys seen [] = []
distinct_keys seen (k ∷ ks) =
    if has_key seen k then distinct_keys seen ks else k ∷ distinct_keys (k ∷ seen) ks

abbrev pub find_group : List MenuGroupConfigRow → String → Option MenuGroupConfigRow
find_group rows key = last_with (λ row. str_eq row.node_key key) rows

abbrev pub find_item : List MenuItemConfigRow → String → Option MenuItemConfigRow
find_item rows key = last_with (λ row. str_eq row.item_key key) rows

unfoldable pub all_group_keys : SystemMenuConfig → SystemMenuConfig → List String
unfolding is_custom_group_node_key distinct_keys
all_group_keys identity config = distinct_keys [] (
    map (λ row. row.node_key) identity.groups
    ++ map (λ row. row.node_key)
        (keep_if (λ row. is_custom_group_node_key row.node_key) config.groups))

-- A desired parent that is the group itself or no group falls back.
abbrev pub valid_parent : List String → String → Option String → Option String → Option String
valid_parent keys key fallback none = none
valid_parent keys key fallback (some desired) =
    if str_eq desired key || not (has_key keys desired) then fallback else some desired

abbrev pub parent_of_row : Option MenuGroupConfigRow → Option String
parent_of_row none = none
parent_of_row (some row) = row.parent_key

abbrev pub candidate_for :
    List String → String → Option MenuGroupConfigRow → Option MenuGroupConfigRow → Option String
candidate_for keys key (some base) (some row) = valid_parent keys key base.parent_key row.parent_key
candidate_for keys key (some base) none = valid_parent keys key base.parent_key base.parent_key
candidate_for keys key none (some row) =
    if is_custom_group_node_key key then valid_parent keys key none row.parent_key else none
candidate_for keys key none none = none

-- `candidateParent.get(key) ?? null`
unfoldable pub candidate_parent : SystemMenuConfig → SystemMenuConfig → String → Option String
unfolding all_group_keys last_with
candidate_parent identity config key =
    candidate_for (all_group_keys identity config) key (find_group identity.groups key)
      (find_group config.groups key)

-- `identityParent.get(key) ?? null`
unfoldable pub identity_parent : SystemMenuConfig → String → Option String
unfolding last_with
identity_parent identity key = parent_of_row (find_group identity.groups key)
