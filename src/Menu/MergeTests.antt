-- ===== src/Menu/MergeTests.antt =====
-- The merge at concrete configurations.
use wbme.Common.{
  ℕ, ◌<◌, ◌≡◌, refl, Option, none, some, some-injective, subst, eq_iff, List, [], ◌∷◌, String, All,
  arith, length, true, Bool-cases, str_eq, inl, inr, if◌then◌else◌,
}
use wbme.Menu.Editor.Serialize.{MenuGroupConfigRow, SystemMenuConfig}
use wbme.Menu.Merge.{
  NavigationItem, config_from_defaults, candidate_parent, identity_parent, find_group,
}
use wbme.Menu.Merge.Parents.{Done, find_parent}
use wbme.Menu.Merge.Parents.Climb.{reaches_top}
use wbme.Menu.Merge.Resolve.{ResolvedMenu, resolved_parents, resolve_menu_config}
use wbme.Menu.Merge.Resolve.Placement.{IsPlaced, configured_by}
use wbme.Menu.Merge.Resolve.Laws.{
  has_group, resolve_menu_config_returns, resolve_menu_config_respects,
}

abbrev no_name : Option (List ℕ)
no_name = none

abbrev two_groups : List NavigationItem
two_groups =
    record { key = "a"; label = []; group = some "g"; sub_group = none }
    ∷ record { key = "b"; label = []; group = some "h"; sub_group = none }
    ∷ []

abbrev row : String → String → MenuGroupConfigRow
row key parent = record {
  node_key = key;
  parent_key = some parent;
  name_override = no_name;
  sort_order = 0;
}

-- Each group is put below the other.
abbrev cycle : SystemMenuConfig
cycle = record { groups = row "g" "h" ∷ row "h" "g" ∷ []; items = [] }

-- The second group is put below the first.
abbrev nested : SystemMenuConfig
nested = record { groups = row "h" "g" ∷ []; items = [] }

cycle_broken :
    resolved_parents (config_from_defaults two_groups) cycle
    ≡ some (("g", some "h") ∷ ("h", none) ∷ [])
unfolding resolved_parents config_from_defaults
cycle_broken = refl

resolve_menu_config_returns_example :
    (m : ResolvedMenu) × (d : Done) × (resolve_menu_config two_groups cycle ≡ some m)
    × All (λ g. find_parent g.node_key d ≡ some g.parent_key) m.groups
    × All (λ g. reaches_top (length d) d g.node_key ≡ true) m.groups
resolve_menu_config_returns_example = resolve_menu_config_returns two_groups cycle

abbrev depth : String → ℕ
depth key = if str_eq key "h" then 1 else 0

abbrev nested_parent : String → Option String
nested_parent key = candidate_parent (config_from_defaults two_groups) nested key

nested_descends : (k p : String) → nested_parent k ≡ some p → depth p < depth k
unfolding candidate_parent config_from_defaults
nested_descends k p e = elim (Bool-cases (str_eq "h" k)) [
  | inl t ↦
      subst (λ j. nested_parent j ≡ some p → depth p < depth j) ((eq_iff "h" k).0 t)
        (λ f. subst (λ q. depth q < depth "h") (some-injective f) (omega arith)) e
  | inr t ↦ elim (Bool-cases (str_eq "g" k)) [
    | inl s ↦ absurd (cc (rw (t, s) at e))
    | inr s ↦ absurd (cc (rw (t, s) at e))
  ]
]

abbrev nested_menu : ResolvedMenu
nested_menu = record {
  items =
      record {
        item_key = "a";
        name_override = no_name;
        parent_key = some "g";
        order = none;
        default_index = 0;
      }
      ∷ record {
        item_key = "b";
        name_override = no_name;
        parent_key = some "h";
        order = none;
        default_index = 1;
      }
      ∷ [];
  groups =
      record {
        node_key = "g";
        parent_key = none;
        name_override = no_name;
        order = none;
        default_index = some 0;
      }
      ∷ record {
        node_key = "h";
        parent_key = some "g";
        name_override = no_name;
        order = some 0;
        default_index = some 1;
      }
      ∷ [];
}

nested_resolved : resolve_menu_config two_groups nested ≡ some nested_menu
unfolding resolve_menu_config
nested_resolved = refl

resolve_menu_config_respects_example :
    All
      (λ g.
        IsPlaced
          (has_group two_groups nested nested_menu)
          g.node_key
          (identity_parent (config_from_defaults two_groups) g.node_key)
          (configured_by (find_group nested.groups g.node_key))
          g.parent_key)
      nested_menu.groups
resolve_menu_config_respects_example =
    resolve_menu_config_respects two_groups nested depth nested_menu nested_descends nested_resolved
