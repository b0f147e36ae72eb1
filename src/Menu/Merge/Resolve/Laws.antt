-- ===== src/Menu/Merge/Resolve/Laws.antt =====
-- The merge always returns a menu, and its groups form a forest.
use wbme.Common.{
  Bool, any, ◌||◌, ℕ, suc, ◌<◌, ◌≡◌, refl, sym, ap, ◌∙◌, subst, true, false, Bool-cases, inl, inr,
  ◌⊎◌, Option, none, some, some-injective, List, [], ◌∷◌, ◌++◌, map, String, str_eq, eq_iff, All,
  All-imp, All-map, length,
}
use wbme.Menu.Editor.Serialize.{MenuGroupConfigRow, SystemMenuConfig}
use wbme.Menu.Merge.{
  NavigationItem, has_key, distinct_keys, all_group_keys, valid_parent, parent_of_row,
  candidate_for, candidate_parent, identity_parent, config_from_defaults, find_group,
  is_custom_group_node_key,
}
use wbme.Menu.Merge.Identity.{IsKnown, keys_of, config_from_defaults-HasParents, last_with-All}
use wbme.Menu.Merge.Parents.{Done, find_parent}
use wbme.Menu.Merge.Parents.Laws.{IsDone, Grounded, resolve_all-Grounded}
use wbme.Menu.Merge.Parents.Climb.{reaches_top, resolve_all-reaches_top}
use wbme.Menu.Merge.Parents.Termination.{resolve_all_returns}
use wbme.Menu.Merge.Parents.Respect.{resolve_all-Respects}
use wbme.Menu.Merge.Resolve.Placement.{IsPlaced, configured_by, candidate_parent-IsPlaced}
use wbme.Menu.Merge.Resolve.{
  ResolvedMenu, ResolvedMenuGroupRow, resolved_parents, resolve_group, resolve_menu_config, menu_of,
  flatten,
}

has_key-append-left :
    (ks ls : List String) (p : String) → has_key ks p ≡ true → has_key (ks ++ ls) p ≡ true
has_key-append-left [] ls p h = absurd (cc h)
has_key-append-left (k ∷ ks) ls p h = elim (Bool-cases (str_eq k p)) [
  | inl t ↦ rw t refl
  | inr t ↦ rw t (has_key-append-left ks ls p (rw t at h))
]

has_key-distinct_keys :
    (seen ks : List String) (p : String)
    → has_key ks p ≡ true
    → has_key seen p ≡ false
    → has_key (distinct_keys seen ks) p ≡ true
unfolding distinct_keys
has_key-distinct_keys seen [] p h new = absurd (cc h)
has_key-distinct_keys seen (k ∷ ks) p h new = elim (Bool-cases (str_eq k p)) [
  | inl t ↦ rw (ap (has_key seen) ((eq_iff k p).0 t) ∙ new, t) refl
  | inr t ↦ elim (Bool-cases (has_key seen k)) [
    | inl s ↦ rw s (has_key-distinct_keys seen ks p (rw t at h) new)
    | inr s ↦ rw (s, t) (has_key-distinct_keys (k ∷ seen) ks p (rw t at h) (rw (t, new) refl))
  ]
]

valid_parent-IsKnown :
    (keys : List String) (key : String) (fallback o : Option String)
    → IsKnown keys fallback
    → IsKnown keys (valid_parent keys key fallback o)
valid_parent-IsKnown keys key fallback none h = tt
valid_parent-IsKnown keys key fallback (some desired) h = elim (Bool-cases (str_eq desired key)) [
  | inl t ↦ rw t h
  | inr t ↦ elim (Bool-cases (has_key keys desired)) [ inl s ↦ rw (t, s) s | inr s ↦ rw (t, s) h ]
]

IsKnown-eq :
    (keys : List String) (o : Option String) (p : String)
    → IsKnown keys o
    → o ≡ some p
    → has_key keys p ≡ true
IsKnown-eq keys none p h e = absurd (cc e)
IsKnown-eq keys (some q) p h e = subst (λ k. has_key keys k ≡ true) (some-injective e) h

module _ (defaults : List NavigationItem) (config : SystemMenuConfig) where
  abbrev pub identity : SystemMenuConfig
  identity = config_from_defaults defaults

  abbrev keys : List String
  keys = all_group_keys identity config

  IsKnown-keys : (o : Option String) → IsKnown (keys_of identity.groups) o → IsKnown keys o
  unfolding all_group_keys
  IsKnown-keys none h = tt
  IsKnown-keys (some p) h =
      has_key-distinct_keys [] _ p (has_key-append-left (keys_of identity.groups) _ p h) refl

  base_parent :
      (key : String) (base : MenuGroupConfigRow)
      → find_group identity.groups key ≡ some base
      → IsKnown keys base.parent_key
  base_parent key base e = IsKnown-keys base.parent_key (
      last_with-All (λ g. IsKnown (keys_of identity.groups) g.parent_key) _ identity.groups base
        (config_from_defaults-HasParents defaults) e)

  candidate_for-IsKnown :
      (key : String) (o row : Option MenuGroupConfigRow)
      → find_group identity.groups key ≡ o
      → IsKnown keys (candidate_for keys key o row)
  candidate_for-IsKnown key (some base) (some row) e =
      valid_parent-IsKnown keys key base.parent_key row.parent_key (base_parent key base e)
  candidate_for-IsKnown key (some base) none e =
      valid_parent-IsKnown keys key base.parent_key base.parent_key (base_parent key base e)
  candidate_for-IsKnown key none (some row) e = elim (Bool-cases (is_custom_group_node_key key)) [
    | inl t ↦ rw t (valid_parent-IsKnown keys key none row.parent_key tt)
    | inr t ↦ rw t tt
  ]
  candidate_for-IsKnown key none none e = tt

  parent_of_row-IsKnown :
      (key : String) (o : Option MenuGroupConfigRow)
      → find_group identity.groups key ≡ o
      → IsKnown keys (parent_of_row o)
  parent_of_row-IsKnown key none e = tt
  parent_of_row-IsKnown key (some base) e = base_parent key base e

  closed :
      (k p : String)
      → (candidate_parent identity config k ≡ some p) ⊎ (identity_parent identity k ≡ some p)
      → has_key keys p ≡ true
  unfolding candidate_parent identity_parent
  closed k p (inl e) =
      IsKnown-eq keys _ p
        (candidate_for-IsKnown k (find_group identity.groups k) (find_group config.groups k) refl) e
  closed k p (inr e) =
      IsKnown-eq keys _ p (parent_of_row-IsKnown k (find_group identity.groups k) refl) e

  resolved_parents_returns : (d : Done) × (resolved_parents identity config ≡ some d)
  unfolding resolved_parents
  resolved_parents_returns =
      resolve_all_returns (candidate_parent identity config) (identity_parent identity) keys closed

  abbrev Agrees : Done → ResolvedMenuGroupRow → Type 0
  Agrees d g = find_parent g.node_key d ≡ some g.parent_key

  resolve_group-Agrees :
      (d : Done) (ks : List String)
      → All (λ key. IsDone key d) ks
      → All (Agrees d) (map (resolve_group identity config d) ks)
  unfolding resolve_group
  resolve_group-Agrees d ks h = All-map (Agrees d) (resolve_group identity config d) ks (
      All-imp (λ key. IsDone key d) (λ key. Agrees d (resolve_group identity config d key)) ks
        (λ key x. x.1 ∙ ap (λ o. some (flatten o)) (sym x.1)) h)

  menu_groups :
      (d : Done) (m : ResolvedMenu)
      → resolved_parents identity config ≡ some d
      → resolve_menu_config defaults config ≡ some m
      → map (resolve_group identity config d) keys ≡ m.groups
  unfolding resolve_menu_config
  menu_groups d m ed em = ap (λ r. r.groups) (some-injective (rw ed at em))

  menu_from :
      (o : Option Done) (d : Done)
      → o ≡ some d
      → (m : ResolvedMenu) × (menu_of identity config o ≡ some m)
        × (map (resolve_group identity config d) keys ≡ m.groups)
  menu_from none d e = absurd (cc e)
  menu_from (some c) d e =
      (_, refl, ap (λ r. map (resolve_group identity config r) keys) (sym (some-injective e)))

  -- The merge returns a menu, whatever is configured, cycles and missing groups included; and in it
  -- the parents of every group lead to the top, after at most as many steps as groups are done.
  pub resolve_menu_config_returns :
      (m : ResolvedMenu) × (d : Done) × (resolve_menu_config defaults config ≡ some m)
      × All (λ g. find_parent g.node_key d ≡ some g.parent_key) m.groups
      × All (λ g. reaches_top (length d) d g.node_key ≡ true) m.groups
  unfolding resolve_menu_config resolved_parents resolve_group Grounded
  resolve_menu_config_returns =
      let (d, ed) = resolved_parents_returns in
      let (_, _, all_done) =
        resolve_all-Grounded (candidate_parent identity config) (identity_parent identity)
          (suc (length keys)) [] keys tt ed in
      let top =
        resolve_all-reaches_top (candidate_parent identity config) (identity_parent identity)
          (suc (length keys)) keys d ed in
      let (m, em, groups) = menu_from (resolved_parents identity config) d ed in
      (
        m,
        d,
        em,
        subst (All (Agrees d)) groups (resolve_group-Agrees d keys all_done),
        subst (All (λ g. reaches_top (length d) d g.node_key ≡ true)) groups (
            All-map (λ g. reaches_top (length d) d g.node_key ≡ true)
              (resolve_group identity config d) keys top),
      )

  -- Where the configured parents form no cycle, every group has the parent that the search starts
  -- from.
  respects_candidates :
      (rank : String → ℕ) (m : ResolvedMenu)
      → ((k p : String) → candidate_parent identity config k ≡ some p → rank p < rank k)
      → resolve_menu_config defaults config ≡ some m
      → All (λ g. g.parent_key ≡ candidate_parent identity config g.node_key) m.groups
  unfolding resolved_parents resolve_group Grounded
  respects_candidates rank m descends em =
      let (d, ed) = resolved_parents_returns in
      let (_, _, all_done) =
        resolve_all-Grounded (candidate_parent identity config) (identity_parent identity)
          (suc (length keys)) [] keys tt ed in
      subst (All (λ g. g.parent_key ≡ candidate_parent identity config g.node_key))
        (menu_groups d m ed em)
        (All-map (λ g. g.parent_key ≡ candidate_parent identity config g.node_key)
          (resolve_group identity config d) keys
          (All-imp (λ key. IsDone key d)
            (λ key. flatten (find_parent key d) ≡ candidate_parent identity config key) keys
            (λ key x.
              ap flatten x.1
              ∙ resolve_all-Respects (candidate_parent identity config) (identity_parent identity)
                  rank descends (suc (length keys)) keys d ed key x.0 x.1)
            all_done))

  abbrev CandidateIsPlaced : (String → Bool) → String → Type 0
  CandidateIsPlaced is_group key =
      IsPlaced is_group key (identity_parent identity key)
        (configured_by (find_group config.groups key)) (candidate_parent identity config key)

  IsPlaced-with :
      (groups : List ResolvedMenuGroupRow) (is_group : String → Bool)
      → All (λ g. CandidateIsPlaced is_group g.node_key) groups
      → All (λ g. g.parent_key ≡ candidate_parent identity config g.node_key) groups
      → All
          (λ g.
            IsPlaced is_group g.node_key
              (identity_parent identity g.node_key)
              (configured_by (find_group config.groups g.node_key))
              g.parent_key)
          groups
  IsPlaced-with [] is_group h k = tt
  IsPlaced-with (g ∷ groups) is_group h k = (
    subst
        (IsPlaced is_group g.node_key (identity_parent identity g.node_key)
          (configured_by (find_group config.groups g.node_key)))
        (sym k.0) h.0,
    IsPlaced-with groups is_group h.1 k.1,
  )

  -- A group of the menu has this key.
  abbrev pub has_group : ResolvedMenu → String → Bool
  has_group m key = any (λ g. str_eq g.node_key key) m.groups

  has_group-resolved :
      (d : Done) (ks : List String) (key : String)
      → has_key ks key ≡ any (λ g. str_eq g.node_key key) (map (resolve_group identity config d) ks)
  unfolding resolve_group
  has_group-resolved d [] key = refl
  has_group-resolved d (k ∷ ks) key = ap (λ b. str_eq k key || b) (has_group-resolved d ks key)

  -- If the parents that are configured form no cycle, in that some number falls from each group to
  -- its parent, every group of the menu has the parent that its last row in the configuration
  -- names, the top included, if that is another group of the menu; it has its default parent if
  -- there is no such row, or the row names the group itself or no group of the menu. The default of
  -- a custom group is the top.
  pub resolve_menu_config_respects :
      (rank : String → ℕ) (m : ResolvedMenu)
      → ((k p : String) → candidate_parent identity config k ≡ some p → rank p < rank k)
      → resolve_menu_config defaults config ≡ some m
      → All
          (λ g.
            IsPlaced
              (has_group m)
              g.node_key
              (identity_parent identity g.node_key)
              (configured_by (find_group config.groups g.node_key))
              g.parent_key)
          m.groups
  unfolding resolve_group
  resolve_menu_config_respects rank m descends em =
      let (d, ed) = resolved_parents_returns in
      let groups = menu_groups d m ed em in
      let same : has_key keys ≡ has_group m =
        λ i key. (has_group-resolved d keys key ∙ ap (any (λ g. str_eq g.node_key key)) groups) i in
      let placed : All (λ g. CandidateIsPlaced (has_group m) g.node_key) m.groups =
        subst (All (λ g. CandidateIsPlaced (has_group m) g.node_key)) groups (
          All-map (λ g. CandidateIsPlaced (has_group m) g.node_key)
            (resolve_group identity config d) keys
            (subst (λ f. All (CandidateIsPlaced f) keys) same
              (candidate_parent-IsPlaced identity config))) in
      IsPlaced-with m.groups (has_group m) placed (respects_candidates rank m descends em)
