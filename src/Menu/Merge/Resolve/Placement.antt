-- ===== src/Menu/Merge/Resolve/Placement.antt =====
-- Where the merge places a group.
use wbme.Common.{
  ◌≡◌, ◌≢◌, ◌⊎◌, refl, Bool, true, false, not, ◌||◌, Bool-cases, Option-cases, inl, inr, Option,
  none, some, List, [], ◌∷◌, String, str_eq, eq_iff, All, All-imp, All-map, All-append,
  All-keep_if_test,
}
use wbme.Menu.Editor.Serialize.{MenuGroupConfigRow, SystemMenuConfig}
use wbme.Menu.Merge.{
  has_key, distinct_keys, all_group_keys, valid_parent, parent_of_row, candidate_for,
  candidate_parent, identity_parent, find_group, last_with, is_custom_group_node_key,
}

-- The parent of a group, from what is configured for it (nothing, the top or a group) and its
-- default.
pub data IsPlaced (is_group : String → Bool) (key : String) (default : Option String)
    : (configured : Option (Option String)) (parent : Option String) → Type 0 where
  by_default : IsPlaced is_group key default none default
  at_top : IsPlaced is_group key default (some none) none
  as_configured :
      {q : String}
      → q ≢ key
      → is_group q ≡ true
      → IsPlaced is_group key default (some (some q)) (some q)
  unavailable :
      {q : String}
      → (q ≡ key) ⊎ (is_group q ≡ false)
      → IsPlaced is_group key default (some (some q)) default

-- The parent that a row configures.
abbrev pub configured_by : Option MenuGroupConfigRow → Option (Option String)
configured_by none = none
configured_by (some row) = some row.parent_key

valid_parent-IsPlaced :
    (keys : List String) (key : String) (fallback o : Option String)
    → IsPlaced (has_key keys) key fallback (some o) (valid_parent keys key fallback o)
valid_parent-IsPlaced keys key fallback none = at_top
valid_parent-IsPlaced keys key fallback (some q) = elim (Bool-cases (str_eq q key)) [
  | inl t ↦ rw t (unavailable (inl ((eq_iff q key).0 t)))
  | inr t ↦ elim (Bool-cases (has_key keys q)) [
    | inl s ↦ rw (t, s) (as_configured (λ same. absurd (cc (t, (eq_iff q key).1 same))) s)
    | inr s ↦ rw (t, s) (unavailable (inr s))
  ]
]

-- A default that is checked is itself.
valid_parent-default :
    (keys : List String) (key : String) (o : Option String) → valid_parent keys key o o ≡ o
valid_parent-default keys key none = refl
valid_parent-default keys key (some q) = elim (Bool-cases (str_eq q key || not (has_key keys q))) [
  | inl t ↦ rw t refl
  | inr t ↦ rw t refl
]

candidate_for-IsPlaced :
    (keys : List String) (key : String) (base row : Option MenuGroupConfigRow)
    → (base ≡ none → is_custom_group_node_key key ≡ true)
    → IsPlaced
        (has_key keys)
        key
        (parent_of_row base)
        (configured_by row)
        (candidate_for keys key base row)
candidate_for-IsPlaced keys key (some base) (some row) c =
    valid_parent-IsPlaced keys key base.parent_key row.parent_key
candidate_for-IsPlaced keys key (some base) none c =
    rw (valid_parent-default keys key base.parent_key) by_default
candidate_for-IsPlaced keys key none (some row) c =
    rw (c refl) (valid_parent-IsPlaced keys key none row.parent_key)
candidate_for-IsPlaced keys key none none c = by_default

All-distinct_keys :
    (P : String → Type 0) (seen ks : List String) → All P ks → All P (distinct_keys seen ks)
unfolding distinct_keys
All-distinct_keys P seen [] h = tt
All-distinct_keys P seen (k ∷ ks) h = elim (Bool-cases (has_key seen k)) [
  | inl t ↦ rw t (All-distinct_keys P seen ks h.1)
  | inr t ↦ rw t (h.0, All-distinct_keys P (k ∷ seen) ks h.1)
]

-- A row that is found in the rest is found.
find_later :
    (row : MenuGroupConfigRow) (rows : List MenuGroupConfigRow) (key : String)
    → find_group (row ∷ rows) key ≡ none
    → find_group rows key ≡ none
unfolding last_with
find_later row rows key e = elim (Option-cases (find_group rows key)) [
  | inl n ↦ n
  | inr (r, s) ↦ absurd (cc (rw s at e))
]

find_first :
    (row : MenuGroupConfigRow) (rows : List MenuGroupConfigRow)
    → find_group (row ∷ rows) row.node_key ≡ none
    → ⊥
unfolding last_with
find_first row rows e = elim (Option-cases (find_group rows row.node_key)) [
  | inl n ↦ absurd (cc (rw (n, (eq_iff row.node_key row.node_key).1 refl) at e))
  | inr (r, s) ↦ absurd (cc (rw s at e))
]

keys_found :
    (rows : List MenuGroupConfigRow) → All (λ r. find_group rows r.node_key ≡ none → ⊥) rows
keys_found [] = tt
keys_found (row ∷ rows) = (
  find_first row rows,
  All-imp _ _ rows (λ r f e. f (find_later row rows r.node_key e)) (keys_found rows),
)

module _ (identity config : SystemMenuConfig) where
  abbrev IsCode : String → Type 0
  IsCode key = find_group identity.groups key ≡ none → is_custom_group_node_key key ≡ true

  -- A group of the menu is a default one or a custom one.
  keys-IsCode : All IsCode (all_group_keys identity config)
  unfolding all_group_keys
  keys-IsCode = All-distinct_keys IsCode [] _ (
      All-append IsCode _ _
        (All-map IsCode (λ r. r.node_key) identity.groups
          (All-imp _ _ identity.groups (λ r f e. absurd (f e)) (keys_found identity.groups)))
        (All-map IsCode (λ r. r.node_key) _
          (All-keep_if_test (λ r. IsCode r.node_key) _ config.groups (each config.groups))))
    where
      each :
          (rows : List MenuGroupConfigRow)
          → All (λ r. is_custom_group_node_key r.node_key ≡ true → IsCode r.node_key) rows
      each [] = tt
      each (r ∷ rows) = ((λ t e. t), each rows)

  pub candidate_parent-IsPlaced :
      All
        (λ key.
          IsPlaced
            (has_key (all_group_keys identity config))
            key
            (identity_parent identity key)
            (configured_by (find_group config.groups key))
            (candidate_parent identity config key))
        (all_group_keys identity config)
  unfolding candidate_parent identity_parent
  candidate_parent-IsPlaced =
      All-imp IsCode _ (all_group_keys identity config)
        (λ key c.
          candidate_for-IsPlaced (all_group_keys identity config) key
            (find_group identity.groups key) (find_group config.groups key) c)
        keys-IsCode
