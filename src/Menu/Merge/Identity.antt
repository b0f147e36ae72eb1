-- ===== src/Menu/Merge/Identity.antt =====
-- The default groups: each parent is a group that stands before.
use wbme.Common.{
  ◌≡◌, refl, ◌∙◌, subst, Bool, true, Bool-cases, inl, inr, Option, none, some, Option-cases,
  some-injective, List, [], ◌∷◌, ◌++◌, map, String, str_eq, eq_refl, All, All-append, All-imp,
  arith,
}
use wbme.Menu.Editor.Serialize.{MenuGroupConfigRow}
use wbme.Menu.Merge.{
  NavigationItem, Progress, has_key, add_group, add_path, add_item, add_items, child_key,
  config_from_defaults, named, last_with,
}

abbrev pub keys_of : List MenuGroupConfigRow → List String
keys_of rows = map (λ g. g.node_key) rows

-- A place that exists: the top, or a known group.
abbrev pub IsKnown : List String → Option String → Type 0
IsKnown keys none = Unit
IsKnown keys (some p) = has_key keys p ≡ true

abbrev pub HasParents : List MenuGroupConfigRow → Type 0
HasParents rows = All (λ g. IsKnown (keys_of rows) g.parent_key) rows

has_key-append :
    (rows more : List MenuGroupConfigRow) (p : String)
    → has_key (keys_of rows) p ≡ true
    → has_key (keys_of (rows ++ more)) p ≡ true
has_key-append [] more p h = absurd (cc h)
has_key-append (r ∷ rows) more p h = elim (Bool-cases (str_eq r.node_key p)) [
  | inl t ↦ rw t refl
  | inr t ↦ rw t (has_key-append rows more p (rw t at h))
]

IsKnown-append :
    (rows more : List MenuGroupConfigRow) (parent : Option String)
    → IsKnown (keys_of rows) parent
    → IsKnown (keys_of (rows ++ more)) parent
IsKnown-append rows more none h = tt
IsKnown-append rows more (some p) h = has_key-append rows more p h

has_key-last :
    (rows : List MenuGroupConfigRow) (row : MenuGroupConfigRow)
    → has_key (keys_of (rows ++ row ∷ [])) row.node_key ≡ true
has_key-last [] row = ground (arith, eq_refl row.node_key)
has_key-last (r ∷ rows) row = ground (arith, has_key-last rows row)

HasParents-last :
    (rows : List MenuGroupConfigRow) (row : MenuGroupConfigRow)
    → HasParents rows
    → IsKnown (keys_of rows) row.parent_key
    → HasParents (rows ++ row ∷ [])
HasParents-last rows row h known =
    All-append (λ g. IsKnown (keys_of (rows ++ row ∷ [])) g.parent_key) rows (row ∷ [])
      (All-imp (λ g. IsKnown (keys_of rows) g.parent_key)
        (λ g. IsKnown (keys_of (rows ++ row ∷ [])) g.parent_key) rows
        (λ g x. IsKnown-append rows (row ∷ []) g.parent_key x) h)
      (IsKnown-append rows (row ∷ []) row.parent_key known, tt)

-- Registering a group at a place that exists gives a place that exists.
add_group-HasParents :
    (s : Progress) (parent : Option String) (key : String)
    → HasParents s.groups
    → IsKnown (keys_of s.groups) parent
    → HasParents (add_group s parent key).groups
      × IsKnown (keys_of (add_group s parent key).groups) (some key)
add_group-HasParents s parent key h known = elim (Bool-cases (has_key (keys_of s.groups) key)) [
  | inl t ↦ rw t (h, t)
  | inr t ↦ rw t (HasParents-last s.groups _ h known, has_key-last s.groups _)
]

add_path-HasParents :
    (s : Progress) (parent : Option String) (names : List String)
    → HasParents s.groups
    → IsKnown (keys_of s.groups) parent
    → HasParents (add_path s parent names).0.groups
unfolding add_path
add_path-HasParents s parent [] h known = h
add_path-HasParents s parent (name ∷ names) h known =
    let (g, k) = add_group-HasParents s parent (child_key parent name) h known in
    add_path-HasParents (add_group s parent (child_key parent name)) (some (child_key parent name))
      names g k

add_items-HasParents :
    (s : Progress) (items : List NavigationItem)
    → HasParents s.groups
    → HasParents (add_items s items).groups
unfolding add_items
add_items-HasParents s [] h = h
add_items-HasParents s (item ∷ items) h =
    add_items-HasParents
      (add_item (add_path s none (named item.group ++ named item.sub_group)) item) items
      (add_path-HasParents s none (named item.group ++ named item.sub_group) h tt)

pub config_from_defaults-HasParents :
    (defaults : List NavigationItem) → HasParents (config_from_defaults defaults).groups
unfolding config_from_defaults
config_from_defaults-HasParents defaults =
    add_items-HasParents (record { groups = []; items = []; orders = [] }) defaults tt

-- What is found has what every row has.
pub last_with-All :
    {A : Type 0} (P : A → Type 0) (p : A → Bool) (xs : List A) (x : A)
    → All P xs
    → last_with p xs ≡ some x
    → P x
unfolding last_with
last_with-All P p [] x h e = absurd (cc e)
last_with-All P p (y ∷ ys) x h e = elim (Option-cases (last_with p ys)) [
  | inl nothing ↦ elim (Bool-cases (p y)) [
    | inl t ↦ subst P (some-injective (rw (nothing, t) at e)) h.0
    | inr t ↦ absurd (cc (rw (nothing, t) at e))
  ]
  | inr (z, there) ↦ last_with-All P p ys x h.1 (there ∙ rw there at e)
]
