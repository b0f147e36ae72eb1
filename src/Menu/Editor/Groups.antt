-- ===== src/Menu/Editor/Groups.antt =====
-- Making, deleting and renaming groups.
use wbme.Common.{
  ℕ, ◌+◌, ◌≤◌, ◌≡◌, refl, sym, ap, ◌∙◌, subst, String, arith, Option, none, some, List, Bool, true,
  false, Bool-cases, inl, inr, str_eq, ◌↔◌,
}
use mathlib.Core.Option.{some-injective}
use wbme.Menu.Editor.{
  Node, Nodes, item, group, nil, cons, drag_group, matches_drag, Removal, find_group_node,
  delete_group_node, has_no_children, next_of, remove_node, rename_editor_node, rename_walk,
  rename_found, name_of, RenameRef, is_renamed_item, is_renamed_group,
}
use wbme.Menu.Editor.Counting.{Label, item_label, group_label, count, count_node, one}
use wbme.Menu.Editor.Remove.{remove_node-IsTaken, remove_node-find, taken-count}
use wbme.Menu.Editor.Laws.{HasUniqueKeys}

empty_group-count :
    (q : Label → Bool) (key : String) (name : Option (List ℕ))
    → count_node q (group key name nil) ≡ one (q (group_label key name))
unfolding count_node count
empty_group-count q key name = omega arith

no_children_inv :
    (o : Option Node)
    → has_no_children o ≡ true
    → (k : String) × (name : Option (List ℕ)) × (o ≡ some (group k name nil))
no_children_inv none h = absurd (cc)
no_children_inv (some (item k n)) h = absurd (cc)
no_children_inv (some (group k n nil)) h = (k, n, refl)
no_children_inv (some (group k n (cons x xs))) h = absurd (cc)

next_inv :
    (o : Option Removal) (after : Nodes)
    → next_of o ≡ some after
    → (r : Removal) × (o ≡ some r) × (r.next ≡ after)
next_inv none after h = absurd (cc)
next_inv (some r) after h = (r, refl, some-injective r.next after h)

-- Where group keys are unique, deleting a group takes exactly one node out of the tree, and it is
-- a group with that key and without children.
pub delete_group_node-count :
    (key : String) (state after : Nodes)
    → HasUniqueKeys state
    → delete_group_node key state ≡ some after
    → (k : String) × (name : Option (List ℕ)) × (str_eq k key ≡ true)
      × ((q : Label → Bool) → count q after + one (q (group_label k name)) ≡ count q state)
unfolding delete_group_node
delete_group_node-count key state after u h =
    elim (Bool-cases (has_no_children (find_group_node key state))) [
      | inr e ↦ absurd (cc (rw (e, delete_group_node) at h))
      | inl e ↦
          let (r, taken, same) =
            next_inv (remove_node (drag_group key) state) after (rw (e, delete_group_node) at h) in
          let parts = remove_node-IsTaken (drag_group key) state r taken in
          let least = taken-count key state r parts in
          let found = remove_node-find key state r (omega (arith, u key)) taken in
          let (k, name, empty) = no_children_inv (find_group_node key state) e in
          let which = some-injective _ _ (sym found ∙ empty) in
          (
            k,
            name,
            subst (λ x. matches_drag (drag_group key) x ≡ true) which parts.named,
            λ q. omega (
              arith,
              parts.counts q,
              ap (count q) same,
              ap (count_node q) which,
              empty_group-count q k name,
            ),
          )
    ]

-- A test that does not look at names.
abbrev pub by_key : (Bool → String → Bool) → Label → Bool
by_key q (item_label k n) = q false k
by_key q (group_label k n) = q true k

-- What a rename reference names.
abbrev pub is_target : RenameRef → Label → Bool
is_target target (item_label k n) = is_renamed_item target k
is_target target (group_label k n) = is_renamed_group target k

walk-count :
    (q : Bool → String → Bool) (target : RenameRef) (name : Option (List ℕ)) (xs : Nodes)
    → count (by_key q) (rename_walk target name xs) ≡ count (by_key q) xs
unfolding rename_walk count
walk-count q target name nil = refl
walk-count q target name (cons (item k n) rest) =
    ap (λ m. one (q false k) + m) (walk-count q target name rest)
walk-count q target name (cons (group k n cs) rest) =
    elim (Bool-cases (is_renamed_group target k)) [
      | inl e ↦ rw e (omega (arith, walk-count q target name rest))
      | inr e ↦ rw e (omega (arith, walk-count q target name rest, walk-count q target name cs))
    ]

found-count :
    (target : RenameRef) (xs : Nodes)
    → rename_found target xs ≡ true
    → 1 ≤ count (is_target target) xs
unfolding rename_found count
found-count target nil h = absurd (cc)
found-count target (cons (item k n) rest) h = elim (Bool-cases (is_renamed_item target k)) [
  | inl e ↦ rw e (omega arith)
  | inr e ↦ omega (arith, found-count target rest (rw (e, rename_found) at h))
]
found-count target (cons (group k n cs) rest) h = elim (Bool-cases (is_renamed_group target k)) [
  | inl e ↦ rw e (omega arith)
  | inr e ↦ elim (Bool-cases (rename_found target cs)) [
    | inl f ↦ omega (arith, found-count target cs f)
    | inr f ↦ omega (arith, found-count target rest (rw (f) at (rw (e, rename_found) at h)))
  ]
]

not_found-count :
    (target : RenameRef) (xs : Nodes)
    → rename_found target xs ≡ false
    → count (is_target target) xs ≡ 0
unfolding rename_found count
not_found-count target nil h = refl
not_found-count target (cons (item k n) rest) h = ground (arith, not_found-count target rest)
not_found-count target (cons (group k n cs) rest) h =
    elim (Bool-cases (is_renamed_group target k)) [
      | inl e ↦ absurd (cc (rw (e, rename_found) at h))
      | inr e ↦ elim (Bool-cases (rename_found target cs)) [
        | inl f ↦ absurd (cc (rw (f) at (rw (e, rename_found) at h)))
        | inr f ↦ rw e (
            omega (
              arith,
              not_found-count target cs f,
              not_found-count target rest (rw (f) at (rw (e, rename_found) at h)),
            ))
      ]
    ]

-- A rename keeps how many nodes of each kind and key there are.
pub rename_editor_node-count :
    (state : Nodes) (target : RenameRef) (raw_name : List ℕ) (after : Nodes)
    (q : Bool → String → Bool)
    → rename_editor_node state target raw_name ≡ some after
    → count (by_key q) after ≡ count (by_key q) state
unfolding rename_editor_node
rename_editor_node-count state target raw_name after q h =
    elim (Bool-cases (rename_found target state)) [
      | inl e ↦
          ap (count (by_key q)) (sym (some-injective _ _ (rw (e, rename_editor_node) at h)))
          ∙ walk-count q target (name_of raw_name) state
      | inr e ↦ absurd (cc (rw (e, rename_editor_node) at h))
    ]

-- A rename is refused exactly when the tree has no node of the kind and key that it names.
pub rename_editor_node-eq-none_iff :
    (state : Nodes) (target : RenameRef) (raw_name : List ℕ)
    → (rename_editor_node state target raw_name ≡ none) ↔ (count (is_target target) state ≡ 0)
unfolding rename_editor_node
rename_editor_node-eq-none_iff state target raw_name = (
  λ h. elim (Bool-cases (rename_found target state)) [
    | inl e ↦ absurd (cc (rw (e, rename_editor_node) at h))
    | inr e ↦ not_found-count target state e
  ],
  λ h. elim (Bool-cases (rename_found target state)) [
    | inl e ↦ absurd (omega (arith, found-count target state e))
    | inr e ↦ rw (e, rename_editor_node) refl
  ],
)
