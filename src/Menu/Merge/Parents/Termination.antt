-- ===== src/Menu/Merge/Parents/Termination.antt =====
-- The search ends: the chain of calls visits no group twice.
use wbme.Common.{
  ℕ, zero, suc, ◌≤◌, ◌<◌, ◌≡◌, refl, sym, subst, true, false, not, Bool-cases, inl, inr, ◌⊎◌,
  Option, none, some, Option-cases, List, [], ◌∷◌, String, str_eq, eq_iff, eq_refl, All, arith,
  length, count_if,
}
use wbme.Menu.Merge.{has_key}
use wbme.Menu.Merge.Parents.{
  Done, find_parent, usable, choose, finish, settle, resolve_node, resolve_all,
}
use wbme.Menu.Merge.Parents.Laws.{choose-visiting}

-- The groups that are not being visited.
abbrev unvisited : List String → List String → ℕ
unvisited visiting keys = count_if (λ k. not (has_key visiting k)) keys

unvisited-cons-le :
    (key : String) (visiting keys : List String)
    → unvisited (key ∷ visiting) keys ≤ unvisited visiting keys
unvisited-cons-le key visiting [] = omega arith
unvisited-cons-le key visiting (k ∷ keys) = ground (arith, unvisited-cons-le key visiting keys)

visited_head :
    (key k : String) (visiting keys : List String)
    → k ≡ key
    → has_key visiting key ≡ false
    → unvisited (key ∷ visiting) (k ∷ keys) < unvisited visiting (k ∷ keys)
visited_head key k visiting keys e apart =
    subst (λ j. unvisited (key ∷ visiting) (j ∷ keys) < unvisited visiting (j ∷ keys)) (sym e)
      (ground (arith, eq_refl key, apart, unvisited-cons-le key visiting keys))

unvisited-cons-lt :
    (key : String) (visiting keys : List String)
    → has_key keys key ≡ true
    → has_key visiting key ≡ false
    → unvisited (key ∷ visiting) keys < unvisited visiting keys
unvisited-cons-lt key visiting [] h apart = absurd (cc h)
unvisited-cons-lt key visiting (k ∷ keys) h apart = elim (Bool-cases (str_eq k key)) [
  | inl t ↦ visited_head key k visiting keys ((eq_iff k key).0 t) apart
  | inr t ↦ ground (arith, unvisited-cons-lt key visiting keys (rw t at h) apart)
]

-- What is chosen is one of the two parents.
choose-among :
    (visiting : List String) (c e : Option String) (p : String)
    → choose visiting c e ≡ some p
    → (c ≡ some p) ⊎ (e ≡ some p)
choose-among visiting none e p h = absurd (cc h)
choose-among visiting (some c) e p h = elim (Bool-cases (usable visiting (some c) none)) [
  | inl u ↦ inl (rw u at h)
  | inr u ↦ elim (Bool-cases (usable visiting e (some c))) [
    | inl v ↦ inr (rw (u, v) at h)
    | inr v ↦ absurd (cc (rw (u, v) at h))
  ]
]

has_key-cons :
    (key : String) (keys ks : List String)
    → All (λ k. has_key keys k ≡ true) ks
    → All (λ k. has_key (key ∷ keys) k ≡ true) ks
has_key-cons key keys [] h = tt
has_key-cons key keys (k ∷ ks) h = (ground (arith, h.0), has_key-cons key keys ks h.1)

has_key-All : (keys : List String) → All (λ k. has_key keys k ≡ true) keys
has_key-All [] = tt
has_key-All (key ∷ keys) =
    (ground (arith, eq_refl key), has_key-cons key keys keys (has_key-All keys))

module _ (candidate default_parent : String → Option String) (keys : List String)
    (closed : (k p : String)
      → (candidate k ≡ some p) ⊎ (default_parent k ≡ some p)
      → has_key keys p ≡ true) where
  finish_returns :
      (key p : String) (o : Option Done)
      → ((d : Done) × (o ≡ some d))
      → (e : Done) × (finish key p o ≡ some e)
  finish_returns key p o (d, h) = ((key, some p) ∷ d, rw h refl)

  settle_returns :
      (resolve : String → Option Done) (key : String) (d : Done) (o : Option String)
      → ((p : String) → o ≡ some p → (e : Done) × (resolve p ≡ some e))
      → (e : Done) × (settle resolve key d o ≡ some e)
  settle_returns resolve key d none h = ((key, none) ∷ d, refl)
  settle_returns resolve key d (some p) h = finish_returns key p (resolve p) (h p refl)

  resolve_node_returns :
      (n : ℕ) (visiting : List String) (d : Done) (key : String)
      → has_key keys key ≡ true
      → has_key visiting key ≡ false
      → unvisited visiting keys < n
      → (e : Done) × (resolve_node candidate default_parent n visiting d key ≡ some e)
  unfolding resolve_node
  resolve_node_returns zero visiting d key here apart h = absurd (omega arith)
  resolve_node_returns (suc n) visiting d key here apart h =
      elim (Option-cases (find_parent key d)) [
        | inl new ↦ rw new (
            settle_returns (resolve_node candidate default_parent n (key ∷ visiting) d) key d
              (choose (key ∷ visiting) (candidate key) (default_parent key))
              (λ p chosen.
                resolve_node_returns n (key ∷ visiting) d p
                  (closed key p
                    (choose-among (key ∷ visiting) (candidate key) (default_parent key) p chosen))
                  (choose-visiting (key ∷ visiting) (candidate key) (default_parent key) p chosen)
                  (omega (arith, unvisited-cons-lt key visiting keys here apart))))
        | inr (r, there) ↦ (d, rw there refl)
      ]

  unvisited-nil : (ks : List String) → unvisited [] ks ≤ length ks
  unvisited-nil [] = omega arith
  unvisited-nil (k ∷ ks) = omega (arith, unvisited-nil ks)

  resolve_rest_returns :
      (d : Done) (rest : List String)
      → All (λ k. has_key keys k ≡ true) rest
      → (e : Done) × (resolve_all candidate default_parent (suc (length keys)) d rest ≡ some e)
  unfolding resolve_all
  resolve_rest_returns d [] h = (d, refl)
  resolve_rest_returns d (key ∷ rest) h =
      let (r, er) =
        resolve_node_returns (suc (length keys)) [] d key h.0 refl
          (omega (arith, unvisited-nil keys)) in
      let (e, ee) = resolve_rest_returns r rest h.1 in (e, rw er ee)

-- The search returns, whatever the parents are: with more fuel than there are groups, where
-- candidates and default parents are groups.
pub resolve_all_returns :
    (candidate default_parent : String → Option String) (keys : List String)
    → ((k p : String)
        → (candidate k ≡ some p) ⊎ (default_parent k ≡ some p)
        → has_key keys p ≡ true)
    → (d : Done) × (resolve_all candidate default_parent (suc (length keys)) [] keys ≡ some d)
resolve_all_returns candidate default_parent keys closed =
    resolve_rest_returns candidate default_parent keys closed [] keys (has_key-All keys)
