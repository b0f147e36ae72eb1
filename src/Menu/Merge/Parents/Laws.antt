-- ===== src/Menu/Merge/Parents/Laws.antt =====
-- No group is its own ancestor, whatever the candidates are.
use wbme.Common.{
  ℕ, zero, suc, ◌≡◌, refl, ◌∙◌, subst, Bool, true, false, Bool-cases, inl, inr, Option, none, some,
  Option-cases, some-injective, List, [], ◌∷◌, String, str_eq, not, ◌&&◌, eq_iff, eq_refl, All,
  arith,
}
use wbme.Menu.Merge.{has_key}
use wbme.Menu.Merge.Parents.{
  Done, find_parent, usable, differs, choose, finish, settle, with_done, resolve_node, resolve_all,
}

abbrev pub IsDone : String → Done → Type 0
IsDone key d = (r : Option String) × (find_parent key d ≡ some r)

abbrev pub ParentIsDone : Option String → Done → Type 0
ParentIsDone none d = Unit
ParentIsDone (some p) d = IsDone p d

-- Every group was done once, and after its parent.
unfoldable pub Grounded : Done → Type 0
Grounded [] = Unit
Grounded ((key, parent) ∷ d) = (find_parent key d ≡ none) × ParentIsDone parent d × Grounded d

-- What a call does: it does its group, keeps what is done, and leaves what is being visited.
abbrev pub Resolves : List String → Done → String → Done → Type 0
Resolves visiting d key e =
    Grounded e
    × IsDone key e
    × ((k : String) → has_key visiting k ≡ true → find_parent k e ≡ find_parent k d)
    × ((k : String) → IsDone k d → IsDone k e)

pub find_parent_self :
    (key : String) (r : Option String) (d : Done) → find_parent key ((key, r) ∷ d) ≡ some r
unfolding find_parent
find_parent_self key r d = rw (eq_refl key) refl

pub find_parent_other :
    (key k : String) (r : Option String) (d : Done)
    → str_eq key k ≡ false
    → find_parent k ((key, r) ∷ d) ≡ find_parent k d
unfolding find_parent
find_parent_other key k r d h = rw h refl

IsDone-cons : (key k : String) (r : Option String) (d : Done) → IsDone k d → IsDone k ((key, r) ∷ d)
unfolding find_parent
IsDone-cons key k r d h = elim (Bool-cases (str_eq key k)) [
  | inl t ↦ (r, rw t refl)
  | inr t ↦ (h.0, rw t h.1)
]

second : (a b : Bool) → a && not b ≡ true → b ≡ false
second true true h = absurd (cc h)
second true false h = refl
second false b h = absurd (cc h)

has_key-head : (key : String) (keys : List String) → has_key (key ∷ keys) key ≡ true
has_key-head key keys = rw (eq_refl key) refl

has_key-cons :
    (key k : String) (keys : List String) → has_key keys k ≡ true → has_key (key ∷ keys) k ≡ true
has_key-cons key k keys h = ground (arith, h)

apart-ne :
    (visiting : List String) (key k : String)
    → has_key visiting key ≡ false
    → has_key visiting k ≡ true
    → str_eq key k ≡ false
apart-ne visiting key k a b = elim (Bool-cases (str_eq key k)) [
  | inl t ↦ absurd (cc ((eq_iff key k).0 t, a, b))
  | inr t ↦ t
]

-- What a call gains when it puts its group in front.
extend :
    (visiting : List String) (key : String) (r : Option String) (d e : Done)
    → Grounded ((key, r) ∷ e)
    → has_key visiting key ≡ false
    → ((k : String) → has_key visiting k ≡ true → find_parent k e ≡ find_parent k d)
    → ((k : String) → IsDone k d → IsDone k e)
    → Resolves visiting d key ((key, r) ∷ e)
extend visiting key r d e g apart keeps monotone = (
  g,
  (r, find_parent_self key r e),
  (λ k x. find_parent_other key k r e (apart-ne visiting key k apart x) ∙ keeps k x),
  (λ k x. IsDone-cons key k r e (monotone k x)),
)

-- A parent that is usable is not being visited.
usable-visiting :
    (visiting : List String) (o exclude : Option String) (p : String)
    → usable visiting o exclude ≡ true
    → o ≡ some p
    → has_key visiting p ≡ false
usable-visiting visiting none exclude p u e = absurd (cc e)
usable-visiting visiting (some q) exclude p u e =
    subst (λ k. has_key visiting k ≡ false) (some-injective e)
      (second (differs exclude q) (has_key visiting q) u)

-- A parent that is chosen is not being visited.
pub choose-visiting :
    (visiting : List String) (c e : Option String) (p : String)
    → choose visiting c e ≡ some p
    → has_key visiting p ≡ false
choose-visiting visiting none e p h = absurd (cc h)
choose-visiting visiting (some c) e p h = elim (Bool-cases (usable visiting (some c) none)) [
  | inl u ↦ usable-visiting visiting (some c) none p u (rw u at h)
  | inr u ↦ elim (Bool-cases (usable visiting e (some c))) [
    | inl v ↦ usable-visiting visiting e (some c) p v (rw (u, v) at h)
    | inr v ↦ absurd (cc (rw (u, v) at h))
  ]
]

pub finish-eq-some :
    (key p : String) (o : Option Done) {e : Done}
    → finish key p o ≡ some e
    → (d : Done) × (o ≡ some d) × ((key, some p) ∷ d ≡ e)
finish-eq-some key p none h = absurd (cc h)
finish-eq-some key p (some d) h = (d, refl, some-injective h)

pub with_done-eq-some :
    (o : Option Done) (f : Done → Option Done) {e : Done}
    → with_done o f ≡ some e
    → (d : Done) × (o ≡ some d) × (f d ≡ some e)
with_done-eq-some none f h = absurd (cc h)
with_done-eq-some (some d) f h = (d, refl, h)

module _ (candidate default_parent : String → Option String) where
  -- A group that is not done yet gets the parent that is chosen.
  settle-Resolves :
      (resolve : String → Option Done) (visiting : List String) (d : Done) (key : String)
      (o : Option String) {e : Done}
      → ((p : String) (r : Done)
          → o ≡ some p
          → resolve p ≡ some r
          → Resolves (key ∷ visiting) d p r)
      → Grounded d
      → has_key visiting key ≡ false
      → find_parent key d ≡ none
      → settle resolve key d o ≡ some e
      → Resolves visiting d key e
  unfolding Grounded
  settle-Resolves resolve visiting d key none step g apart new h =
      subst (Resolves visiting d key) (some-injective h)
        (extend visiting key none d d (new, tt, g) apart (λ k x. refl) (λ k x. x))
  settle-Resolves resolve visiting d key (some p) step g apart new h =
      let (r, er, last) = finish-eq-some key p (resolve p) h in
      let (gr, pd, keeps, monotone) = step p r refl er in
      subst (Resolves visiting d key) last (
        extend visiting key (some p) d r (keeps key (has_key-head key visiting) ∙ new, pd, gr) apart
          (λ k x. keeps k (has_key-cons key k visiting x)) monotone)

  pub resolve_node-Resolves :
      (n : ℕ) (visiting : List String) (d : Done) (key : String) {e : Done}
      → Grounded d
      → has_key visiting key ≡ false
      → resolve_node candidate default_parent n visiting d key ≡ some e
      → Resolves visiting d key e
  unfolding resolve_node
  resolve_node-Resolves zero visiting d key g apart h = absurd (cc h)
  resolve_node-Resolves (suc n) visiting d key g apart h = elim (Option-cases (find_parent key d)) [
    | inl new ↦
        settle-Resolves (resolve_node candidate default_parent n (key ∷ visiting) d) visiting d key
          (choose (key ∷ visiting) (candidate key) (default_parent key))
          (λ p r chosen er.
            resolve_node-Resolves n (key ∷ visiting) d p g
              (choose-visiting (key ∷ visiting) (candidate key) (default_parent key) p chosen) er)
          g apart new (rw new at h)
    | inr (r, there) ↦
        subst (Resolves visiting d key) (some-injective (rw there at h))
          (g, (r, there), (λ k x. refl), (λ k x. x))
  ]

  -- The loop does all groups, and what it leaves is grounded.
  pub resolve_all-Grounded :
      (fuel : ℕ) (d : Done) (keys : List String) {e : Done}
      → Grounded d
      → resolve_all candidate default_parent fuel d keys ≡ some e
      → Grounded e × ((k : String) → IsDone k d → IsDone k e) × All (λ k. IsDone k e) keys
  unfolding resolve_all
  resolve_all-Grounded fuel d [] g h =
      subst (λ e. Grounded e × ((k : String) → IsDone k d → IsDone k e) × Unit {0})
        (some-injective h) (g, (λ k x. x), tt)
  resolve_all-Grounded fuel d (key ∷ keys) g h =
      let (r, er, rest) =
        with_done-eq-some (resolve_node candidate default_parent fuel [] d key) _ h in
      let (gr, done, _, monotone) = resolve_node-Resolves fuel [] d key g refl er in
      let (ge, later, all_done) = resolve_all-Grounded fuel r keys gr rest in
      (ge, (λ k x. later k (monotone k x)), (later key done, all_done))
