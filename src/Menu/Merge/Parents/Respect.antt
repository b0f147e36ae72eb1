-- ===== src/Menu/Merge/Parents/Respect.antt =====
-- A configuration without cycles is respected.
use wbme.Common.{
  ℕ, zero, suc, ◌<◌, ◌≡◌, refl, sym, ap, ◌∙◌, subst, false, Bool-cases, inl, inr, Option, none,
  some, Option-cases, some-injective, List, [], ◌∷◌, String, str_eq, eq_iff, All, All-imp, arith,
}
use wbme.Menu.Merge.{has_key}
use wbme.Menu.Merge.Parents.{Done, find_parent, choose, settle, resolve_node, resolve_all}
use wbme.Menu.Merge.Parents.Laws.{
  finish-eq-some, with_done-eq-some, find_parent_self, find_parent_other,
}

module _ (candidate default_parent : String → Option String) (rank : String → ℕ)
    (descends : (k p : String) → candidate k ≡ some p → rank p < rank k) where
  -- Every group that is done has its candidate as its parent.
  abbrev pub Respects : Done → Type 0
  Respects d = (k : String) (r : Option String) → find_parent k d ≡ some r → r ≡ candidate k

  abbrev Above : String → List String → Type 0
  Above key visiting = All (λ v. rank key < rank v) visiting

  Above-apart :
      (key : String) (visiting : List String) → Above key visiting → has_key visiting key ≡ false
  Above-apart key [] h = refl
  Above-apart key (v ∷ visiting) h = elim (Bool-cases (str_eq v key)) [
    | inl t ↦ absurd (omega (arith, h.0, ap rank ((eq_iff v key).0 t)))
    | inr t ↦ rw t (Above-apart key visiting h.1)
  ]

  Above-cons :
      (key p : String) (visiting : List String)
      → candidate key ≡ some p
      → Above key visiting
      → Above p (key ∷ visiting)
  Above-cons key p visiting e h = (
    descends key p e,
    All-imp (λ v. rank key < rank v) (λ v. rank p < rank v) visiting
        (λ v x. omega (arith, descends key p e, x)) h,
  )

  -- The candidate is chosen, since it is not being visited.
  choose-candidate :
      (key : String) (visiting : List String) (e o : Option String)
      → candidate key ≡ o
      → Above key visiting
      → choose (key ∷ visiting) o e ≡ o
  choose-candidate key visiting e none same h = refl
  choose-candidate key visiting e (some p) same h =
      rw (Above-apart p (key ∷ visiting) (Above-cons key p visiting same h)) refl

  Respects-cons :
      (key : String) (r : Option String) (d : Done)
      → r ≡ candidate key
      → Respects d
      → Respects ((key, r) ∷ d)
  Respects-cons key r d e h k s found = elim (Bool-cases (str_eq key k)) [
    | inl t ↦
        let same : key ≡ k = (eq_iff key k).0 t in
        some-injective
          (sym found ∙ ap (λ j. find_parent j ((key, r) ∷ d)) (sym same) ∙ find_parent_self key r d)
        ∙ e
        ∙ ap candidate same
    | inr t ↦ h k s (sym (find_parent_other key k r d t) ∙ found)
  ]

  settle-Respects :
      (resolve : String → Option Done) (key : String) (d : Done) (o : Option String) {e : Done}
      → o ≡ candidate key
      → ((p : String) (r : Done) → o ≡ some p → resolve p ≡ some r → Respects r)
      → Respects d
      → settle resolve key d o ≡ some e
      → Respects e
  settle-Respects resolve key d none same step h e =
      subst Respects (some-injective e) (Respects-cons key none d same h)
  settle-Respects resolve key d (some p) same step h e =
      let (r, er, last) = finish-eq-some key p (resolve p) e in
      subst Respects last (Respects-cons key (some p) r same (step p r refl er))

  resolve_node-Respects :
      (n : ℕ) (visiting : List String) (d : Done) (key : String) {e : Done}
      → Above key visiting
      → Respects d
      → resolve_node candidate default_parent n visiting d key ≡ some e
      → Respects e
  unfolding resolve_node
  resolve_node-Respects zero visiting d key a h e = absurd (cc e)
  resolve_node-Respects (suc n) visiting d key a h e = elim (Option-cases (find_parent key d)) [
    | inl new ↦
        let chosen = choose-candidate key visiting (default_parent key) (candidate key) refl a in
        settle-Respects (resolve_node candidate default_parent n (key ∷ visiting) d) key d
          (choose (key ∷ visiting) (candidate key) (default_parent key)) chosen
          (λ p r is er.
            resolve_node-Respects n (key ∷ visiting) d p
              (Above-cons key p visiting (sym chosen ∙ is) a) h er)
          h (rw new at e)
    | inr (r, there) ↦ subst Respects (some-injective (rw there at e)) h
  ]

  resolve_rest-Respects :
      (fuel : ℕ) (d : Done) (keys : List String) {e : Done}
      → Respects d
      → resolve_all candidate default_parent fuel d keys ≡ some e
      → Respects e
  unfolding resolve_all
  resolve_rest-Respects fuel d [] h e = subst Respects (some-injective e) h
  resolve_rest-Respects fuel d (key ∷ keys) h e =
      let (r, er, rest) =
        with_done-eq-some (resolve_node candidate default_parent fuel [] d key) _ e in
      resolve_rest-Respects fuel r keys (resolve_node-Respects fuel [] d key tt h er) rest

  -- If the configured parents form no cycle, in that some number falls from each group to its parent,
  -- every group gets exactly the parent that is configured.
  pub resolve_all-Respects :
      (fuel : ℕ) (keys : List String) (d : Done)
      → resolve_all candidate default_parent fuel [] keys ≡ some d
      → Respects d
  unfolding find_parent
  resolve_all-Respects fuel keys d e = resolve_rest-Respects fuel [] keys (λ k r h. absurd (cc h)) e
