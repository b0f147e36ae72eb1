-- ===== src/Menu/Merge/Parents/Climb.antt =====
-- From every group the parents lead to the top.
use wbme.Common.{
  ℕ, zero, suc, ◌≡◌, refl, ap, subst, Bool, true, false, Bool-cases, inl, inr, Option, none, some,
  some-injective, List, [], ◌∷◌, String, str_eq, eq_iff, All, All-imp, length,
}
use wbme.Menu.Merge.Parents.{Done, find_parent, resolve_all}
use wbme.Menu.Merge.Parents.Laws.{
  IsDone, ParentIsDone, Grounded, resolve_all-Grounded, find_parent_other, find_parent_self,
}

abbrev climb : (String → Bool) → Option (Option String) → Bool
climb above none = false
climb above (some none) = true
climb above (some (some p)) = above p

-- Climbing from a group along the parents ends at the top after at most so many steps.
unfoldable pub reaches_top : ℕ → Done → String → Bool
reaches_top zero d key = false
reaches_top (suc n) d key = climb (reaches_top n d) (find_parent key d)

climb_mono :
    (f g : String → Bool) (o : Option (Option String))
    → ((p : String) → f p ≡ true → g p ≡ true)
    → climb f o ≡ true
    → climb g o ≡ true
climb_mono f g none h e = e
climb_mono f g (some none) h e = e
climb_mono f g (some (some p)) h e = h p e

climb-IsDone :
    (f : String → Bool) (key : String) (d : Done) (o : Option (Option String))
    → find_parent key d ≡ o
    → climb f o ≡ true
    → IsDone key d
climb-IsDone f key d none same e = absurd (cc e)
climb-IsDone f key d (some r) same e = (r, same)

reaches_top-suc :
    (n : ℕ) (d : Done) (key : String)
    → reaches_top n d key ≡ true
    → reaches_top (suc n) d key ≡ true
unfolding reaches_top
reaches_top-suc zero d key h = absurd (cc h)
reaches_top-suc (suc n) d key h =
    climb_mono (reaches_top n d) (reaches_top (suc n) d) (find_parent key d)
      (λ p e. reaches_top-suc n d p e) h

-- A group in front that is new does not stand on a chain behind it.
new_differs :
    (key k : String) (d : Done) → find_parent key d ≡ none → IsDone k d → str_eq key k ≡ false
new_differs key k d new h = elim (Bool-cases (str_eq key k)) [
  | inl t ↦ absurd (cc (new, ap (λ j. find_parent j d) ((eq_iff key k).0 t), h.1))
  | inr t ↦ t
]

reaches_top-cons :
    (n : ℕ) (key : String) (r : Option String) (d : Done) (k : String)
    → find_parent key d ≡ none
    → reaches_top n d k ≡ true
    → reaches_top n ((key, r) ∷ d) k ≡ true
unfolding reaches_top
reaches_top-cons zero key r d k new h = absurd (cc h)
reaches_top-cons (suc n) key r d k new h =
    let done = climb-IsDone (reaches_top n d) k d (find_parent k d) refl h in
    rw (find_parent_other key k r d (new_differs key k d new done)) (
      climb_mono (reaches_top n d) (reaches_top n ((key, r) ∷ d)) (find_parent k d)
        (λ p e. reaches_top-cons n key r d p new e) h)

reaches_top-head :
    (key : String) (r : Option String) (d : Done)
    → find_parent key d ≡ none
    → ((p : String) → r ≡ some p → reaches_top (length d) d p ≡ true)
    → reaches_top (suc (length d)) ((key, r) ∷ d) key ≡ true
unfolding reaches_top
reaches_top-head key none d new h = rw (find_parent_self key none d) refl
reaches_top-head key (some p) d new h =
    rw (find_parent_self key (some p) d)
      (reaches_top-cons (length d) key (some p) d p new (h p refl))

parent_done :
    (r : Option String) (d : Done) (p : String) → ParentIsDone r d → r ≡ some p → IsDone p d
parent_done none d p h e = absurd (cc e)
parent_done (some q) d p h e = subst (λ k. IsDone k d) (some-injective e) h

Grounded-reaches_top :
    (d : Done) (key : String) → Grounded d → IsDone key d → reaches_top (length d) d key ≡ true
unfolding Grounded find_parent
Grounded-reaches_top [] key g done = absurd (cc done.1)
Grounded-reaches_top ((k, r) ∷ d) key (new, above, g) done = elim (Bool-cases (str_eq k key)) [
  | inl t ↦
      subst (λ j. reaches_top (suc (length d)) ((k, r) ∷ d) j ≡ true) ((eq_iff k key).0 t)
        (reaches_top-head k r d new (λ p e. Grounded-reaches_top d p g (parent_done r d p above e)))
  | inr t ↦ reaches_top-suc (length d) ((k, r) ∷ d) key (
      reaches_top-cons (length d) k r d key new
        (Grounded-reaches_top d key g (done.0, rw t at done.1)))
]

-- Whatever parents are configured, cycles included, the search gives every group a parent such that
-- climbing from any group of the menu ends at the top, after at most as many steps as groups are
-- done.
pub resolve_all-reaches_top :
    (candidate default_parent : String → Option String) (fuel : ℕ) (keys : List String) (d : Done)
    → resolve_all candidate default_parent fuel [] keys ≡ some d
    → All (λ key. reaches_top (length d) d key ≡ true) keys
unfolding Grounded
resolve_all-reaches_top candidate default_parent fuel keys d e =
    let (g, _, all_done) = resolve_all-Grounded candidate default_parent fuel [] keys tt e in
    All-imp (λ key. IsDone key d) (λ key. reaches_top (length d) d key ≡ true) keys
      (λ key h. Grounded-reaches_top d key g h) all_done
