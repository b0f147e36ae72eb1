-- ===== src/Overtime/Submission/Laws.antt =====
-- No employee has two items of overtime at the same time.
use wbme.Common.{
  Distinct, Distinct-keep_if, All-keep_if, All-keep_if_test, All-imp, ℕ, ◌≡◌, ◌≢◌, refl, subst,
  true, false, Bool, not, ◌&&◌, ◌||◌, ◌==◌, ==_iff, Bool-cases, inl, inr, List, [], ◌∷◌, any, All,
  arith, String, ok, ok-injective, bind-eq-ok,
}
use wbme.Overtime.Overlap.{Interval, overlaps, find_overlapping}
use wbme.Overtime.Overlap.Laws.{IsApart, IsApart-overlaps}
use wbme.Overtime.Submission.{
  OvertimeItem, OvertimeSubmitDto, Surroundings, distinct, user_ids_of, is_live, interval_of,
  is_empty, existing_of, assert_no_overlap, new_item, insert_items, submit, can_proxy, guard,
  reject_failures, resolve, has_access, validate_batch, window_range, is_within_window, with_access,
  in_window, with_valid_users, with_date_type, create_items, resource_not_found, out_of_window,
}

-- Two items that count, of one employee on one day, have no minute in common.
abbrev pub IsCompatible : OvertimeItem → OvertimeItem → Type 0
IsCompatible x y =
    is_live x.status ≡ true
    → is_live y.status ≡ true
    → y.user_id ≡ x.user_id
    → y.overtime_date ≡ x.overtime_date
    → IsApart x.start_minute x.end_minute (interval_of y)

-- Every two items of a table are compatible.
abbrev pub NoOverlap : List OvertimeItem → Type 0
NoOverlap [] = Unit
NoOverlap (x ∷ xs) = All (IsCompatible x) xs × NoOverlap xs

abbrev IsUnique : List ℕ → Type 0
IsUnique ns = Distinct (λ n. n) ns

any_differs : (n : ℕ) (ns : List ℕ) → All (λ m. not (m == n) ≡ true → m ≢ n) ns
any_differs n [] = tt
any_differs n (m ∷ ns) = ((λ t e. ground arith), any_differs n ns)

distinct-IsUnique : (ns : List ℕ) → IsUnique (distinct ns)
unfolding distinct
distinct-IsUnique [] = tt
distinct-IsUnique (n ∷ ns) =
    let other = λ (m : ℕ). not (m == n) in
    (
      All-keep_if_test _ other (distinct ns) (any_differs n (distinct ns)),
      Distinct-keep_if (λ m. m) other (distinct ns) (distinct-IsUnique ns),
    )

All-distinct : (P : ℕ → Type 0) (ns : List ℕ) → All P ns → All P (distinct ns)
unfolding distinct
All-distinct P [] h = tt
All-distinct P (n ∷ ns) h = (h.0, All-keep_if P _ (distinct ns) (All-distinct P ns h.1))

-- Every entry is found.
All-found : (ns : List ℕ) → All (λ u. any (λ m. m == u) ns ≡ true) ns
All-found [] = tt
All-found (n ∷ ns) = (ground arith, All-imp _ _ ns (λ u t. ground arith) (All-found ns))

-- A new interval that is found to overlap with none has no minute in common with any.
find_overlapping-IsApart :
    (start end : ℕ) (existing : List Interval)
    → is_empty (find_overlapping start end existing) ≡ true
    → All (IsApart start end) existing
unfolding find_overlapping
find_overlapping-IsApart start end [] h = tt
find_overlapping-IsApart start end (x ∷ xs) h =
    elim (Bool-cases (overlaps start end x.start_minute x.end_minute)) [
      | inl t ↦ absurd (cc (rw t at h))
      | inr t ↦ (IsApart-overlaps start end x t, find_overlapping-IsApart start end xs (rw t at h))
    ]

-- The overlap check of one user passes.
abbrev IsFree : OvertimeSubmitDto → List OvertimeItem → ℕ → Type 0
IsFree dto items user = All (IsApart dto.start_minute dto.end_minute) (existing_of dto items user)

assert_no_overlap-IsFree :
    (dto : OvertimeSubmitDto) (items : List OvertimeItem) (users : List ℕ)
    → assert_no_overlap dto items users ≡ ok tt
    → All (IsFree dto items) users
unfolding assert_no_overlap
assert_no_overlap-IsFree dto items [] h = tt
assert_no_overlap-IsFree dto items (u ∷ us) h =
    let found = find_overlapping dto.start_minute dto.end_minute (existing_of dto items u) in
    elim (Bool-cases (is_empty found)) [
      | inl t ↦
          (find_overlapping-IsApart _ _ _ t, assert_no_overlap-IsFree dto items us (rw t at h))
      | inr t ↦ absurd (cc (rw t at h))
    ]

abbrev is_locked : OvertimeSubmitDto → OvertimeItem → Bool
is_locked dto i =
    any (λ u. u == i.user_id) dto.user_ids
    && i.overtime_date == dto.overtime_date
    && is_live i.status

is_locked_of :
    (dto : OvertimeSubmitDto) (user : ℕ) (i : OvertimeItem)
    → any (λ u. u == user) dto.user_ids ≡ true
    → is_live i.status ≡ true
    → i.user_id ≡ user
    → i.overtime_date ≡ dto.overtime_date
    → is_locked dto i ≡ true
is_locked_of dto user i named live same day =
    let today = ==_iff i.overtime_date dto.overtime_date in rw (same, named, today.1 day, live) refl

IsFree-IsCompatible :
    (s : Surroundings) (dto : OvertimeSubmitDto) (t : String) (user : ℕ) (items : List OvertimeItem)
    → any (λ u. u == user) dto.user_ids ≡ true
    → IsFree dto items user
    → All (IsCompatible (new_item s dto t user)) items
IsFree-IsCompatible s dto t user [] named free = tt
IsFree-IsCompatible s dto t user (i ∷ items) named free = elim (Bool-cases (is_locked dto i)) [
  | inl l ↦ elim (Bool-cases (i.user_id == user)) [
    | inl e ↦
        let free2 = rw (l, e) at free in
        (λ p live same day. free2.0, IsFree-IsCompatible s dto t user items named free2.1)
    | inr e ↦ (
      λ p live same day. absurd (ground arith),
      IsFree-IsCompatible s dto t user items named (rw (l, e) at free),
    )
  ]
  | inr l ↦ (
    λ p live same day. absurd (cc (l, is_locked_of dto user i named live same day)),
    IsFree-IsCompatible s dto t user items named (rw l at free),
  )
]

IsCompatible-insert_items :
    (s : Surroundings) (dto : OvertimeSubmitDto) (t : String) (user : ℕ) (users : List ℕ)
    (items : List OvertimeItem)
    → All (λ v. v ≢ user) users
    → All (IsCompatible (new_item s dto t user)) items
    → All (IsCompatible (new_item s dto t user)) (insert_items s dto t users items)
IsCompatible-insert_items s dto t user [] items other old = old
IsCompatible-insert_items s dto t user (v ∷ vs) items other old = (
  λ p live same day. absurd (other.0 same),
  IsCompatible-insert_items s dto t user vs items other.1 old,
)

insert_items-NoOverlap :
    (s : Surroundings) (dto : OvertimeSubmitDto) (t : String) (users : List ℕ)
    (items : List OvertimeItem)
    → IsUnique users
    → All (λ u. (any (λ v. v == u) dto.user_ids ≡ true) × IsFree dto items u) users
    → NoOverlap items
    → NoOverlap (insert_items s dto t users items)
insert_items-NoOverlap s dto t [] items once free old = old
insert_items-NoOverlap s dto t (u ∷ us) items once free old =
    let apart = IsFree-IsCompatible s dto t u items free.0.0 free.0.1 in
    (
      IsCompatible-insert_items s dto t u us items once.0 apart,
      insert_items-NoOverlap s dto t us items once.1 free.1 old,
    )

All-both {ℓ} :
    {A : Type ℓ} (P Q : A → Type 0) (xs : List A) → All P xs → All Q xs → All (λ x. P x × Q x) xs
All-both P Q [] p q = tt
All-both P Q (x ∷ xs) p q = ((p.0, q.0), All-both P Q xs p.1 q.1)

-- Whom a batch is for: each once, and all of them named in it.
user_ids_of-IsUnique :
    (proxy : Bool) (operator : ℕ) (ids users : List ℕ) (P : ℕ → Type 0)
    → All P ids
    → user_ids_of proxy operator ids ≡ ok users
    → IsUnique users × All P users
unfolding user_ids_of
user_ids_of-IsUnique true operator ids users P h e =
    subst (λ us. IsUnique us × All P us) (ok-injective e)
      (distinct-IsUnique ids, All-distinct P ids h)
user_ids_of-IsUnique false operator [] users P h e = absurd (cc e)
user_ids_of-IsUnique false operator (n ∷ []) users P h e = elim (Bool-cases (n == operator)) [
  | inl t ↦ subst (λ us. IsUnique us × All P us) (ok-injective (rw t at e)) ((tt, tt), h)
  | inr t ↦ absurd (cc (rw t at e))
]
user_ids_of-IsUnique false operator (n ∷ m ∷ ns) users P h e = absurd (cc e)

-- What is in the window and valid is created.
in_window_creates :
    (s : Surroundings) (operator : ℕ) (dto : OvertimeSubmitDto) (before items : List OvertimeItem)
    (users : List ℕ) {after : List OvertimeItem}
    → in_window s operator dto before items users ≡ ok after
    → (t : String) × (create_items s dto items users t ≡ ok after)
in_window_creates s operator dto before items users h =
    let (w, wh, h1) =
      bind-eq-ok (guard (is_within_window dto.overtime_date (window_range s)) out_of_window)
        (λ w. with_valid_users s operator dto before items users) h in
    let (f, fh, h2) =
      bind-eq-ok (reject_failures (validate_batch s operator dto before users))
        (λ f. with_date_type s dto items users) h1 in
    let (t, th, h3) =
      bind-eq-ok (resolve (s.holiday dto.overtime_date)) (create_items s dto items users) h2 in
    (t, h3)

-- A submission that succeeds leaves no employee with two pending or approved items of one day that
-- have a minute in common, if there were none in the table that its transaction sees; whatever was
-- read before.
pub submit-NoOverlap :
    (s : Surroundings) (operator : ℕ) (dto : OvertimeSubmitDto)
    (before items after : List OvertimeItem)
    → NoOverlap items
    → submit s operator dto before items ≡ ok after
    → NoOverlap after
unfolding submit
submit-NoOverlap s operator dto before items after old h =
    let (g, gh, h1) =
      bind-eq-ok (guard (has_access s.apply_access || has_access s.proxy_access) resource_not_found)
        (λ g. with_access s operator dto before items) h in
    let (users, uh, h2) =
      bind-eq-ok (user_ids_of (can_proxy s) operator dto.user_ids)
        (in_window s operator dto before items) h1 in
    let created = in_window_creates s operator dto before items users h2 in
    let (o, oh, h3) =
      bind-eq-ok (assert_no_overlap dto items dto.user_ids)
        (λ o. ok (insert_items s dto created.0 users items)) created.1 in
    let free = assert_no_overlap-IsFree dto items dto.user_ids oh in
    let chosen =
      user_ids_of-IsUnique (can_proxy s) operator dto.user_ids users _
        (All-both _ _ dto.user_ids (All-found dto.user_ids) free) uh in
    subst NoOverlap (ok-injective h3)
      (insert_items-NoOverlap s dto created.0 users items chosen.0 chosen.1 old)
