-- ===== src/Common/Sql.antt =====
-- Tables as lists of rows: UPDATE … WHERE, ORDER BY, and distinct keys.
-- Rows that ORDER BY leaves tied keep the table's order, one of the orders that SQL allows.
use Prim.Native.Nat.{ℕ, zero, suc}
use mathlib.Core.Path.{◌≡◌, refl, sym, ap, ◌∙◌}
use mathlib.Core.Logic.{◌≢◌, inl, inr}
use mathlib.Core.Bool.{Bool, true, false}
use mathlib.Core.List.{List, [], ◌∷◌, map}
use native.Mathlib.Omega.{arith}
use wbme.Common.Tests.{if◌then◌else◌, Bool-cases}
use wbme.Common.Lists.{length, take, keep_if, count_if, any, All, All-take}

module _ {ℓ} {A : Type ℓ} where
  -- The rows after UPDATE … SET f WHERE p; the row count is `count_if p`.
  abbrev pub update_where : (A → Bool) → (A → A) → List A → List A
  update_where p f [] = []
  update_where p f (x ∷ xs) = (if p x then f x else x) ∷ update_where p f xs

  abbrev pub insert_by : (A → A → Bool) → A → List A → List A
  insert_by le x [] = x ∷ []
  insert_by le x (y ∷ ys) = if le x y then x ∷ y ∷ ys else y ∷ insert_by le x ys

  unfoldable pub order_by : (A → A → Bool) → List A → List A
  order_by le [] = []
  order_by le (x ∷ xs) = insert_by le x (order_by le xs)

  pub update_where-none :
      (p : A → Bool) (f : A → A) (xs : List A) → count_if p xs ≡ 0 → update_where p f xs ≡ xs
  update_where-none p f [] h = refl
  update_where-none p f (x ∷ xs) h = ground (arith, update_where-none p f xs)

  pub count_if-update_where :
      (p q : A → Bool) (f : A → A) (xs : List A)
      → ((x : A) → p x ≡ true → q (f x) ≡ q x)
      → count_if q (update_where p f xs) ≡ count_if q xs
  count_if-update_where p q f [] h = refl
  count_if-update_where p q f (x ∷ xs) h = ground (arith, h x, count_if-update_where p q f xs h)

  count_if-insert_by :
      (p : A → Bool) (le : A → A → Bool) (x : A) (ys : List A)
      → count_if p (insert_by le x ys) ≡ count_if p (x ∷ ys)
  count_if-insert_by p le x [] = refl
  count_if-insert_by p le x (y ∷ ys) = ground (arith, count_if-insert_by p le x ys)

  pub count_if-order_by :
      (p : A → Bool) (le : A → A → Bool) (xs : List A) → count_if p (order_by le xs) ≡ count_if p xs
  unfolding order_by
  count_if-order_by p le [] = refl
  count_if-order_by p le (x ∷ xs) =
      ground (arith, count_if-insert_by p le x (order_by le xs), count_if-order_by p le xs)

  length-insert_by :
      (le : A → A → Bool) (x : A) (ys : List A) → length (insert_by le x ys) ≡ suc (length ys)
  length-insert_by le x [] = refl
  length-insert_by le x (y ∷ ys) = ground (arith, length-insert_by le x ys)

  pub length-order_by : (le : A → A → Bool) (xs : List A) → length (order_by le xs) ≡ length xs
  unfolding order_by
  length-order_by le [] = refl
  length-order_by le (x ∷ xs) =
      ground (arith, length-insert_by le x (order_by le xs), length-order_by le xs)

  pub length-keep_if : (p : A → Bool) (xs : List A) → length (keep_if p xs) ≡ count_if p xs
  length-keep_if p [] = refl
  length-keep_if p (x ∷ xs) = ground (arith, length-keep_if p xs)

module _ {ℓ κ} {A : Type ℓ} where
  All-insert_by :
      (P : A → Type κ) (le : A → A → Bool) (x : A) (ys : List A)
      → P x
      → All P ys
      → All P (insert_by le x ys)
  All-insert_by P le x [] p h = (p, tt)
  All-insert_by P le x (y ∷ ys) p h = elim (Bool-cases (le x y)) [
    | inl e ↦ rw e (p, h)
    | inr e ↦ rw e (h.0, All-insert_by P le x ys p h.1)
  ]

  pub All-order_by :
      (P : A → Type κ) (le : A → A → Bool) (xs : List A) → All P xs → All P (order_by le xs)
  unfolding order_by
  All-order_by P le [] h = tt
  All-order_by P le (x ∷ xs) h =
      All-insert_by P le x (order_by le xs) h.0 (All-order_by P le xs h.1)

  pub All-keep_if : (P : A → Type κ) (p : A → Bool) (xs : List A) → All P xs → All P (keep_if p xs)
  All-keep_if P p [] h = tt
  All-keep_if P p (x ∷ xs) h = elim (Bool-cases (p x)) [
    | inl e ↦ rw e (h.0, All-keep_if P p xs h.1)
    | inr e ↦ rw e (All-keep_if P p xs h.1)
  ]

  -- What passes the filter also passes the test.
  pub All-keep_if_test :
      (P : A → Type κ) (p : A → Bool) (xs : List A)
      → All (λ x. p x ≡ true → P x) xs
      → All P (keep_if p xs)
  All-keep_if_test P p [] h = tt
  All-keep_if_test P p (x ∷ xs) h = elim (Bool-cases (p x)) [
    | inl e ↦ rw e (h.0 e, All-keep_if_test P p xs h.1)
    | inr e ↦ rw e (All-keep_if_test P p xs h.1)
  ]

module _ {ℓ κ μ} {A : Type ℓ} where
  pub All-imp :
      (P : A → Type κ) (Q : A → Type μ) (xs : List A) → ((x : A) → P x → Q x) → All P xs → All Q xs
  All-imp P Q [] f h = tt
  All-imp P Q (x ∷ xs) f h = (f x h.0, All-imp P Q xs f h.1)

module _ {ℓ κ μ} {A : Type ℓ} {B : Type κ} where
  pub All-map :
      (P : B → Type μ) (f : A → B) (xs : List A) → All (λ x. P (f x)) xs → All P (map f xs)
  All-map P f [] h = tt
  All-map P f (x ∷ xs) h = (h.0, All-map P f xs h.1)

module _ {ℓ κ} {A : Type ℓ} {B : Type κ} where
  pub length-map : (xs : List A) (f : A → B) → length (map f xs) ≡ length xs
  length-map [] f = refl
  length-map (x ∷ xs) f = ap suc (length-map xs f)

module _ {ℓ κ} {A : Type ℓ} {K : Type κ} (key : A → K) where
  -- No two rows have one key.
  abbrev pub Distinct : List A → Type κ
  Distinct [] = Unit
  Distinct (x ∷ xs) = All (λ y. key y ≢ key x) xs × Distinct xs

  Distinct-insert_by :
      (le : A → A → Bool) (x : A) (ys : List A)
      → All (λ y. key y ≢ key x) ys
      → Distinct ys
      → Distinct (insert_by le x ys)
  Distinct-insert_by le x [] f h = (tt, tt)
  Distinct-insert_by le x (y ∷ ys) f h = elim (Bool-cases (le x y)) [
    | inl e ↦ rw e (f, h)
    | inr e ↦ rw e (
      All-insert_by (λ z. key z ≢ key y) le x ys (λ p. f.0 (sym p)) h.0,
      Distinct-insert_by le x ys f.1 h.1,
    )
  ]

  pub Distinct-order_by :
      (le : A → A → Bool) (xs : List A) → Distinct xs → Distinct (order_by le xs)
  unfolding order_by
  Distinct-order_by le [] h = tt
  Distinct-order_by le (x ∷ xs) h =
      Distinct-insert_by le x (order_by le xs) (All-order_by (λ y. key y ≢ key x) le xs h.0)
        (Distinct-order_by le xs h.1)

  pub Distinct-keep_if : (p : A → Bool) (xs : List A) → Distinct xs → Distinct (keep_if p xs)
  Distinct-keep_if p [] h = tt
  Distinct-keep_if p (x ∷ xs) h = elim (Bool-cases (p x)) [
    | inl e ↦ rw e (All-keep_if (λ y. key y ≢ key x) p xs h.0, Distinct-keep_if p xs h.1)
    | inr e ↦ rw e (Distinct-keep_if p xs h.1)
  ]

  pub Distinct-update_where :
      (p : A → Bool) (f : A → A)
      → ((x : A) → key (f x) ≡ key x)
      → (xs : List A) → Distinct xs
      → Distinct (update_where p f xs)
  Distinct-update_where p f same [] h = tt
  Distinct-update_where p f same (x ∷ xs) h = (fresh xs h.0, Distinct-update_where p f same xs h.1)
    where
      kept : (y : A) → key (if p y then f y else y) ≡ key y
      kept y = elim (Bool-cases (p y)) [ inl e ↦ rw e (same y) | inr e ↦ rw e refl ]

      fresh :
          (ys : List A)
          → All (λ y. key y ≢ key x) ys
          → All (λ y. key y ≢ key (if p x then f x else x)) (update_where p f ys)
      fresh [] g = tt
      fresh (y ∷ ys) g = ((λ e. g.0 (sym (kept y) ∙ e ∙ kept x)), fresh ys g.1)

  pub Distinct-take : (n : ℕ) (xs : List A) → Distinct xs → Distinct (take n xs)
  Distinct-take zero xs h = tt
  Distinct-take (suc n) [] h = tt
  Distinct-take (suc n) (x ∷ xs) h =
      (All-take (λ y. key y ≢ key x) n xs h.0, Distinct-take n xs h.1)

module _ {ℓ κ μ} {A : Type ℓ} {B : Type κ} {K : Type μ} where
  -- Rows mapped to rows with the same keys.
  pub Distinct-map :
      (key : A → K) (key' : B → K) (f : A → B)
      → ((x : A) → key' (f x) ≡ key x)
      → (xs : List A) → Distinct key xs
      → Distinct key' (map f xs)
  Distinct-map key key' f same [] h = tt
  Distinct-map key key' f same (x ∷ xs) h = (
    All-map (λ y. key' y ≢ key' (f x)) f xs
        (All-imp (λ y. key y ≢ key x) (λ y. key' (f y) ≢ key' (f x)) xs
          (λ y d e. d (sym (same y) ∙ e ∙ same x)) h.0),
    Distinct-map key key' f same xs h.1,
  )

module _ {ℓ} {A : Type ℓ} (p : A → Bool) where
  pub any_of_take : (n : ℕ) (xs : List A) → any p (take n xs) ≡ true → any p xs ≡ true
  any_of_take zero xs h = absurd (cc)
  any_of_take (suc n) [] h = h
  any_of_take (suc n) (x ∷ xs) h = ground (arith, any_of_take n xs)

  any-insert_by :
      (le : A → A → Bool) (x : A) (ys : List A) → any p (insert_by le x ys) ≡ any p (x ∷ ys)
  any-insert_by le x [] = refl
  any-insert_by le x (y ∷ ys) = ground (arith, any-insert_by le x ys)

  pub any-order_by : (le : A → A → Bool) (xs : List A) → any p (order_by le xs) ≡ any p xs
  unfolding order_by
  any-order_by le [] = refl
  any-order_by le (x ∷ xs) = ground (arith, any-insert_by le x (order_by le xs), any-order_by le xs)

  pub any_of_keep_if : (q : A → Bool) (xs : List A) → any p (keep_if q xs) ≡ true → any p xs ≡ true
  any_of_keep_if q [] h = h
  any_of_keep_if q (x ∷ xs) h = ground (arith, any_of_keep_if q xs)

module _ {ℓ} {A : Type ℓ} (le : A → A → Bool) where
  -- Every row stands before those that follow it.
  abbrev pub Sorted : List A → Type 0
  Sorted [] = Unit
  Sorted (x ∷ xs) = All (λ y. le x y ≡ true) xs × Sorted xs

  module _ (total : (x y : A) → le x y ≡ false → le y x ≡ true)
      (trans : (x y z : A) → le x y ≡ true → le y z ≡ true → le x z ≡ true) where
    Sorted-insert_by : (x : A) (ys : List A) → Sorted ys → Sorted (insert_by le x ys)
    Sorted-insert_by x [] h = (tt, tt)
    Sorted-insert_by x (y ∷ ys) h = elim (Bool-cases (le x y)) [
      | inl e ↦
          rw e
            ((e, All-imp (λ z. le y z ≡ true) (λ z. le x z ≡ true) ys (λ z. trans x y z e) h.0), h)
      | inr e ↦
          rw e (
            All-insert_by (λ z. le y z ≡ true) le x ys (total x y e) h.0,
            Sorted-insert_by x ys h.1,
          )
    ]

    pub order_by-Sorted : (xs : List A) → Sorted (order_by le xs)
    unfolding order_by
    order_by-Sorted [] = tt
    order_by-Sorted (x ∷ xs) = Sorted-insert_by x (order_by le xs) (order_by-Sorted xs)
