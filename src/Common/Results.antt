-- ===== src/Common/Results.antt =====
-- A value or a thrown error.
use mathlib.Core.Path.{◌≡◌, refl}

pub data Result {ℓ} (E : Type 0) (A : Type ℓ) : Type ℓ where
  ok : A → Result E A
  err : E → Result E A

infixl 5 ◌>>=◌
abbrev pub ◌>>=◌ {ℓ κ} :
    {E : Type 0} {A : Type ℓ} {B : Type κ} → Result E A → (A → Result E B) → Result E B
ok a >>= f = f a
err e >>= f = err e

pub ok≢err {ℓ} : {E : Type 0} {A : Type ℓ} {a : A} {e : E} → ¬ (ok a ≡ err e)
ok≢err = λ h. cc

-- A chain that succeeds has succeeded at its first step.
pub bind-eq-ok {ℓ κ} :
    {E : Type 0} {A : Type ℓ} {B : Type κ} (r : Result E A) (f : A → Result E B) {b : B}
    → (r >>= f) ≡ ok b
    → (a : A) × (r ≡ ok a) × (f a ≡ ok b)
bind-eq-ok (ok a) f h = (a, refl, h)
bind-eq-ok (err e) f h = absurd (cc h)

pub ok-injective {ℓ} :
    {E : Type 0} {A : Type ℓ} {a b : A} → ◌≡◌ {A = Result E A} (ok a) (ok b) → a ≡ b
ok-injective h = cc h

abbrev pub map_ok {ℓ κ} : {E : Type 0} {A : Type ℓ} {B : Type κ} → (A → B) → Result E A → Result E B
map_ok f (ok a) = ok (f a)
map_ok f (err e) = err e

-- Two chains that start alike are alike if their continuations are.
pub map_ok-bind {ℓ κ η} :
    {E : Type 0} {A : Type ℓ} {B : Type κ} {C : Type η} (h : B → C) (r : Result E A)
    (f : A → Result E B) (g : A → Result E C)
    → ((a : A) → r ≡ ok a → map_ok h (f a) ≡ g a)
    → map_ok h (r >>= f) ≡ (r >>= g)
map_ok-bind h (ok a) f g k = k a refl
map_ok-bind h (err e) f g k = refl
