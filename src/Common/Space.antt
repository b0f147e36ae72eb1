-- ===== src/Common/Space.antt =====
-- `String.prototype.trim` on a text given by its UTF-16 code units.
use Prim.Native.Nat.{ℕ, ◌<◌}
use mathlib.Core.Path.{◌≡◌, refl, ap, ◌∙◌}
use mathlib.Core.Logic.{◌↔◌, ◌⊎◌, inl, inr}
use mathlib.Core.Bool.{Bool, true, false, ◌&&◌, ◌||◌}
use mathlib.Core.List.{List, [], ◌∷◌, ◌++◌, reverse, reverse-cons, reverse-reverse}
use native.Mathlib.Omega.{arith}
use wbme.Common.Tests.{if◌then◌else◌, ◌==◌, leb, Bool-cases}
use wbme.Common.Lists.{All, All-append, length, length-append}

-- The white space and line terminators of ECMAScript.
unfoldable pub is_space : ℕ → Bool
is_space c =
    (leb 9 c && leb c 13)
    || c == 32
    || c == 160
    || c == 0x1680
    || (leb 0x2000 c && leb c 0x200a)
    || c == 0x2028
    || c == 0x2029
    || c == 0x202f
    || c == 0x205f
    || c == 0x3000
    || c == 0xfeff

unfoldable pub drop_spaces : List ℕ → List ℕ
drop_spaces [] = []
drop_spaces (c ∷ s) = if is_space c then drop_spaces s else c ∷ s

unfoldable pub trim : List ℕ → List ℕ
unfolding drop_spaces
trim s = reverse (drop_spaces (reverse (drop_spaces s)))

abbrev AllSpace : List ℕ → Type 0
AllSpace = All (λ c. is_space c ≡ true)

length-reverse : (s : List ℕ) → length (reverse s) ≡ length s
length-reverse [] = refl
length-reverse (c ∷ s) =
    rw (reverse-cons c s) (omega (arith, length-append (reverse s) (c ∷ []), length-reverse s))

drop_spaces-concat :
    (s : List ℕ) (c : ℕ) → is_space c ≡ false → 0 < length (drop_spaces (s ++ c ∷ []))
unfolding drop_spaces
drop_spaces-concat [] c h = rw h (omega arith)
drop_spaces-concat (d ∷ s) c h = ground (arith, drop_spaces-concat s c h)

drop_spaces-All : (s : List ℕ) → AllSpace s → drop_spaces s ≡ []
unfolding drop_spaces
drop_spaces-All [] h = refl
drop_spaces-All (c ∷ s) h = rw h.0 (drop_spaces-All s h.1)

-- Trimming a text that has a character other than white space leaves something.
trim-pos : (s : List ℕ) → (AllSpace s) ⊎ (0 < length (trim s))
unfolding trim drop_spaces
trim-pos [] = inl tt
trim-pos (c ∷ s) = elim (Bool-cases (is_space c)) [
  | inl e ↦ elim (trim-pos s) [ inl h ↦ inl (e, h) | inr h ↦ inr (rw e h) ]
  | inr e ↦ inr (
      rw (e, length-reverse (drop_spaces (reverse (c ∷ s))), reverse-cons c s)
        (drop_spaces-concat (reverse s) c e))
]

trim-All : (s : List ℕ) → AllSpace s → trim s ≡ []
unfolding trim drop_spaces
trim-All s h = rw (drop_spaces-All s h) refl

-- `s.trim().length === 0` holds exactly of the texts of white space.
pub length-trim-eq-zero_iff : (s : List ℕ) → (length (trim s) ≡ 0) ↔ All (λ c. is_space c ≡ true) s
length-trim-eq-zero_iff s = (
  λ e. elim (trim-pos s) [ inl h ↦ h | inr h ↦ absurd (omega arith) ],
  λ h. ap length (trim-All s h),
)

AllSolid : List ℕ → Type 0
AllSolid = All (λ c. is_space c ≡ false)

drop_spaces-solid : (s : List ℕ) → AllSolid s → drop_spaces s ≡ s
unfolding AllSolid drop_spaces
drop_spaces-solid [] h = refl
drop_spaces-solid (c ∷ s) h = rw h.0 refl

reverse-solid : (s : List ℕ) → AllSolid s → AllSolid (reverse s)
unfolding AllSolid
reverse-solid [] h = tt
reverse-solid (c ∷ s) h =
    rw (reverse-cons c s)
      (All-append (λ d. is_space d ≡ false) (reverse s) (c ∷ []) (reverse-solid s h.1) (h.0, tt))

-- A text without white space is its own trimmed form.
pub trim_solid : (s : List ℕ) → All (λ c. is_space c ≡ false) s → trim s ≡ s
unfolding trim AllSolid
trim_solid s h =
    ap (λ t. reverse (drop_spaces (reverse t))) (drop_spaces-solid s h)
    ∙ ap reverse (drop_spaces-solid (reverse s) (reverse-solid s h))
    ∙ reverse-reverse s
