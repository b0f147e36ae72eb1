-- ===== src/Contracts/Phone/Laws.antt =====
-- `normalizePhoneInput` on the ways to write a Chinese number.
use wbme.Common.{
  is_digit, starts_with, ℕ, suc, ◌≤◌, true, false, ◌&&◌, ◌||◌, some, List, [], ◌∷◌, ltb, ◌==◌,
  length, all, All, is_space, drop_spaces, trim_solid, ◌≡◌, refl, ap, ◌∙◌, arith, Bool-cases, inl,
  inr,
}
use wbme.Contracts.Phone.{
  is_normalized_phone, strip_phone_digits, normalize_phone_input, normalize_cleaned,
  normalized_or_none, assemble, assemble_match, match_plus,
}

digit-solid : (c : ℕ) → is_digit c ≡ true → is_space c ≡ false
unfolding is_space
digit-solid c h = ground arith

digits-solid : (s : List ℕ) → all is_digit s ≡ true → All (λ c. is_space c ≡ false) s
digits-solid [] h = tt
digits-solid (c ∷ s) h = (digit-solid c (ground arith), digits-solid s (ground arith))

strip_digits : (s : List ℕ) → all is_digit s ≡ true → strip_phone_digits s ≡ s
unfolding strip_phone_digits
strip_digits [] h = refl
strip_digits (c ∷ s) h = ground (arith, strip_digits s)

-- The normal form of a Chinese number.
abbrev pub chinese : List ℕ → List ℕ
chinese n = b'+' ∷ b'8' ∷ b'6' ∷ n

chinese-normalized :
    (n : List ℕ)
    → all is_digit n ≡ true
    → 5 ≤ length n
    → length n ≤ 15
    → normalized_or_none (chinese n) ≡ some (chinese n)
unfolding is_normalized_phone
chinese-normalized n d low high = ground arith

chinese-assemble :
    (n : List ℕ)
    → all is_digit n ≡ true
    → 5 ≤ length n
    → length n ≤ 15
    → assemble (b'8' ∷ b'6' ∷ []) n ≡ some (chinese n)
chinese-assemble n d low high =
    let some_digits : (length n == 0) ≡ false = ground arith in
    rw some_digits (chinese-normalized n d low high)

-- A text without white space is taken as it is.
normalize_solid :
    (raw number : List ℕ)
    → All (λ c. is_space c ≡ false) raw
    → strip_phone_digits raw ≡ number
    → normalize_phone_input raw ≡ normalize_cleaned raw number
unfolding normalize_phone_input
normalize_solid raw number solid digits =
    ap (λ t. normalize_cleaned t (strip_phone_digits t)) (trim_solid raw solid)
    ∙ ap (normalize_cleaned raw) digits

strip_chinese :
    (n : List ℕ) → all is_digit n ≡ true → strip_phone_digits (chinese n) ≡ b'8' ∷ b'6' ∷ n
unfolding strip_phone_digits
strip_chinese n d = ap (λ s. b'8' ∷ b'6' ∷ s) (strip_digits n d)

with_zeros :
    (n : List ℕ)
    → all is_digit n ≡ true
    → 5 ≤ length n
    → length n ≤ 15
    → normalize_cleaned (b'0' ∷ b'0' ∷ b'8' ∷ b'6' ∷ n) (b'0' ∷ b'0' ∷ b'8' ∷ b'6' ∷ n)
      ≡ some (chinese n)
unfolding normalize_cleaned
with_zeros n d low high =
    let long : (suc (suc (suc (suc (length n)))) == 0) ≡ false = ground arith in
    rw long (chinese-assemble n d low high)

with_code :
    (n : List ℕ)
    → all is_digit n ≡ true
    → 5 ≤ length n
    → length n ≤ 15
    → 10 ≤ length n
    → normalize_cleaned (b'8' ∷ b'6' ∷ n) (b'8' ∷ b'6' ∷ n) ≡ some (chinese n)
unfolding normalize_cleaned
with_code n d low high h =
    let long : (suc (suc (length n)) == 0) ≡ false = ground arith in
    let more : ltb 11 (suc (suc (length n))) ≡ true = ground arith in
    rw (long, more) (chinese-assemble n d low high)

number_part :
    (s : List ℕ) → all is_digit s ≡ true → all (λ c. is_digit c || is_space c || c == b'-') s ≡ true
number_part [] d = refl
number_part (c ∷ s) d = ground (arith, number_part s)

match-chinese :
    (a c : ℕ) (s : List ℕ)
    → all is_digit (a ∷ c ∷ s) ≡ true
    → match_plus (chinese (a ∷ c ∷ s)) ≡ some (b'8' ∷ b'6' ∷ a ∷ [], c ∷ s)
unfolding drop_spaces
match-chinese a c s d =
    let first : is_digit a ≡ true = ground arith in
    let second : is_digit c ≡ true = ground arith in
    rw (first, digit-solid c second, second, number_part s (ground arith)) refl

assemble-chinese :
    (a : ℕ) (n : List ℕ)
    → all is_digit (a ∷ n) ≡ true
    → 4 ≤ length n
    → length n ≤ 14
    → assemble_match (some (b'8' ∷ b'6' ∷ a ∷ [], n)) ≡ some (chinese (a ∷ n))
assemble-chinese a n d low high =
    let some_digits : (length n == 0) ≡ false = ground arith in
    ap (assemble (b'8' ∷ b'6' ∷ a ∷ [])) (strip_digits n (ground arith))
    ∙ rw some_digits (chinese-normalized (a ∷ n) d (omega arith) (omega arith))

with_plus :
    (n : List ℕ)
    → all is_digit n ≡ true
    → 5 ≤ length n
    → length n ≤ 15
    → normalize_cleaned (chinese n) (b'8' ∷ b'6' ∷ n) ≡ some (chinese n)
unfolding normalize_cleaned
with_plus [] d low high = absurd (omega arith)
with_plus (a ∷ []) d low high = absurd (omega arith)
with_plus (a ∷ c ∷ s) d low high =
    let filled : (suc (suc (suc (suc (suc (length s))))) == 0) ≡ false = ground arith in
    elim (Bool-cases (ltb 11 (suc (suc (suc (suc (length s))))))) [
      | inl e ↦ rw (filled, e) (chinese-assemble (a ∷ c ∷ s) d low high)
      | inr e ↦
          rw (filled, e)
            (ap assemble_match (match-chinese a c s d)
              ∙ assemble-chinese a (c ∷ s) d (omega arith) (omega arith))
    ]

with_none :
    (n : List ℕ)
    → all is_digit n ≡ true
    → 5 ≤ length n
    → length n ≤ 15
    → length n ≤ 11
    → starts_with n (b'0' ∷ b'0' ∷ b'8' ∷ b'6' ∷ []) ≡ false
    → normalize_cleaned n n ≡ some (chinese n)
unfolding normalize_cleaned
with_none [] d low high h f = absurd (omega arith)
with_none (c ∷ n) d low high h f =
    let some_digits : (suc (length n) == 0) ≡ false = ground arith in
    let short : (starts_with (c ∷ n) (b'8' ∷ b'6' ∷ []) && ltb 11 (suc (length n))) ≡ false =
      ground arith in
    let digit_first : starts_with (c ∷ n) (b'+' ∷ []) ≡ false = ground arith in
    rw (some_digits, f, short, digit_first) (chinese-normalized (c ∷ n) d low high)

-- The ways to write the Chinese number `n`.
pub data Writes (n : List ℕ) : List ℕ → Type 0 where
  plus : Writes n (chinese n)
  zeros : Writes n (b'0' ∷ b'0' ∷ b'8' ∷ b'6' ∷ n)
  bare : 10 ≤ length n → Writes n (b'8' ∷ b'6' ∷ n)
  local : length n ≤ 11 → starts_with n (b'0' ∷ b'0' ∷ b'8' ∷ b'6' ∷ []) ≡ false → Writes n n

-- A number of 5 to 15 digits has one normal form, `+86` and the number, whether it is written with
-- `+86`, with `0086`, with `86` (from 10 digits on) or with no country code (up to 11 digits, not
-- starting with 0086); in particular the normal form is its own.
pub normalize_phone_input-Writes :
    (n raw : List ℕ)
    → all is_digit n ≡ true
    → 5 ≤ length n
    → length n ≤ 15
    → Writes n raw
    → normalize_phone_input raw ≡ some (chinese n)
unfolding is_space
normalize_phone_input-Writes n raw d low high plus =
    normalize_solid (chinese n) (b'8' ∷ b'6' ∷ n) (refl, (refl, (refl, digits-solid n d)))
      (strip_chinese n d)
    ∙ with_plus n d low high
normalize_phone_input-Writes n raw d low high zeros =
    normalize_solid raw raw (refl, (refl, (refl, (refl, digits-solid n d)))) (strip_digits raw d)
    ∙ with_zeros n d low high
normalize_phone_input-Writes n raw d low high (bare h) =
    normalize_solid raw raw (refl, (refl, digits-solid n d)) (strip_digits raw d)
    ∙ with_code n d low high h
normalize_phone_input-Writes n raw d low high (local h f) =
    normalize_solid n n (digits-solid n d) (strip_digits n d) ∙ with_none n d low high h f
