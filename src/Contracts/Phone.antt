-- ===== src/Contracts/Phone.antt =====
-- packages/contracts/src/phone.ts: the normal form of phone numbers and how they are shown. A text is
-- the list of its UTF-16 code units. Each regular expression is a function that says what it matches.
pub mod Laws
use wbme.Common.{
  ℕ, zero, suc, ◌+◌, ◌-◌, min, Bool, true, false, not, ◌&&◌, ◌||◌, Option, none, some, List, [],
  ◌∷◌, ◌++◌, if◌then◌else◌, ltb, leb, ◌==◌, length, take, keep_if, all, trim, is_space, drop_spaces,
  is_digit, drop, starts_with,
}

abbrev pub default_country_code : List ℕ
default_country_code = b'8' ∷ b'6' ∷ []

-- The digits behind a leading `+`, for /^\+(\d{1,3})(\d{5,15})$/.
abbrev pub plus_digits : List ℕ → Option (List ℕ)
plus_digits [] = none
plus_digits (c ∷ s) = if c == b'+' && all is_digit s then some s else none

abbrev in_range : ℕ → ℕ → ℕ → Bool
in_range low high n = leb low n && leb n high

-- Some split into 1 to 3 and 5 to 15 digits exists.
abbrev has_split : Option (List ℕ) → Bool
has_split none = false
has_split (some s) = in_range 6 18 (length s)

unfoldable pub is_normalized_phone : List ℕ → Bool
is_normalized_phone value = has_split (plus_digits value)

-- `value.replace(/\D/g, '')`
unfoldable pub strip_phone_digits : List ℕ → List ℕ
strip_phone_digits value = keep_if is_digit value

abbrev cut_prefix : List ℕ → List ℕ
cut_prefix cc =
    if starts_with cc (b'+' ∷ [])
    then drop 1 cc
    else if starts_with cc (b'0' ∷ b'0' ∷ [])
    then drop 2 cc
    else cc

abbrev digits_or_empty : List ℕ → List ℕ
digits_or_empty cc = if all is_digit cc && in_range 1 3 (length cc) then cc else []

unfoldable pub clean_country_code : List ℕ → List ℕ
clean_country_code value = digits_or_empty (cut_prefix (keep_if (λ c. not (is_space c)) value))

abbrev pub normalized_or_none : List ℕ → Option (List ℕ)
normalized_or_none normalized = if is_normalized_phone normalized then some normalized else none

abbrev or_default : Option (List ℕ) → List ℕ
or_default none = default_country_code
or_default (some code) = code

unfoldable pub normalize_phone_from_parts : Option (List ℕ) → List ℕ → Option (List ℕ)
unfolding is_normalized_phone strip_phone_digits clean_country_code
normalize_phone_from_parts state_code mobile =
    let digits = strip_phone_digits mobile in
    let cc = clean_country_code (or_default state_code) in
    if length digits == 0
    then none
    else if length cc == 0
    then none
    else normalized_or_none (b'+' ∷ cc ++ digits)

-- \d[\d\s-]*
abbrev is_number_part : List ℕ → Bool
is_number_part [] = false
is_number_part (c ∷ s) = is_digit c && all (λ d. is_digit d || is_space d || d == b'-') s

-- /^\+(\d{1,3})\s*(\d[\d\s-]*)$/ behind the `+`, with `n` digits in the first group.
abbrev match_code : ℕ → List ℕ → Option (List ℕ × List ℕ)
match_code n s =
    if length (take n s) == n && all is_digit (take n s) && is_number_part (drop_spaces (drop n s))
    then some (take n s, drop_spaces (drop n s))
    else none

abbrev or_try : Option (List ℕ × List ℕ) → Option (List ℕ × List ℕ) → Option (List ℕ × List ℕ)
or_try none b = b
or_try (some a) b = some a

-- The first group takes as many digits as the rest allows.
abbrev pub match_plus : List ℕ → Option (List ℕ × List ℕ)
match_plus [] = none
match_plus (c ∷ s) =
    if c == b'+' then or_try (match_code 3 s) (or_try (match_code 2 s) (match_code 1 s)) else none

abbrev pub assemble : List ℕ → List ℕ → Option (List ℕ)
assemble country_code number =
    if length country_code == 0 || length number == 0
    then none
    else normalized_or_none (b'+' ∷ country_code ++ number)

abbrev pub assemble_match : Option (List ℕ × List ℕ) → Option (List ℕ)
assemble_match none = none
assemble_match (some (code, number)) = assemble code (strip_phone_digits number)

-- What follows on the trimmed text and its digits.
unfoldable pub normalize_cleaned : List ℕ → List ℕ → Option (List ℕ)
unfolding is_normalized_phone strip_phone_digits
normalize_cleaned cleaned number =
    if length cleaned == 0
    then none
    else if starts_with number (b'0' ∷ b'0' ∷ b'8' ∷ b'6' ∷ [])
    then assemble (b'8' ∷ b'6' ∷ []) (drop 4 number)
    else if starts_with number (b'8' ∷ b'6' ∷ []) && ltb 11 (length number)
    then assemble (b'8' ∷ b'6' ∷ []) (drop 2 number)
    else if starts_with cleaned (b'+' ∷ [])
    then assemble_match (match_plus cleaned)
    else assemble default_country_code number

unfoldable pub normalize_phone_input : List ℕ → Option (List ℕ)
unfolding normalize_cleaned
normalize_phone_input raw = normalize_cleaned (trim raw) (strip_phone_digits (trim raw))

-- `slice(0, 3)`, four asterisks, `slice(-4)`
abbrev pub masked : List ℕ → List ℕ
masked number = take 3 number ++ b'*' ∷ b'*' ∷ b'*' ∷ b'*' ∷ drop (length number - 4) number

abbrev three_stars : List ℕ
three_stars = b'*' ∷ b'*' ∷ b'*' ∷ []

abbrev shown : List ℕ → List ℕ → List ℕ
shown code number = b'+' ∷ code ++ b' ' ∷ masked number

-- The first group of the general expression takes three digits, or all but five.
abbrev code_length : List ℕ → ℕ
code_length s = min 3 (length s - 5)

abbrev mask_digits : Option (List ℕ) → List ℕ
mask_digits none = three_stars
mask_digits (some s) =
    if starts_with s (b'8' ∷ b'6' ∷ []) && in_range 5 15 (length (drop 2 s))
    then shown (b'8' ∷ b'6' ∷ []) (drop 2 s)
    else if in_range 6 18 (length s)
    then shown (take (code_length s) s) (drop (code_length s) s)
    else three_stars

unfoldable pub mask_phone : List ℕ → List ℕ
mask_phone normalized = mask_digits (plus_digits normalized)
