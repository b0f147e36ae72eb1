-- ===== src/Contracts/Tests.antt =====
-- The theorems on phone numbers at a concrete number.
use wbme.Common.{ℕ, some, List, [], ◌∷◌, ◌≡◌, refl, arith}
use wbme.Contracts.Phone.{normalize_phone_input}
use wbme.Contracts.Phone.Laws.{chinese, plus, normalize_phone_input-Writes}

abbrev number : List ℕ
number = b'1' ∷ b'3' ∷ b'8' ∷ b'0' ∷ b'0' ∷ b'1' ∷ b'3' ∷ b'8' ∷ b'0' ∷ b'0' ∷ b'0' ∷ []

normalize_phone_input-Writes_example :
    normalize_phone_input (chinese number) ≡ some (chinese number)
normalize_phone_input-Writes_example =
    normalize_phone_input-Writes number (chinese number) refl (omega arith) (omega arith) plus
