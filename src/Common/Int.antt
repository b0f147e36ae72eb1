-- ===== src/Common/Int.antt =====
-- The integers, for times before 1970 and for numbers that a caller may give negative.
use Prim.Native.Nat.{ℕ, ◌+◌, ◌-◌, ◌<◌}
use mathlib.Core.Path.{◌≡◌}
use mathlib.Core.Bool.{Bool, true, false}
use native.Mathlib.Omega.{arith}
use wbme.Common.Tests.{ltb, leb, if◌then◌else◌}

-- `negsuc n` is -(n + 1).
pub data ℤ : Type 0 where
  pos : ℕ → ℤ
  negsuc : ℕ → ℤ

-- a - b, as an integer.
abbrev pub sub_ℕ : ℕ → ℕ → ℤ
sub_ℕ a b = if leb b a then pos (a - b) else negsuc (b - a - 1)

-- n < z for a natural n.
abbrev pub ltb_pos : ℕ → ℤ → Bool
ltb_pos n (pos m) = ltb n m
ltb_pos n (negsuc m) = false

pub ltb_pos-sub : (n a b : ℕ) → (ltb_pos n (sub_ℕ a b) ≡ true) → n + b < a
ltb_pos-sub n a b h = ground arith

pub ltb_pos-sub_of : (n a b : ℕ) → n + b < a → ltb_pos n (sub_ℕ a b) ≡ true
ltb_pos-sub_of n a b h = ground arith
