-- ===== src/Common/Int.antt =====
-- `int` as an integer, with the operations of C++ on it: a result outside of 32 bits is a fault.
use learn_in_linux.Common.Tests.{ltb, leb, ◌==◌, if◌then◌else◌}
use learn_in_linux.Common.Faults.{Result, ok, fault, Fault}
use Prim.Native.Nat.{ℕ, suc, ◌+◌, ◌-◌, ◌*◌, ◌/◌, ◌%◌, ◌^◌}
use mathlib.Core.Path.{◌≡◌}
use mathlib.Core.Bool.{Bool, true}

-- `negsuc n` is -(n + 1).
pub data ℤ : Type 0 where
  pos : ℕ → ℤ
  negsuc : ℕ → ℤ

abbrev pub pos_part : ℤ → ℕ
pos_part (pos n) = n
pos_part (negsuc n) = 0

abbrev pub neg_part : ℤ → ℕ
neg_part (pos n) = 0
neg_part (negsuc n) = suc n

abbrev pub abs : ℤ → ℕ
abs (pos n) = n
abs (negsuc n) = suc n

-- a - b, as an integer.
abbrev pub sub_ℕ : ℕ → ℕ → ℤ
sub_ℕ a b = if leb b a then pos (a - b) else negsuc (b - a - 1)

infixl 65 ◌+ℤ◌ ◌-ℤ◌
infixl 70 ◌*ℤ◌
unfoldable pub ◌+ℤ◌ : ℤ → ℤ → ℤ
a +ℤ b = sub_ℕ (pos_part a + pos_part b) (neg_part a + neg_part b)

unfoldable pub ◌-ℤ◌ : ℤ → ℤ → ℤ
a -ℤ b = sub_ℕ (pos_part a + neg_part b) (neg_part a + pos_part b)

unfoldable pub ◌*ℤ◌ : ℤ → ℤ → ℤ
a *ℤ b =
    sub_ℕ (pos_part a * pos_part b + neg_part a * neg_part b)
      (pos_part a * neg_part b + neg_part a * pos_part b)

-- The quotient that is rounded towards zero, and its remainder, which has the sign of `a`.
unfoldable pub tdiv : ℤ → ℤ → ℤ
tdiv (pos a) (pos b) = pos (a / b)
tdiv (pos a) (negsuc b) = sub_ℕ 0 (a / suc b)
tdiv (negsuc a) (pos b) = sub_ℕ 0 (suc a / b)
tdiv (negsuc a) (negsuc b) = pos (suc a / suc b)

unfoldable pub tmod : ℤ → ℤ → ℤ
tmod (pos a) b = pos (a % abs b)
tmod (negsuc a) b = sub_ℕ 0 (suc a % abs b)

-- The values of `int`.
abbrev pub in_int : ℤ → Bool
in_int (pos n) = ltb n (2 ^ 31)
in_int (negsuc n) = ltb n (2 ^ 31)

abbrev pub IsInt : ℤ → Type 0
IsInt z = in_int z ≡ true

abbrev pub is_zero : ℤ → Bool
is_zero z = abs z == 0

abbrev pub int_min : ℤ
int_min = negsuc (2 ^ 31 - 1)

abbrev checked : ℤ → Result ℤ
checked z = if in_int z then ok z else fault Fault.signed_overflow

-- `a + b`, `a - b` and `a * b` of two `int`s.
unfoldable pub add_int : ℤ → ℤ → Result ℤ
add_int a b = checked (a +ℤ b)

unfoldable pub sub_int : ℤ → ℤ → Result ℤ
sub_int a b = checked (a -ℤ b)

unfoldable pub mul_int : ℤ → ℤ → Result ℤ
mul_int a b = checked (a *ℤ b)

-- `a / b` and `a % b` at a divisor other than 0. Where the quotient does not fit (INT_MIN by -1),
-- both are undefined.
unfoldable pub div_int : ℤ → ℤ → Result ℤ
div_int a b = checked (tdiv a b)

unfoldable pub mod_int : ℤ → ℤ → Result ℤ
mod_int a b = if in_int (tdiv a b) then ok (tmod a b) else fault Fault.signed_overflow
