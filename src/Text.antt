-- ===== src/Text.antt =====
-- What the sources use of std::string and of the C library's text functions, over lists of bytes:
-- find, rfind, substr, erase, size, atoi, std::to_string. Every file that handles messages uses it.
pub mod Find
pub mod Decimal
pub mod Case
use learn_in_linux.Common.{
  ◌≡◌, refl, ℕ, inl, inr, Bool-cases, ==_refl, ==_true, zero, suc, ◌+◌, ◌-◌, ◌*◌, ◌/◌, ◌%◌, Bool,
  true, false, ◌&&◌, ◌||◌, Option, none, some, List, [], ◌∷◌, ◌++◌, Bytes, take, drop, length, ltb,
  leb, ◌==◌, if◌then◌else◌, Result, ok, fault, Fault,
}
use learn_in_linux.Common.Int.{ℤ, pos, negsuc, sub_ℕ, in_int}
use mathlib.Core.Option
use Prim.Native.Char.{code}
use Prim.Native.String.{String}

-- The bytes of an ASCII literal.
abbrev pub codes : String → Bytes
codes String.[] = []
codes (String.◌∷◌ c s) = code c ∷ codes s

-- `s == t` of two strings.
abbrev pub same_bytes : Bytes → Bytes → Bool
same_bytes [] [] = true
same_bytes (a ∷ s) (b ∷ t) = (a == b) && same_bytes s t
same_bytes _ _ = false

pub same_bytes_refl : (s : Bytes) → same_bytes s s ≡ true
same_bytes_refl [] = refl
same_bytes_refl (b ∷ s) = rw (==_refl b, same_bytes_refl s) refl

pub same_bytes_eq : (s t : Bytes) → same_bytes s t ≡ true → s ≡ t
same_bytes_eq [] [] e = refl
same_bytes_eq [] (b ∷ t) e = absurd (cc e)
same_bytes_eq (a ∷ s) [] e = absurd (cc e)
same_bytes_eq (a ∷ s) (b ∷ t) e = elim (Bool-cases (a == b)) [
  | inl q ↦ rw (==_true a b q, same_bytes_eq s t (rw q at e)) refl
  | inr q ↦ absurd (cc (rw q at e))
]

unfoldable pub starts_with : Bytes → Bytes → Bool
starts_with [] s = true
starts_with (p ∷ ps) [] = false
starts_with (p ∷ ps) (c ∷ s) = (p == c) && starts_with ps s

abbrev pub later : Option ℕ → Option ℕ
later none = none
later (some i) = some (suc i)

-- `s.find(pat)`: where the first occurrence begins; `none` is npos.
unfoldable pub find : Bytes → Bytes → Option ℕ
find pat [] = if starts_with pat [] then some 0 else none
find pat (c ∷ s) = let rest = later (find pat s) in if starts_with pat (c ∷ s) then some 0 else rest

-- `s.rfind(pat)`: where the last occurrence begins.
unfoldable pub rfind : Bytes → Bytes → Option ℕ
rfind pat [] = if starts_with pat [] then some 0 else none
rfind pat (c ∷ s) = elim (rfind pat s) [
  | some i ↦ some (suc i)
  | none ↦ if starts_with pat (c ∷ s) then some 0 else none
]

-- `s.substr(i, n)` and `s.substr(i)` at `i <= s.size()`.
abbrev pub substr : Bytes → ℕ → ℕ → Bytes
substr s i n = take n (drop i s)

-- `s.erase(0, n)`.
abbrev pub erase_front : Bytes → ℕ → Bytes
erase_front s n = drop n s

-- A char array that is used as a C string ends at its first NUL.
unfoldable pub c_str : Bytes → Bytes
c_str [] = []
c_str (c ∷ s) = if c == 0 then [] else c ∷ c_str s

is_space : ℕ → Bool
is_space c = (c == 32) || (leb 9 c && leb c 13)

unfoldable pub is_digit : ℕ → Bool
is_digit c = leb b'0' c && leb c b'9'

-- The value of the leading digits, behind `n`.
scan : ℕ → Bytes → ℕ
unfolding is_digit
scan n [] = n
scan n (c ∷ s) = let more = scan (n * 10 + (c - b'0')) s in if is_digit c then more else n

signed_value : Bytes → ℤ
unfolding scan
signed_value [] = pos 0
signed_value (c ∷ s) =
    if c == b'-'
    then sub_ℕ 0 (scan 0 s)
    else if c == b'+'
    then pos (scan 0 s)
    else pos (scan 0 (c ∷ s))

skip_spaces : Bytes → Bytes
unfolding is_space
skip_spaces [] = []
skip_spaces (c ∷ s) = if is_space c then skip_spaces s else c ∷ s

-- `atoi(s)`: white space, a sign, digits; 0 if there is no digit. The C standard leaves a value that
-- does not fit undefined.
unfoldable pub atoi : Bytes → Result ℤ
unfolding signed_value skip_spaces
atoi s =
    let z = signed_value (skip_spaces s) in if in_int z then ok z else fault Fault.atoi_overflow

-- The decimal digits of `n`, before `out`; the fuel bounds their number.
unfoldable pub digits : ℕ → ℕ → Bytes → Bytes
digits zero n out = out
digits (suc f) n out = elim (ltb n 10) [
  | true ↦ (b'0' + n) ∷ out
  | false ↦ digits f (n / 10) ((b'0' + n % 10) ∷ out)
]

-- `std::to_string(z)`.
unfoldable pub to_string : ℤ → Bytes
to_string (pos n) = digits (suc n) n []
to_string (negsuc n) = b'-' ∷ digits (suc (suc n)) (suc n) []

to_string_runs : to_string (negsuc 1204) ≡ codes "-1205"
unfolding to_string digits
to_string_runs = refl

atoi_runs : atoi (codes " -120x") ≡ ok (negsuc 119)
unfolding atoi
atoi_runs = refl

atoi_too_large : atoi (codes "2147483648") ≡ fault Fault.atoi_overflow
unfolding atoi
atoi_too_large = refl

find_runs : find (codes "ab") (codes "xaab") ≡ some 2
unfolding find starts_with
find_runs = refl
