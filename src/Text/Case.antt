-- ===== src/Text/Case.antt =====
-- What the sources use of <ctype.h>, in the C locale.
use learn_in_linux.Common.{
  ℕ, ◌+◌, ◌-◌, ◌<◌, ◌≡◌, Bool, false, ◌&&◌, leb, ltb, ◌==◌, if◌then◌else◌, Result, ok, fault, Fault,
  arith,
}

-- `islower` and `toupper` in the C locale. A byte of 128 or more is a negative `char`, for which the C
-- standard leaves both undefined, but for EOF.
unfoldable pub is_lower : ℕ → Result Bool
is_lower c =
    if ltb c 128
    then ok (leb b'a' c && leb c b'z')
    else if c == 255
    then ok false
    else fault Fault.bad_char

unfoldable pub to_upper : ℕ → ℕ
to_upper c = c - 32

-- The upper case of an ASCII byte: 'A' and 'a' are 65 and 97.
abbrev pub upper : ℕ → ℕ
upper b = if leb 97 b && ltb b 123 then b - 97 + 65 else b

pub is_lower_ascii : (b : ℕ) → b < 128 → is_lower b ≡ ok (leb 97 b && leb b 122)
unfolding is_lower
is_lower_ascii b h = ground arith

pub to_upper-upper : (b : ℕ) → (if leb 97 b && leb b 122 then to_upper b else b) ≡ upper b
unfolding to_upper
to_upper-upper b = ground arith
