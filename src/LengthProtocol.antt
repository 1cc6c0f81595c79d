-- ===== src/LengthProtocol.antt =====
-- 10-23/NetCal/Protocol.hpp: messages that carry their length. Lengths are size_t of 64 bits,
-- which `Decode` mixes with int.
pub mod Frames
pub mod Negative
pub mod Service
pub mod Json
pub mod RoundTrip
pub mod Server
pub mod Threads
pub mod Members
mod Examples
mod JsonExamples
use learn_in_linux.Common.{
  ℕ, suc, ◌+◌, ◌-◌, ◌*◌, ◌%◌, ◌^◌, ◌≡◌, refl, Bool, true, false, none, some, List, [], ◌∷◌, ◌++◌,
  Bytes, take, drop, length, ltb, leb, if◌then◌else◌, Result, ok, ◌>>=◌,
}
use learn_in_linux.Common.Int.{ℤ, pos, negsuc}
use learn_in_linux.Text.{codes, find, substr, erase_front, atoi, to_string}

-- SEP and its `strlen`.
abbrev pub sep : Bytes
sep = b'\r' ∷ b'\n' ∷ []

abbrev pub sep_len : ℕ
sep_len = length sep

-- `a - b` of two size_t.
unfoldable pub sub_size : ℕ → ℕ → ℕ
sub_size a b = (2 ^ 64 + a - b) % 2 ^ 64

-- A size_t as an int: its low 32 bits, in two's complement.
unfoldable pub to_int : ℕ → ℤ
to_int n = let r = n % 2 ^ 32 in if ltb r (2 ^ 31) then pos r else negsuc (2 ^ 32 - 1 - r)

-- An int as a size_t.
unfoldable pub to_size : ℤ → ℕ
to_size (pos n) = n
to_size (negsuc n) = 2 ^ 64 - suc n

-- `a >= b` of two ints.
unfoldable pub geb : ℤ → ℤ → Bool
geb (pos a) (pos b) = leb b a
geb (pos a) (negsuc b) = true
geb (negsuc a) (pos b) = false
geb (negsuc a) (negsuc b) = leb a b

-- What `Decode` returns, and the buffer as it leaves it.
unfoldable pub decode : Bytes → Result (Bytes × Bytes)
decode buffer = elim (find sep buffer) [
  | none ↦ ok ([], buffer)
  | some p ↦ do
    size ← atoi (substr buffer 0 p)
    let surplus = to_int (sub_size (sub_size (length buffer) p) (2 * sep_len))
    if geb surplus size
        then (let body = erase_front buffer (p + sep_len) in
            ok (substr body 0 (to_size size), erase_front body ((to_size size + sep_len) % 2 ^ 64)))
        else ok ([], buffer)
]

unfoldable pub encode : Bytes → Bytes
encode s = to_string (pos (length s)) ++ (sep ++ (s ++ sep))
