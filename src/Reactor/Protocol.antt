-- ===== src/Reactor/Protocol.antt =====
-- Reactor/reactor/Protocol.hpp: how messages are cut out of a byte stream, and the texts of a
-- request and of a response. The requests and responses are
-- in `Request` and `Response`; `Framing` proves the cutting correct,
-- `Codec` the texts.
pub mod Framing
pub mod Request
pub mod Response
pub mod Codec
pub mod Examples
use learn_in_linux.Common.{
  ℕ, zero, suc, ◌+◌, ◌≡◌, refl, Bool, true, false, Option, none, some, List, [], ◌∷◌, ◌++◌, Bytes,
  drop, length, get_or, ltb, if◌then◌else◌, Result, ok, fault, Fault, ◌>>=◌,
}
use learn_in_linux.Common.Int.{ℤ, pos, negsuc}
use learn_in_linux.Text.{codes, find, substr, erase_front, starts_with, atoi, to_string, digits}

-- SEP and SPACE, with `strlen` of each.
abbrev pub sep : Bytes
sep = codes "X"

abbrev pub sep_len : ℕ
sep_len = length sep

abbrev pub space : Bytes
space = codes " "

abbrev pub space_len : ℕ
space_len = length space

-- The loop of `SpliteMessage` over (buffer, out). The first argument bounds the rounds.
splite_loop : ℕ → Bytes → List Bytes → Result (Bytes × List Bytes)
splite_loop zero buffer out = fault Fault.out_of_fuel
splite_loop (suc fuel) buffer out = elim (find sep buffer) [
  | none ↦ ok (buffer, out)
  | some p ↦ splite_loop fuel (erase_front buffer (p + sep_len)) (out ++ substr buffer 0 p ∷ [])
]

-- The buffer and `out` as `SpliteMessage` leaves them. Each round takes a byte or more away.
pub splite_message : Bytes → List Bytes → Result (Bytes × List Bytes)
unfolding splite_loop
splite_message buffer out = splite_loop (suc (length buffer)) buffer out

unfoldable pub encode : Bytes → Bytes
encode s = s ++ sep
