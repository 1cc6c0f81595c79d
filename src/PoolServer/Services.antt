-- ===== src/PoolServer/Services.antt =====
-- 10-21/tcp_server.hpp: service, change and dictOnline, which talk to one client and close its socket.
-- `read` and `write` on a socket are `recv` and `send` without flags.
use Prim.Native.Nat.{ℕ, zero, suc}
use learn_in_linux.Common.{
  Option, none, some, List, [], ◌∷◌, Bytes, if◌then◌else◌, Result, ok, fault, Fault, ◌>>=◌,
}
use learn_in_linux.Text.Case.{is_lower, to_upper}
use learn_in_linux.Text.{codes, c_str, same_bytes}
use learn_in_linux.Reactor.Os.{Os, Received}

-- `sizeof(buffer) - 1`, with a place left for the NUL.
abbrev pub room : ℕ
room = 1023

-- The loop of `change` over the text.
unfoldable pub change_text : Bytes → Result Bytes
change_text [] = ok []
change_text (b ∷ start) = do
  lower ← is_lower b
  let c = if lower then to_upper b else b
  message ← change_text start
  ok (c ∷ message)

-- `dict`, in UTF-8.
abbrev pub dict : List (Bytes × Bytes)
dict =
    (codes "apple", 0xe8 ∷ 0x8b ∷ 0xb9 ∷ 0xe6 ∷ 0x9e ∷ 0x9c ∷ [])
    ∷ (codes "bite", 0xe6 ∷ 0xaf ∷ 0x94 ∷ 0xe7 ∷ 0x89 ∷ 0xb9 ∷ [])
    ∷ (codes "banana", 0xe9 ∷ 0xa6 ∷ 0x99 ∷ 0xe8 ∷ 0x95 ∷ 0x89 ∷ [])
    ∷ (codes "hard", 0xe5 ∷ 0xa5 ∷ 0xbd ∷ 0xe9 ∷ 0x9a ∷ 0xbe ∷ 0xe5 ∷ 0x95 ∷ 0x8a ∷ [])
    ∷ []

-- "我不知道...", I do not know.
abbrev pub unknown : Bytes
unknown =
    0xe6 ∷ 0x88 ∷ 0x91 ∷ 0xe4 ∷ 0xb8 ∷ 0x8d ∷ 0xe7 ∷ 0x9f ∷ 0xa5 ∷ 0xe9 ∷ 0x81 ∷ 0x93 ∷ b'.' ∷ b'.'
    ∷ b'.' ∷ []

-- `find` of an unordered_map, as the list of its entries.
unfoldable pub lookup : Bytes → List (Bytes × Bytes) → Option Bytes
lookup word [] = none
lookup word ((key, value) ∷ entries) =
    if same_bytes key word then some value else lookup word entries

unfoldable pub translate : Bytes → Bytes
translate word = elim (lookup word dict) [ none ↦ unknown | some second ↦ second ]

module _ {K : Type 0} (os : Os K) where
  -- The loop has `fuel` rounds.
  unfoldable pub service : (fuel sock : ℕ) → K → Result K
  service zero sock k = fault Fault.out_of_fuel
  service (suc fuel) sock k =
      let (r, k') = os.recv sock room k in
      elim r [
        | Received.received [] ↦ ok (os.close sock k')
        | Received.not_received e ↦ ok (os.close sock k')
        | Received.received (b ∷ bs) ↦ service fuel sock (os.send sock (c_str (b ∷ bs)) k').1
      ]

  unfoldable pub change : (sock : ℕ) → K → Result K
  change sock k =
      let (r, k') = os.recv sock room k in
      elim r [
        | Received.received [] ↦ ok (os.close sock k')
        | Received.not_received e ↦ ok (os.close sock k')
        | Received.received (b ∷ bs) ↦ do
          message ← change_text (c_str (b ∷ bs))
          ok (os.close sock (os.send sock message k').1)
      ]

  unfoldable pub dict_online : (sock : ℕ) → K → Result K
  dict_online sock k =
      let (r, k') = os.recv sock room k in
      elim r [
        | Received.received [] ↦ ok (os.close sock k')
        | Received.not_received e ↦ ok (os.close sock k')
        | Received.received (b ∷ bs) ↦
            ok (os.close sock (os.send sock (translate (c_str (b ∷ bs))) k').1)
      ]
