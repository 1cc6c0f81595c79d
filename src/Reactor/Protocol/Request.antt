-- ===== src/Reactor/Protocol/Request.antt =====
-- class Request of Reactor/reactor/Protocol.hpp.
use learn_in_linux.Common.{
  ℕ, ◌+◌, Bool, true, false, none, some, ◌∷◌, ◌++◌, Bytes, drop, length, get_or, ltb, if◌then◌else◌,
  Result, ok, ◌>>=◌,
}
use learn_in_linux.Common.Int.{ℤ}
use learn_in_linux.Text.{find, rfind, substr, atoi, to_string}
use learn_in_linux.Reactor.Protocol.{space, space_len}

pub record Request : Type 0 where
  pub x : ℤ
  pub y : ℤ
  pub op : ℕ

unfoldable pub serialize : Request → Bytes
serialize r = to_string r.x ++ (space ++ (r.op ∷ (space ++ to_string r.y)))

-- What `Deserialized` returns, and the fields after it. They are read from the text before the first
-- space and from that behind the last one; `op_` is the byte after the first space, which is the
-- terminating NUL where the text ends there.
unfoldable pub deserialize : Request → Bytes → Result (Bool × Request)
deserialize r str = elim (find space str) [
  | none ↦ ok (false, r)
  | some left ↦ elim (rfind space str) [
    | none ↦ ok (false, r)
    | some right ↦ do
      x ← atoi (substr str 0 left)
      y ← atoi (drop (right + space_len) str)
      if ltb (length str) (left + space_len)
          then ok (false, record r { x = x; y = y })
          else ok (true, record { x = x; y = y; op = get_or str (left + space_len) 0 })
  ]
]
