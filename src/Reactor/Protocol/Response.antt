-- ===== src/Reactor/Protocol/Response.antt =====
-- class Response of Reactor/reactor/Protocol.hpp.
use learn_in_linux.Common.{◌+◌, Bool, true, false, none, some, ◌++◌, Bytes, drop, Result, ok, ◌>>=◌}
use learn_in_linux.Common.Int.{ℤ}
use learn_in_linux.Text.{find, substr, atoi, to_string}
use learn_in_linux.Reactor.Protocol.{space, space_len}

pub record Response : Type 0 where
  pub result : ℤ
  pub code : ℤ

unfoldable pub serialize : Response → Bytes
serialize r = to_string r.code ++ (space ++ to_string r.result)

-- What `Deserialized` returns, and the fields after it.
unfoldable pub deserialize : Response → Bytes → Result (Bool × Response)
deserialize r s = elim (find space s) [
  | none ↦ ok (false, r)
  | some p ↦ do
    code ← atoi (substr s 0 p)
    result ← atoi (drop (p + space_len) s)
    ok (true, record { result = result; code = code })
]
