-- ===== src/UpperServer.antt =====
-- importent-code/TcpServer/TcpServer.cc: a server that serves one client after the other with upper case. It
-- sends its whole buffer for each message; `Replies` says what the client gets.
pub mod Replies
mod Examples
use learn_in_linux.Common.{
  ℕ, zero, suc, ◌+◌, ◌-◌, Bool, true, false, Option, none, some, List, [], ◌∷◌, ◌++◌, map, Bytes,
  length, drop, ◌&&◌, leb, if◌then◌else◌, Result, ok, fault, Fault, ◌>>=◌,
}
use learn_in_linux.Text.{codes, c_str, same_bytes}
use learn_in_linux.Text.Case.{is_lower, to_upper}
use learn_in_linux.Reactor.Os.{Os, Accepted, Received}

-- `sizeof(inbuffer)`, and without the place for the NUL.
abbrev pub buffer_size : ℕ
buffer_size = 1024

abbrev pub room : ℕ
room = buffer_size - 1

-- `strcasecmp(s, t) == 0`, in the C locale.
abbrev pub to_lower : ℕ → ℕ
to_lower c = if leb b'A' c && leb c b'Z' then c + 32 else c

unfoldable pub same_ignoring_case : Bytes → Bytes → Bool
same_ignoring_case s t = same_bytes (map to_lower s) (map to_lower t)

-- The array behind `read` and `inbuffer[s] = 0`.
unfoldable pub fill : Bytes → Bytes → Bytes
fill bytes inbuffer = bytes ++ 0 ∷ drop (suc (length bytes)) inbuffer

-- The loop over the first `s` bytes of the array.
unfoldable pub trans : (s : ℕ) → Bytes → Result Bytes
trans zero inbuffer = ok inbuffer
trans (suc s) [] = fault Fault.out_of_bounds
trans (suc s) (b ∷ inbuffer) = do
  lower ← is_lower b
  rest ← trans s inbuffer
  ok ((if lower then to_upper b else b) ∷ rest)

-- `listensock` is `none` for -1.
pub record UpperServer : Type 0 where
  pub port : ℕ
  pub ip : Bytes
  pub listensock : Option ℕ

unfoldable pub upper_server : (port : ℕ) → (ip : Bytes) → UpperServer
upper_server port ip = record { port = port; ip = ip; listensock = none }

-- `memory` is what the stack holds where `inbuffer` will stand: the array is not set before it is used.
module _ {K : Type 0} (os : Os K) (memory : K → Bytes) where
  unfoldable pub init : UpperServer → K → Result (UpperServer × K)
  init s k =
      let (sock, k1) = os.socket k in
      elim sock [
        | none ↦ fault (Fault.exited 2)
        | some listensock ↦
            let (bound, k2) = os.bind listensock s.port s.ip k1 in
            if bound
            then (let (listens, k3) = os.listen listensock 5 k2 in
                if listens
                then ok (record s { listensock = some listensock }, k3)
                else fault (Fault.exited 4))
            else fault (Fault.exited 3)
      ]

  -- The loop of `transervice`, of `fuel` rounds. The whole array is written.
  unfoldable pub serve_loop : (fuel sock : ℕ) → Bytes → K → Result K
  serve_loop zero sock inbuffer k = fault Fault.out_of_fuel
  serve_loop (suc fuel) sock inbuffer k =
      let (r, k') = os.recv sock room k in
      elim r [
        | Received.received [] ↦ ok k'
        | Received.not_received e ↦ ok k'
        | Received.received (b ∷ bs) ↦ elim (same_ignoring_case (c_str (b ∷ bs)) (codes "quit")) [
          | true ↦ ok k'
          | false ↦ do
            after ← trans (length (b ∷ bs)) (fill (b ∷ bs) inbuffer)
            serve_loop fuel sock after (os.send sock after k').1
        ]
      ]

  unfoldable pub transervice : (fuel sock : ℕ) → K → Result K
  transervice fuel sock k = do k' ← serve_loop fuel sock (memory k) k; ok (os.close sock k')

  -- `loop` never returns: this is the kernel after `n` rounds, with `fuel` for each client. A call of
  -- `accept` for a descriptor -1 fails and changes nothing.
  unfoldable pub loop : (n fuel : ℕ) → UpperServer → K → Result K
  loop zero fuel s k = ok k
  loop (suc n) fuel s k = elim s.listensock [
    | none ↦ loop n fuel s k
    | some listensock ↦
        let (r, k') = os.accept listensock k in
        elim r [
          | Accepted.not_accepted e ↦ loop n fuel s k'
          | Accepted.accepted sock ip port ↦ do k2 ← transervice fuel sock k'; loop n fuel s k2
        ]
  ]
