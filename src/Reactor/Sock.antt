-- ===== src/Reactor/Sock.antt =====
-- class Sock of Reactor/reactor/Sock.hpp: the socket calls, and what the program does where one fails.
use Prim.Native.Nat.{bit_or}
use learn_in_linux.Common.{
  ℕ, Bool, true, false, none, some, Result, ok, fault, Fault, if◌then◌else◌,
}
use learn_in_linux.Text.{codes}
use learn_in_linux.Reactor.Os.{Os, Accepted}

abbrev pub backlog : ℕ
backlog = 10

-- O_NONBLOCK on Linux.
abbrev o_nonblock : ℕ
o_nonblock = 0x800

module _ {K : Type 0} (os : Os K) where
  unfoldable pub socket : K → Result (ℕ × K)
  socket k =
      let (s, k') = os.socket k in
      elim s [ none ↦ fault (Fault.exited 2) | some sock ↦ ok (sock, os.setsockopt sock k') ]

  -- With the default address.
  unfoldable pub bind : ℕ → ℕ → K → Result K
  bind sock port k =
      let (done, k') = os.bind sock port (codes "0.0.0.0") k in
      if done then ok k' else fault (Fault.exited 3)

  unfoldable pub listen : ℕ → K → Result K
  listen sock k =
      let (done, k') = os.listen sock backlog k in if done then ok k' else fault (Fault.exited 4)

  -- The value is -1 with `*accept_errno` set, or the descriptor with `*ip` and `*port`.
  unfoldable pub accept : ℕ → K → Accepted × K
  accept listensock k = os.accept listensock k

  unfoldable pub set_non_block : ℕ → K → Bool × K
  set_non_block sock k =
      let (fl, k') = os.get_flags sock k in
      elim fl [
        | none ↦ (false, k')
        | some flags ↦ (true, os.set_flags sock (bit_or flags o_nonblock) k')
      ]
