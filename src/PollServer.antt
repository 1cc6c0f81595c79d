-- ===== src/PollServer.antt =====
-- 11-4/pollServer/pollServer.hpp: a server that waits for input with `poll`, over an array of pollfd.
-- What it reads it only logs.
pub mod Slots
mod Examples
use learn_in_linux.Common.{
  ℕ, zero, suc, ◌+◌, Bool, true, false, Option, none, some, List, [], ◌∷◌, ◌==◌, if◌then◌else◌,
  length, get_or, set, drop, replicate, Result, ok, ◌>>=◌,
}
use learn_in_linux.Reactor.Os.{Os, Accepted, Received}
use learn_in_linux.Reactor.Sock

-- `struct pollfd`: `none` is FD_NONE; of the events only POLLIN is used.
pub record PollFd : Type 0 where
  pub fd : Option ℕ
  pub events : Bool
  pub revents : Bool

abbrev pub unused : PollFd
unused = record { fd = none; events = false; revents = false }

abbrev pub nfds : ℕ
nfds = 100

pub record PollServer (K : Type 0) : Type 0 where
  pub port : ℕ
  pub listensock : ℕ
  pub fds : List PollFd
  pub timeout : ℕ
  pub kernel : K

-- What `poll` returns: 0, -1, or the array with its `revents` set.
pub data Polled : Type 0 where
  timed_out failed : Polled
  polled : List PollFd → Polled

-- How many slots stand before the first free one.
unfoldable pub first_free : List PollFd → ℕ
first_free [] = 0
first_free (x ∷ xs) = let rest = first_free xs in elim (x.fd) [ none ↦ 0 | some fd ↦ suc rest ]

-- `pos` behind the loop of `Accepter`.
unfoldable pub free_slot : List PollFd → ℕ
free_slot fds = first_free (drop 1 fds) + 1

-- `poll` is a parameter, as are the calls of `Os`.
module _ {K : Type 0} (os : Os K) (poll : List PollFd → ℕ → K → Polled × K) where
  -- `revents` of the slot that is taken stays as it was.
  unfoldable pub accepter : PollServer K → PollServer K
  accepter s =
      let (r, k) = Sock.accept os s.listensock s.kernel in
      elim r [
        | Accepted.not_accepted e ↦ record s { kernel = k }
        | Accepted.accepted sock ip port ↦
            let at = free_slot s.fds in
            if at == length s.fds then record s { kernel = os.close sock k } else record s {
              fds =
                  set s.fds at (record (get_or s.fds at unused) { fd = some sock; events = true });
              kernel = k;
            }
      ]

  -- On FD_NONE, for which `HandlerEvent` does not call it, every call fails.
  unfoldable pub recver : ℕ → PollServer K → PollServer K
  recver at s = elim ((get_or s.fds at unused).fd) [
    | none ↦ s
    | some fd ↦
        let (r, k) = os.recv fd 1023 s.kernel in
        let quit : PollServer K = record s {
          kernel = os.close fd k;
          fds = set s.fds at (record (get_or s.fds at unused) { fd = none; events = false });
        } in
        elim r [
          | Received.received (b ∷ bs) ↦ record s { kernel = k }
          | Received.received [] ↦ quit
          | Received.not_received e ↦ quit
        ]
  ]

  unfoldable pub handle_slot : ℕ → PollServer K → PollServer K
  handle_slot i s = elim ((get_or s.fds i unused).fd) [
    | none ↦ s
    | some fd ↦
        if (get_or s.fds i unused).revents
        then (if fd == s.listensock then accepter s else recver i s)
        else s
  ]

  -- The rounds of the loop of `HandlerEvent` from `i` on, `left` of them.
  unfoldable pub handle_from : (left i : ℕ) → PollServer K → PollServer K
  handle_from zero i s = s
  handle_from (suc left) i s = handle_from left (suc i) (handle_slot i s)

  -- The array has `nfds` slots from the constructor on.
  unfoldable pub handler_event : PollServer K → PollServer K
  handler_event s = handle_from (length s.fds) 0 s

  -- One round of the loop of `Start`, which never returns.
  unfoldable pub start_once : PollServer K → PollServer K
  start_once s =
      let (r, k) = poll s.fds s.timeout s.kernel in
      elim r [
        | timed_out ↦ record s { kernel = k }
        | failed ↦ record s { kernel = k }
        | polled fds ↦ handler_event (record s { kernel = k; fds = fds })
      ]

  unfoldable pub poll_server : ℕ → K → Result (PollServer K)
  poll_server port k = do
    (sock, k1) ← Sock.socket os k
    k2 ← Sock.bind os sock port k1
    k3 ← Sock.listen os sock k2
    ok (record {
      port = port;
      listensock = sock;
      fds = set (replicate nfds unused) 0 (record unused { fd = some sock; events = true });
      timeout = 1000;
      kernel = k3;
    })
