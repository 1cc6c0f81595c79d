-- ===== src/SelectServer.antt =====
-- 11-4/selectServer/selectServer.hpp: a server that waits for input with `select`, and keeps its
-- descriptors in an array. What it reads it only logs, so the bytes that arrive change nothing.
pub mod Table
pub mod Invariant
pub mod Rounds
pub mod Reads
mod Examples
use learn_in_linux.Common.{
  ℕ, zero, suc, ◌+◌, Bool, true, false, ◌||◌, Option, none, some, List, [], ◌∷◌, ltb, ◌==◌,
  if◌then◌else◌, length, get_or, set, drop, replicate, Result, ok, fault, Fault, ◌>>=◌,
}
use learn_in_linux.Reactor.Os.{Os, Accepted, Received}
use learn_in_linux.Reactor.Sock

-- `sizeof(fd_set) * BITS`; it is FD_SETSIZE too.
abbrev pub num : ℕ
num = 1024

-- `none` in `fd_array` is FD_NONE.
pub record SelectServer (K : Type 0) : Type 0 where
  pub port : ℕ
  pub listensock : ℕ
  pub fd_array : List (Option ℕ)
  pub kernel : K

-- What `select` returns: 0, -1, or the descriptors that are left in `rfds`.
pub data Selected : Type 0 where
  timed_out failed : Selected
  selected : (rfds : List ℕ) → Selected

-- `FD_ISSET`; a set of descriptors is a list of them.
unfoldable pub fd_isset : ℕ → List ℕ → Bool
fd_isset fd [] = false
fd_isset fd (x ∷ xs) = (fd == x) || fd_isset fd xs

-- `FD_SET` in the loop of `Start`: a descriptor that has no bit in `fd_set` is written out of bounds.
unfoldable pub set_all : List (Option ℕ) → Result (List ℕ)
set_all [] = ok []
set_all (none ∷ fds) = set_all fds
set_all (some fd ∷ fds) =
    let rest = set_all fds in
    if ltb fd num then rest >>= (λ rfds. ok (fd ∷ rfds)) else fault Fault.out_of_bounds

-- `maxfd` in the same loop.
unfoldable pub max_fd : ℕ → List (Option ℕ) → ℕ
max_fd maxfd [] = maxfd
max_fd maxfd (none ∷ fds) = max_fd maxfd fds
max_fd maxfd (some fd ∷ fds) = if ltb maxfd fd then max_fd fd fds else max_fd maxfd fds

-- How many slots stand before the first free one.
unfoldable pub first_free : List (Option ℕ) → ℕ
first_free [] = 0
first_free (none ∷ fds) = 0
first_free (some fd ∷ fds) = suc (first_free fds)

-- `pos` behind the loop of `Accepter`: from slot 1 on.
unfoldable pub free_slot : List (Option ℕ) → ℕ
free_slot fds = first_free (drop 1 fds) + 1

-- `select(nfds, &rfds, nullptr, nullptr, nullptr)` is a parameter, as are the calls of `Os`.
module _ {K : Type 0} (os : Os K) (select : (nfds : ℕ) → List ℕ → K → Selected × K) where
  unfoldable pub accepter : SelectServer K → SelectServer K
  accepter s =
      let (r, k) = Sock.accept os s.listensock s.kernel in
      elim r [
        | Accepted.not_accepted e ↦ record s { kernel = k }
        | Accepted.accepted sock ip port ↦
            let pos = free_slot s.fd_array in
            if pos == length s.fd_array
            then record s { kernel = os.close sock k }
            else record s { fd_array = set s.fd_array pos (some sock); kernel = k }
      ]

  -- On FD_NONE, for which `HandlerEvent` does not call it, every call fails and nothing changes.
  unfoldable pub recver : ℕ → SelectServer K → SelectServer K
  recver pos s = elim (get_or s.fd_array pos none) [
    | none ↦ s
    | some fd ↦
        let (r, k) = os.recv fd 1023 s.kernel in
        let quit : SelectServer K = record s {
          kernel = os.close fd k;
          fd_array = set s.fd_array pos none;
        } in
        elim r [
          | Received.received (b ∷ bs) ↦ record s { kernel = k }
          | Received.received [] ↦ quit
          | Received.not_received e ↦ quit
        ]
  ]

  -- The round `i` of the loop of `HandlerEvent`.
  unfoldable pub handle_slot : List ℕ → ℕ → SelectServer K → SelectServer K
  handle_slot rfds i s = elim (get_or s.fd_array i none) [
    | none ↦ s
    | some fd ↦
        if fd_isset fd rfds then (if fd == s.listensock then accepter s else recver i s) else s
  ]

  -- The rounds from `i` on, `left` of them.
  unfoldable pub handle_from : List ℕ → (left i : ℕ) → SelectServer K → SelectServer K
  handle_from rfds zero i s = s
  handle_from rfds (suc left) i s = handle_from rfds left (suc i) (handle_slot rfds i s)

  -- The array has `num` slots from the constructor on.
  unfoldable pub handler_event : List ℕ → SelectServer K → SelectServer K
  handler_event rfds s = handle_from rfds (length s.fd_array) 0 s

  -- One round of the loop of `Start`; `DebugPrint` only prints.
  unfoldable pub start_once : SelectServer K → Result (SelectServer K)
  start_once s = do
    rfds ← set_all s.fd_array
    let (r, k) = select (max_fd s.listensock s.fd_array + 1) rfds s.kernel
    elim r [
      | timed_out ↦ ok (record s { kernel = k })
      | failed ↦ ok (record s { kernel = k })
      | selected rfds' ↦ ok (handler_event rfds' (record s { kernel = k }))
    ]

  -- `Start` never returns: this is the server after `n` rounds.
  unfoldable pub start : ℕ → SelectServer K → Result (SelectServer K)
  start zero s = ok s
  start (suc n) s = do s' ← start_once s; start n s'

  unfoldable pub select_server : ℕ → K → Result (SelectServer K)
  select_server port k = do
    (sock, k1) ← Sock.socket os k
    k2 ← Sock.bind os sock port k1
    k3 ← Sock.listen os sock k2
    ok (record {
      port = port;
      listensock = sock;
      fd_array = set (replicate num none) 0 (some sock);
      kernel = k3;
    })
