-- ===== src/SelectServer/Examples.antt =====
-- A kernel whose state is the next descriptor that it hands out, and a server over it with a listening
-- socket, a client and a free slot.
use learn_in_linux.Common.{
  ℕ, zero, suc, ◌+◌, ◌≤◌, ◌<◌, ◌≡◌, ◌⊎◌, refl, true, none, some, List, [], ◌∷◌, ok, fault, Fault,
  Bool-cases, inl, inr, arith, ◌==◌, ==_true,
}
use learn_in_linux.Reactor.Os.{Os, Errno, Accepted, Received}
use learn_in_linux.SelectServer.{
  SelectServer, Selected, selected, num, set_all, max_fd, fd_isset, accepter, handler_event,
  start_once, handle_from, handle_slot, recver, free_slot, first_free,
}
use learn_in_linux.Reactor.Sock.{accept}
use learn_in_linux.SelectServer.Table.{entry}
use learn_in_linux.SelectServer.Invariant.{Laws, WellFormed}
use learn_in_linux.SelectServer.Rounds.{start_once-WellFormed}
use learn_in_linux.SelectServer.Reads.{reads, handler_event-reads}

abbrev counting : Os ℕ
counting = record {
  socket = λ k. (some k, k + 1);
  setsockopt = λ sock k. k;
  bind = λ sock port ip k. (true, k);
  listen = λ sock backlog k. (true, k);
  accept = λ sock k. (Accepted.accepted k 0 0, k + 1);
  get_flags = λ sock k. (some 0, k);
  set_flags = λ sock flags k. k;
  recv = λ sock size k. (Received.received [], k);
  send = λ sock bytes k. (record { count = 0; errno = Errno.again }, k);
  close = λ sock k. k;
  epoll_create = λ size k. (some k, k + 1);
  epoll_ctl = λ epfd op sock events k. (true, k);
  epoll_wait = λ epfd num timeout k. ([], k);
}

abbrev all_ready : ℕ → List ℕ → ℕ → Selected × ℕ
all_ready nfds rfds k = (selected rfds, k)

abbrev IsOpen : ℕ → ℕ → Type 0
IsOpen fd k = fd < k

counting_laws : Laws counting all_ready IsOpen
counting_laws = record {
  accept_fresh = λ l k sock ip port e.
      let same : k ≡ sock = cc e in ((λ h. absurd (omega arith)), omega arith);
  accept_keeps = λ l fd k h. omega arith;
  recv_keeps = λ sock size fd k h. h;
  close_keeps = λ sock fd k other h. h;
  select_keeps = λ nfds fd fds k h. h;
}

abbrev small : SelectServer ℕ
small = record { port = 8080; listensock = 3; fd_array = some 3 ∷ some 4 ∷ none ∷ []; kernel = 5 }

small-WellFormed : WellFormed IsOpen small
small-WellFormed = record { first = refl; apart = apart; alive = alive }
  where
    alive : (i fd : ℕ) → entry small.fd_array i ≡ some fd → fd < 5
    alive zero fd e = let h : 3 ≡ fd = cc e in omega arith
    alive (suc zero) fd e = let h : 4 ≡ fd = cc e in omega arith
    alive (suc (suc zero)) fd e = absurd (cc e)
    alive (suc (suc (suc i))) fd e = absurd (cc e)

    place : (i fd : ℕ) → entry small.fd_array i ≡ some fd → i + 3 ≡ fd
    place zero fd e = let h : 3 ≡ fd = cc e in omega arith
    place (suc zero) fd e = let h : 4 ≡ fd = cc e in omega arith
    place (suc (suc zero)) fd e = absurd (cc e)
    place (suc (suc (suc i))) fd e = absurd (cc e)

    apart :
        (i j fd : ℕ) → entry small.fd_array i ≡ some fd → entry small.fd_array j ≡ some fd → i ≡ j
    apart i j fd e f = omega (arith, place i fd e, place j fd f)

start_once-WellFormed_example :
    ((t : SelectServer ℕ) × (start_once counting all_ready small ≡ ok t)
      × WellFormed IsOpen t
      × ((i fd : ℕ) → entry small.fd_array i ≡ some fd → fd < num))
    ⊎ ((start_once counting all_ready small ≡ fault Fault.out_of_bounds)
        × ((i : ℕ) × (fd : ℕ) × (entry small.fd_array i ≡ some fd) × (num ≤ fd)))
start_once-WellFormed_example = start_once-WellFormed counting_laws small small-WellFormed

asked : (fd : ℕ) → fd_isset fd (3 ∷ 4 ∷ []) ≡ true → (i : ℕ) × (entry small.fd_array i ≡ some fd)
unfolding fd_isset
asked fd q = elim (Bool-cases (fd == 3)) [
  | inl e ↦ let h = ==_true fd 3 e in (0, rw h refl)
  | inr n ↦ elim (Bool-cases (fd == 4)) [
    | inl e ↦ let h = ==_true fd 4 e in (1, rw h refl)
    | inr m ↦ absurd (cc (rw (n, m) at q))
  ]
]

handler_event-reads_example :
    handler_event counting all_ready (3 ∷ 4 ∷ []) small
    ≡ reads counting all_ready (3 ∷ 4 ∷ []) small.fd_array 2 1 (accepter counting all_ready small)
unfolding fd_isset
handler_event-reads_example =
    handler_event-reads counting_laws small (3 ∷ 4 ∷ []) small-WellFormed asked

-- After one round the client that sent nothing is gone, and the new one has the free slot.
one_round :
    start_once counting all_ready small
    ≡ ok
        (record { port = 8080; listensock = 3; fd_array = some 3 ∷ none ∷ some 5 ∷ []; kernel = 6 })
unfolding start_once set_all fd_isset max_fd handler_event handle_from handle_slot accepter recver
    free_slot first_free accept
one_round = refl
