-- ===== src/PollServer/Slots.antt =====
-- Which slots hold a descriptor, and which of them ask for input.
use learn_in_linux.Common.{
  ℕ, zero, suc, ◌≡◌, refl, Bool, true, false, Option, none, some, List, [], ◌∷◌, ◌==◌, length,
  get_or, set, All, Bool-cases, Option-cases, inl, inr,
}
use learn_in_linux.Reactor.Os.{Os, Accepted, Received}
use learn_in_linux.Reactor.Sock.{accept}
use learn_in_linux.PollServer.{
  PollFd, unused, PollServer, Polled, accepter, recver, handle_slot, handle_from, handler_event,
  free_slot,
}

abbrev pub holds : Option ℕ → Bool
holds none = false
holds (some fd) = true

abbrev pub IsTidy : PollFd → Type 0
IsTidy x = x.events ≡ holds x.fd

set-All :
    (xs : List PollFd) (i : ℕ) (v : PollFd) → IsTidy v → All IsTidy xs → All IsTidy (set xs i v)
set-All [] i v h a = tt
set-All (x ∷ xs) zero v h (p, a) = (h, a)
set-All (x ∷ xs) (suc i) v h (p, a) = (p, set-All xs i v h a)

module _ {K : Type 0} (os : Os K) (poll : List PollFd → ℕ → K → Polled × K) where
  accepter-All : (s : PollServer K) → All IsTidy s.fds → All IsTidy (accepter os poll s).fds
  unfolding accepter accept
  accepter-All s a = by_answer (os.accept s.listensock s.kernel).0 refl
    where
      by_answer :
          (r : Accepted)
          → (os.accept s.listensock s.kernel).0 ≡ r
          → All IsTidy (accepter os poll s).fds
      by_answer (Accepted.not_accepted x) e = rw (accepter, accept, e) a
      by_answer (Accepted.accepted sock ip port) e =
          elim (Bool-cases (free_slot s.fds == length s.fds)) [
            | inl q ↦ rw (accepter, accept, e, q) a
            | inr q ↦
                rw (accepter, accept, e, q)
                  (set-All s.fds (free_slot s.fds)
                    (record (get_or s.fds (free_slot s.fds) unused) {
                      fd = some sock;
                      events = true;
                    })
                    refl a)
          ]

  recver-All : (i : ℕ) (s : PollServer K) → All IsTidy s.fds → All IsTidy (recver os poll i s).fds
  unfolding recver
  recver-All i s a = elim (Option-cases (get_or s.fds i unused).fd) [
    | inl e ↦ rw (recver, e) a
    | inr (fd, e) ↦ by_answer fd e (os.recv fd 1023 s.kernel).0 refl
  ]
    where
      quits :
          All IsTidy (set s.fds i (record (get_or s.fds i unused) { fd = none; events = false }))
      quits = set-All s.fds i (record (get_or s.fds i unused) { fd = none; events = false }) refl a

      by_answer :
          (fd : ℕ)
          → (get_or s.fds i unused).fd ≡ some fd
          → (r : Received) → (os.recv fd 1023 s.kernel).0 ≡ r
          → All IsTidy (recver os poll i s).fds
      by_answer fd e (Received.received []) q = rw (recver, e, q) quits
      by_answer fd e (Received.received (b ∷ bs)) q = rw (recver, e, q) a
      by_answer fd e (Received.not_received x) q = rw (recver, e, q) quits

  handle_slot-All :
      (i : ℕ) (s : PollServer K) → All IsTidy s.fds → All IsTidy (handle_slot os poll i s).fds
  unfolding handle_slot
  handle_slot-All i s a = elim (Option-cases (get_or s.fds i unused).fd) [
    | inl e ↦ rw (handle_slot, e) a
    | inr (fd, e) ↦ elim (Bool-cases (get_or s.fds i unused).revents) [
      | inr q ↦ rw (handle_slot, e, q) a
      | inl q ↦ elim (Bool-cases (fd == s.listensock)) [
        | inl l ↦ rw (handle_slot, e, q, l) (accepter-All s a)
        | inr l ↦ rw (handle_slot, e, q, l) (recver-All i s a)
      ]
    ]
  ]

  -- `HandlerEvent` keeps it so that a slot asks for input exactly if it holds a descriptor.
  pub handler_event-IsTidy :
      (s : PollServer K) → All IsTidy s.fds → All IsTidy (handler_event os poll s).fds
  unfolding handler_event handle_from
  handler_event-IsTidy s a = rounds (length s.fds) 0 s a
    where
      rounds :
          (left i : ℕ) (t : PollServer K)
          → All IsTidy t.fds
          → All IsTidy (handle_from os poll left i t).fds
      rounds zero i t b = b
      rounds (suc left) i t b =
          rounds left (suc i) (handle_slot os poll i t) (handle_slot-All i t b)
