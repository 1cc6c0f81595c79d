-- ===== src/SelectServer/Invariant.antt =====
-- What the array of descriptors is to be, and what each call of the server does to it.
use learn_in_linux.Common.{
  ℕ, zero, suc, ◌<◌, ◌≡◌, ◌≢◌, inl, inr, refl, sym, ap, ◌∙◌, false, none, some, List, [], ◌∷◌,
  length, set, get_or-set_ne, Bool-cases, Option-cases, ◌==◌, ==_false, arith,
}
use mathlib.Core.Path.{subst}
use learn_in_linux.Reactor.Os.{Os, Accepted, Received}
use learn_in_linux.Reactor.Sock.{accept}
use learn_in_linux.SelectServer.{
  SelectServer, Selected, fd_isset, accepter, recver, handle_slot, handle_from, free_slot,
}
use learn_in_linux.SelectServer.Table.{entry, some_lt, entry-set, free_slot_lem}

-- What the kernel documents on the descriptors that are open: `accept` returns one that was not, no
-- call closes one but `close`, and that closes no other.
pub record Laws {K : Type 0} (os : Os K) (select : ℕ → List ℕ → K → Selected × K)
    (Open : ℕ → K → Type 0) : Type 0 where
  pub accept_fresh :
      (l : ℕ) (k : K) (sock ip port : ℕ)
      → (os.accept l k).0 ≡ Accepted.accepted sock ip port
      → (¬ Open sock k) × Open sock (os.accept l k).1
  pub accept_keeps : (l fd : ℕ) (k : K) → Open fd k → Open fd (os.accept l k).1
  pub recv_keeps : (sock size fd : ℕ) (k : K) → Open fd k → Open fd (os.recv sock size k).1
  pub close_keeps : (sock fd : ℕ) (k : K) → fd ≢ sock → Open fd k → Open fd (os.close sock k)
  pub select_keeps :
      (nfds fd : ℕ) (fds : List ℕ) (k : K) → Open fd k → Open fd (select nfds fds k).1

pub record WellFormed {K : Type 0} (Open : ℕ → K → Type 0) (s : SelectServer K) : Type 0 where
  pub first : entry s.fd_array 0 ≡ some s.listensock
  pub apart : (i j fd : ℕ) → entry s.fd_array i ≡ some fd → entry s.fd_array j ≡ some fd → i ≡ j
  pub alive : (i fd : ℕ) → entry s.fd_array i ≡ some fd → Open fd s.kernel

module _ {K : Type 0} {Open : ℕ → K → Type 0} (s : SelectServer K) (v : WellFormed Open s) where
  -- A call that closes nothing.
  pub keeps :
      (k : K)
      → ((fd : ℕ) → Open fd s.kernel → Open fd k)
      → WellFormed Open (record s { kernel = k })
  keeps k same = record {
    first = v.first;
    apart = v.apart;
    alive = λ i fd e. same fd (v.alive i fd e);
  }

  -- A new descriptor in a slot behind slot 0.
  takes :
      (k : K) (pos sock : ℕ)
      → 0 < pos
      → pos < length s.fd_array
      → ¬ Open sock s.kernel
      → Open sock k
      → ((fd : ℕ) → Open fd s.kernel → Open fd k)
      → WellFormed Open (record s { fd_array = set s.fd_array pos (some sock); kernel = k })
  takes k pos sock behind inside fresh open_ same = record {
    first = get_or-set_ne s.fd_array (some sock) none (λ e. absurd (omega arith)) ∙ v.first;
    apart = λ i j fd e f. elim (entry-set s.fd_array pos i (some sock) inside e) [
      | inl (a, b) ↦ elim (entry-set s.fd_array pos j (some sock) inside f) [
        | inl (c, d) ↦ sym a ∙ c
        | inr (c, d) ↦ absurd (fresh (subst (λ x. Open x s.kernel) (cc b) (v.alive j fd d)))
      ]
      | inr (a, b) ↦ elim (entry-set s.fd_array pos j (some sock) inside f) [
        | inl (c, d) ↦ absurd (fresh (subst (λ x. Open x s.kernel) (cc d) (v.alive i fd b)))
        | inr (c, d) ↦ v.apart i j fd b d
      ]
    ];
    alive = λ i fd e. elim (entry-set s.fd_array pos i (some sock) inside e) [
      | inl (a, b) ↦ subst (λ x. Open x k) (cc b) open_
      | inr (a, b) ↦ same fd (v.alive i fd b)
    ];
  }

  -- A descriptor that leaves its slot and is closed.
  leaves :
      (k : K) (pos fd : ℕ)
      → 0 < pos
      → entry s.fd_array pos ≡ some fd
      → ((x : ℕ) → x ≢ fd → Open x s.kernel → Open x k)
      → WellFormed Open (record s { fd_array = set s.fd_array pos none; kernel = k })
  leaves k pos fd behind at same = record {
    first = get_or-set_ne s.fd_array none none (λ e. absurd (omega arith)) ∙ v.first;
    apart = λ i j x e f. v.apart i j x (still i e).1 (still j f).1;
    alive = λ i x e.
        same x (λ q. (still i e).0 (v.apart pos i fd at ((still i e).1 ∙ ap some q)))
          (v.alive i x (still i e).1);
  }
    where
      still :
          (i : ℕ) {x : ℕ}
          → entry (set s.fd_array pos none) i ≡ some x
          → (pos ≢ i) × (entry s.fd_array i ≡ some x)
      still i e = elim (entry-set s.fd_array pos i none (some_lt s.fd_array pos at) e) [
        | inl (a, b) ↦ absurd (cc b)
        | inr (a, b) ↦ (a, b)
      ]

module _ {K : Type 0} {os : Os K} {select : ℕ → List ℕ → K → Selected × K} {Open : ℕ → K → Type 0}
    (laws : Laws os select Open) where
  pub accepter-WellFormed :
      (s : SelectServer K) → WellFormed Open s → WellFormed Open (accepter os select s)
  unfolding accepter accept
  accepter-WellFormed s v = by_answer (os.accept s.listensock s.kernel).0 refl
    where
      by_answer :
          (r : Accepted)
          → (os.accept s.listensock s.kernel).0 ≡ r
          → WellFormed Open (accepter os select s)
      by_answer (Accepted.not_accepted x) e =
          rw (accepter, accept, e)
            (keeps s v (os.accept s.listensock s.kernel).1
              (λ fd. laws.accept_keeps s.listensock fd s.kernel))
      by_answer (Accepted.accepted sock ip port) e =
          let k = (os.accept s.listensock s.kernel).1 in
          let (fresh, opened) = laws.accept_fresh s.listensock s.kernel sock ip port e in
          let same = λ (fd : ℕ). laws.accept_keeps s.listensock fd s.kernel in
          let (behind, inside, empty, before) =
            free_slot_lem s.fd_array (some_lt s.fd_array 0 v.first) in
          elim (Bool-cases (free_slot s.fd_array == length s.fd_array)) [
            | inl q ↦
                rw (accepter, accept, e, q)
                  (keeps s v (os.close sock k) (λ fd o.
                    laws.close_keeps sock fd k (λ is. fresh (subst (λ x. Open x s.kernel) is o))
                      (same fd o)))
            | inr q ↦
                let other = ==_false (free_slot s.fd_array) (length s.fd_array) q in
                rw (accepter, accept, e, q)
                  (takes s v k (free_slot s.fd_array) sock behind (omega arith) fresh opened same)
          ]

  pub recver-WellFormed :
      (pos : ℕ) (s : SelectServer K)
      → 0 < pos
      → WellFormed Open s
      → WellFormed Open (recver os select pos s)
  unfolding recver
  recver-WellFormed pos s behind v = elim (Option-cases (entry s.fd_array pos)) [
    | inl e ↦ rw (recver, e) v
    | inr (fd, e) ↦ by_answer fd e (os.recv fd 1023 s.kernel).0 refl
  ]
    where
      gone :
          (fd : ℕ)
          → entry s.fd_array pos ≡ some fd
          → WellFormed Open (record s {
            kernel = os.close fd (os.recv fd 1023 s.kernel).1;
            fd_array = set s.fd_array pos none;
          })
      gone fd e =
          let k = (os.recv fd 1023 s.kernel).1 in
          leaves s v (os.close fd k) pos fd behind e
            (λ x other o. laws.close_keeps fd x k other (laws.recv_keeps fd 1023 x s.kernel o))

      by_answer :
          (fd : ℕ)
          → entry s.fd_array pos ≡ some fd
          → (r : Received) → (os.recv fd 1023 s.kernel).0 ≡ r
          → WellFormed Open (recver os select pos s)
      by_answer fd e (Received.received []) q = rw (recver, e, q) (gone fd e)
      by_answer fd e (Received.received (b ∷ bs)) q =
          rw (recver, e, q)
            (keeps s v (os.recv fd 1023 s.kernel).1 (λ x. laws.recv_keeps fd 1023 x s.kernel))
      by_answer fd e (Received.not_received x) q = rw (recver, e, q) (gone fd e)

  handle_slot-WellFormed :
      (rfds : List ℕ) (i : ℕ) (s : SelectServer K)
      → WellFormed Open s
      → WellFormed Open (handle_slot os select rfds i s)
  unfolding handle_slot
  handle_slot-WellFormed rfds i s v = elim (Option-cases (entry s.fd_array i)) [
    | inl e ↦ rw (handle_slot, e) v
    | inr (fd, e) ↦ elim (Bool-cases (fd_isset fd rfds)) [
      | inr idle ↦ rw (handle_slot, e, idle) v
      | inl ready ↦ elim (Bool-cases (fd == s.listensock)) [
        | inl q ↦ rw (handle_slot, e, ready, q) (accepter-WellFormed s v)
        | inr q ↦ rw (handle_slot, e, ready, q) (recver-WellFormed i s (behind i fd e q) v)
      ]
    ]
  ]
    where
      -- Slot 0 holds the listening socket.
      behind : (i fd : ℕ) → entry s.fd_array i ≡ some fd → (fd == s.listensock) ≡ false → 0 < i
      behind zero fd e q = absurd (==_false fd s.listensock q (cc (e, v.first)))
      behind (suc i) fd e q = omega arith

  pub handle_from-WellFormed :
      (rfds : List ℕ) (left i : ℕ) (s : SelectServer K)
      → WellFormed Open s
      → WellFormed Open (handle_from os select rfds left i s)
  unfolding handle_from
  handle_from-WellFormed rfds zero i s v = v
  handle_from-WellFormed rfds (suc left) i s v =
      handle_from-WellFormed rfds left (suc i) (handle_slot os select rfds i s)
        (handle_slot-WellFormed rfds i s v)
