-- ===== src/SelectServer/Reads.antt =====
-- Who is read in a round of `HandlerEvent`: the loop looks at an array that its own calls change.
use learn_in_linux.Common.{
  ℕ, zero, suc, ◌-◌, ◌≤◌, ◌<◌, ◌≡◌, ◌≢◌, ◌⊎◌, inl, inr, refl, sym, ap, ◌∙◌, true, false, Option,
  none, some, List, [], ◌∷◌, length, set, get_or-set_ne, get_or-set_self, Bool-cases, Option-cases,
  ◌==◌, ==_true, ==_false, ==_refl, if◌then◌else◌, arith,
}
use mathlib.Core.Path.{subst}
use learn_in_linux.Reactor.Os.{Os, Accepted, Received}
use learn_in_linux.Reactor.Sock.{accept}
use learn_in_linux.SelectServer.{
  SelectServer, Selected, fd_isset, accepter, recver, handle_slot, handle_from, handler_event,
  free_slot,
}
use learn_in_linux.SelectServer.Table.{entry, some_lt, free_slot_lem}
use learn_in_linux.SelectServer.Invariant.{Laws, WellFormed}

module _ {K : Type 0} (os : Os K) (select : ℕ → List ℕ → K → Selected × K) where
  -- `Recver` on the slots from `i` on whose descriptor was in the array `old` and is ready.
  unfoldable pub reads :
      (rfds : List ℕ) → (old : List (Option ℕ)) → (left i : ℕ) → SelectServer K → SelectServer K
  reads rfds old zero i s = s
  reads rfds old (suc left) i s = reads rfds old left (suc i) (elim (entry old i) [
    | none ↦ s
    | some fd ↦ if fd_isset fd rfds then recver os select i s else s
  ])

  -- The listening socket and every slot but `i` are the same.
  abbrev Only : ℕ → SelectServer K → SelectServer K → Type 0
  Only i s t =
      (t.listensock ≡ s.listensock) × ((j : ℕ) → i ≢ j → entry t.fd_array j ≡ entry s.fd_array j)

  -- `Recver` writes to its own slot only.
  recver-Only : (i : ℕ) (s : SelectServer K) → Only i s (recver os select i s)
  unfolding recver
  recver-Only i s = elim (Option-cases (entry s.fd_array i)) [
    | inl e ↦ rw (recver, e) (refl, λ j h. refl)
    | inr (fd, e) ↦ by_answer fd e (os.recv fd 1023 s.kernel).0 refl
  ]
    where
      by_answer :
          (fd : ℕ)
          → entry s.fd_array i ≡ some fd
          → (r : Received) → (os.recv fd 1023 s.kernel).0 ≡ r
          → Only i s (recver os select i s)
      by_answer fd e (Received.received []) q =
          rw (recver, e, q) (refl, λ j h. get_or-set_ne s.fd_array none none h)
      by_answer fd e (Received.received (b ∷ bs)) q = rw (recver, e, q) (refl, λ j h. refl)
      by_answer fd e (Received.not_received x) q =
          rw (recver, e, q) (refl, λ j h. get_or-set_ne s.fd_array none none h)

  -- What stands behind slot `i` is what stood there, or a new descriptor that is not ready.
  abbrev Agrees : List ℕ → List (Option ℕ) → List (Option ℕ) → ℕ → Type 0
  Agrees rfds old cur i =
      (j : ℕ)
      → i ≤ j
      → (entry cur j ≡ entry old j)
        ⊎ ((entry old j ≡ none) × ((fd : ℕ) × (entry cur j ≡ some fd) × (fd_isset fd rfds ≡ false)))

  -- The round `i` of the loop does what the old array says, and changes no slot behind it.
  slot_step :
      (rfds : List ℕ) (old : List (Option ℕ)) (i : ℕ) (s : SelectServer K)
      → Agrees rfds old s.fd_array i
      → ((fd : ℕ) → entry old i ≡ some fd → (fd == s.listensock) ≡ false)
      → (handle_slot os select rfds i s ≡ elim (entry old i) [
        | none ↦ s
        | some fd ↦ if fd_isset fd rfds then recver os select i s else s
      ])
        × Only i s (handle_slot os select rfds i s)
  unfolding handle_slot
  slot_step rfds old i s a other = elim (Option-cases (entry old i)) [
    | inl e ↦ elim (a i (omega arith)) [
      | inl p ↦ let q = p ∙ e in rw (handle_slot, q, e) (refl, (refl, λ j h. refl))
      | inr (p, (fd, q, r)) ↦ rw (handle_slot, q, r, e) (refl, (refl, λ j h. refl))
    ]
    | inr (fd, e) ↦ elim (a i (omega arith)) [
      | inr (p, (x, q, r)) ↦ absurd (cc (p, e))
      | inl p ↦
          let q = p ∙ e in
          let away = other fd e in
          elim (Bool-cases (fd_isset fd rfds)) [
            | inr idle ↦ rw (handle_slot, q, idle, e, idle) (refl, (refl, λ j h. refl))
            | inl ready ↦ rw (handle_slot, q, ready, away, e, ready) (refl, recver-Only i s)
          ]
    ]
  ]

  loop_reads :
      (rfds : List ℕ) (old : List (Option ℕ)) (left i : ℕ) (s : SelectServer K)
      → Agrees rfds old s.fd_array i
      → ((j fd : ℕ) → i ≤ j → entry old j ≡ some fd → (fd == s.listensock) ≡ false)
      → handle_from os select rfds left i s ≡ reads rfds old left i s
  unfolding handle_from reads
  loop_reads rfds old zero i s a other = refl
  loop_reads rfds old (suc left) i s a other =
      let (e, (l, same)) = slot_step rfds old i s a (λ fd. other i fd (omega arith)) in
      let s' = handle_slot os select rfds i s in
      let a' : Agrees rfds old s'.fd_array (suc i) = λ j h.
        subst
          (λ x.
            (x ≡ entry old j)
            ⊎ ((entry old j ≡ none) × ((fd : ℕ) × (x ≡ some fd) × (fd_isset fd rfds ≡ false))))
          (sym (same j (λ q. absurd (omega arith)))) (a j (omega arith)) in
      loop_reads rfds old left (suc i) s' a'
        (λ j fd h p. ap (λ l. fd == l) l ∙ other j fd (omega arith) p)
      ∙ ap (reads rfds old left (suc i)) e

module _ {K : Type 0} {os : Os K} {select : ℕ → List ℕ → K → Selected × K} {Open : ℕ → K → Type 0}
    (laws : Laws os select Open) where
  -- The slots of `new` are those of `s`, but for new descriptors in slots that were free.
  abbrev Adds : SelectServer K → SelectServer K → Type 0
  Adds s t =
      (t.listensock ≡ s.listensock)
      × ((j : ℕ)
          → (entry t.fd_array j ≡ entry s.fd_array j)
            ⊎ ((entry s.fd_array j ≡ none)
                × ((fd : ℕ) × (entry t.fd_array j ≡ some fd) × (¬ Open fd s.kernel))))

  accepter-Adds : (s : SelectServer K) → WellFormed Open s → Adds s (accepter os select s)
  unfolding accepter accept
  accepter-Adds s v = by_answer (os.accept s.listensock s.kernel).0 refl
    where
      by_answer :
          (r : Accepted) → (os.accept s.listensock s.kernel).0 ≡ r → Adds s (accepter os select s)
      by_answer (Accepted.not_accepted x) e = rw (accepter, accept, e) (refl, λ j. inl refl)
      by_answer (Accepted.accepted sock ip port) e =
          let pos = free_slot s.fd_array in
          let (fresh, opened) = laws.accept_fresh s.listensock s.kernel sock ip port e in
          let (behind, inside, empty, before) =
            free_slot_lem s.fd_array (some_lt s.fd_array 0 v.first) in
          elim (Bool-cases (pos == length s.fd_array)) [
            | inl q ↦ rw (accepter, accept, e, q) (refl, λ j. inl refl)
            | inr q ↦
                let other = ==_false pos (length s.fd_array) q in
                let here : pos < length s.fd_array = omega arith in
                rw (accepter, accept, e, q)
                  (
                    refl,
                    λ j. elim (Bool-cases (pos == j)) [
                      | inr n ↦ inl (get_or-set_ne s.fd_array (some sock) none (==_false pos j n))
                      | inl y ↦
                          subst
                            (λ x.
                              (entry (set s.fd_array pos (some sock)) x ≡ entry s.fd_array x)
                              ⊎ ((entry s.fd_array x ≡ none)
                                  × ((fd : ℕ) × (entry (set s.fd_array pos (some sock)) x ≡ some fd)
                                      × (¬ Open fd s.kernel))))
                            (==_true pos j y)
                            (inr (
                              empty,
                              (sock, get_or-set_self s.fd_array pos (some sock) none here, fresh),
                            ))
                    ],
                  )
          ]

  -- `HandlerEvent` accepts first, if the listening socket is ready, and then reads from exactly the
  -- ready descriptors that were in the array before: never from a connection of the same round.
  pub handler_event-reads :
      (s : SelectServer K) (rfds : List ℕ)
      → WellFormed Open s
      → ((fd : ℕ) → fd_isset fd rfds ≡ true → (i : ℕ) × (entry s.fd_array i ≡ some fd))
      → handler_event os select rfds s
        ≡ reads os select rfds s.fd_array
            (length s.fd_array - 1)
            1
            (if fd_isset s.listensock rfds then accepter os select s else s)
  unfolding handler_event handle_from handle_slot
  handler_event-reads s rfds v asked =
      let long : length s.fd_array ≡ suc (length s.fd_array - 1) =
        omega (arith, some_lt s.fd_array 0 v.first) in
      ap (λ n. handle_from os select rfds n 0 s) long
      ∙ (elim (Bool-cases (fd_isset s.listensock rfds)) [
        | inl ready ↦ rw ready (
            ap (handle_from os select rfds (length s.fd_array - 1) 1)
              (rw (handle_slot, v.first, ready, ==_refl s.listensock) refl)
            ∙ behind (accepter os select s) (accepter-Adds s v))
        | inr idle ↦ rw idle (
            ap (handle_from os select rfds (length s.fd_array - 1) 1)
              (rw (handle_slot, v.first, idle) refl)
            ∙ behind s (refl, λ j. inl refl))
      ])
    where
      unready : (fd : ℕ) → (¬ Open fd s.kernel) → fd_isset fd rfds ≡ false
      unready fd new = elim (Bool-cases (fd_isset fd rfds)) [
        | inr q ↦ q
        | inl q ↦ let (i, p) = asked fd q in absurd (new (v.alive i fd p))
      ]

      first_only : (j fd : ℕ) → 1 ≤ j → entry s.fd_array j ≡ some fd → (fd == s.listensock) ≡ false
      first_only j fd h p = elim (Bool-cases (fd == s.listensock)) [
        | inr q ↦ q
        | inl q ↦
            let same : 0 ≡ j =
              v.apart 0 j fd (v.first ∙ ap some (sym (==_true fd s.listensock q))) p in
            absurd (omega arith)
      ]

      behind :
          (t : SelectServer K)
          → Adds s t
          → handle_from os select rfds (length s.fd_array - 1) 1 t
            ≡ reads os select rfds s.fd_array (length s.fd_array - 1) 1 t
      behind t (l, a) =
          loop_reads os select rfds s.fd_array (length s.fd_array - 1) 1 t
            (λ j h. elim (a j) [
              | inl e ↦ inl e
              | inr (e, (fd, p, new)) ↦ inr (e, (fd, p, unready fd new))
            ])
            (λ j fd h p. ap (λ x. fd == x) l ∙ first_only j fd h p)
