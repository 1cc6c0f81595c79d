-- ===== src/EarlyReactor/Rounds.antt =====
-- The rounds of the early reactor: every callback returns, and what that leaves of the table.
use learn_in_linux.Common.{
  ℕ, zero, suc, ◌<◌, ◌≡◌, refl, ◌∙◌, Bool, true, false, Option, List, [], ◌∷◌, All, if◌then◌else◌,
  Result, ok, ◌>>=◌, Option-cases, inl, inr, arith,
}
use learn_in_linux.Reactor.Os.{Os, Event}
use learn_in_linux.EarlyReactor.{
  Callback, to_accepter, to_recver, to_sender, to_excepter, Connection, EarlyReactor, lookup, call,
  call_if_set, handle_event, handle_events, wait_epoll, loop_once, dispather, gtimeout,
}
use learn_in_linux.EarlyReactor.Entries.{IsEntry, Laws, Keeps, Keeps-trans, accepter_lem}

module _ {K : Type 0} {os : Os K} {waiting : K → ℕ} {limit : ℕ} (laws : Laws os waiting limit) where
  module _ (fuel : ℕ) (enough : limit < fuel) where
    -- A run that returns, and leaves the table as it should be.
    abbrev Ends : (EarlyReactor K → Result (EarlyReactor K)) → EarlyReactor K → Type 0
    Ends f s = (t : EarlyReactor K) × (f s ≡ ok t) × Keeps laws s t

    abbrev Filled : EarlyReactor K → Type 0
    Filled s = All (IsEntry s.listensock) s.connections

    nothing-Ends : (s : EarlyReactor K) → Filled s → Ends ok s
    nothing-Ends s entries = (s, refl, record { same_listensock = refl; entries = entries })

    then-Ends :
        (f g : EarlyReactor K → Result (EarlyReactor K)) (s : EarlyReactor K)
        → Ends f s
        → ((t : EarlyReactor K) → Filled t → Ends g t)
        → Ends (λ x. f x >>= g) s
    then-Ends f g s (t, e, v) next =
        let (u, d, w) = next t v.entries in (u, rw e d, Keeps-trans laws v w)

    call-Ends :
        (cb : Callback) (conn : Connection) (s : EarlyReactor K)
        → Filled s
        → Ends (call os fuel cb conn) s
    unfolding call
    call-Ends to_accepter conn s entries =
        accepter_lem laws fuel conn s (omega (arith, laws.bounded s.kernel)) entries
    call-Ends to_recver conn s entries = nothing-Ends s entries
    call-Ends to_sender conn s entries = nothing-Ends s entries
    call-Ends to_excepter conn s entries = nothing-Ends s entries

    call_if_set-Ends :
        (get : Connection → Option Callback) (sock : ℕ) (s : EarlyReactor K)
        → Filled s
        → Ends (call_if_set os fuel get sock) s
    unfolding call_if_set
    call_if_set-Ends get sock s entries = elim (Option-cases (lookup sock s.connections)) [
      | inl e ↦ rw (call_if_set, e) (nothing-Ends s entries)
      | inr (conn, e) ↦ elim (Option-cases (get conn)) [
        | inl d ↦ rw (call_if_set, e, d) (nothing-Ends s entries)
        | inr (cb, d) ↦ rw (call_if_set, e, d) (call-Ends cb conn s entries)
      ]
    ]

    when-Ends :
        (b : Bool) (get : Connection → Option Callback) (sock : ℕ) (s : EarlyReactor K)
        → Filled s
        → Ends (λ x. if b then call_if_set os fuel get sock x else ok x) s
    when-Ends true get sock s entries = call_if_set-Ends get sock s entries
    when-Ends false get sock s entries = nothing-Ends s entries

    handle_event-Ends :
        (ev : Event) (s : EarlyReactor K) → Filled s → Ends (handle_event os fuel ev) s
    unfolding handle_event
    handle_event-Ends ev s entries =
        then-Ends
          (λ x. if ev.events.readable then call_if_set os fuel (λ c. c.recv_cb) ev.fd x else ok x) _
          s (when-Ends ev.events.readable (λ c. c.recv_cb) ev.fd s entries)
          (when-Ends ev.events.writable (λ c. c.send_cb) ev.fd)

    handle_events-Ends :
        (evs : List Event) (s : EarlyReactor K) → Filled s → Ends (handle_events os fuel evs) s
    unfolding handle_events
    handle_events-Ends [] s entries = nothing-Ends s entries
    handle_events-Ends (ev ∷ evs) s entries =
        then-Ends (handle_event os fuel ev) _ s (handle_event-Ends ev s entries)
          (handle_events-Ends evs)

    loop_once-Ends : (s : EarlyReactor K) → Filled s → Ends (loop_once os fuel) s
    unfolding loop_once wait_epoll
    loop_once-Ends s entries =
        let k = (os.epoll_wait s.epfd s.revs_num gtimeout s.kernel).1 in
        let (t, e, v) =
          handle_events-Ends (os.epoll_wait s.epfd s.revs_num gtimeout s.kernel).0
            (record s { kernel = k }) entries in
        (t, e, record { same_listensock = v.same_listensock; entries = v.entries })

    -- The server runs for any number of rounds, where its loop of `accept` has more rounds than clients
    -- and interruptions can wait: every round ends, the listening socket stays the same, and the
    -- table stays in order: every connection is under its own socket, only the one of the listening
    -- socket accepts when it is readable, and none when it is writable.
    pub dispather_lem :
        (n : ℕ) (s : EarlyReactor K)
        → All (IsEntry s.listensock) s.connections
        → (t : EarlyReactor K) × (dispather os n fuel s ≡ ok t)
          × (t.listensock ≡ s.listensock)
          × All (IsEntry t.listensock) t.connections
    unfolding dispather
    dispather_lem zero s entries = (s, refl, refl, entries)
    dispather_lem (suc n) s entries =
        let (t, e, v) = loop_once-Ends s entries in
        let (u, d, same, left) = dispather_lem n t v.entries in
        (u, rw e d, same ∙ v.same_listensock, left)
