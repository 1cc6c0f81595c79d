-- ===== src/EpollServer/Rounds.antt =====
-- The rounds of the server: its assertions, and what goes on being watched.
use learn_in_linux.Common.{
  ℕ, zero, suc, ◌≡◌, ◌≢◌, refl, sym, ◌∙◌, inl, inr, List, [], ◌∷◌, Bytes, All, ◌==◌, ==_false, ok,
  Bool-cases,
}
use learn_in_linux.Reactor.Os.{Os, Event}
use learn_in_linux.EpollServer.{
  EpollServer, wait_epoll, accepter, handler_event, handler_events, loop_once, start,
}
use learn_in_linux.EpollServer.Watched.{AreDistinct, Laws, accepter_lem, recver_lem}

module _ {K : Type 0} {os : Os K} {handler_request : Bytes → K → K} {Watched : ℕ → ℕ → K → Type 0}
    (laws : Laws os handler_request Watched) where
  -- The listening socket is watched, and so is every descriptor of the events that are left.
  abbrev Ready : EpollServer K → List Event → Type 0
  Ready s evs = Watched s.epfd s.listensock s.kernel × All (λ ev. Watched s.epfd ev.fd s.kernel) evs

  still_watched :
      (s t : EpollServer K) (sock : ℕ) (evs : List Event)
      → t.epfd ≡ s.epfd
      → ((fd : ℕ) → fd ≢ sock → Watched s.epfd fd s.kernel → Watched s.epfd fd t.kernel)
      → All (λ e. e.fd ≢ sock) evs
      → All (λ ev. Watched s.epfd ev.fd s.kernel) evs
      → All (λ ev. Watched t.epfd ev.fd t.kernel) evs
  still_watched s t sock [] same keep apart w = tt
  still_watched s t sock (ev ∷ evs) same keep (p, apart) (v, w) =
      (rw same (keep ev.fd p v), still_watched s t sock evs same keep apart w)

  -- One event: no assertion fails, and what the others need is kept.
  handler_event-Ready :
      (ev : Event) (evs : List Event) (s : EpollServer K)
      → All (λ e. e.fd ≢ ev.fd) evs
      → Ready s (ev ∷ evs)
      → (t : EpollServer K) × (handler_event os handler_request ev s ≡ ok t)
        × (t.listensock ≡ s.listensock)
        × (t.epfd ≡ s.epfd)
        × Ready t evs
  unfolding handler_event
  handler_event-Ready ev evs s apart (l, (w, ws)) = elim (Bool-cases ev.events.readable) [
    | inr idle ↦ (s, rw idle refl, refl, refl, (l, ws))
    | inl readable ↦ elim (Bool-cases (ev.fd == s.listensock)) [
      | inl q ↦
          let v = accepter_lem laws s.listensock s in
          let keep =
            λ (fd : ℕ) (h : fd ≢ ev.fd) (x : Watched s.epfd fd s.kernel). v.watched fd (λ n. n) x in
          (
            accepter os s.listensock s,
            rw (readable, q) refl,
            v.same_listensock,
            v.same_epfd,
            (
              rw (v.same_epfd, v.same_listensock) (v.watched s.listensock (λ n. n) l),
              still_watched s (accepter os s.listensock s) ev.fd evs v.same_epfd keep apart ws,
            ),
          )
      | inr q ↦
          let (t, e, v) = recver_lem laws ev.fd s w in
          let other : s.listensock ≢ ev.fd = λ h. ==_false ev.fd s.listensock q (sym h) in
          (
            t,
            rw (readable, q) e,
            v.same_listensock,
            v.same_epfd,
            (
              rw (v.same_epfd, v.same_listensock) (v.watched s.listensock other l),
              still_watched s t ev.fd evs v.same_epfd v.watched apart ws,
            ),
          )
    ]
  ]

  handler_events-Ready :
      (evs : List Event) (s : EpollServer K)
      → AreDistinct evs
      → Ready s evs
      → (t : EpollServer K) × (handler_events os handler_request evs s ≡ ok t)
        × (t.listensock ≡ s.listensock)
        × Watched t.epfd t.listensock t.kernel
  unfolding handler_events
  handler_events-Ready [] s d (l, ws) = (s, refl, refl, l)
  handler_events-Ready (ev ∷ evs) s (apart, d) r =
      let (t, e, same, same_epfd, left) = handler_event-Ready ev evs s apart r in
      let (u, f, again, l) = handler_events-Ready evs t d left in (u, rw e f, again ∙ same, l)

  -- A round of the server returns: none of its assertions fails. And the listening socket is the same and
  -- is still watched.
  pub loop_once_lem :
      (timeout : ℕ) (s : EpollServer K)
      → Watched s.epfd s.listensock s.kernel
      → (t : EpollServer K) × (loop_once os handler_request timeout s ≡ ok t)
        × (t.listensock ≡ s.listensock)
        × Watched t.epfd t.listensock t.kernel
  unfolding loop_once wait_epoll
  loop_once_lem timeout s w =
      let (reported, distinct) = laws.wait_reports s.epfd s.revs_num timeout s.kernel in
      let k = (os.epoll_wait s.epfd s.revs_num timeout s.kernel).1 in
      handler_events-Ready (os.epoll_wait s.epfd s.revs_num timeout s.kernel).0
        (record s { kernel = k }) distinct
        (laws.wait_keeps s.epfd s.revs_num timeout s.listensock s.kernel w, reported)

  -- The server runs for any number of rounds: no assertion ever fails, and it goes on watching its
  -- listening socket.
  pub start_lem :
      (n timeout : ℕ) (s : EpollServer K)
      → Watched s.epfd s.listensock s.kernel
      → (t : EpollServer K) × (start os handler_request n timeout s ≡ ok t)
        × (t.listensock ≡ s.listensock)
        × Watched t.epfd t.listensock t.kernel
  unfolding start
  start_lem zero timeout s w = (s, refl, refl, w)
  start_lem (suc n) timeout s w =
      let (t, e, same, v) = loop_once_lem timeout s w in
      let (u, f, again, x) = start_lem n timeout t v in (u, rw e f, again ∙ same, x)
