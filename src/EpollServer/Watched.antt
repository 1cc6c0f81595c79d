-- ===== src/EpollServer/Watched.antt =====
-- Which descriptors epoll watches, from round to round.
use learn_in_linux.Common.{ℕ, ◌≡◌, ◌≢◌, refl, true, some, List, [], ◌∷◌, Bytes, All, ok}
use learn_in_linux.Text.{c_str}
use learn_in_linux.Reactor.Os.{Os, Events, Event, Ctl, Accepted, Received}
use learn_in_linux.Reactor.Sock.{accept}
use learn_in_linux.EpollServer.{
  EpollServer, no_events, epoll_in, ctl_epoll, accepter, drop_client, recver,
}

-- No two of the events are on one descriptor.
abbrev pub AreDistinct : List Event → Type 0
AreDistinct [] = Unit
AreDistinct (ev ∷ evs) = All (λ e. e.fd ≢ ev.fd) evs × AreDistinct evs

-- What the documentation says on the descriptors that an epoll instance watches: `epoll_wait` reports
-- only these, each once, and no call takes one away but its removal and its `close`. A removal of a
-- watched descriptor succeeds. The handler is not to touch the instance either.
pub record Laws {K : Type 0} (os : Os K) (handler_request : Bytes → K → K)
    (Watched : ℕ → ℕ → K → Type 0) : Type 0 where
  pub wait_reports :
      (epfd num timeout : ℕ) (k : K)
      → All
          (λ ev. Watched epfd ev.fd (os.epoll_wait epfd num timeout k).1)
          (os.epoll_wait epfd num timeout k).0
        × AreDistinct (os.epoll_wait epfd num timeout k).0
  pub wait_keeps :
      (epfd num timeout fd : ℕ) (k : K)
      → Watched epfd fd k
      → Watched epfd fd (os.epoll_wait epfd num timeout k).1
  pub accept_keeps :
      (epfd sock fd : ℕ) (k : K) → Watched epfd fd k → Watched epfd fd (os.accept sock k).1
  pub add_keeps :
      (epfd sock fd : ℕ) (events : Events) (k : K)
      → Watched epfd fd k
      → Watched epfd fd (os.epoll_ctl epfd Ctl.add sock (some events) k).1
  pub remove_watched :
      (epfd fd : ℕ) (events : Events) (k : K)
      → Watched epfd fd k
      → (os.epoll_ctl epfd Ctl.remove fd (some events) k).0 ≡ true
  pub remove_keeps :
      (epfd sock fd : ℕ) (events : Events) (k : K)
      → fd ≢ sock
      → Watched epfd fd k
      → Watched epfd fd (os.epoll_ctl epfd Ctl.remove sock (some events) k).1
  pub recv_keeps :
      (epfd sock size fd : ℕ) (k : K) → Watched epfd fd k → Watched epfd fd (os.recv sock size k).1
  pub close_keeps :
      (epfd sock fd : ℕ) (k : K) → fd ≢ sock → Watched epfd fd k → Watched epfd fd (os.close sock k)
  pub handler_keeps :
      (epfd fd : ℕ) (request : Bytes) (k : K)
      → Watched epfd fd k
      → Watched epfd fd (handler_request request k)

module _ {K : Type 0} {os : Os K} {handler_request : Bytes → K → K} {Watched : ℕ → ℕ → K → Type 0}
    (laws : Laws os handler_request Watched) where
  -- The server after a call: the same sockets, and all but the descriptor `sock` still watched.
  pub record Keeps (s : EpollServer K) (IsGone : ℕ → Type 0) (t : EpollServer K) : Type 0 where
    pub same_listensock : t.listensock ≡ s.listensock
    pub same_epfd : t.epfd ≡ s.epfd
    pub watched : (fd : ℕ) → ¬ IsGone fd → Watched s.epfd fd s.kernel → Watched s.epfd fd t.kernel

  drop_client_lem :
      (sock : ℕ) (s : EpollServer K)
      → Watched s.epfd sock s.kernel
      → (t : EpollServer K) × (drop_client os sock s ≡ ok t) × Keeps s (λ fd. fd ≡ sock) t
  unfolding drop_client ctl_epoll
  drop_client_lem sock s w =
      let k = (os.epoll_ctl s.epfd Ctl.remove sock (some no_events) s.kernel).1 in
      let done = laws.remove_watched s.epfd sock no_events s.kernel w in
      (
        record s { kernel = os.close sock k },
        rw done refl,
        record {
          same_listensock = refl;
          same_epfd = refl;
          watched = λ fd other v.
              laws.close_keeps s.epfd sock fd k other
                (laws.remove_keeps s.epfd sock fd no_events s.kernel other v);
        },
      )

  pub accepter_lem : (sock : ℕ) (s : EpollServer K) → Keeps s (λ fd. ⊥) (accepter os sock s)
  unfolding accepter accept ctl_epoll
  accepter_lem sock s = by_answer (os.accept sock s.kernel).0 refl
    where
      k : K
      k = (os.accept sock s.kernel).1

      by_answer :
          (r : Accepted) → (os.accept sock s.kernel).0 ≡ r → Keeps s (λ fd. ⊥) (accepter os sock s)
      by_answer (Accepted.not_accepted x) e =
          rw (accepter, accept, e)
            (record {
              same_listensock = refl;
              same_epfd = refl;
              watched = λ fd h v. laws.accept_keeps s.epfd sock fd s.kernel v;
            })
      by_answer (Accepted.accepted new ip port) e =
          rw (accepter, accept, e)
            (record {
              same_listensock = refl;
              same_epfd = refl;
              watched = λ fd h v.
                  laws.add_keeps s.epfd new fd epoll_in (os.accept sock s.kernel).1
                    (laws.accept_keeps s.epfd sock fd s.kernel v);
            })

  pub recver_lem :
      (sock : ℕ) (s : EpollServer K)
      → Watched s.epfd sock s.kernel
      → (t : EpollServer K) × (recver os handler_request sock s ≡ ok t)
        × Keeps s (λ fd. fd ≡ sock) t
  unfolding recver
  recver_lem sock s w = by_answer (os.recv sock 10239 s.kernel).0 refl
    where
      dropped :
          (t : EpollServer K) × (drop_client os sock
              (record s { kernel = (os.recv sock 10239 s.kernel).1 })
            ≡ ok t)
          × Keeps s (λ fd. fd ≡ sock) t
      dropped =
          let k = (os.recv sock 10239 s.kernel).1 in
          let (t, e, v) =
            drop_client_lem sock (record s { kernel = k })
              (laws.recv_keeps s.epfd sock 10239 sock s.kernel w) in
          (
            t,
            e,
            record {
              same_listensock = v.same_listensock;
              same_epfd = v.same_epfd;
              watched = λ fd other h.
                  v.watched fd other (laws.recv_keeps s.epfd sock 10239 fd s.kernel h);
            },
          )

      by_answer :
          (r : Received)
          → (os.recv sock 10239 s.kernel).0 ≡ r
          → (t : EpollServer K) × (recver os handler_request sock s ≡ ok t)
            × Keeps s (λ fd. fd ≡ sock) t
      by_answer (Received.received []) e = let (t, q, v) = dropped in (t, rw (recver, e) q, v)
      by_answer (Received.not_received x) e = let (t, q, v) = dropped in (t, rw (recver, e) q, v)
      by_answer (Received.received (b ∷ bs)) e =
          let k = (os.recv sock 10239 s.kernel).1 in
          (
            record s { kernel = handler_request (c_str (b ∷ bs)) k },
            rw (recver, e) refl,
            record {
              same_listensock = refl;
              same_epfd = refl;
              watched = λ fd other h.
                  laws.handler_keeps s.epfd fd (c_str (b ∷ bs)) k
                    (laws.recv_keeps s.epfd sock 10239 fd s.kernel h);
            },
          )
