-- ===== src/EpollServer.antt =====
-- 11-6/epoll_server: EpollServer.hpp and Epoll.hpp, a server that waits for input with a
-- level-triggered epoll and hands what it reads to a handler. The handler and the system calls are
-- parameters; log lines are left out.
pub mod Watched
pub mod Rounds
mod Examples
use learn_in_linux.Common.{
  ℕ, zero, suc, Bool, true, false, none, some, List, [], ◌∷◌, Bytes, ◌==◌, if◌then◌else◌, Result,
  ok, fault, Fault, ◌>>=◌, ◌>>◌, assert,
}
use learn_in_linux.Text.{c_str}
use learn_in_linux.Reactor.Os.{Os, Events, Event, Ctl, Accepted, Received}
use learn_in_linux.Reactor.Sock

abbrev pub gsize : ℕ
gsize = 256

abbrev pub gnum : ℕ
gnum = 64

-- No events, and EPOLLIN.
abbrev pub no_events : Events
no_events = record {
  readable = false;
  writable = false;
  error = false;
  hangup = false;
  edge = false;
}

abbrev pub epoll_in : Events
epoll_in = record no_events { readable = true }

pub record EpollServer (K : Type 0) : Type 0 where
  pub listensock : ℕ
  pub epfd : ℕ
  pub port : ℕ
  pub revs_num : ℕ
  pub kernel : K

module _ {K : Type 0} (os : Os K) where
  -- `Epoll::CreateEpoll`; a descriptor 0 is refused too.
  unfoldable pub create_epoll : K → Result (ℕ × K)
  create_epoll k =
      let (e, k') = os.epoll_create gsize k in
      elim e [
        | none ↦ fault (Fault.exited 5)
        | some epfd ↦ if epfd == 0 then fault (Fault.exited 5) else ok (epfd, k')
      ]

  -- `Epoll::CtlEpoll`.
  unfoldable pub ctl_epoll : ℕ → Ctl → ℕ → Events → K → Bool × K
  ctl_epoll epfd oper sock events k = os.epoll_ctl epfd oper sock (some events) k

  -- `Epoll::WaitEpoll`: no event for a timeout and for an error.
  unfoldable pub wait_epoll : ℕ → ℕ → ℕ → K → List Event × K
  wait_epoll epfd num timeout k = os.epoll_wait epfd num timeout k

  unfoldable pub epoll_server : ℕ → K → Result (EpollServer K)
  epoll_server port k = do
    (sock, k1) ← Sock.socket os k
    k2 ← Sock.bind os sock port k1
    k3 ← Sock.listen os sock k2
    (epfd, k4) ← create_epoll k3
    let (added, k5) = ctl_epoll epfd Ctl.add sock epoll_in k4
    if added
        then ok
            (record { listensock = sock; epfd = epfd; port = port; revs_num = gnum; kernel = k5 })
        else fault (Fault.exited 6)

  -- A socket that epoll does not take is left open.
  unfoldable pub accepter : ℕ → EpollServer K → EpollServer K
  accepter listensock s =
      let (r, k) = Sock.accept os listensock s.kernel in
      elim r [
        | Accepted.not_accepted e ↦ record s { kernel = k }
        | Accepted.accepted sock ip port ↦ record s {
          kernel = (ctl_epoll s.epfd Ctl.add sock epoll_in k).1;
        }
      ]

  -- What both branches of `Recver` do that drop the client.
  unfoldable pub drop_client : ℕ → EpollServer K → Result (EpollServer K)
  drop_client sock s = do
    let (res, k) = ctl_epoll s.epfd Ctl.remove sock no_events s.kernel
    assert res
    ok (record s { kernel = os.close sock k })

  -- `handler_request` is `_HandlerRequest`, as what it does to the world outside of the server.
  module _ (handler_request : Bytes → K → K) where
    unfoldable pub recver : ℕ → EpollServer K → Result (EpollServer K)
    recver sock s =
        let (r, k) = os.recv sock 10239 s.kernel in
        elim r [
          | Received.received (b ∷ bs) ↦
              ok (record s { kernel = handler_request (c_str (b ∷ bs)) k })
          | Received.received [] ↦ drop_client sock (record s { kernel = k })
          | Received.not_received e ↦ drop_client sock (record s { kernel = k })
        ]

    -- One round of the loop of `HandlerEvents`.
    unfoldable pub handler_event : Event → EpollServer K → Result (EpollServer K)
    handler_event ev s =
        if ev.events.readable
        then (if ev.fd == s.listensock then ok (accepter s.listensock s) else recver ev.fd s)
        else ok s

    unfoldable pub handler_events : List Event → EpollServer K → Result (EpollServer K)
    handler_events [] s = ok s
    handler_events (ev ∷ evs) s = do s' ← handler_event ev s; handler_events evs s'

    -- `HandlerEvents` is called with one event or more, so that its first assertion holds.
    unfoldable pub loop_once : ℕ → EpollServer K → Result (EpollServer K)
    loop_once timeout s =
        let (evs, k) = wait_epoll s.epfd s.revs_num timeout s.kernel in
        handler_events evs (record s { kernel = k })

    -- `start` never returns: this is the server after `n` rounds. Its timeout is -1, which waits for ever.
    unfoldable pub start : ℕ → (timeout : ℕ) → EpollServer K → Result (EpollServer K)
    start zero timeout s = ok s
    start (suc n) timeout s = do s' ← loop_once timeout s; start n timeout s'
