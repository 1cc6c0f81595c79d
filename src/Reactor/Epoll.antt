-- ===== src/Reactor/Epoll.antt =====
-- class Epoll of Reactor/reactor/Epoll.hpp.
use learn_in_linux.Common.{ℕ, Bool, true, none, some, List, Result, ok, fault, Fault}
use learn_in_linux.Reactor.Os.{Os, Events, Event, Ctl}

abbrev pub gnum : ℕ
gnum = 128

abbrev pub gtimeout : ℕ
gtimeout = 5000

module _ {K : Type 0} (os : Os K) where
  unfoldable pub create_epoll : K → Result (ℕ × K)
  create_epoll k =
      let (e, k') = os.epoll_create gnum k in
      elim e [ none ↦ fault (Fault.exited 5) | some epfd ↦ ok (epfd, k') ]

  module _ (epfd : ℕ) where
    unfoldable pub del_from_epoll : ℕ → K → Bool × K
    del_from_epoll sock k = os.epoll_ctl epfd Ctl.remove sock none k

    -- `events |= EPOLLET` first.
    unfoldable pub ctrl_epoll : ℕ → Events → K → Bool × K
    ctrl_epoll sock events k =
        os.epoll_ctl epfd Ctl.modify sock (some (record events { edge = true })) k

    unfoldable pub add_sock_to_epoll : ℕ → Events → K → Bool × K
    add_sock_to_epoll sock events k = os.epoll_ctl epfd Ctl.add sock (some events) k

    unfoldable pub wait_epoll : ℕ → K → List Event × K
    wait_epoll num k = os.epoll_wait epfd num gtimeout k
