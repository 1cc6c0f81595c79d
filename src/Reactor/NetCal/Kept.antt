-- ===== src/Reactor/NetCal/Kept.antt =====
-- The whole of Reactor/reactor with its calculator as the handler: what `main` keeps of the table and the
-- heap, and which faults are left.
use learn_in_linux.Common.{
  ℕ, ◌≤◌, refl, none, some, [], Bool-cases, Option-cases, inl, inr, Fault, arith,
}
use learn_in_linux.Common.Outcomes.{Yields, Yields-bind, Yields-mono}
use learn_in_linux.Text.{codes}
use learn_in_linux.Reactor.Os.{Os}
use learn_in_linux.Reactor.Sock
use learn_in_linux.Reactor.Epoll
use learn_in_linux.Reactor.Server.{Server, to_accepter, lookup, tcp_server}
use learn_in_linux.Reactor.Server.Table.{Laws, HasExcept, WellFormed}
use learn_in_linux.Reactor.Server.Kept.{MayFault}
use learn_in_linux.Reactor.Server.Loops.{add_connection-WellFormed}
use learn_in_linux.Reactor.Server.Rounds.{dispather-Kept}
use learn_in_linux.Reactor.NetCal.{net_cal, main}
use learn_in_linux.Reactor.NetCal.Handler.{net_cal-Kept}

-- What `main` can end with: the exits of the constructor, and the faults of the rounds.
abbrev pub MainMayFault : Fault → Type 0
MainMayFault (Fault.exited code) = (2 ≤ code) × (code ≤ 5)
MainMayFault e = MayFault e

module _ {K : Type 0} {os : Os K} {IsOpen : ℕ → K → Type 0} (laws : Laws os IsOpen) where
  socket-Opens : (k : K) → Yields MainMayFault (λ r. IsOpen r.0 r.1) (Sock.socket os k)
  unfolding Sock.socket
  socket-Opens k = elim (Option-cases (os.socket k).0) [
    | inl e ↦ rw (Sock.socket, e) (omega arith, omega arith)
    | inr (sock, e) ↦
        rw (Sock.socket, e) (laws.setsockopt_keeps sock sock _ (laws.socket_opens k sock e))
  ]

  module _ (sock : ℕ) where
    bind-Keeps :
        (port : ℕ) (k : K)
        → IsOpen sock k
        → Yields MainMayFault (IsOpen sock) (Sock.bind os sock port k)
    unfolding Sock.bind
    bind-Keeps port k o = elim (Bool-cases (os.bind sock port (codes "0.0.0.0") k).0) [
      | inl e ↦ rw (Sock.bind, e) (laws.bind_keeps sock port sock (codes "0.0.0.0") k o)
      | inr e ↦ rw (Sock.bind, e) (omega arith, omega arith)
    ]

    listen-Keeps :
        (k : K) → IsOpen sock k → Yields MainMayFault (IsOpen sock) (Sock.listen os sock k)
    unfolding Sock.listen
    listen-Keeps k o = elim (Bool-cases (os.listen sock Sock.backlog k).0) [
      | inl e ↦ rw (Sock.listen, e) (laws.listen_keeps sock Sock.backlog sock k o)
      | inr e ↦ rw (Sock.listen, e) (omega arith, omega arith)
    ]

    create-Keeps :
        (k : K)
        → IsOpen sock k
        → Yields MainMayFault (λ r. IsOpen sock r.1) (Epoll.create_epoll os k)
    unfolding Epoll.create_epoll
    create-Keeps k o = elim (Option-cases (os.epoll_create Epoll.gnum k).0) [
      | inl e ↦ rw (Epoll.create_epoll, e) (omega arith, omega arith)
      | inr (epfd, e) ↦ rw (Epoll.create_epoll, e) (laws.create_keeps Epoll.gnum sock k o)
    ]

  tcp_server-WellFormed :
      (port : ℕ) (k : K) → Yields MainMayFault (WellFormed IsOpen) (tcp_server os port k)
  unfolding tcp_server lookup
  tcp_server-WellFormed port k =
      Yields-bind MainMayFault (λ r. IsOpen r.0 r.1) (WellFormed IsOpen) (Sock.socket os k) _
        (socket-Opens k)
        (λ (sock, k1) o1.
          Yields-bind MainMayFault (IsOpen sock) (WellFormed IsOpen) (Sock.bind os sock port k1) _
            (bind-Keeps sock port k1 o1)
            (λ k2 o2.
              Yields-bind MainMayFault (IsOpen sock) (WellFormed IsOpen) (Sock.listen os sock k2) _
                (listen-Keeps sock k2 o2)
                (λ k3 o3.
                  Yields-bind MainMayFault (λ r. IsOpen sock r.1) (WellFormed IsOpen)
                    (Epoll.create_epoll os k3) _ (create-Keeps sock k3 o3)
                    (λ (epfd, k4) o4.
                      add_connection-WellFormed laws sock (some to_accepter) none none
                        (bare sock epfd k4) refl no_callback o4 (bare-WellFormed sock epfd k4)))))
    where
      bare : (sock epfd : ℕ) → K → Server K
      bare sock epfd k4 = record {
        listensock = sock;
        port = port;
        epfd = epfd;
        revs_num = 128;
        connections = [];
        heap = λ p. none;
        next = 0;
        kernel = k4;
      }

      bare-WellFormed : (sock epfd : ℕ) (k4 : K) → WellFormed IsOpen (bare sock epfd k4)
      bare-WellFormed sock epfd k4 = record {
        points = λ j p e. absurd (cc e);
        known = λ p c e. absurd (cc e);
        callbacks = λ p c e. absurd (cc e);
        fresh = λ p h. refl;
        alive = λ j p e. absurd (cc e);
      }

      no_callback : HasExcept (record {
        sock = 0;
        recv_cb = some to_accepter;
        send_cb = none;
        except_cb = none;
        inbuffer = [];
        outbuffer = [];
      })
      no_callback (inl e) = absurd (cc e)
      no_callback (inr e) = absurd (cc e)

  widen : (e : Fault) → MayFault e → MainMayFault e
  widen (Fault.exited code) h = absurd h
  widen _ h = h

  -- `main`, for any number of rounds and any kernel that keeps to the laws of descriptors, ends in one of two
  -- ways. Either the table of connections and the heap belong together: every entry points to a
  -- live object of its own socket, which is open, every live object is the one of its socket's entry, and has an
  -- `_except_cb` where it has a callback that calls it. Or it ends with an exit of 2 to 5 of the
  -- constructor, a failed assert, a use of a deleted connection, an overflow, or the fuel of a loop that has run out; an
  -- empty callback, say, is never called.
  pub main-WellFormed :
      (n fuel : ℕ) (k : K) → Yields MainMayFault (WellFormed IsOpen) (main os n fuel k)
  unfolding main
  main-WellFormed n fuel k =
      Yields-bind MainMayFault (WellFormed IsOpen) (WellFormed IsOpen) (tcp_server os 8080 k) _
        (tcp_server-WellFormed 8080 k)
        (λ s v.
          Yields-mono MayFault MainMayFault (WellFormed IsOpen) _ widen
            (dispather-Kept laws (net_cal os) (net_cal-Kept laws) n fuel s v))
