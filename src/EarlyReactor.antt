-- ===== src/EarlyReactor.antt =====
-- 11-7: TcpServer.hpp and Epoll.hpp, the first form of the reactor: edge-triggered epoll, a callback for
-- each socket, and clients that are accepted but not read yet. Sock.hpp is that of Reactor/reactor.
-- No code changes or deletes a connection once it is made, so the table holds the connections
-- themselves. Log lines are left out.
pub mod Entries
pub mod Rounds
mod Examples
use learn_in_linux.Common.{
  ℕ, zero, suc, Bool, true, false, Option, none, some, List, [], ◌∷◌, Bytes, ◌==◌, if◌then◌else◌,
  Result, ok, fault, Fault, ◌>>=◌,
}
use learn_in_linux.Reactor.Os.{Os, Errno, Events, Event, Ctl, Accepted}
use learn_in_linux.Reactor.Sock

abbrev pub gport : ℕ
gport = 8080

abbrev pub gnum : ℕ
gnum = 128

abbrev pub gtimeout : ℕ
gtimeout = 5000

-- What a callback is bound to.
pub data Callback : Type 0 where
  to_accepter to_recver to_sender to_excepter : Callback

-- `none` is nullptr. `_tsvr` always points to the one server and is left out.
pub record Connection : Type 0 where
  pub sock : ℕ
  pub recv_cb : Option Callback
  pub send_cb : Option Callback
  pub except_cb : Option Callback
  pub inbuffer : Bytes
  pub outbuffer : Bytes

pub record EarlyReactor (K : Type 0) : Type 0 where
  pub listensock : ℕ
  pub port : ℕ
  pub epfd : ℕ
  pub connections : List (ℕ × Connection)
  pub revs_num : ℕ
  pub kernel : K

-- unordered_map: find, and insert, which keeps an entry that is there.
unfoldable pub lookup : ℕ → List (ℕ × Connection) → Option Connection
lookup sock [] = none
lookup sock ((s, c) ∷ m) = if s == sock then some c else lookup sock m

unfoldable pub insert : ℕ → Connection → List (ℕ × Connection) → List (ℕ × Connection)
insert sock conn m = elim (lookup sock m) [ some old ↦ m | none ↦ (sock, conn) ∷ m ]

unfoldable pub is_connection_exists : {K : Type 0} → ℕ → EarlyReactor K → Bool
is_connection_exists sock s = elim (lookup sock s.connections) [ none ↦ false | some c ↦ true ]

-- EPOLLIN | EPOLLET.
abbrev pub only_input : Events
only_input = record {
  readable = true;
  writable = false;
  error = false;
  hangup = false;
  edge = true;
}

module _ {K : Type 0} (os : Os K) where
  unfoldable pub create_epoll : K → Result (ℕ × K)
  create_epoll k =
      let (e, k') = os.epoll_create gnum k in
      elim e [ none ↦ fault (Fault.exited 5) | some epfd ↦ ok (epfd, k') ]

  unfoldable pub add_sock_to_epoll : (epfd sock : ℕ) → Events → K → Bool × K
  add_sock_to_epoll epfd sock events k = os.epoll_ctl epfd Ctl.add sock (some events) k

  unfoldable pub wait_epoll : (epfd num : ℕ) → K → List Event × K
  wait_epoll epfd num k = os.epoll_wait epfd num gtimeout k

  -- The results of `SetNonBlock` and of `AddSockToEpoll` are not looked at.
  unfoldable pub add_connection :
      ℕ → (recv_cb send_cb except_cb : Option Callback) → EarlyReactor K → EarlyReactor K
  add_connection sock recv_cb send_cb except_cb s =
      let (done, k) = Sock.set_non_block os sock s.kernel in
      let (added, k') = add_sock_to_epoll s.epfd sock only_input k in
      let conn : Connection = record {
        sock = sock;
        recv_cb = recv_cb;
        send_cb = send_cb;
        except_cb = except_cb;
        inbuffer = [];
        outbuffer = [];
      } in
      record s { connections = insert sock conn s.connections; kernel = k' }

  unfoldable pub early_reactor : (port : ℕ) → K → Result (EarlyReactor K)
  early_reactor port k = do
    (listensock, k1) ← Sock.socket os k
    k2 ← Sock.bind os listensock port k1
    k3 ← Sock.listen os listensock k2
    (epfd, k4) ← create_epoll k3
    ok (
        add_connection listensock (some to_accepter) none none (record {
          listensock = listensock;
          port = port;
          epfd = epfd;
          connections = [];
          revs_num = gnum;
          kernel = k4;
        }))

  -- The loop of `Accepter`; the fuel bounds its rounds.
  unfoldable pub accepter : (fuel : ℕ) → Connection → EarlyReactor K → Result (EarlyReactor K)
  accepter zero conn s = fault Fault.out_of_fuel
  accepter (suc fuel) conn s =
      let (r, k) = Sock.accept os conn.sock s.kernel in
      elim r [
        | Accepted.accepted sock ip port ↦ accepter fuel conn (
            add_connection sock (some to_recver) (some to_sender) (some to_excepter)
              (record s { kernel = k }))
        | Accepted.not_accepted Errno.interrupted ↦ accepter fuel conn (record s { kernel = k })
        | Accepted.not_accepted e ↦ ok (record s { kernel = k })
      ]

  -- A call of a callback. `Recver` only logs; `Sender` and `Excepter` are empty.
  unfoldable pub call :
      (fuel : ℕ) → Callback → Connection → EarlyReactor K → Result (EarlyReactor K)
  call fuel to_accepter conn s = accepter fuel conn s
  call fuel to_recver conn s = ok s
  call fuel to_sender conn s = ok s
  call fuel to_excepter conn s = ok s

  -- The call of the callback that `get` picks, where the socket has a connection and the callback is set.
  unfoldable pub call_if_set :
      (fuel : ℕ) → (Connection → Option Callback) → ℕ → EarlyReactor K → Result (EarlyReactor K)
  call_if_set fuel get sock s = elim (lookup sock s.connections) [
    | none ↦ ok s
    | some conn ↦ elim (get conn) [ none ↦ ok s | some cb ↦ call fuel cb conn s ]
  ]

  -- One round of the loop of `LoopOnce`.
  unfoldable pub handle_event : (fuel : ℕ) → Event → EarlyReactor K → Result (EarlyReactor K)
  handle_event fuel ev s = do
    s' ← if ev.events.readable then call_if_set fuel (λ c. c.recv_cb) ev.fd s else ok s
    if ev.events.writable then call_if_set fuel (λ c. c.send_cb) ev.fd s' else ok s'

  unfoldable pub handle_events : (fuel : ℕ) → List Event → EarlyReactor K → Result (EarlyReactor K)
  handle_events fuel [] s = ok s
  handle_events fuel (ev ∷ evs) s = do s' ← handle_event fuel ev s; handle_events fuel evs s'

  unfoldable pub loop_once : (fuel : ℕ) → EarlyReactor K → Result (EarlyReactor K)
  loop_once fuel s =
      let (evs, k) = wait_epoll s.epfd s.revs_num s.kernel in
      handle_events fuel evs (record s { kernel = k })

  -- `Dispather` never returns: this is the server after `n` rounds.
  unfoldable pub dispather : (n fuel : ℕ) → EarlyReactor K → Result (EarlyReactor K)
  dispather zero fuel s = ok s
  dispather (suc n) fuel s = do s' ← loop_once fuel s; dispather n fuel s'
