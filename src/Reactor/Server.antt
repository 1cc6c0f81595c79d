-- ===== src/Reactor/Server.antt =====
-- Reactor/reactor/TcpServer.hpp: class Connection and class TcpServer.
-- Connections live on an explicit heap, since `Excepter` deletes one while its callers hold the
-- pointer: `Fault.use_after_free` is an access behind the `delete`. `_tsvr` always points to the one
-- server and is left out; so is `_lasttimestamp`, which no code reads.
pub mod Heap
pub mod Lifetime
pub mod Table
pub mod Kept
pub mod Loops
pub mod Rounds
pub mod Recv
pub mod SendLoop
pub mod Send
pub mod Examples
use learn_in_linux.Common.{
  ℕ, zero, suc, Bool, true, false, not, ◌||◌, Option, none, some, List, [], ◌∷◌, ◌++◌, Bytes, ltb,
  ◌==◌, if◌then◌else◌, Result, ok, fault, Fault, ◌>>=◌, ◌>>◌, assert,
}
use learn_in_linux.Text.{c_str, erase_front}
use learn_in_linux.Reactor.Os.{Os, Errno, Events, Event, Accepted, Received, Sent}
use learn_in_linux.Reactor.Protocol.{splite_message}
use learn_in_linux.Reactor.Sock
use learn_in_linux.Reactor.Epoll

-- What the callbacks of a connection are bound to; `none` in a field is nullptr.
pub data ReadCallback : Type 0 where
  to_accepter to_recver : ReadCallback

pub data WriteCallback : Type 0 where
  to_sender : WriteCallback

pub data ExceptCallback : Type 0 where
  to_excepter : ExceptCallback

pub record Connection : Type 0 where
  pub sock : ℕ
  pub recv_cb : Option ReadCallback
  pub send_cb : Option WriteCallback
  pub except_cb : Option ExceptCallback
  pub inbuffer : Bytes
  pub outbuffer : Bytes

-- `_connections` is an association list; a pointer is an index of the heap, and `none` there is an
-- object that is deleted or not made yet. `_revs` holds the events of one `WaitEpoll` and is local.
pub record Server (K : Type 0) : Type 0 where
  pub listensock : ℕ
  pub port : ℕ
  pub epfd : ℕ
  pub revs_num : ℕ
  pub connections : List (ℕ × ℕ)
  pub heap : ℕ → Option Connection
  pub next : ℕ
  pub kernel : K

-- unordered_map: find, insert (which keeps an entry that is there) and erase.
unfoldable pub lookup : ℕ → List (ℕ × ℕ) → Option ℕ
lookup sock [] = none
lookup sock ((s, p) ∷ m) = if s == sock then some p else lookup sock m

unfoldable pub insert : ℕ → ℕ → List (ℕ × ℕ) → List (ℕ × ℕ)
insert sock p m = elim (lookup sock m) [ some q ↦ m | none ↦ (sock, p) ∷ m ]

unfoldable pub erase : ℕ → List (ℕ × ℕ) → List (ℕ × ℕ)
erase sock [] = []
erase sock ((s, p) ∷ m) = if s == sock then erase sock m else (s, p) ∷ erase sock m

abbrev pub update : (ℕ → Option Connection) → ℕ → Option Connection → ℕ → Option Connection
update heap p c q = if p == q then c else heap q

abbrev pub only_input : Events
only_input = record {
  readable = true;
  writable = false;
  error = false;
  hangup = false;
  edge = true;
}

module _ {K : Type 0} where
  unfoldable pub deref : ℕ → Server K → Result Connection
  deref p s = elim (s.heap p) [ none ↦ fault Fault.use_after_free | some c ↦ ok c ]

  -- A write through a pointer that was dereferenced.
  abbrev pub store : ℕ → Connection → Server K → Server K
  store p c s = record s { heap = update s.heap p (some c) }

  unfoldable pub is_connection_exists : ℕ → Server K → Bool
  is_connection_exists sock s = elim (lookup sock s.connections) [ none ↦ false | some p ↦ true ]

module _ {K : Type 0} (os : Os K) where
  -- The results of `SetNonBlock` and of `AddSockToEpoll` are not looked at.
  unfoldable pub add_connection :
      ℕ → Option ReadCallback → Option WriteCallback → Option ExceptCallback → Server K → Server K
  add_connection sock recv_cb send_cb except_cb s =
      let (done, k) = Sock.set_non_block os sock s.kernel in
      let (added, k') = Epoll.add_sock_to_epoll os s.epfd sock only_input k in
      let conn : Connection = record {
        sock = sock;
        recv_cb = recv_cb;
        send_cb = send_cb;
        except_cb = except_cb;
        inbuffer = [];
        outbuffer = [];
      } in
      record s {
        heap = update s.heap s.next (some conn);
        next = suc s.next;
        connections = insert sock s.next s.connections;
        kernel = k';
      }

  -- The loop of `Accepter`; the fuel bounds its rounds.
  unfoldable pub accepter : ℕ → ℕ → Server K → Result (Server K)
  accepter zero p s = fault Fault.out_of_fuel
  accepter (suc fuel) p s = do
    conn ← deref p s
    let (r, k) = Sock.accept os conn.sock s.kernel
    elim r [
      | Accepted.accepted sock ip port ↦ accepter fuel p (
          add_connection sock (some to_recver) (some to_sender) (some to_excepter)
            (record s { kernel = k }))
      | Accepted.not_accepted Errno.interrupted ↦ accepter fuel p (record s { kernel = k })
      | Accepted.not_accepted e ↦ ok (record s { kernel = k })
    ]

  unfoldable pub enable_read_write : ℕ → Bool → Bool → Server K → Result (Server K)
  enable_read_write p readable writable s = do
    conn ← deref p s
    let events : Events = record {
      readable = readable;
      writable = writable;
      error = false;
      hangup = false;
      edge = false;
    }
    let (res, k) = Epoll.ctrl_epoll os s.epfd conn.sock events s.kernel
    assert res
    ok (record s { kernel = k })

  unfoldable pub excepter : ℕ → Server K → Result (Server K)
  excepter p s = do
    conn ← deref p s
    if is_connection_exists conn.sock s
        then (do
          let (res, k) = Epoll.del_from_epoll os s.epfd conn.sock s.kernel
          assert res
          ok (record s {
            connections = erase conn.sock s.connections;
            kernel = os.close conn.sock k;
            heap = update s.heap p none;
          }))
        else ok s

  -- `conn->_except_cb(conn)`.
  unfoldable pub call_except : ℕ → Server K → Result (Server K)
  call_except p s = do
    conn ← deref p s
    elim conn.except_cb [ none ↦ fault Fault.bad_function_call | some to_excepter ↦ excepter p s ]

  -- The loop of `Recver`, with `err` behind it. Only what stands before a NUL of `buffer` is kept.
  unfoldable pub recv_loop : ℕ → ℕ → Server K → Result (Bool × Server K)
  recv_loop zero p s = fault Fault.out_of_fuel
  recv_loop (suc fuel) p s = do
    conn ← deref p s
    let (r, k) = os.recv conn.sock 1023 s.kernel
    let s' : Server K = record s { kernel = k }
    elim r [
      | Received.not_received Errno.again ↦ ok (false, s')
      | Received.not_received Errno.would_block ↦ ok (false, s')
      | Received.not_received Errno.interrupted ↦ recv_loop fuel p s'
      | Received.not_received (Errno.other e) ↦ call_except p s' >>= λ t. ok (true, t)
      | Received.received [] ↦ call_except p s' >>= λ t. ok (true, t)
      | Received.received (b ∷ bs) ↦
          recv_loop fuel p (store p (record conn { inbuffer = conn.inbuffer ++ c_str (b ∷ bs) }) s')
    ]

  -- The loop of `Sender`.
  unfoldable pub send_loop : ℕ → ℕ → Server K → Result (Server K)
  send_loop zero p s = fault Fault.out_of_fuel
  send_loop (suc fuel) p s = do
    conn ← deref p s
    let (r, k) = os.send conn.sock conn.outbuffer s.kernel
    let s' : Server K = record s { kernel = k }
    let rest : Bytes = erase_front conn.outbuffer r.count
    let sent : Server K = store p (record conn { outbuffer = rest }) s'
    let more = send_loop fuel p sent
    let retry = send_loop fuel p s'
    if ltb 0 r.count then elim rest [ [] ↦ ok sent | b ∷ bs ↦ more ] else elim r.errno [
      | Errno.again ↦ ok s'
      | Errno.would_block ↦ ok s'
      | Errno.interrupted ↦ retry
      | Errno.other e ↦ call_except p s'
    ]

  unfoldable pub sender : ℕ → ℕ → Server K → Result (Server K)
  sender fuel p s = do
    s' ← send_loop fuel p s
    conn ← deref p s'
    elim conn.outbuffer [
      | [] ↦ enable_read_write p true false s'
      | b ∷ bs ↦ enable_read_write p true true s'
    ]

  -- `cb` is `_cb`, the handler that `Dispather` was given.
  module _ (cb : ℕ → Bytes → Server K → Result (Server K)) where
    unfoldable pub for_each : ℕ → List Bytes → Server K → Result (Server K)
    for_each p [] s = ok s
    for_each p (msg ∷ msgs) s = do s' ← cb p msg s; for_each p msgs s'

    -- The log line behind the loop reads `conn`.
    unfoldable pub recver : ℕ → ℕ → Server K → Result (Server K)
    recver fuel p s = do
      (err, s') ← recv_loop fuel p s
      conn ← deref p s'
      if err then ok s' else (do
        (rest, messages) ← splite_message conn.inbuffer []
        for_each p messages (store p (record conn { inbuffer = rest }) s'))

    unfoldable pub read_ready : ℕ → ℕ → Server K → Result (Server K)
    read_ready fuel sock s = elim (lookup sock s.connections) [
      | none ↦ ok s
      | some p ↦ do
        conn ← deref p s
        elim conn.recv_cb [
          | none ↦ ok s
          | some to_accepter ↦ accepter fuel p s
          | some to_recver ↦ recver fuel p s
        ]
    ]

    unfoldable pub write_ready : ℕ → ℕ → Server K → Result (Server K)
    write_ready fuel sock s = elim (lookup sock s.connections) [
      | none ↦ ok s
      | some p ↦ do
        conn ← deref p s
        elim conn.send_cb [ none ↦ ok s | some to_sender ↦ sender fuel p s ]
    ]

    -- One round of the `for` in `LoopOnce`.
    unfoldable pub handle_event : ℕ → Event → Server K → Result (Server K)
    handle_event fuel ev s =
        let both = ev.events.error || ev.events.hangup in
        do
          s' ← (if ev.events.readable || both then read_ready fuel ev.fd s else ok s)
          if ev.events.writable || both then write_ready fuel ev.fd s' else ok s'

    unfoldable pub handle_events : ℕ → List Event → Server K → Result (Server K)
    handle_events fuel [] s = ok s
    handle_events fuel (ev ∷ evs) s = do s' ← handle_event fuel ev s; handle_events fuel evs s'

    unfoldable pub loop_once : ℕ → Server K → Result (Server K)
    loop_once fuel s =
        let (evs, k) = Epoll.wait_epoll os s.epfd s.revs_num s.kernel in
        handle_events fuel evs (record s { kernel = k })

    -- `Dispather` never returns: this is the server after `n` rounds of its loop.
    unfoldable pub dispather : ℕ → ℕ → Server K → Result (Server K)
    dispather zero fuel s = ok s
    dispather (suc n) fuel s = do s' ← loop_once fuel s; dispather n fuel s'

  -- The constructor.
  unfoldable pub tcp_server : ℕ → K → Result (Server K)
  tcp_server port k = do
    (sock, k1) ← Sock.socket os k
    k2 ← Sock.bind os sock port k1
    k3 ← Sock.listen os sock k2
    (epfd, k4) ← Epoll.create_epoll os k3
    ok (
        add_connection sock (some to_accepter) none none (record {
          listensock = sock;
          port = port;
          epfd = epfd;
          revs_num = 128;
          connections = [];
          heap = λ p. none;
          next = 0;
          kernel = k4;
        }))
