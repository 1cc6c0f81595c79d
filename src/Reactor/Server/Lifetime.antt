-- ===== src/Reactor/Server/Lifetime.antt =====
-- What `Excepter` does to a connection, and who touches it afterwards.
use learn_in_linux.Common.{
  ℕ, suc, ◌≡◌, refl, true, none, some, [], Bytes, ◌==◌, if◌then◌else◌, Result, ok, fault, Fault,
  ◌>>=◌, arith,
}
use learn_in_linux.Reactor.Os.{Os, Errno, Received, Ctl}
use learn_in_linux.Reactor.Epoll.{del_from_epoll}
use learn_in_linux.Reactor.Server.{
  Connection, Server, lookup, erase, is_connection_exists, update, excepter, call_except, recv_loop,
  send_loop, sender, recver, to_excepter,
}
use learn_in_linux.Reactor.Server.Heap.{deref_live, deref_dead, lookup-erase}

pub excepter_dead :
    {K : Type 0} (os : Os K) (p : ℕ) (s : Server K)
    → s.heap p ≡ none
    → excepter os p s ≡ fault Fault.use_after_free
unfolding excepter
excepter_dead os p s h = rw (deref_dead p s h)

module _ {K : Type 0} (os : Os K) (p : ℕ) (s : Server K) (c : Connection)
    (live : s.heap p ≡ some c) where
  -- The server after `Excepter` took the connection away, with `k` the kernel behind the removal.
  abbrev pub without : K → Server K
  without k = record s {
    connections = erase c.sock s.connections;
    kernel = os.close c.sock k;
    heap = update s.heap p none;
  }

  pub excepter_removes :
      lookup c.sock s.connections ≡ some p
      → (os.epoll_ctl s.epfd Ctl.remove c.sock none s.kernel).0 ≡ true
      → excepter os p s ≡ ok (without (os.epoll_ctl s.epfd Ctl.remove c.sock none s.kernel).1)
  unfolding excepter del_from_epoll is_connection_exists
  excepter_removes known done = rw (deref_live p s c live, known, is_connection_exists, done)

  -- `Excepter` on a connection that the table knows, where epoll lets its descriptor go: the table
  -- entry and the object are gone, every other entry and object is as it was, and the descriptor is
  -- closed behind its removal from epoll. On the same pointer it faults from then on.
  pub excepter_lem :
      lookup c.sock s.connections ≡ some p
      → (os.epoll_ctl s.epfd Ctl.remove c.sock none s.kernel).0 ≡ true
      → (t : Server K) × (excepter os p s ≡ ok t)
        × ((j : ℕ)
            → lookup j t.connections ≡ (if c.sock == j then none else lookup j s.connections))
        × ((q : ℕ) → t.heap q ≡ (if p == q then none else s.heap q))
        × (t.kernel ≡ os.close c.sock (os.epoll_ctl s.epfd Ctl.remove c.sock none s.kernel).1)
        × (excepter os p t ≡ fault Fault.use_after_free)
  excepter_lem known done =
      let k = (os.epoll_ctl s.epfd Ctl.remove c.sock none s.kernel).1 in
      (
        without k,
        excepter_removes known done,
        (λ j. lookup-erase j c.sock s.connections),
        (λ q. refl),
        refl,
        excepter_dead os p (without k) (ground arith),
      )

-- A connection that reads at the end of its stream, or with an error, is deleted in the loop of
-- `Recver`; the log line behind the loop then reads it.
module _ {K : Type 0} (os : Os K) (p : ℕ) (s : Server K) (c : Connection)
    (live : s.heap p ≡ some c) where
  pub call_except_removes :
      c.except_cb ≡ some to_excepter
      → lookup c.sock s.connections ≡ some p
      → (os.epoll_ctl s.epfd Ctl.remove c.sock none s.kernel).0 ≡ true
      → call_except os p s
        ≡ ok (without os p s c live (os.epoll_ctl s.epfd Ctl.remove c.sock none s.kernel).1)
  unfolding call_except
  call_except_removes e known done =
      rw (deref_live p s c live, e) (excepter_removes os p s c live known done)

-- The reads that end a connection: the end of the stream, and an error that is no retry.
pub data Ends : Received → Type 0 where
  stream : Ends (Received.received [])
  failed : (e : ℕ) → Ends (Received.not_received (Errno.other e))

-- The kernel's answer to the `recv` that `Recver` makes first.
abbrev first_recv : {K : Type 0} → Os K → Server K → Connection → Received × K
first_recv os s c = os.recv c.sock 1023 s.kernel

recv_loop-Ends :
    {K : Type 0} (os : Os K) (fuel p : ℕ) (s : Server K) (c : Connection) (r : Received)
    → s.heap p ≡ some c
    → (first_recv os s c).0 ≡ r
    → Ends r
    → recv_loop os (suc fuel) p s
      ≡ (call_except os p (record s { kernel = (first_recv os s c).1 }) >>= λ t. ok (true, t))
unfolding recv_loop
recv_loop-Ends os fuel p s c r live e stream = rw (deref_live p s c live, e)
recv_loop-Ends os fuel p s c r live e (failed x) = rw (deref_live p s c live, e)

-- When the first `recv` of `Recver` finds the stream ended or fails, and epoll lets the descriptor
-- go, `Recver` uses the connection after it has deleted it, whatever the handler is.
pub recver_use_after_free :
    {K : Type 0} (os : Os K) (cb : ℕ → Bytes → Server K → Result (Server K)) (fuel p : ℕ)
    (s : Server K) (c : Connection)
    → s.heap p ≡ some c
    → c.except_cb ≡ some to_excepter
    → lookup c.sock s.connections ≡ some p
    → Ends (first_recv os s c).0
    → (os.epoll_ctl s.epfd Ctl.remove c.sock none (first_recv os s c).1).0 ≡ true
    → recver os cb (suc fuel) p s ≡ fault Fault.use_after_free
unfolding recver
recver_use_after_free {K} os cb fuel p s c live e known first done =
    let s' : Server K = record s { kernel = (first_recv os s c).1 } in
    rw (
      recv_loop-Ends os fuel p s c (first_recv os s c).0 live refl first,
      call_except_removes os p s' c live e known done,
      deref_dead p (without os p s' c live (os.epoll_ctl s.epfd Ctl.remove c.sock none s'.kernel).1)
          (ground arith),
    )

send_loop_fails :
    {K : Type 0} (os : Os K) (fuel p e : ℕ) (s : Server K) (c : Connection)
    → s.heap p ≡ some c
    → (os.send c.sock c.outbuffer s.kernel).0 ≡ record { count = 0; errno = Errno.other e }
    → send_loop os (suc fuel) p s
      ≡ call_except os p (record s { kernel = (os.send c.sock c.outbuffer s.kernel).1 })
unfolding send_loop
send_loop_fails os fuel p e s c live first = rw (deref_live p s c live, first)

-- When the first `send` of `Sender` fails with an error that is no retry, and epoll lets the
-- descriptor go, `Sender` too uses the connection after it has deleted it.
pub sender_use_after_free :
    {K : Type 0} (os : Os K) (fuel p e : ℕ) (s : Server K) (c : Connection)
    → s.heap p ≡ some c
    → c.except_cb ≡ some to_excepter
    → lookup c.sock s.connections ≡ some p
    → (os.send c.sock c.outbuffer s.kernel).0 ≡ record { count = 0; errno = Errno.other e }
    → (os.epoll_ctl s.epfd Ctl.remove c.sock none (os.send c.sock c.outbuffer s.kernel).1).0 ≡ true
    → sender os (suc fuel) p s ≡ fault Fault.use_after_free
unfolding sender
sender_use_after_free {K} os fuel p e s c live x known first done =
    let s' : Server K = record s { kernel = (os.send c.sock c.outbuffer s.kernel).1 } in
    rw (
      send_loop_fails os fuel p e s c live first,
      call_except_removes os p s' c live x known done,
      deref_dead p (without os p s' c live (os.epoll_ctl s.epfd Ctl.remove c.sock none s'.kernel).1)
          (ground arith),
    )
