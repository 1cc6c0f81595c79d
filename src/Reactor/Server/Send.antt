-- ===== src/Reactor/Server/Send.antt =====
-- `Sender` on a connection that stays open: what is sent, what waits, and which events are asked for.
use learn_in_linux.Common.{ℕ, ◌≤◌, ◌≡◌, refl, Bool, true, false, some, [], ◌∷◌, ◌++◌, Bytes, ok}
use learn_in_linux.Reactor.Os.{Os, Events, Ctl}
use learn_in_linux.Reactor.Epoll.{ctrl_epoll}
use learn_in_linux.Reactor.Server.{Connection, Server, send_loop, sender, enable_read_write}
use learn_in_linux.Reactor.Server.Heap.{deref_live}
use learn_in_linux.Reactor.Server.Recv.{Changes}
use learn_in_linux.Reactor.Server.SendLoop.{Takes-append, Takes, calls, send_loop_takes}

-- EPOLLIN and EPOLLET, and EPOLLOUT too while bytes wait.
abbrev pub wanted : Bytes → Events
wanted rest = record {
  readable = true;
  writable = waits rest;
  error = false;
  hangup = false;
  edge = true;
}
  where
    waits : Bytes → Bool
    waits [] = false
    waits (b ∷ bs) = true

pub enable_lem :
    {K : Type 0} (os : Os K) (p : ℕ) (readable writable : Bool) (s : Server K) (c : Connection)
    → s.heap p ≡ some c
    → let asked =
        os.epoll_ctl s.epfd Ctl.modify c.sock
          (some (record {
            readable = readable;
            writable = writable;
            error = false;
            hangup = false;
            edge = true;
          }))
          s.kernel in
      asked.0 ≡ true
      → enable_read_write os p readable writable s ≡ ok (record s { kernel = asked.1 })
unfolding enable_read_write ctrl_epoll
enable_lem os p readable writable s c live done = rw (deref_live p s c live, done)

sender_rearms :
    {K : Type 0} (os : Os K) (fuel p : ℕ) (s t : Server K) (c : Connection) (rest : Bytes)
    → send_loop os fuel p s ≡ ok t
    → t.heap p ≡ some (record c { outbuffer = rest })
    → (os.epoll_ctl t.epfd Ctl.modify c.sock (some (wanted rest)) t.kernel).0 ≡ true
    → sender os fuel p s
      ≡ ok (record t {
        kernel = (os.epoll_ctl t.epfd Ctl.modify c.sock (some (wanted rest)) t.kernel).1;
      })
unfolding sender
sender_rearms os fuel p s t c [] e live done =
    rw (e, deref_live p t _ live) (enable_lem os p true false t _ live done)
sender_rearms os fuel p s t c (b ∷ bs) e live done =
    rw (e, deref_live p t _ live) (enable_lem os p true true t _ live done)

-- On a connection from which the kernel takes bytes until all are gone or it takes no more, with fuel
-- for the calls of `send`, and where epoll lets its events be changed, `Sender` returns: the bytes
-- taken and those left in the buffer are the old buffer, the server is otherwise unchanged, and the
-- last call on the kernel asks for EPOLLOUT exactly if bytes are left.
pub sender_takes :
    {K : Type 0} (os : Os K) (fuel p : ℕ) (s : Server K) (c : Connection) (k0 : K)
    {taken rest : Bytes} {k : K}
    → s.heap p ≡ some c
    → s.kernel ≡ k0
    → (d : Takes os c.sock c.outbuffer k0 taken rest k) → calls d ≤ fuel
    → (os.epoll_ctl s.epfd Ctl.modify c.sock (some (wanted rest)) k).0 ≡ true
    → (t : Server K) × (sender os fuel p s ≡ ok t)
      × (taken ++ rest ≡ c.outbuffer)
      × Changes s t p
          (record c { outbuffer = rest })
          (os.epoll_ctl s.epfd Ctl.modify c.sock (some (wanted rest)) k).1
sender_takes os fuel p s c k0 {taken} {rest} live ek d l done =
    let (t, e, g) = send_loop_takes os fuel p c.sock s c live refl refl ek d l in
    (
      _,
      sender_rearms os fuel p s t c rest e g.here (rw (g.epoll, g.kernel) done),
      Takes-append d,
      record {
        here = g.here;
        elsewhere = g.elsewhere;
        table = g.table;
        later = g.later;
        epoll = g.epoll;
        listens = g.listens;
        ports = g.ports;
        revs = g.revs;
        kernel = rw (g.epoll, g.kernel);
      },
    )
