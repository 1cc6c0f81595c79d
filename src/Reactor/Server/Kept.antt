-- ===== src/Reactor/Server/Kept.antt =====
-- The outcome of an operation of the server: table and heap that belong together, or one of certain
-- faults; for the operations without a loop.
use learn_in_linux.Common.{
  ℕ, ◌≡◌, refl, Bool, true, false, none, some, Bytes, Bool-cases, Option-cases, inl, inr, Result,
  ok, Fault, ◌>>◌, assert,
}
use mathlib.Core.Path.{subst}
use learn_in_linux.Common.Outcomes.{Yields, Yields-bind}
use learn_in_linux.Reactor.Os.{Os, Events, Ctl}
use learn_in_linux.Reactor.Epoll.{del_from_epoll, ctrl_epoll}
use learn_in_linux.Reactor.Server.{
  Connection, Server, to_excepter, deref, store, is_connection_exists, enable_read_write, excepter,
  call_except,
}
use learn_in_linux.Reactor.Server.Heap.{deref_live, deref_dead, update_self}
use learn_in_linux.Reactor.Server.Lifetime.{excepter_removes, excepter_dead}
use learn_in_linux.Reactor.Server.Table.{
  Laws, WellFormed, kernel-WellFormed, store-WellFormed, remove-WellFormed,
}

-- The faults that are not ruled out: a deleted connection, epoll_ctl that fails, the rounds of the
-- model, and an overflow in a handler.
abbrev pub MayFault : Fault → Type 0
MayFault Fault.use_after_free = Unit
MayFault Fault.assert_failed = Unit
MayFault Fault.out_of_fuel = Unit
MayFault Fault.signed_overflow = Unit
MayFault Fault.atoi_overflow = Unit
MayFault _ = ⊥

module _ {K : Type 0} {os : Os K} {IsOpen : ℕ → K → Type 0} (laws : Laws os IsOpen) where
  abbrev pub Kept : Result (Server K) → Type 0
  Kept = Yields MayFault (WellFormed IsOpen)

  abbrev pub KeptWith : Bool × Server K → Type 0
  KeptWith (err, t) = WellFormed IsOpen t

  -- The object at `p`, if there is one, has `_except_cb`.
  abbrev pub IsClient : ℕ → Server K → Type 0
  IsClient p s = (c : Connection) → s.heap p ≡ some c → c.except_cb ≡ some to_excepter

  pub deref-Yields : (p : ℕ) (s : Server K) → Yields MayFault (λ c. s.heap p ≡ some c) (deref p s)
  unfolding deref
  deref-Yields p s = elim (Option-cases (s.heap p)) [
    | inl e ↦ rw (deref, e) tt
    | inr (c, e) ↦ rw (deref_live p s c e) e
  ]

  excepter-Kept : (p : ℕ) (s : Server K) → WellFormed IsOpen s → Kept (excepter os p s)
  unfolding excepter is_connection_exists del_from_epoll
  excepter-Kept p s v = elim (Option-cases (s.heap p)) [
    | inl e ↦ rw (excepter_dead os p s e) tt
    | inr (c, live) ↦ elim (Bool-cases (os.epoll_ctl s.epfd Ctl.remove c.sock none s.kernel).0) [
      | inl done ↦
          let k = (os.epoll_ctl s.epfd Ctl.remove c.sock none s.kernel).1 in
          rw (excepter_removes os p s c live (v.known p c live) done) (
            remove-WellFormed s v p c (os.close c.sock k) live (λ fd ne o.
              laws.close_keeps c.sock fd k ne
                (laws.ctl_keeps s.epfd c.sock fd Ctl.remove none s.kernel o)))
      | inr failed ↦
          rw (excepter, deref_live p s c live, is_connection_exists, v.known p c live, failed) tt
    ]
  ]

  pub call_except-Kept :
      (p : ℕ) (s : Server K) → IsClient p s → WellFormed IsOpen s → Kept (call_except os p s)
  unfolding call_except
  call_except-Kept p s client v = elim (Option-cases (s.heap p)) [
    | inl e ↦ rw (call_except, deref_dead p s e) tt
    | inr (c, live) ↦ rw (call_except, deref_live p s c live, client c live) (excepter-Kept p s v)
  ]

  assert-Kept : (b : Bool) (m : Result (Server K)) → Kept m → Kept (assert b >> m)
  assert-Kept true m h = h
  assert-Kept false m h = tt

  pub enable_read_write-Kept :
      (p : ℕ) (readable writable : Bool) (s : Server K)
      → WellFormed IsOpen s
      → Kept (enable_read_write os p readable writable s)
  unfolding enable_read_write ctrl_epoll
  enable_read_write-Kept p readable writable s v =
      Yields-bind MayFault (λ c. s.heap p ≡ some c) (WellFormed IsOpen) (deref p s) _
        (deref-Yields p s)
        (λ c live.
          let events : Events = record {
            readable = readable;
            writable = writable;
            error = false;
            hangup = false;
            edge = true;
          } in
          let r = os.epoll_ctl s.epfd Ctl.modify c.sock (some events) s.kernel in
          assert-Kept r.0 (ok (record s { kernel = r.1 })) (
            kernel-WellFormed s v r.1
              (λ fd. laws.ctl_keeps s.epfd c.sock fd Ctl.modify (some events) s.kernel)))

  -- The buffers of a connection are no part of the table.
  pub with_buffers :
      (p : ℕ) (c : Connection) (inbuffer outbuffer : Bytes) (s : Server K)
      → s.heap p ≡ some c
      → IsClient p s
      → WellFormed IsOpen s
      → let t = store p (record c { inbuffer = inbuffer; outbuffer = outbuffer }) s in
        IsClient p t × WellFormed IsOpen t
  with_buffers p c inbuffer outbuffer s live client v =
      let c' : Connection = record c { inbuffer = inbuffer; outbuffer = outbuffer } in
      (
        λ d e.
            let d_is : c' ≡ d = cc (update_self s.heap p (some c'), e) in
            subst (λ x. x.except_cb ≡ some to_excepter) d_is (client c live),
        store-WellFormed s v p c c' live refl (v.callbacks p c live),
      )
