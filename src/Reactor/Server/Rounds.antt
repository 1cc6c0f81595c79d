-- ===== src/Reactor/Server/Rounds.antt =====
-- The rounds of the reactor over any handler that keeps the table and the heap.
use learn_in_linux.Common.{
  ℕ, zero, suc, ◌≡◌, refl, Bool, true, false, ◌||◌, Option, none, some, List, [], ◌∷◌, Bytes,
  if◌then◌else◌, Option-cases, inl, inr, ◌⊎◌, Result, ok, ◌>>=◌,
}
use mathlib.Core.Path.{subst}
use learn_in_linux.Common.Outcomes.{Yields-bind}
use learn_in_linux.Reactor.Os.{Os, Event}
use learn_in_linux.Reactor.Protocol.{splite_message}
use learn_in_linux.Reactor.Protocol.Framing.{splite_message_lem}
use learn_in_linux.Reactor.Epoll.{gtimeout, wait_epoll}
use learn_in_linux.Reactor.Server.{
  Connection, Server, ReadCallback, WriteCallback, to_accepter, to_recver, to_sender, to_excepter,
  lookup, deref, store, accepter, recv_loop, sender, for_each, recver, read_ready, write_ready,
  handle_event, handle_events, loop_once, dispather,
}
use learn_in_linux.Reactor.Server.Heap.{deref_live}
use learn_in_linux.Reactor.Server.Table.{Laws, WellFormed, kernel-WellFormed, store-WellFormed}
use learn_in_linux.Reactor.Server.Kept.{MayFault, Kept, KeptWith, IsClient, deref-Yields}
use learn_in_linux.Reactor.Server.Loops.{recv_loop-Kept, sender-Kept, accepter-Kept}

module _ {K : Type 0} {os : Os K} {IsOpen : ℕ → K → Type 0} (laws : Laws os IsOpen)
    (cb : ℕ → Bytes → Server K → Result (Server K))
    (handles : (p : ℕ) (msg : Bytes) (s : Server K)
      → WellFormed IsOpen s
      → Kept laws (cb p msg s)) where
  for_each-Kept :
      (p : ℕ) (msgs : List Bytes) (s : Server K)
      → WellFormed IsOpen s
      → Kept laws (for_each os cb p msgs s)
  unfolding for_each
  for_each-Kept p [] s v = v
  for_each-Kept p (msg ∷ msgs) s v =
      Yields-bind MayFault (WellFormed IsOpen) (WellFormed IsOpen) (cb p msg s) _
        (handles p msg s v) (for_each-Kept p msgs)

  recver-Kept :
      (fuel p : ℕ) (s : Server K)
      → IsClient laws p s
      → WellFormed IsOpen s
      → Kept laws (recver os cb fuel p s)
  unfolding recver
  recver-Kept fuel p s client v =
      Yields-bind MayFault (KeptWith laws) (WellFormed IsOpen) (recv_loop os fuel p s) _
        (recv_loop-Kept laws fuel p s client v)
        (λ (err, t) w.
          Yields-bind MayFault (λ c. t.heap p ≡ some c) (WellFormed IsOpen) (deref p t) _
            (deref-Yields laws p t) (λ c live. by_err err c t live w))
    where
      by_err :
          (err : Bool) (c : Connection) (t : Server K)
          → t.heap p ≡ some c
          → WellFormed IsOpen t
          → Kept laws (
              if err then ok t else (do
                (rest, messages) ← splite_message c.inbuffer []
                for_each os cb p messages (store p (record c { inbuffer = rest }) t)))
      by_err true c t live w = w
      by_err false c t live w =
          let (ms, rest, e, cut) = splite_message_lem c.inbuffer [] in
          rw e (
            for_each-Kept p ms _ (
              store-WellFormed t w p c (record c { inbuffer = rest }) live refl
                (w.callbacks p c live)))

  -- The object of an entry has the callbacks of one object.
  clients :
      (p : ℕ) (c : Connection) (s : Server K)
      → s.heap p ≡ some c
      → WellFormed IsOpen s
      → (c.recv_cb ≡ some to_recver) ⊎ (c.send_cb ≡ some to_sender)
      → IsClient laws p s
  clients p c s live v set d e =
      let d_is : c ≡ d = cc (live, e) in
      subst (λ x. x.except_cb ≡ some to_excepter) d_is (v.callbacks p c live set)

  read_ready-Kept :
      (fuel sock : ℕ) (s : Server K)
      → WellFormed IsOpen s
      → Kept laws (read_ready os cb fuel sock s)
  unfolding read_ready
  read_ready-Kept fuel sock s v = elim (Option-cases (lookup sock s.connections)) [
    | inl e ↦ rw (read_ready, e) v
    | inr (p, e) ↦
        let (c, live, same) = v.points sock p e in
        rw (read_ready, e, deref_live p s c live) (by_callback p c live c.recv_cb refl)
  ]
    where
      by_callback :
          (p : ℕ) (c : Connection)
          → s.heap p ≡ some c
          → (o : Option ReadCallback) → c.recv_cb ≡ o
          → Kept laws (elim o [
            | none ↦ ok s
            | some to_accepter ↦ accepter os fuel p s
            | some to_recver ↦ recver os cb fuel p s
          ])
      by_callback p c live none q = v
      by_callback p c live (some to_accepter) q = accepter-Kept laws fuel p s v
      by_callback p c live (some to_recver) q =
          recver-Kept fuel p s (clients p c s live v (inl q)) v

  write_ready-Kept :
      (fuel sock : ℕ) (s : Server K)
      → WellFormed IsOpen s
      → Kept laws (write_ready os cb fuel sock s)
  unfolding write_ready
  write_ready-Kept fuel sock s v = elim (Option-cases (lookup sock s.connections)) [
    | inl e ↦ rw (write_ready, e) v
    | inr (p, e) ↦
        let (c, live, same) = v.points sock p e in
        rw (write_ready, e, deref_live p s c live) (by_callback p c live c.send_cb refl)
  ]
    where
      by_callback :
          (p : ℕ) (c : Connection)
          → s.heap p ≡ some c
          → (o : Option WriteCallback) → c.send_cb ≡ o
          → Kept laws (elim o [ none ↦ ok s | some to_sender ↦ sender os fuel p s ])
      by_callback p c live none q = v
      by_callback p c live (some to_sender) q =
          sender-Kept laws fuel p s (clients p c s live v (inr q)) v

  handle_event-Kept :
      (fuel : ℕ) (ev : Event) (s : Server K)
      → WellFormed IsOpen s
      → Kept laws (handle_event os cb fuel ev s)
  unfolding handle_event
  handle_event-Kept fuel ev s v =
      let both = ev.events.error || ev.events.hangup in
      Yields-bind MayFault (WellFormed IsOpen) (WellFormed IsOpen) _ _
        (if_readable (ev.events.readable || both)) (if_writable (ev.events.writable || both))
    where
      if_readable : (b : Bool) → Kept laws (if b then read_ready os cb fuel ev.fd s else ok s)
      if_readable true = read_ready-Kept fuel ev.fd s v
      if_readable false = v

      if_writable :
          (b : Bool) (t : Server K)
          → WellFormed IsOpen t
          → Kept laws (if b then write_ready os cb fuel ev.fd t else ok t)
      if_writable true t w = write_ready-Kept fuel ev.fd t w
      if_writable false t w = w

  handle_events-Kept :
      (fuel : ℕ) (evs : List Event) (s : Server K)
      → WellFormed IsOpen s
      → Kept laws (handle_events os cb fuel evs s)
  unfolding handle_events
  handle_events-Kept fuel [] s v = v
  handle_events-Kept fuel (ev ∷ evs) s v =
      Yields-bind MayFault (WellFormed IsOpen) (WellFormed IsOpen) (handle_event os cb fuel ev s) _
        (handle_event-Kept fuel ev s v) (handle_events-Kept fuel evs)

  loop_once-Kept :
      (fuel : ℕ) (s : Server K) → WellFormed IsOpen s → Kept laws (loop_once os cb fuel s)
  unfolding loop_once wait_epoll
  loop_once-Kept fuel s v =
      let r = os.epoll_wait s.epfd s.revs_num gtimeout s.kernel in
      handle_events-Kept fuel r.0 _
        (kernel-WellFormed s v r.1 (λ fd. laws.wait_keeps s.epfd s.revs_num gtimeout fd s.kernel))

  -- Over a handler that keeps the table and the heap together, any number of rounds keeps them so, or
  -- ends with one of the faults that are named: no round calls an empty callback.
  pub dispather-Kept :
      (n fuel : ℕ) (s : Server K) → WellFormed IsOpen s → Kept laws (dispather os cb n fuel s)
  unfolding dispather
  dispather-Kept zero fuel s v = v
  dispather-Kept (suc n) fuel s v =
      Yields-bind MayFault (WellFormed IsOpen) (WellFormed IsOpen) (loop_once os cb fuel s) _
        (loop_once-Kept fuel s v) (dispather-Kept n fuel)
