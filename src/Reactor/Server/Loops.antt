-- ===== src/Reactor/Server/Loops.antt =====
-- The loops of Accepter, Recver and Sender, round by round.
use learn_in_linux.Common.{
  ℕ, zero, suc, ◌≡◌, refl, Bool, true, false, Option, none, some, [], ◌∷◌, ◌++◌, Bytes, ltb,
  if◌then◌else◌, Option-cases, inl, inr, ◌⊎◌, ok, ◌>>=◌,
}
use learn_in_linux.Common.Outcomes.{Yields, Yields-bind}
use learn_in_linux.Text.{c_str, erase_front}
use learn_in_linux.Reactor.Os.{Os, Errno, Ctl, Accepted, Received}
use learn_in_linux.Reactor.Sock.{accept, set_non_block}
use learn_in_linux.Reactor.Epoll.{add_sock_to_epoll}
use learn_in_linux.Reactor.Server.{
  Connection, Server, ReadCallback, WriteCallback, ExceptCallback, to_recver, to_sender,
  to_excepter, lookup, only_input, deref, store, add_connection, accepter, enable_read_write,
  call_except, recv_loop, send_loop, sender,
}
use learn_in_linux.Reactor.Server.Table.{Laws, WellFormed, kernel-WellFormed, add-WellFormed}
use learn_in_linux.Reactor.Server.Kept.{
  MayFault, Kept, KeptWith, IsClient, deref-Yields, call_except-Kept, enable_read_write-Kept,
  with_buffers,
}

module _ {K : Type 0} {os : Os K} {IsOpen : ℕ → K → Type 0} (laws : Laws os IsOpen) where
  pub recv_loop-Kept :
      (fuel p : ℕ) (s : Server K)
      → IsClient laws p s
      → WellFormed IsOpen s
      → Yields MayFault (KeptWith laws) (recv_loop os fuel p s)
  unfolding recv_loop
  recv_loop-Kept zero p s client v = tt
  recv_loop-Kept (suc fuel) p s client v =
      Yields-bind MayFault (λ c. s.heap p ≡ some c) (KeptWith laws) (deref p s) _
        (deref-Yields laws p s)
        (λ c live. by_answer c live (os.recv c.sock 1023 s.kernel).0 (recv_loop-Kept fuel p))
    where
      after : Connection → Server K
      after c = record s { kernel = (os.recv c.sock 1023 s.kernel).1 }

      after-WellFormed : (c : Connection) → WellFormed IsOpen (after c)
      after-WellFormed c = kernel-WellFormed s v _ (λ fd. laws.recv_keeps c.sock 1023 fd s.kernel)

      gives_up :
          (c : Connection)
          → Yields MayFault (KeptWith laws) (call_except os p (after c) >>= λ t. ok (true, t))
      gives_up c =
          Yields-bind MayFault (WellFormed IsOpen) (KeptWith laws) (call_except os p (after c))
            (λ t. ok (true, t)) (call_except-Kept laws p (after c) client (after-WellFormed c))
            (λ t w. w)

      by_answer :
          (c : Connection)
          → s.heap p ≡ some c
          → (r : Received)
          → ((s' : Server K)
              → IsClient laws p s'
              → WellFormed IsOpen s'
              → Yields MayFault (KeptWith laws) (recv_loop os fuel p s'))
          → Yields MayFault (KeptWith laws) (elim r [
            | Received.not_received Errno.again ↦ ok (false, after c)
            | Received.not_received Errno.would_block ↦ ok (false, after c)
            | Received.not_received Errno.interrupted ↦ recv_loop os fuel p (after c)
            | Received.not_received (Errno.other e) ↦
                call_except os p (after c) >>= λ t. ok (true, t)
            | Received.received [] ↦ call_except os p (after c) >>= λ t. ok (true, t)
            | Received.received (b ∷ bs) ↦
                recv_loop os fuel p
                  (store p (record c { inbuffer = c.inbuffer ++ c_str (b ∷ bs) }) (after c))
          ])
      by_answer c live (Received.not_received Errno.again) more = after-WellFormed c
      by_answer c live (Received.not_received Errno.would_block) more = after-WellFormed c
      by_answer c live (Received.not_received Errno.interrupted) more =
          more (after c) client (after-WellFormed c)
      by_answer c live (Received.not_received (Errno.other e)) more = gives_up c
      by_answer c live (Received.received []) more = gives_up c
      by_answer c live (Received.received (b ∷ bs)) more =
          let (still, w) =
            with_buffers laws p c (c.inbuffer ++ c_str (b ∷ bs)) c.outbuffer (after c) live client
              (after-WellFormed c) in
          more _ still w

  send_loop-Kept :
      (fuel p : ℕ) (s : Server K)
      → IsClient laws p s
      → WellFormed IsOpen s
      → Kept laws (send_loop os fuel p s)
  unfolding send_loop
  send_loop-Kept zero p s client v = tt
  send_loop-Kept (suc fuel) p s client v =
      Yields-bind MayFault (λ c. s.heap p ≡ some c) (WellFormed IsOpen) (deref p s) _
        (deref-Yields laws p s)
        (λ c live.
          let r = (os.send c.sock c.outbuffer s.kernel).0 in
          let rest = erase_front c.outbuffer r.count in
          let (still, w) =
            with_buffers laws p c c.inbuffer rest (after c) live client (after-WellFormed c) in
          by_answer c (store p (record c { outbuffer = rest }) (after c)) still w (ltb 0 r.count)
            rest r.errno (send_loop-Kept fuel p))
    where
      after : Connection → Server K
      after c = record s { kernel = (os.send c.sock c.outbuffer s.kernel).1 }

      after-WellFormed : (c : Connection) → WellFormed IsOpen (after c)
      after-WellFormed c =
          kernel-WellFormed s v _ (λ fd. laws.send_keeps c.sock fd c.outbuffer s.kernel)

      by_answer :
          (c : Connection) (sent : Server K)
          → IsClient laws p sent
          → WellFormed IsOpen sent
          → (progress : Bool) (rest : Bytes) (errno : Errno)
          → ((s' : Server K)
              → IsClient laws p s'
              → WellFormed IsOpen s'
              → Kept laws (send_loop os fuel p s'))
          → Kept laws (
              if progress
              then elim rest [ [] ↦ ok sent | b ∷ bs ↦ send_loop os fuel p sent ]
              else elim errno [
                | Errno.again ↦ ok (after c)
                | Errno.would_block ↦ ok (after c)
                | Errno.interrupted ↦ send_loop os fuel p (after c)
                | Errno.other e ↦ call_except os p (after c)
              ])
      by_answer c sent still w true [] errno more = w
      by_answer c sent still w true (b ∷ bs) errno more = more sent still w
      by_answer c sent still w false rest Errno.again more = after-WellFormed c
      by_answer c sent still w false rest Errno.would_block more = after-WellFormed c
      by_answer c sent still w false rest Errno.interrupted more =
          more (after c) client (after-WellFormed c)
      by_answer c sent still w false rest (Errno.other e) more =
          call_except-Kept laws p (after c) client (after-WellFormed c)

  pub sender-Kept :
      (fuel p : ℕ) (s : Server K)
      → IsClient laws p s
      → WellFormed IsOpen s
      → Kept laws (sender os fuel p s)
  unfolding sender
  sender-Kept fuel p s client v =
      Yields-bind MayFault (WellFormed IsOpen) (WellFormed IsOpen) (send_loop os fuel p s) _
        (send_loop-Kept fuel p s client v)
        (λ t w.
          Yields-bind MayFault (λ c. t.heap p ≡ some c) (WellFormed IsOpen) (deref p t) _
            (deref-Yields laws p t) (λ c live. by_rest c.outbuffer t w))
    where
      by_rest :
          (rest : Bytes) (t : Server K)
          → WellFormed IsOpen t
          → Kept laws (elim rest [
            | [] ↦ enable_read_write os p true false t
            | b ∷ bs ↦ enable_read_write os p true true t
          ])
      by_rest [] t w = enable_read_write-Kept laws p true false t w
      by_rest (b ∷ bs) t w = enable_read_write-Kept laws p true true t w

  -- The calls of `AddConnection` close nothing.
  set_non_block_keeps : (sock fd : ℕ) (k : K) → IsOpen fd k → IsOpen fd (set_non_block os sock k).1
  unfolding set_non_block
  set_non_block_keeps sock fd k o = elim (Option-cases (os.get_flags sock k).0) [
    | inl e ↦ rw (set_non_block, e) (laws.get_flags_keeps sock fd k o)
    | inr (flags, e) ↦
        rw (set_non_block, e) (laws.set_flags_keeps sock _ fd _ (laws.get_flags_keeps sock fd k o))
  ]

  pub add_connection-WellFormed :
      (sock : ℕ) (recv_cb : Option ReadCallback) (send_cb : Option WriteCallback)
      (except_cb : Option ExceptCallback) (s : Server K)
      → lookup sock s.connections ≡ none
      → ((recv_cb ≡ some to_recver) ⊎ (send_cb ≡ some to_sender) → except_cb ≡ some to_excepter)
      → IsOpen sock s.kernel
      → WellFormed IsOpen s
      → WellFormed IsOpen (add_connection os sock recv_cb send_cb except_cb s)
  unfolding add_connection add_sock_to_epoll
  add_connection-WellFormed sock recv_cb send_cb except_cb s no_entry excepts is_open v =
      let keeps = λ (fd : ℕ) (o : IsOpen fd s.kernel).
        laws.ctl_keeps s.epfd sock fd Ctl.add (some only_input) (set_non_block os sock s.kernel).1
          (set_non_block_keeps sock fd s.kernel o) in
      add-WellFormed s v
        (record {
          sock = sock;
          recv_cb = recv_cb;
          send_cb = send_cb;
          except_cb = except_cb;
          inbuffer = [];
          outbuffer = [];
        })
        _ no_entry excepts (keeps sock is_open) keeps

  pub accepter-Kept :
      (fuel p : ℕ) (s : Server K) → WellFormed IsOpen s → Kept laws (accepter os fuel p s)
  unfolding accepter accept
  accepter-Kept zero p s v = tt
  accepter-Kept (suc fuel) p s v =
      Yields-bind MayFault (λ c. s.heap p ≡ some c) (WellFormed IsOpen) (deref p s) _
        (deref-Yields laws p s)
        (λ c live. by_answer c (os.accept c.sock s.kernel).0 refl (accepter-Kept fuel p))
    where
      after : Connection → Server K
      after c = record s { kernel = (os.accept c.sock s.kernel).1 }

      after-WellFormed : (c : Connection) → WellFormed IsOpen (after c)
      after-WellFormed c = kernel-WellFormed s v _ (λ fd. laws.accept_keeps c.sock fd s.kernel)

      by_answer :
          (c : Connection) (r : Accepted)
          → (os.accept c.sock s.kernel).0 ≡ r
          → ((s' : Server K) → WellFormed IsOpen s' → Kept laws (accepter os fuel p s'))
          → Kept laws (elim r [
            | Accepted.accepted sock ip port ↦ accepter os fuel p (
                add_connection os sock
                  (some to_recver)
                  (some to_sender)
                  (some to_excepter)
                  (after c))
            | Accepted.not_accepted Errno.interrupted ↦ accepter os fuel p (after c)
            | Accepted.not_accepted e ↦ ok (after c)
          ])
      by_answer c (Accepted.accepted sock ip port) e more =
          let (fresh, opened) = laws.accept_fresh c.sock s.kernel sock ip port e in
          let no_entry : lookup sock s.connections ≡ none =
            elim (Option-cases (lookup sock s.connections)) [
              | inl none_ ↦ none_
              | inr (q, h) ↦ absurd (fresh (v.alive sock q h))
            ] in
          more _ (
            add_connection-WellFormed sock (some to_recver) (some to_sender) (some to_excepter)
              (after c) no_entry (λ x. refl) opened (after-WellFormed c))
      by_answer c (Accepted.not_accepted Errno.interrupted) e more =
          more (after c) (after-WellFormed c)
      by_answer c (Accepted.not_accepted Errno.again) e more = after-WellFormed c
      by_answer c (Accepted.not_accepted Errno.would_block) e more = after-WellFormed c
      by_answer c (Accepted.not_accepted (Errno.other x)) e more = after-WellFormed c
