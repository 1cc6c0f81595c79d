-- ===== src/Reactor/Server/Table.antt =====
-- The table of connections against the heap: what they are to be, and what a new connection, a write and
-- a removal do to them.
use learn_in_linux.Common.{
  ℕ, suc, ◌≤◌, ◌≡◌, ◌≢◌, refl, sym, ap, ◌∙◌, Option, none, some, Bytes, ◌==◌, ==_true, ==_false,
  ==_refl, Bool-cases, inl, inr, ◌⊎◌, arith,
}
use mathlib.Core.Path.{subst}
use learn_in_linux.Reactor.Os.{Os, Events, Ctl, Accepted}
use learn_in_linux.Reactor.Server.{
  Connection, Server, to_recver, to_sender, to_excepter, lookup, insert, erase, update, store,
}
use learn_in_linux.Reactor.Server.Heap.{lookup-erase, lookup-insert, update_ne, update_self}

-- The documentation on the descriptors that are open: `socket` and `accept` give one that was not, no call closes
-- one but `close`, and that closes no other.
pub record Laws {K : Type 0} (os : Os K) (IsOpen : ℕ → K → Type 0) : Type 0 where
  pub socket_opens : (k : K) (sock : ℕ) → (os.socket k).0 ≡ some sock → IsOpen sock (os.socket k).1
  pub setsockopt_keeps : (sock fd : ℕ) (k : K) → IsOpen fd k → IsOpen fd (os.setsockopt sock k)
  pub bind_keeps :
      (sock port fd : ℕ) (ip : Bytes) (k : K) → IsOpen fd k → IsOpen fd (os.bind sock port ip k).1
  pub listen_keeps :
      (sock backlog fd : ℕ) (k : K) → IsOpen fd k → IsOpen fd (os.listen sock backlog k).1
  pub create_keeps : (size fd : ℕ) (k : K) → IsOpen fd k → IsOpen fd (os.epoll_create size k).1
  pub accept_fresh :
      (l : ℕ) (k : K) (sock ip port : ℕ)
      → (os.accept l k).0 ≡ Accepted.accepted sock ip port
      → (¬ IsOpen sock k) × IsOpen sock (os.accept l k).1
  pub accept_keeps : (l fd : ℕ) (k : K) → IsOpen fd k → IsOpen fd (os.accept l k).1
  pub get_flags_keeps : (sock fd : ℕ) (k : K) → IsOpen fd k → IsOpen fd (os.get_flags sock k).1
  pub set_flags_keeps :
      (sock flags fd : ℕ) (k : K) → IsOpen fd k → IsOpen fd (os.set_flags sock flags k)
  pub recv_keeps : (sock size fd : ℕ) (k : K) → IsOpen fd k → IsOpen fd (os.recv sock size k).1
  pub send_keeps :
      (sock fd : ℕ) (bytes : Bytes) (k : K) → IsOpen fd k → IsOpen fd (os.send sock bytes k).1
  pub ctl_keeps :
      (epfd sock fd : ℕ) (op : Ctl) (events : Option Events) (k : K)
      → IsOpen fd k
      → IsOpen fd (os.epoll_ctl epfd op sock events k).1
  pub wait_keeps :
      (epfd num timeout fd : ℕ) (k : K)
      → IsOpen fd k
      → IsOpen fd (os.epoll_wait epfd num timeout k).1
  pub close_keeps : (sock fd : ℕ) (k : K) → fd ≢ sock → IsOpen fd k → IsOpen fd (os.close sock k)

-- The callbacks that call `_except_cb` are set together with it.
abbrev pub HasExcept : Connection → Type 0
HasExcept c =
    (c.recv_cb ≡ some to_recver) ⊎ (c.send_cb ≡ some to_sender) → c.except_cb ≡ some to_excepter

-- The table and the heap belong together: every entry points to an object for its own socket, which
-- is open, and every object is the one of its socket's entry.
pub record WellFormed {K : Type 0} (IsOpen : ℕ → K → Type 0) (s : Server K) : Type 0 where
  pub points :
      (sock p : ℕ)
      → lookup sock s.connections ≡ some p
      → (c : Connection) × (s.heap p ≡ some c) × (c.sock ≡ sock)
  pub known : (p : ℕ) (c : Connection) → s.heap p ≡ some c → lookup c.sock s.connections ≡ some p
  pub callbacks : (p : ℕ) (c : Connection) → s.heap p ≡ some c → HasExcept c
  pub fresh : (p : ℕ) → s.next ≤ p → s.heap p ≡ none
  pub alive : (sock p : ℕ) → lookup sock s.connections ≡ some p → IsOpen sock s.kernel

update-cases :
    (heap : ℕ → Option Connection) (p q : ℕ) (o : Option Connection) (d : Connection)
    → update heap p o q ≡ some d
    → ((p ≡ q) × (o ≡ some d)) ⊎ ((p ≢ q) × (heap q ≡ some d))
update-cases heap p q o d e = elim (Bool-cases (p == q)) [
  | inl h ↦ inl (==_true p q h, rw h at e)
  | inr h ↦ inr (==_false p q h, rw h at e)
]

module _ {K : Type 0} {IsOpen : ℕ → K → Type 0} (s : Server K) (v : WellFormed IsOpen s) where
  -- A call that closes nothing.
  pub kernel-WellFormed :
      (k : K)
      → ((fd : ℕ) → IsOpen fd s.kernel → IsOpen fd k)
      → WellFormed IsOpen (record s { kernel = k })
  kernel-WellFormed k keeps = record {
    points = v.points;
    known = v.known;
    callbacks = v.callbacks;
    fresh = v.fresh;
    alive = λ sock p e. keeps sock (v.alive sock p e);
  }

  -- A write to an object that keeps its socket and its callbacks.
  pub store-WellFormed :
      (p : ℕ) (c c' : Connection)
      → s.heap p ≡ some c
      → c'.sock ≡ c.sock
      → HasExcept c'
      → WellFormed IsOpen (store p c' s)
  store-WellFormed p c c' live same excepts = record {
    points = λ j q e.
        let (d, h, k) = v.points j q e in
        elim (Bool-cases (p == q)) [
          | inl b ↦
              let d_is : c ≡ d = cc (live, h, ap s.heap (==_true p q b)) in
              (c', rw b refl, same ∙ ap (λ x. x.sock) d_is ∙ k)
          | inr b ↦ (d, rw b h, k)
        ];
    known = λ q d e. elim (update-cases s.heap p q (some c') d e) [
      | inl (pq, cd) ↦
          let d_is : c' ≡ d = cc cd in
          ap (λ x. lookup x.sock s.connections) (sym d_is)
          ∙ ap (λ j. lookup j s.connections) same
          ∙ v.known p c live
          ∙ ap some pq
      | inr (ne, h) ↦ v.known q d h
    ];
    callbacks = λ q d e. elim (update-cases s.heap p q (some c') d e) [
      | inl (pq, cd) ↦ let d_is : c' ≡ d = cc cd in subst HasExcept d_is excepts
      | inr (ne, h) ↦ v.callbacks q d h
    ];
    fresh = λ q h.
        let pq : p ≢ q = λ x. absurd (cc (live, v.fresh q h, ap s.heap x)) in
        update_ne s.heap p q (some c') pq ∙ v.fresh q h;
    alive = v.alive;
  }

  -- A new object under a socket that has no entry.
  pub add-WellFormed :
      (conn : Connection) (k : K)
      → lookup conn.sock s.connections ≡ none
      → HasExcept conn
      → IsOpen conn.sock k
      → ((fd : ℕ) → IsOpen fd s.kernel → IsOpen fd k)
      → WellFormed IsOpen (record s {
        heap = update s.heap s.next (some conn);
        next = suc s.next;
        connections = insert conn.sock s.next s.connections;
        kernel = k;
      })
  add-WellFormed conn k no_entry excepts is_open keeps = record {
    points = λ j q e.
        let e' = sym (lookup-insert j conn.sock s.next s.connections no_entry) ∙ e in
        elim (Bool-cases (conn.sock == j)) [
          | inl b ↦
              let here : s.next ≡ q = cc (rw b at e') in
              (
                conn,
                subst (λ x. update s.heap s.next (some conn) x ≡ some conn) here
                    (update_self s.heap s.next (some conn)),
                ==_true conn.sock j b,
              )
          | inr b ↦
              let (d, h, k) = v.points j q (rw b at e') in
              let ne : s.next ≢ q =
                λ x. absurd (cc (v.fresh s.next (omega arith), h, ap s.heap x)) in
              (d, update_ne s.heap s.next q (some conn) ne ∙ h, k)
        ];
    known = λ q d e. elim (update-cases s.heap s.next q (some conn) d e) [
      | inl (here, cd) ↦
          let d_is : conn ≡ d = cc cd in
          ap (λ x. lookup x.sock (insert conn.sock s.next s.connections)) (sym d_is)
          ∙ lookup-insert conn.sock conn.sock s.next s.connections no_entry
          ∙ rw (==_refl conn.sock) (ap some here)
      | inr (ne, h) ↦ elim (Bool-cases (conn.sock == d.sock)) [
        | inl b ↦ absurd (
            cc (
              no_entry,
              v.known q d h,
              ap (λ j. lookup j s.connections) (==_true conn.sock d.sock b),
            ))
        | inr b ↦
            lookup-insert d.sock conn.sock s.next s.connections no_entry ∙ rw b (v.known q d h)
      ]
    ];
    callbacks = λ q d e. elim (update-cases s.heap s.next q (some conn) d e) [
      | inl (here, cd) ↦ let d_is : conn ≡ d = cc cd in subst HasExcept d_is excepts
      | inr (ne, h) ↦ v.callbacks q d h
    ];
    fresh = λ q h.
        let ne : s.next ≢ q = λ x. absurd (omega (arith, x)) in
        update_ne s.heap s.next q (some conn) ne ∙ v.fresh q (omega arith);
    alive = λ j q e.
        let e' = sym (lookup-insert j conn.sock s.next s.connections no_entry) ∙ e in
        elim (Bool-cases (conn.sock == j)) [
          | inl b ↦ subst (λ x. IsOpen x k) (==_true conn.sock j b) is_open
          | inr b ↦ keeps j (v.alive j q (rw b at e'))
        ];
  }

  -- An object is taken away with its entry.
  pub remove-WellFormed :
      (p : ℕ) (c : Connection) (k : K)
      → s.heap p ≡ some c
      → ((fd : ℕ) → fd ≢ c.sock → IsOpen fd s.kernel → IsOpen fd k)
      → WellFormed IsOpen (record s {
        connections = erase c.sock s.connections;
        kernel = k;
        heap = update s.heap p none;
      })
  remove-WellFormed p c k live keeps = record {
    points = λ j q e.
        let e' = sym (lookup-erase j c.sock s.connections) ∙ e in
        elim (Bool-cases (c.sock == j)) [
          | inl b ↦ absurd (cc (rw b at e'))
          | inr b ↦
              let (d, h, same) = v.points j q (rw b at e') in
              let ne : p ≢ q = λ x.
                let d_is : c ≡ d = cc (live, h, ap s.heap x) in
                absurd (==_false c.sock j b (ap (λ x. x.sock) d_is ∙ same)) in
              (d, update_ne s.heap p q none ne ∙ h, same)
        ];
    known = λ q d e. elim (update-cases s.heap p q none d e) [
      | inl (pq, cd) ↦ absurd (cc cd)
      | inr (ne, h) ↦ elim (Bool-cases (c.sock == d.sock)) [
        | inl b ↦
            let pq : p ≡ q = cc (
              v.known p c live,
              v.known q d h,
              ap (λ j. lookup j s.connections) (==_true c.sock d.sock b),
            ) in
            absurd (ne pq)
        | inr b ↦ lookup-erase d.sock c.sock s.connections ∙ rw b (v.known q d h)
      ]
    ];
    callbacks = λ q d e. elim (update-cases s.heap p q none d e) [
      | inl (pq, cd) ↦ absurd (cc cd)
      | inr (ne, h) ↦ v.callbacks q d h
    ];
    fresh = λ q h. elim (Bool-cases (p == q)) [ inl b ↦ rw b refl | inr b ↦ rw b (v.fresh q h) ];
    alive = λ j q e.
        let e' = sym (lookup-erase j c.sock s.connections) ∙ e in
        elim (Bool-cases (c.sock == j)) [
          | inl b ↦ absurd (cc (rw b at e'))
          | inr b ↦ keeps j (λ x. ==_false c.sock j b (sym x)) (v.alive j q (rw b at e'))
        ];
  }
