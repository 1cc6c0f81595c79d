-- ===== src/EarlyReactor/Entries.antt =====
-- The table of connections: what an entry is to be, and what Accepter does to the table.
use learn_in_linux.Common.{
  ℕ, zero, suc, ◌≤◌, ◌<◌, ◌≡◌, refl, sym, ◌∙◌, Bool, true, false, Option, some, List, [], ◌∷◌, All,
  ◌==◌, ==_true, ok, Bool-cases, Option-cases, inl, inr, arith,
}
use mathlib.Core.Path.{subst}
use Prim.Native.Nat.{bit_or}
use learn_in_linux.Reactor.Os.{Os, Errno, Events, Ctl, Accepted}
use learn_in_linux.Reactor.Sock.{accept, set_non_block}
use learn_in_linux.EarlyReactor.{
  Callback, to_accepter, to_recver, to_sender, to_excepter, Connection, EarlyReactor, lookup,
  insert, add_sock_to_epoll, only_input, add_connection, accepter,
}

-- The callbacks of an entry: the listening socket accepts, and no other.
abbrev pub accepts : Option Callback → Bool
accepts (some to_accepter) = true
accepts _ = false

abbrev pub IsEntry : ℕ → ℕ × Connection → Type 0
IsEntry listensock (sock, conn) =
    (conn.sock ≡ sock)
    × (accepts conn.recv_cb ≡ true → sock ≡ listensock)
    × (accepts conn.send_cb ≡ false)

-- An accept that gave a client, or was interrupted: the loop goes on.
abbrev pub GoesOn : Accepted → Type 0
GoesOn (Accepted.accepted sock ip port) = Unit
GoesOn (Accepted.not_accepted Errno.interrupted) = Unit
GoesOn (Accepted.not_accepted e) = ⊥

-- The clients that wait, and the interruptions that come, while the server accepts: a bound that each
-- such call of `accept` lowers and that no other call of the server raises but `epoll_wait`, never above `limit`.
pub record Laws {K : Type 0} (os : Os K) (waiting : K → ℕ) (limit : ℕ) : Type 0 where
  pub bounded : (k : K) → waiting k ≤ limit
  pub accept_less :
      (sock : ℕ) (k : K) → GoesOn (os.accept sock k).0 → waiting (os.accept sock k).1 < waiting k
  pub get_flags_keeps : (sock : ℕ) (k : K) → waiting (os.get_flags sock k).1 ≤ waiting k
  pub set_flags_keeps : (sock flags : ℕ) (k : K) → waiting (os.set_flags sock flags k) ≤ waiting k
  pub add_keeps :
      (epfd sock : ℕ) (events : Events) (k : K)
      → waiting (os.epoll_ctl epfd Ctl.add sock (some events) k).1 ≤ waiting k

lookup-IsEntry :
    (l sock : ℕ) (conn : Connection) (m : List (ℕ × Connection))
    → lookup sock m ≡ some conn
    → All (IsEntry l) m
    → IsEntry l (sock, conn)
unfolding lookup
lookup-IsEntry l sock conn [] e h = absurd (cc e)
lookup-IsEntry l sock conn ((s, c) ∷ m) e (here, h) = elim (Bool-cases (s == sock)) [
  | inl q ↦
      let same : c ≡ conn = cc (rw q at e) in
      subst (λ x. IsEntry l (sock, x)) same (subst (λ x. IsEntry l (x, c)) (==_true s sock q) here)
  | inr q ↦ lookup-IsEntry l sock conn m (rw q at e) h
]

insert-IsEntry :
    (l sock : ℕ) (conn : Connection) (m : List (ℕ × Connection))
    → IsEntry l (sock, conn)
    → All (IsEntry l) m
    → All (IsEntry l) (insert sock conn m)
unfolding insert
insert-IsEntry l sock conn m new h = elim (Option-cases (lookup sock m)) [
  | inl e ↦ rw (insert, e) (new, h)
  | inr (old, e) ↦ rw (insert, e) h
]

module _ {K : Type 0} {os : Os K} {waiting : K → ℕ} {limit : ℕ} (laws : Laws os waiting limit) where
  -- The server after a call: the same sockets, and every entry as it should be.
  pub record Keeps (s t : EarlyReactor K) : Type 0 where
    pub same_listensock : t.listensock ≡ s.listensock
    pub entries : All (IsEntry t.listensock) t.connections

  set_non_block-waiting : (sock : ℕ) (k : K) → waiting (set_non_block os sock k).1 ≤ waiting k
  unfolding set_non_block
  set_non_block-waiting sock k = elim (Option-cases (os.get_flags sock k).0) [
    | inl e ↦ rw (set_non_block, e) (laws.get_flags_keeps sock k)
    | inr (flags, e) ↦
        rw (set_non_block, e)
          (let k1 = (os.get_flags sock k).1 in
            omega (
              arith,
              laws.set_flags_keeps sock (bit_or flags 2048) k1,
              laws.get_flags_keeps sock k,
            ))
  ]

  -- A client is put under its own socket, with callbacks that do not accept.
  add_client-waiting :
      (sock : ℕ) (s : EarlyReactor K)
      → waiting
          (add_connection os sock (some to_recver) (some to_sender) (some to_excepter) s).kernel
        ≤ waiting s.kernel
  unfolding add_connection add_sock_to_epoll
  add_client-waiting sock s = omega (
    arith,
    set_non_block-waiting sock s.kernel,
    laws.add_keeps s.epfd sock only_input (set_non_block os sock s.kernel).1,
  )

  add_client-Keeps :
      (sock : ℕ) (s : EarlyReactor K)
      → All (IsEntry s.listensock) s.connections
      → Keeps s (add_connection os sock (some to_recver) (some to_sender) (some to_excepter) s)
  unfolding add_connection
  add_client-Keeps sock s entries = record {
    same_listensock = refl;
    entries =
        insert-IsEntry s.listensock sock _ s.connections (refl, (λ h. absurd (cc h)), refl) entries;
  }

  pub Keeps-trans : {s t u : EarlyReactor K} → Keeps s t → Keeps t u → Keeps s u
  Keeps-trans v w = record {
    same_listensock = w.same_listensock ∙ v.same_listensock;
    entries = w.entries;
  }

  pub accepter_lem :
      (fuel : ℕ) (conn : Connection) (s : EarlyReactor K)
      → waiting s.kernel < fuel
      → All (IsEntry s.listensock) s.connections
      → (t : EarlyReactor K) × (accepter os fuel conn s ≡ ok t) × Keeps s t
  unfolding accepter accept
  accepter_lem zero conn s h entries = absurd (omega arith)
  accepter_lem (suc fuel) conn s h entries =
      by_answer (os.accept conn.sock s.kernel).0 refl (accepter_lem fuel conn)
    where
      s1 : EarlyReactor K
      s1 = record s { kernel = (os.accept conn.sock s.kernel).1 }

      goes_on :
          (r : Accepted)
          → (os.accept conn.sock s.kernel).0 ≡ r
          → GoesOn r
          → waiting s1.kernel < waiting s.kernel
      goes_on r e g = laws.accept_less conn.sock s.kernel (subst GoesOn (sym e) g)

      stops : Keeps s s1
      stops = record { same_listensock = refl; entries = entries }

      Runs : Type 0
      Runs = (t : EarlyReactor K) × (accepter os (suc fuel) conn s ≡ ok t) × Keeps s t

      by_answer :
          (r : Accepted)
          → (os.accept conn.sock s.kernel).0 ≡ r
          → ((s' : EarlyReactor K)
              → waiting s'.kernel < fuel
              → All (IsEntry s'.listensock) s'.connections
              → (t : EarlyReactor K) × (accepter os fuel conn s' ≡ ok t) × Keeps s' t)
          → Runs
      by_answer (Accepted.accepted sock ip port) e more =
          let s2 = add_connection os sock (some to_recver) (some to_sender) (some to_excepter) s1 in
          let added = Keeps-trans stops (add_client-Keeps sock s1 entries) in
          let (t, run, v) =
            more s2
              (omega
                (arith, add_client-waiting sock s1, goes_on (Accepted.accepted sock ip port) e tt))
              added.entries in
          (t, rw (accepter, accept, e) run, Keeps-trans added v)
      by_answer (Accepted.not_accepted Errno.interrupted) e more =
          let (t, run, v) =
            more s1 (omega (arith, goes_on (Accepted.not_accepted Errno.interrupted) e tt))
              entries in
          (t, rw (accepter, accept, e) run, Keeps-trans stops v)
      by_answer (Accepted.not_accepted Errno.again) e more =
          (s1, rw (accepter, accept, e) refl, stops)
      by_answer (Accepted.not_accepted Errno.would_block) e more =
          (s1, rw (accepter, accept, e) refl, stops)
      by_answer (Accepted.not_accepted (Errno.other n)) e more =
          (s1, rw (accepter, accept, e) refl, stops)
