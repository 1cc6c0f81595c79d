-- ===== src/Reactor/Server/Recv.antt =====
-- `Recver` on a connection that stays open: what it reads, cuts and hands to the handler.
use learn_in_linux.Common.{
  ℕ, zero, suc, ◌≤◌, ◌≡◌, ◌⊎◌, ◌≢◌, refl, ◌∙◌, false, some, List, [], ◌∷◌, ◌++◌, append_assoc,
  append-nil, map, flatten, Bytes, Result, ok, fault, Fault, ◌>>=◌, arith, inl, inr,
}
use learn_in_linux.Text.{c_str}
use learn_in_linux.Reactor.Os.{Os, Errno, Received}
use learn_in_linux.Reactor.Protocol.Framing.{IsCut, splite_message_lem}
use learn_in_linux.Reactor.Server.{Connection, Server, store, recv_loop, recver, for_each}
use learn_in_linux.Reactor.Server.Heap.{deref_live, update_ne, update_self}

-- The kernel hands over the chunks one by one, perhaps interrupted, and then has nothing more.
pub data Delivers {K : Type 0} (os : Os K) (sock : ℕ) : K → List Bytes → K → Type 0 where
  pause :
      {k k' : K} (e : Errno)
      → (e ≡ Errno.again) ⊎ (e ≡ Errno.would_block)
      → (os.recv sock 1023 k).0 ≡ Received.not_received e
      → (os.recv sock 1023 k).1 ≡ k'
      → Delivers os sock k [] k'
  retry :
      {k k1 k' : K} {chunks : List Bytes}
      → (os.recv sock 1023 k).0 ≡ Received.not_received Errno.interrupted
      → (os.recv sock 1023 k).1 ≡ k1
      → Delivers os sock k1 chunks k'
      → Delivers os sock k chunks k'
  chunk :
      {k k1 k' : K} {chunks : List Bytes} (b : ℕ) (bs : Bytes)
      → (os.recv sock 1023 k).0 ≡ Received.received (b ∷ bs)
      → (os.recv sock 1023 k).1 ≡ k1
      → Delivers os sock k1 chunks k'
      → Delivers os sock k ((b ∷ bs) ∷ chunks) k'

-- How many calls of `recv` that takes.
abbrev pub calls :
    {K : Type 0} {os : Os K} {sock : ℕ} {k k' : K} {chunks : List Bytes}
    → Delivers os sock k chunks k'
    → ℕ
calls (pause e o h n) = 1
calls (retry h n d) = suc (calls d)
calls (chunk b bs h n d) = suc (calls d)

-- `t` is `s` but for the connection at `p`, which is `c`, and for the kernel, which is `k`.
pub record Changes {K : Type 0} (s t : Server K) (p : ℕ) (c : Connection) (k : K) : Type 0 where
  pub here : t.heap p ≡ some c
  pub elsewhere : (q : ℕ) → p ≢ q → t.heap q ≡ s.heap q
  pub table : t.connections ≡ s.connections
  pub later : t.next ≡ s.next
  pub epoll : t.epfd ≡ s.epfd
  pub listens : t.listensock ≡ s.listensock
  pub ports : t.port ≡ s.port
  pub revs : t.revs_num ≡ s.revs_num
  pub kernel : t.kernel ≡ k

-- The handler is called once for each message, in this order, each time on what the call before it left, up
-- to a call that ends in a fault; `r` is what comes of that.
pub data Handled {K : Type 0} (cb : ℕ → Bytes → Server K → Result (Server K)) (p : ℕ)
    : List Bytes → Server K → Result (Server K) → Type 0 where
  all_done : {s : Server K} → Handled cb p [] s (ok s)
  one_more :
      {s t : Server K} {msg : Bytes} {msgs : List Bytes} {r : Result (Server K)}
      → cb p msg s ≡ ok t
      → Handled cb p msgs t r
      → Handled cb p (msg ∷ msgs) s r
  breaks :
      {s : Server K} {msg : Bytes} {msgs : List Bytes} (e : Fault)
      → cb p msg s ≡ fault e
      → Handled cb p (msg ∷ msgs) s (fault e)

for_each-Handled :
    {K : Type 0} (os : Os K) (cb : ℕ → Bytes → Server K → Result (Server K)) (p : ℕ)
    (msgs : List Bytes) (s : Server K)
    → Handled cb p msgs s (for_each os cb p msgs s)
unfolding for_each
for_each-Handled os cb p [] s = all_done
for_each-Handled os cb p (msg ∷ msgs) s = by_call (cb p msg s) refl (for_each-Handled os cb p msgs)
  where
    by_call :
        (r : Result (Server _))
        → cb p msg s ≡ r
        → ((t : Server _) → Handled cb p msgs t (for_each os cb p msgs t))
        → Handled cb p (msg ∷ msgs) s (r >>= for_each os cb p msgs)
    by_call (ok t) e rest = one_more e (rest t)
    by_call (fault x) e rest = breaks x e

module _ {K : Type 0} (os : Os K) (fuel p : ℕ) (s : Server K) (c : Connection)
    (live : s.heap p ≡ some c) where
  abbrev answer : Received × K
  answer = os.recv c.sock 1023 s.kernel

  abbrev behind : Server K
  behind = record s { kernel = answer.1 }

  recv_pause :
      (e : Errno)
      → (e ≡ Errno.again) ⊎ (e ≡ Errno.would_block)
      → answer.0 ≡ Received.not_received e
      → recv_loop os (suc fuel) p s ≡ ok (false, behind)
  unfolding recv_loop
  recv_pause e (inl o) h = rw (deref_live p s c live, h, o)
  recv_pause e (inr o) h = rw (deref_live p s c live, h, o)

  recv_retry :
      answer.0 ≡ Received.not_received Errno.interrupted
      → recv_loop os (suc fuel) p s ≡ recv_loop os fuel p behind
  unfolding recv_loop
  recv_retry h = rw (deref_live p s c live, h)

  recv_chunk :
      (b : ℕ) (bs : Bytes)
      → answer.0 ≡ Received.received (b ∷ bs)
      → recv_loop os (suc fuel) p s
        ≡ recv_loop os fuel p
            (store p (record c { inbuffer = c.inbuffer ++ c_str (b ∷ bs) }) behind)
  unfolding recv_loop
  recv_chunk b bs h = rw (deref_live p s c live, h)

recv_loop_delivers :
    {K : Type 0} (os : Os K) (fuel p sock : ℕ) (s : Server K) (c : Connection) {chunks : List Bytes}
    {k0 k : K}
    → s.heap p ≡ some c
    → c.sock ≡ sock
    → s.kernel ≡ k0
    → (d : Delivers os sock k0 chunks k) → calls d ≤ fuel
    → (t : Server K) × (recv_loop os fuel p s ≡ ok (false, t))
      × Changes s t p (record c { inbuffer = c.inbuffer ++ flatten (map c_str chunks) }) k
recv_loop_delivers os zero p sock s c live es ek (pause e o h n) l = absurd (omega arith)
recv_loop_delivers os zero p sock s c live es ek (retry h n d) l = absurd (omega arith)
recv_loop_delivers os zero p sock s c live es ek (chunk b bs h n d) l = absurd (omega arith)
recv_loop_delivers os (suc fuel) p sock s c live es ek (pause e o h n) l = (
  record s { kernel = (os.recv c.sock 1023 s.kernel).1 },
  recv_pause os fuel p s c live e o (rw (es, ek) h),
  record {
    here = rw append-nil live;
    elsewhere = λ q ne. refl;
    table = refl;
    later = refl;
    epoll = refl;
    listens = refl;
    ports = refl;
    revs = refl;
    kernel = rw (es, ek) n;
  },
)
recv_loop_delivers os (suc fuel) p sock s c live es ek (retry h n d) l =
    let (t, e, g) =
      recv_loop_delivers os fuel p sock (record s { kernel = (os.recv c.sock 1023 s.kernel).1 }) c
        live es (rw (es, ek) n) d (omega arith) in
    (
      t,
      recv_retry os fuel p s c live (rw (es, ek) h) ∙ e,
      record {
        here = g.here;
        elsewhere = g.elsewhere;
        table = g.table;
        later = g.later;
        epoll = g.epoll;
        listens = g.listens;
        ports = g.ports;
        revs = g.revs;
        kernel = g.kernel;
      },
    )
recv_loop_delivers os (suc fuel) p sock s c live es ek (chunk b bs h n d) l =
    let c' : Connection = record c { inbuffer = c.inbuffer ++ c_str (b ∷ bs) } in
    let s' : Server _ = store p c' (record s { kernel = (os.recv c.sock 1023 s.kernel).1 }) in
    let (t, e, g) =
      recv_loop_delivers os fuel p sock s' c' (ground arith) es (rw (es, ek) n) d (omega arith) in
    (
      t,
      recv_chunk os fuel p s c live b bs (rw (es, ek) h) ∙ e,
      record {
        here = rw append_assoc at g.here;
        elsewhere = λ q ne. g.elsewhere q ne ∙ update_ne s.heap p q (some c') ne;
        table = g.table;
        later = g.later;
        epoll = g.epoll;
        listens = g.listens;
        ports = g.ports;
        revs = g.revs;
        kernel = g.kernel;
      },
    )

-- On a connection whose kernel delivers the chunks and then pauses, with fuel for the calls of
-- `recv`, `Recver` comes to its handler: the old input buffer and the chunks (each up to a NUL) are cut
-- into messages and a rest, the rest is what stays in the buffer, and the handler is called once for each
-- message, in order, first on a server that is otherwise unchanged, up to a call that ends in a fault.
pub recver_delivers :
    {K : Type 0} (os : Os K) (cb : ℕ → Bytes → Server K → Result (Server K)) (fuel p : ℕ)
    (s : Server K) (c : Connection) (k0 : K) {chunks : List Bytes} {k : K}
    → s.heap p ≡ some c
    → s.kernel ≡ k0
    → (d : Delivers os c.sock k0 chunks k) → calls d ≤ fuel
    → (messages : List Bytes) × (rest : Bytes) × (t : Server K) × IsCut
        (c.inbuffer ++ flatten (map c_str chunks))
        messages
        rest
      × Changes s t p (record c { inbuffer = rest }) k
      × Handled cb p messages t (recver os cb fuel p s)
unfolding recver
recver_delivers os cb fuel p s c k0 {chunks} live ek d l =
    let (t, e, g) = recv_loop_delivers os fuel p c.sock s c live refl ek d l in
    let (messages, rest, f, cut) =
      splite_message_lem (c.inbuffer ++ flatten (map c_str chunks)) [] in
    (
      messages,
      rest,
      store p (record c { inbuffer = rest }) t,
      cut,
      record {
        here = update_self t.heap p _;
        elsewhere = λ q ne. update_ne t.heap p q _ ne ∙ g.elsewhere q ne;
        table = g.table;
        later = g.later;
        epoll = g.epoll;
        listens = g.listens;
        ports = g.ports;
        revs = g.revs;
        kernel = g.kernel;
      },
      rw (e, deref_live p t _ g.here, f) (for_each-Handled os cb p messages _),
    )
