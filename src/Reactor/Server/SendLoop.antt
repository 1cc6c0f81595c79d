-- ===== src/Reactor/Server/SendLoop.antt =====
-- The loop of `Sender`: what the calls of `send` take, and where the loop ends.
use learn_in_linux.Common.{
  ℕ, zero, suc, ◌≤◌, ◌≡◌, ◌⊎◌, refl, sym, ap, ◌∙◌, true, some, [], ◌∷◌, ◌++◌, append_assoc,
  append-nil, Bytes, ok, arith, inl, inr, ltb, take, drop, take-append-drop,
}
use learn_in_linux.Reactor.Os.{Os, Errno, Sent}
use learn_in_linux.Reactor.Server.{Connection, Server, store, send_loop}
use learn_in_linux.Reactor.Server.Heap.{deref_live, update_ne, update_self}
use learn_in_linux.Reactor.Server.Recv.{Changes}

-- Calls of `send` take `taken` from the front of the buffer and leave `rest`, perhaps interrupted: they
-- take all, or stop where the kernel takes no more.
pub data Takes {K : Type 0} (os : Os K) (sock : ℕ) : Bytes → K → Bytes → Bytes → K → Type 0 where
  all :
      {k k' : K} (buf : Bytes) (n : ℕ)
      → (os.send sock buf k).0.count ≡ suc n
      → drop (suc n) buf ≡ []
      → (os.send sock buf k).1 ≡ k'
      → Takes os sock buf k buf [] k'
  part :
      {k k1 k' : K} {taken rest : Bytes} (buf : Bytes) (n b : ℕ) (bs : Bytes)
      → (os.send sock buf k).0.count ≡ suc n
      → drop (suc n) buf ≡ b ∷ bs
      → (os.send sock buf k).1 ≡ k1
      → Takes os sock (b ∷ bs) k1 taken rest k'
      → Takes os sock buf k (take (suc n) buf ++ taken) rest k'
  pause :
      {k k' : K} (buf : Bytes) (e : Errno)
      → (os.send sock buf k).0 ≡ record { count = 0; errno = e }
      → (e ≡ Errno.again) ⊎ (e ≡ Errno.would_block)
      → (os.send sock buf k).1 ≡ k'
      → Takes os sock buf k [] buf k'
  retry :
      {k k1 k' : K} {taken rest : Bytes} (buf : Bytes)
      → (os.send sock buf k).0 ≡ record { count = 0; errno = Errno.interrupted }
      → (os.send sock buf k).1 ≡ k1
      → Takes os sock buf k1 taken rest k'
      → Takes os sock buf k taken rest k'

abbrev pub calls :
    {K : Type 0} {os : Os K} {sock : ℕ} {buf taken rest : Bytes} {k k' : K}
    → Takes os sock buf k taken rest k'
    → ℕ
calls (all buf n h z w) = 1
calls (part buf n b bs h z w d) = suc (calls d)
calls (pause buf e h o w) = 1
calls (retry buf h w d) = suc (calls d)

pub Takes-append :
    {K : Type 0} {os : Os K} {sock : ℕ} {buf taken rest : Bytes} {k k' : K}
    → Takes os sock buf k taken rest k'
    → taken ++ rest ≡ buf
Takes-append (all buf n h z w) = append-nil buf
Takes-append (part {taken} {rest} buf n b bs h z w d) =
    append_assoc (take (suc n) buf) taken rest
    ∙ ap (λ r. take (suc n) buf ++ r) (Takes-append d ∙ sym z)
    ∙ take-append-drop (suc n) buf
Takes-append (pause buf e h o w) = refl
Takes-append (retry buf h w d) = Takes-append d

module _ {K : Type 0} (os : Os K) (fuel p : ℕ) (s : Server K) (c : Connection)
    (live : s.heap p ≡ some c) where
  abbrev answer : Sent × K
  answer = os.send c.sock c.outbuffer s.kernel

  abbrev behind : Server K
  behind = record s { kernel = answer.1 }

  abbrev cut_to : Bytes → Server K
  cut_to rest = store p (record c { outbuffer = rest }) behind

  send_all :
      (n : ℕ)
      → answer.0.count ≡ suc n
      → drop (suc n) c.outbuffer ≡ []
      → send_loop os (suc fuel) p s ≡ ok (cut_to [])
  unfolding send_loop
  send_all n h z =
      let took : ltb 0 answer.0.count ≡ true = ground arith in
      let left : drop answer.0.count c.outbuffer ≡ [] = rw h z in
      rw (deref_live p s c live, took, left) (ap (λ r. ok (cut_to r)) left)

  send_part :
      (n b : ℕ) (bs : Bytes)
      → answer.0.count ≡ suc n
      → drop (suc n) c.outbuffer ≡ b ∷ bs
      → send_loop os (suc fuel) p s ≡ send_loop os fuel p (cut_to (b ∷ bs))
  unfolding send_loop
  send_part n b bs h z =
      let took : ltb 0 answer.0.count ≡ true = ground arith in
      let left : drop answer.0.count c.outbuffer ≡ b ∷ bs = rw h z in
      rw (deref_live p s c live, took, left) (ap (λ r. send_loop os fuel p (cut_to r)) left)

  send_pause :
      (e : Errno)
      → (e ≡ Errno.again) ⊎ (e ≡ Errno.would_block)
      → answer.0 ≡ record { count = 0; errno = e }
      → send_loop os (suc fuel) p s ≡ ok behind
  unfolding send_loop
  send_pause e (inl o) h = rw (deref_live p s c live, h, o)
  send_pause e (inr o) h = rw (deref_live p s c live, h, o)

  send_retry :
      answer.0 ≡ record { count = 0; errno = Errno.interrupted }
      → send_loop os (suc fuel) p s ≡ send_loop os fuel p behind
  unfolding send_loop
  send_retry h = rw (deref_live p s c live, h)

pub send_loop_takes :
    {K : Type 0} (os : Os K) (fuel p sock : ℕ) (s : Server K) (c : Connection)
    {buf taken rest : Bytes} {k0 k : K}
    → s.heap p ≡ some c
    → c.sock ≡ sock
    → c.outbuffer ≡ buf
    → s.kernel ≡ k0
    → (d : Takes os sock buf k0 taken rest k) → calls d ≤ fuel
    → (t : Server K) × (send_loop os fuel p s ≡ ok t)
      × Changes s t p (record c { outbuffer = rest }) k
send_loop_takes os zero p sock s c live es eb ek (all buf n h z w) l = absurd (omega arith)
send_loop_takes os zero p sock s c live es eb ek (part buf n b bs h z w d) l = absurd (omega arith)
send_loop_takes os zero p sock s c live es eb ek (pause buf e h o w) l = absurd (omega arith)
send_loop_takes os zero p sock s c live es eb ek (retry buf h w d) l = absurd (omega arith)
send_loop_takes os (suc fuel) p sock s c live es eb ek (all buf n h z w) l = (
  _,
  send_all os fuel p s c live n (rw (es, eb, ek) h) (rw eb z),
  record {
    here = update_self s.heap p _;
    elsewhere = λ q ne. update_ne s.heap p q _ ne;
    table = refl;
    later = refl;
    epoll = refl;
    listens = refl;
    ports = refl;
    revs = refl;
    kernel = rw (es, eb, ek) w;
  },
)
send_loop_takes os (suc fuel) p sock s c live es eb ek (part buf n b bs h z w d) l =
    let c' : Connection = record c { outbuffer = b ∷ bs } in
    let s' : Server _ =
      store p c' (record s { kernel = (os.send c.sock c.outbuffer s.kernel).1 }) in
    let (t, e, g) =
      send_loop_takes os fuel p sock s' c' (update_self s.heap p _) es refl (rw (es, eb, ek) w) d
        (omega arith) in
    (
      t,
      send_part os fuel p s c live n b bs (rw (es, eb, ek) h) (rw eb z) ∙ e,
      record {
        here = g.here;
        elsewhere = λ q ne. g.elsewhere q ne ∙ update_ne s.heap p q (some c') ne;
        table = g.table;
        later = g.later;
        epoll = g.epoll;
        listens = g.listens;
        ports = g.ports;
        revs = g.revs;
        kernel = g.kernel;
      },
    )
send_loop_takes os (suc fuel) p sock s c live es eb ek (pause buf e h o w) l = (
  _,
  send_pause os fuel p s c live e o (rw (es, eb, ek) h),
  record {
    here = live ∙ ap (λ b. some (record c { outbuffer = b })) eb;
    elsewhere = λ q ne. refl;
    table = refl;
    later = refl;
    epoll = refl;
    listens = refl;
    ports = refl;
    revs = refl;
    kernel = rw (es, eb, ek) w;
  },
)
send_loop_takes os (suc fuel) p sock s c live es eb ek (retry buf h w d) l =
    let (t, e, g) =
      send_loop_takes os fuel p sock (record s { kernel = (os.send c.sock c.outbuffer s.kernel).1 })
        c live es eb (rw (es, eb, ek) w) d (omega arith) in
    (
      t,
      send_retry os fuel p s c live (rw (es, eb, ek) h) ∙ e,
      record {
        here = g.here;
        elsewhere = g.elsewhere;
        table = g.table;
        later = g.later;
        epoll = g.epoll;
        listens = g.listens;
        ports = g.ports;
        revs = g.revs;
        kernel = g.kernel;
      },
    )
