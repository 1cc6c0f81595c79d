-- ===== src/Wire.antt =====
-- What the services rely on of one client's socket, and what a client gets: shared by the servers that
-- serve a client with calls that wait.
pub mod Talk
use learn_in_linux.Common.{
  ℕ, suc, ◌≡◌, ◌≢◌, refl, sym, ap, ◌∙◌, ◌⊎◌, inl, inr, List, [], ◌∷◌, ◌++◌, append-nil, Bytes, All,
}
use mathlib.Core.Path.{subst}
use learn_in_linux.Reactor.Os.{Os, Errno, Received}

-- The end of the stream, or an error.
abbrev pub IsEnd : Received → Type 0
IsEnd (Received.received []) = Unit
IsEnd (Received.received (b ∷ bs)) = ⊥
IsEnd (Received.not_received e) = Unit

abbrev pub rest : List Bytes → List Bytes
rest [] = []
rest (c ∷ cs) = cs

-- What the documentation says on a stream socket that waits, in terms of the chunks that the calls of
-- `recv` are going to deliver before the stream ends, of the bytes that were taken for sending, and of the number of times
-- that the socket was closed. A `send` that waits takes every byte.
pub record Wire {K : Type 0} (os : Os K) (room sock : ℕ) (pending : K → List Bytes)
    (written : K → Bytes) (closes : K → ℕ) : Type 0 where
  pub some_bytes : (k : K) → All (λ c. c ≢ []) (pending k)
  pub recv_chunk :
      (k : K) (c : Bytes) (cs : List Bytes)
      → pending k ≡ c ∷ cs
      → (os.recv sock room k).0 ≡ Received.received c
  pub recv_end : (k : K) → pending k ≡ [] → IsEnd (os.recv sock room k).0
  pub recv_pending : (k : K) → pending (os.recv sock room k).1 ≡ rest (pending k)
  pub recv_written : (k : K) → written (os.recv sock room k).1 ≡ written k
  pub recv_closes : (k : K) → closes (os.recv sock room k).1 ≡ closes k
  pub send_pending : (bytes : Bytes) (k : K) → pending (os.send sock bytes k).1 ≡ pending k
  pub send_written : (bytes : Bytes) (k : K) → written (os.send sock bytes k).1 ≡ written k ++ bytes
  pub send_closes : (bytes : Bytes) (k : K) → closes (os.send sock bytes k).1 ≡ closes k
  pub close_written : (k : K) → written (os.close sock k) ≡ written k
  pub close_closes : (k : K) → closes (os.close sock k) ≡ suc (closes k)

pub IsEnd-cases :
    (r : Received)
    → IsEnd r
    → (r ≡ Received.received []) ⊎ ((e : Errno) × (r ≡ Received.not_received e))
IsEnd-cases (Received.received []) h = inl refl
IsEnd-cases (Received.received (b ∷ bs)) h = absurd h
IsEnd-cases (Received.not_received e) h = inr (e, refl)

module _ {K : Type 0} {os : Os K} {room sock : ℕ} {pending : K → List Bytes} {written : K → Bytes}
    {closes : K → ℕ} (wire : Wire os room sock pending written closes) where
  -- A client that was sent `reply`, and whose socket was closed once.
  abbrev pub Served : K → Bytes → K → Type 0
  Served k reply k' = (written k' ≡ written k ++ reply) × (closes k' ≡ suc (closes k))

  -- A read and a close.
  pub closed-Served : (k : K) → Served k [] (os.close sock (os.recv sock room k).1)
  closed-Served k = (
    wire.close_written (os.recv sock room k).1 ∙ wire.recv_written k ∙ sym (append-nil (written k)),
    wire.close_closes (os.recv sock room k).1 ∙ ap suc (wire.recv_closes k),
  )

  -- A read, a write and a close.
  pub answered-Served :
      (k : K) (reply : Bytes)
      → Served k reply (os.close sock (os.send sock reply (os.recv sock room k).1).1)
  answered-Served k reply =
      let k1 = (os.recv sock room k).1 in
      let k2 = (os.send sock reply k1).1 in
      (
        wire.close_written k2
            ∙ wire.send_written reply k1
            ∙ ap (λ w. w ++ reply) (wire.recv_written k),
        wire.close_closes k2 ∙ ap suc (wire.send_closes reply k1 ∙ wire.recv_closes k),
      )

  -- What a call of `recv` gives: the end, or the next chunk.
  pub next_read :
      (k : K)
      → ((pending k ≡ []) × IsEnd (os.recv sock room k).0)
        ⊎ ((b : ℕ) × (bs : Bytes) × (cs : List Bytes) × (pending k ≡ (b ∷ bs) ∷ cs)
            × ((os.recv sock room k).0 ≡ Received.received (b ∷ bs)))
  next_read k = by_pending (pending k) refl
    where
      by_pending :
          (p : List Bytes)
          → pending k ≡ p
          → ((pending k ≡ []) × IsEnd (os.recv sock room k).0)
            ⊎ ((b : ℕ) × (bs : Bytes) × (cs : List Bytes) × (pending k ≡ (b ∷ bs) ∷ cs)
                × ((os.recv sock room k).0 ≡ Received.received (b ∷ bs)))
      by_pending [] e = inl (e, wire.recv_end k e)
      by_pending ((b ∷ bs) ∷ cs) e = inr (b, bs, cs, e, wire.recv_chunk k (b ∷ bs) cs e)
      by_pending ([] ∷ cs) e = absurd ((subst (All (λ c. c ≢ [])) e (wire.some_bytes k)).0 refl)
