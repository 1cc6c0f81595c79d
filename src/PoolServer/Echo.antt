-- ===== src/PoolServer/Echo.antt =====
-- What a client gets from the echo and the upper-case service, whatever it sends.
use learn_in_linux.Common.{
  ℕ, zero, suc, ◌<◌, ◌≡◌, refl, ap, ◌∙◌, inl, inr, List, [], ◌∷◌, ◌++◌, map, append_assoc, Bytes,
  All, length, flatten, ok, arith,
}
use mathlib.Core.Path.{subst}
use learn_in_linux.Text.Case.{upper, is_lower_ascii, to_upper-upper}
use learn_in_linux.Text.{c_str}
use learn_in_linux.Reactor.Os.{Os}
use learn_in_linux.PoolServer.Services.{room, change_text, service, change}
use learn_in_linux.Wire.{IsEnd-cases, rest, Wire, Served, closed-Served, answered-Served, next_read}

change_text-upper : (s : Bytes) → All (λ b. b < 128) s → change_text s ≡ ok (map upper s)
unfolding change_text
change_text-upper [] h = refl
change_text-upper (b ∷ s) (small, h) =
    rw (change_text, is_lower_ascii b small, change_text-upper s h, to_upper-upper b) refl

-- The reply to what the first call of `recv` delivers; nothing if that is the end.
abbrev pub first_reply : (Bytes → Bytes) → List Bytes → Bytes
first_reply reply [] = []
first_reply reply (c ∷ cs) = reply (c_str c)

module _ {K : Type 0} {os : Os K} {sock : ℕ} {pending : K → List Bytes} {written : K → Bytes}
    {closes : K → ℕ} (wire : Wire os room sock pending written closes) where
  -- The echo service ends, however much it has to read: with one round more than there are chunks to
  -- read, it sends each chunk back, up to its first NUL, in their order, and closes the socket once.
  pub service_lem :
      (fuel : ℕ) (k : K)
      → length (pending k) < fuel
      → (k' : K) × (service os fuel sock k ≡ ok k')
        × Served wire k (flatten (map c_str (pending k))) k'
  unfolding service
  service_lem zero k h = absurd (omega arith)
  service_lem (suc fuel) k h = elim (next_read wire k) [
    | inl (none_left, ends) ↦
        let (same, once) = closed-Served wire k in
        (
          os.close sock (os.recv sock room k).1,
          elim (IsEnd-cases (os.recv sock room k).0 ends) [
            | inl e ↦ rw (service, e) refl
            | inr (x, e) ↦ rw (service, e) refl
          ],
          (rw none_left same, once),
        )
    | inr (b, bs, cs, more, got) ↦
        let reply = c_str (b ∷ bs) in
        let k1 = (os.recv sock room k).1 in
        let k2 = (os.send sock reply k1).1 in
        let left : pending k2 ≡ cs =
          wire.send_pending reply k1 ∙ wire.recv_pending k ∙ ap rest more in
        let fewer : length (pending k2) < fuel = omega (arith, ap length left, ap length more) in
        let (k', run, (said, once)) = service_lem fuel k2 fewer in
        (
          k',
          rw (service, got) run,
          (
            said
                ∙ ap (λ w. w ++ flatten (map c_str (pending k2)))
                    (wire.send_written reply k1 ∙ ap (λ w. w ++ reply) (wire.recv_written k))
                ∙ append_assoc (written k) reply (flatten (map c_str (pending k2)))
                ∙ rw (left, more) refl,
            once ∙ ap suc (wire.send_closes reply k1 ∙ wire.recv_closes k),
          ),
        )
  ]

  -- The upper-case service ends after one call of `recv` that delivers ASCII text, or the end: it sends
  -- the text up to its first NUL with every letter in upper case, and closes the socket once.
  pub change_lem :
      (k : K)
      → All (λ c. All (λ b. b < 128) (c_str c)) (pending k)
      → (k' : K) × (change os sock k ≡ ok k')
        × Served wire k (first_reply (map upper) (pending k)) k'
  unfolding change
  change_lem k ascii = elim (next_read wire k) [
    | inl (none_left, ends) ↦
        let (same, once) = closed-Served wire k in
        (
          os.close sock (os.recv sock room k).1,
          elim (IsEnd-cases (os.recv sock room k).0 ends) [
            | inl e ↦ rw (change, e) refl
            | inr (x, e) ↦ rw (change, e) refl
          ],
          (rw none_left same, once),
        )
    | inr (b, bs, cs, more, got) ↦
        let text : All (λ b. b < 128) (c_str (b ∷ bs)) =
          (subst (All (λ c. All (λ b. b < 128) (c_str c))) more ascii).0 in
        let (said, once) = answered-Served wire k (map upper (c_str (b ∷ bs))) in
        (_, rw (change, got, change_text-upper (c_str (b ∷ bs)) text) refl, (rw more said, once))
  ]
