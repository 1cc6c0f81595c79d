-- ===== src/UpperServer/Replies.antt =====
-- What a client of the server gets: its text in upper case, and with it what else the buffer holds.
use learn_in_linux.Common.{
  ℕ, zero, suc, ◌≤◌, ◌<◌, ◌≡◌, refl, sym, ap, ◌∙◌, List, [], ◌∷◌, ◌++◌, map, append-nil,
  append_assoc, Bytes, All, length, drop, length-append, length-drop, ok, if◌then◌else◌, Bool-cases,
  inl, inr, arith,
}
use mathlib.Core.Path.{subst}
use learn_in_linux.Text.{codes, c_str}
use learn_in_linux.Text.Case.{upper, is_lower_ascii, to_upper-upper}
use learn_in_linux.Reactor.Os.{Os}
use learn_in_linux.Wire.{IsEnd-cases, rest, Wire, Served, next_read}
use learn_in_linux.UpperServer.{
  buffer_size, room, same_ignoring_case, fill, trans, serve_loop, transervice,
}

-- The message in upper case, a NUL, and then what the array held there before.
abbrev pub reply : Bytes → Bytes → Bytes
reply inbuffer c = map upper c ++ 0 ∷ drop (suc (length c)) inbuffer

-- The replies to the chunks, up to one that says quit; each reply is the array for the next.
unfoldable pub replies : Bytes → List Bytes → Bytes
replies inbuffer [] = []
replies inbuffer (c ∷ cs) =
    let more = replies (reply inbuffer c) cs in
    if same_ignoring_case (c_str c) (codes "quit") then [] else reply inbuffer c ++ more

trans-upper :
    (c after : Bytes)
    → All (λ b. b < 128) c
    → trans (length c) (c ++ after) ≡ ok (map upper c ++ after)
unfolding trans
trans-upper [] after h = refl
trans-upper (b ∷ c) after (small, h) =
    rw (trans, is_lower_ascii b small, trans-upper c after h, to_upper-upper b) refl

trans-fill :
    (c inbuffer : Bytes)
    → All (λ b. b < 128) c
    → trans (length c) (fill c inbuffer) ≡ ok (reply inbuffer c)
unfolding fill
trans-fill c inbuffer h = trans-upper c (0 ∷ drop (suc (length c)) inbuffer) h

-- Every reply is as long as the array.
length-map : (f : ℕ → ℕ) (s : Bytes) → length (map f s) ≡ length s
length-map f [] = refl
length-map f (b ∷ s) = ap suc (length-map f s)

pub length-reply :
    (inbuffer c : Bytes)
    → length inbuffer ≡ buffer_size
    → length c ≤ room
    → length (reply inbuffer c) ≡ buffer_size
length-reply inbuffer c h small = omega (
  arith,
  length-append (map upper c) (0 ∷ drop (suc (length c)) inbuffer),
  length-map upper c,
  length-drop (suc (length c)) inbuffer,
)

module _ {K : Type 0} {os : Os K} {sock : ℕ} {pending : K → List Bytes} {written : K → Bytes}
    {closes : K → ℕ} (wire : Wire os room sock pending written closes) (memory : K → Bytes) where
  serve_loop-replies :
      (fuel : ℕ) (inbuffer : Bytes) (k : K)
      → length (pending k) < fuel
      → All (All (λ b. b < 128)) (pending k)
      → (k' : K) × (serve_loop os memory fuel sock inbuffer k ≡ ok k')
        × (written k' ≡ written k ++ replies inbuffer (pending k))
        × (closes k' ≡ closes k)
  unfolding serve_loop replies
  serve_loop-replies zero inbuffer k h ascii = absurd (omega arith)
  serve_loop-replies (suc fuel) inbuffer k h ascii = elim (next_read wire k) [
    | inl (none_left, ends) ↦ (
      (os.recv sock room k).1,
      elim (IsEnd-cases (os.recv sock room k).0 ends) [
        | inl e ↦ rw (serve_loop, e) refl
        | inr (x, e) ↦ rw (serve_loop, e) refl
      ],
      rw (none_left, replies) (wire.recv_written k ∙ sym (append-nil (written k))),
      wire.recv_closes k,
    )
    | inr (b, bs, cs, more, got) ↦
        let c : Bytes = b ∷ bs in
        elim (Bool-cases (same_ignoring_case (c_str c) (codes "quit"))) [
          | inl quits ↦ (
            (os.recv sock room k).1,
            rw (serve_loop, got, quits) refl,
            rw (more, replies, quits) (wire.recv_written k ∙ sym (append-nil (written k))),
            wire.recv_closes k,
          )
          | inr stays ↦
              let (small, others) = subst (All (All (λ b. b < 128))) more ascii in
              let k1 = (os.recv sock room k).1 in
              let after = reply inbuffer c in
              let k2 = (os.send sock after k1).1 in
              let left : pending k2 ≡ cs =
                wire.send_pending after k1 ∙ wire.recv_pending k ∙ ap rest more in
              let (k', run, said, still_open) =
                serve_loop-replies fuel after k2 (omega (arith, ap length left, ap length more))
                  (subst (All (All (λ b. b < 128))) (sym left) others) in
              (
                k',
                rw (serve_loop, got, stays, trans-fill c inbuffer small) run,
                rw (more, replies, stays)
                    (said
                      ∙ ap (λ w. w ++ replies after (pending k2))
                          (wire.send_written after k1 ∙ ap (λ w. w ++ after) (wire.recv_written k))
                      ∙ append_assoc (written k) after (replies after (pending k2))
                      ∙ ap (λ l. written k ++ (after ++ replies after l)) left),
                still_open ∙ wire.send_closes after k1 ∙ wire.recv_closes k,
              )
        ]
  ]

  -- The service ends for a client that sends ASCII, with enough rounds for what there is to read: the
  -- client has been sent, for each message up to one that says quit, the message in upper case, a NUL, and
  -- then what the array held there before, for the first message the memory that nobody has set; and
  -- the socket is closed once.
  pub transervice_lem :
      (fuel : ℕ) (k : K)
      → length (pending k) < fuel
      → All (All (λ b. b < 128)) (pending k)
      → (k' : K) × (transervice os memory fuel sock k ≡ ok k')
        × Served wire k (replies (memory k) (pending k)) k'
  unfolding transervice
  transervice_lem fuel k h ascii =
      let (k', run, said, still_open) = serve_loop-replies fuel (memory k) k h ascii in
      (
        os.close sock k',
        rw (transervice, run) refl,
        (wire.close_written k' ∙ said, wire.close_closes k' ∙ ap suc still_open),
      )
