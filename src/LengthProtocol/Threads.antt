-- ===== src/LengthProtocol/Threads.antt =====
-- What a thread of the server does for its client.
use learn_in_linux.Common.{
  ℕ, zero, suc, ◌<◌, ◌≡◌, refl, sym, ap, ◌∙◌, true, false, List, [], ◌∷◌, ◌++◌, append-nil,
  append_assoc, Bytes, length, flatten, flatten-append, Result, ok, bind_ok, inl, inr, arith,
}
use learn_in_linux.Text.{c_str}
use learn_in_linux.Reactor.Os.{Os, Received}
use learn_in_linux.Reactor.Protocol.Request.{Request}
use learn_in_linux.Reactor.Protocol.Response as Plain
use learn_in_linux.Wire.{IsEnd, IsEnd-cases, rest, Wire, Served, next_read}
use learn_in_linux.LengthProtocol.Service.{answer_one, serve}
use learn_in_linux.LengthProtocol.Server.{
  room, recv_text, send_text, send_all, NetCalServer, bind_service, excute, thread_routine,
  calculator_loop,
}

module _ {K : Type 0} {os : Os K} {sock : ℕ} {pending : K → List Bytes} {written : K → Bytes}
    {closes : K → ℕ} (wire : Wire os room sock pending written closes) where
  recv_text_end :
      (inbuffer : Bytes) (k : K)
      → IsEnd (os.recv sock room k).0
      → recv_text os sock inbuffer k ≡ ((false, inbuffer), (os.recv sock room k).1)
  unfolding recv_text
  recv_text_end inbuffer k h = elim (IsEnd-cases (os.recv sock room k).0 h) [
    | inl e ↦ rw (recv_text, e) refl
    | inr (x, e) ↦ rw (recv_text, e) refl
  ]

  recv_text_chunk :
      (inbuffer : Bytes) (k : K) (b : ℕ) (bs : Bytes)
      → (os.recv sock room k).0 ≡ Received.received (b ∷ bs)
      → recv_text os sock inbuffer k ≡ ((true, inbuffer ++ c_str (b ∷ bs)), (os.recv sock room k).1)
  unfolding recv_text
  recv_text_chunk inbuffer k b bs e = rw (recv_text, e) refl

  -- Sending leaves what is to be read, closes nothing, and adds the texts.
  send_all_lem :
      (ss : List Bytes) (k : K)
      → (pending (send_all os sock ss k) ≡ pending k)
        × (written (send_all os sock ss k) ≡ written k ++ flatten ss)
        × (closes (send_all os sock ss k) ≡ closes k)
  unfolding send_all send_text
  send_all_lem [] k = (refl, sym (append-nil (written k)), refl)
  send_all_lem (s ∷ ss) k =
      let (p, w, c) = send_all_lem ss (os.send sock s k).1 in
      (
        p ∙ wire.send_pending s k,
        w
            ∙ ap (λ t. t ++ flatten ss) (wire.send_written s k)
            ∙ append_assoc (written k) s (flatten ss),
        c ∙ wire.send_closes s k,
      )

  module _ (read : Bytes → Result Request) (write : Request → Plain.Response → Bytes) where
    loop_round :
        (fuel : ℕ) (inbuffer : Bytes) (sent : List Bytes) (left : Bytes) (k : K) (b : ℕ)
        (bs : Bytes)
        → (os.recv sock room k).0 ≡ Received.received (b ∷ bs)
        → answer_one read write (inbuffer ++ c_str (b ∷ bs)) ≡ ok (sent, left)
        → calculator_loop os read write (suc fuel) sock inbuffer k
          ≡ calculator_loop os read write fuel sock left
              (send_all os sock sent (os.recv sock room k).1)
    unfolding calculator_loop
    loop_round fuel inbuffer sent left k b bs got answered =
        let q = recv_text_chunk inbuffer k b bs got in
        rw (calculator_loop, ap (λ r. r.0.0) q, ap (λ r. r.0.1) q, ap (λ r. r.1) q, answered) refl

    -- The loop over the socket does what `serve` does over the chunks.
    calculator_loop-serve :
        (fuel : ℕ) (inbuffer : Bytes) (k : K) (replies : List Bytes)
        → length (pending k) < fuel
        → serve read write (pending k) inbuffer ≡ ok replies
        → (k' : K) × (calculator_loop os read write fuel sock inbuffer k ≡ ok k')
          × (written k' ≡ written k ++ flatten replies)
          × (closes k' ≡ closes k)
    unfolding calculator_loop serve
    calculator_loop-serve zero inbuffer k replies h e = absurd (omega arith)
    calculator_loop-serve (suc fuel) inbuffer k replies h e = elim (next_read wire k) [
      | inl (none_left, ends) ↦
          let nothing : [] ≡ replies = cc (rw none_left at e) in
          (
            (os.recv sock room k).1,
            (let q = recv_text_end inbuffer k ends in
                rw (calculator_loop, ap (λ r. r.0.0) q) (ap (λ r. ok r.1) q)),
            wire.recv_written k
                ∙ sym (append-nil (written k))
                ∙ ap (λ r. written k ++ flatten r) nothing,
            wire.recv_closes k,
          )
      | inr (b, bs, cs, more, got) ↦
          let chunk = b ∷ bs in
          let k1 = (os.recv sock room k).1 in
          let ((sent, left), answered, later) =
            bind_ok (answer_one read write (inbuffer ++ c_str chunk)) _ replies (rw more at e) in
          let (next_replies, served, joined) = bind_ok (serve read write cs left) _ replies later in
          let (p, w, c) = send_all_lem sent k1 in
          let k2 = send_all os sock sent k1 in
          let cs_left : pending k2 ≡ cs = p ∙ wire.recv_pending k ∙ ap rest more in
          let (k', run, said, still_open) =
            calculator_loop-serve fuel left k2 next_replies
              (omega (arith, ap length cs_left, ap length more))
              (ap (λ l. serve read write l left) cs_left ∙ served) in
          let both : sent ++ next_replies ≡ replies = cc joined in
          (
            k',
            loop_round fuel inbuffer sent left k b bs got answered ∙ run,
            said
                ∙ ap (λ t. t ++ flatten next_replies)
                    (w ∙ ap (λ t. t ++ flatten sent) (wire.recv_written k))
                ∙ append_assoc (written k) (flatten sent) (flatten next_replies)
                ∙ ap (λ l. written k ++ l)
                    (sym (flatten-append sent next_replies) ∙ ap flatten both),
            still_open ∙ c ∙ wire.recv_closes k,
          )
    ]

    -- A thread whose server has calculator(sock) as its one service, and whose client's bytes, cut into
    -- any chunks, `serve` answers with `replies`: it ends, with enough rounds for what there is to read,
    -- the client has been sent exactly these replies, in order, and the socket is closed once.
    pub thread_routine-serve :
        (fuel : ℕ) (s : NetCalServer os) (k : K) (replies : List Bytes)
        → s.func ≡ []
        → length (pending k) < fuel
        → serve read write (pending k) [] ≡ ok replies
        → (k' : K) × (thread_routine os
              (bind_service os (λ sock. calculator_loop os read write fuel sock []) s)
              sock
              k
            ≡ ok k')
          × Served wire k (flatten replies) k'
    unfolding thread_routine bind_service excute
    thread_routine-serve fuel s k replies new h e =
        let (k', run, said, still_open) = calculator_loop-serve fuel [] k replies h e in
        (
          os.close sock k',
          rw (thread_routine, bind_service, new, excute, run) refl,
          (wire.close_written k' ∙ said, wire.close_closes k' ∙ ap suc still_open),
        )
