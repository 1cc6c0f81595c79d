-- ===== src/LengthProtocol/Service.antt =====
-- 10-23/NetCal/CalServer.cc: `calculator(sock)`, which answers the requests of one connection.
use learn_in_linux.Common.{
  ◌^◌, ◌<◌, ◌≡◌, ◌≢◌, refl, ap, ◌∙◌, List, [], ◌∷◌, ◌++◌, Bytes, length, Result, ok, ◌>>=◌,
}
use learn_in_linux.Text.{c_str}
use learn_in_linux.Reactor.Protocol.Request.{Request}
use learn_in_linux.Reactor.Protocol.Response.{Response}
use learn_in_linux.Reactor.Calculator.{calculator}
use learn_in_linux.LengthProtocol.{decode, encode}
use learn_in_linux.LengthProtocol.Frames.{decode-encode, decode_waits}

-- What jsoncpp makes of a request's text, and of a response with its request's fields: parameters.
module _ (read : Bytes → Result Request) (write : Request → Response → Bytes) where
  -- One round of the loop behind `Recv`: what is sent, and `inbuffer` after it. `calculatorHelper` is
  -- the function that Reactor/reactor/main.cc calls `calculator`.
  unfoldable pub answer_one : Bytes → Result (List Bytes × Bytes)
  answer_one inbuffer = do
    (message, rest) ← decode inbuffer
    elim message [
      | [] ↦ ok ([], rest)
      | c ∷ cs ↦ do
        req ← read (c ∷ cs)
        resp ← calculator req
        ok (encode (write req resp) ∷ [], rest)
    ]

  -- The loop over what the calls of `recv` deliver, until one delivers nothing. Of each only what
  -- stands before a NUL is kept.
  unfoldable pub serve : List Bytes → Bytes → Result (List Bytes)
  serve [] inbuffer = ok []
  serve (chunk ∷ chunks) inbuffer = do
    (sent, rest) ← answer_one (inbuffer ++ c_str chunk)
    more ← serve chunks rest
    ok (sent ++ more)

  -- `r` is the reply to the message `s`.
  pub record Reply (s r : Bytes) : Type 0 where
    pub req : Request
    pub resp : Response
    pub filled : s ≢ []
    pub parsed : read s ≡ ok req
    pub computed : calculator req ≡ ok resp
    pub framed : r ≡ encode (write req resp)

  -- What a run owes: nothing while the buffer holds the beginning of a frame, and a reply when it
  -- begins with a whole one, which is taken off.
  pub data Exchange : Bytes → List Bytes → List Bytes → Type 0 where
    ended : {inbuffer : Bytes} → Exchange inbuffer [] []
    waits :
        {inbuffer chunk : Bytes} {chunks replies : List Bytes} (s missing : Bytes)
        → (inbuffer ++ c_str chunk) ++ missing ≡ encode s
        → missing ≢ []
        → length (encode s) < 2 ^ 31
        → Exchange (inbuffer ++ c_str chunk) chunks replies
        → Exchange inbuffer (chunk ∷ chunks) replies
    replies_to :
        {inbuffer chunk r : Bytes} {chunks replies : List Bytes} (s rest : Bytes)
        → inbuffer ++ c_str chunk ≡ encode s ++ rest
        → length (encode s ++ rest) < 2 ^ 31
        → Reply s r
        → Exchange rest chunks replies
        → Exchange inbuffer (chunk ∷ chunks) (r ∷ replies)

  answer_one-Reply :
      (s r rest inbuffer : Bytes)
      → inbuffer ≡ encode s ++ rest
      → length (encode s ++ rest) < 2 ^ 31
      → Reply s r
      → answer_one inbuffer ≡ ok (r ∷ [], rest)
  unfolding answer_one
  answer_one-Reply [] r rest inbuffer e small v = absurd (v.filled refl)
  answer_one-Reply (c ∷ cs) r rest inbuffer e small v =
      let whole : decode inbuffer ≡ ok (c ∷ cs, rest) =
        ap decode e ∙ decode-encode (c ∷ cs) rest small in
      rw (answer_one, whole, v.parsed, v.computed, v.framed) refl

  -- However the bytes are cut into chunks: where each chunk leaves the buffer with the beginning of a
  -- frame, or completes a frame at its front whose message has a reply, the service ends with exactly
  -- these replies sent, in their order.
  pub serve-Exchange :
      (chunks : List Bytes) (inbuffer : Bytes) (replies : List Bytes)
      → Exchange inbuffer chunks replies
      → serve chunks inbuffer ≡ ok replies
  unfolding serve answer_one
  serve-Exchange [] inbuffer replies ended = refl
  serve-Exchange (chunk ∷ chunks) inbuffer replies (waits s missing e more small x) =
      let quiet = decode_waits s (inbuffer ++ c_str chunk) missing e more small in
      rw (serve, answer_one, quiet, serve-Exchange chunks (inbuffer ++ c_str chunk) replies x) refl
  serve-Exchange (chunk ∷ chunks) inbuffer (r ∷ replies) (replies_to s rest e small v x) =
      rw
        (
          serve,
          answer_one-Reply s r rest (inbuffer ++ c_str chunk) e small v,
          serve-Exchange chunks rest replies x,
        )
        refl

  -- Of two frames that arrive in one chunk, the first of them with a reply, the service answers only
  -- the first, if no more bytes arrive.
  pub serve_second :
      (a b r : Bytes) (chunk : Bytes)
      → c_str chunk ≡ encode a ++ encode b
      → length (encode a ++ encode b) < 2 ^ 31
      → Reply a r
      → serve (chunk ∷ []) [] ≡ ok (r ∷ [])
  serve_second a b r chunk e small v =
      serve-Exchange (chunk ∷ []) [] (r ∷ []) (replies_to a (encode b) e small v ended)
