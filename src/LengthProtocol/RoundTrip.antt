-- ===== src/LengthProtocol/RoundTrip.antt =====
-- A client's request through the whole of NetCal, and the response that comes back.
use learn_in_linux.Common.{
  ℕ, suc, ◌^◌, ◌<◌, ◌≡◌, ◌≢◌, refl, sym, ap, ◌∙◌, true, false, [], ◌∷◌, ◌++◌, append-nil, Bytes,
  All-append, Lacks, length, ok, arith,
}
use learn_in_linux.Common.Int.{ℤ, pos, IsInt}
use learn_in_linux.Text.{codes, c_str, same_bytes, same_bytes_refl, to_string, is_digit}
use learn_in_linux.Text.Decimal.{to_string-Lacks}
use learn_in_linux.Reactor.Protocol.Request.{Request}
use learn_in_linux.Reactor.Protocol.Response as Plain
use learn_in_linux.Reactor.Calculator.{calculator}
use learn_in_linux.Reactor.Calculator.Laws.{calculator-IsInt}
use learn_in_linux.LengthProtocol.{sep, decode, encode}
use learn_in_linux.LengthProtocol.Frames.{decode-encode}
use learn_in_linux.LengthProtocol.Service.{serve, Reply, ended, replies_to, serve-Exchange}
use learn_in_linux.LengthProtocol.Json.{
  Json, Laws, of_char, to_char, Response, with_operands, serialize_request, deserialize_request,
  serialize_response, deserialize_response, read_request, write_response,
}

of_char-IsInt : (c : ℕ) → c < 256 → IsInt (of_char c)
unfolding of_char
of_char-IsInt c h = ground arith

to_char-of_char : (c : ℕ) → c < 256 → to_char (of_char c) ≡ c
unfolding of_char to_char
to_char-of_char c h = ground arith

c_str-Lacks : (s : Bytes) → Lacks 0 s → c_str s ≡ s
unfolding c_str
c_str-Lacks [] h = refl
c_str-Lacks (c ∷ s) (n, h) = rw (c_str, c_str-Lacks s h) (ground arith)

encode-Lacks : (s : Bytes) → Lacks 0 s → Lacks 0 (encode s)
unfolding encode is_digit
encode-Lacks s h =
    All-append _ (to_string (pos (length s))) (sep ++ (s ++ sep))
      (to_string-Lacks 0 (pos (length s)) refl (λ e. absurd (omega arith)))
      (
        (λ e. absurd (omega arith)),
        (
          (λ e. absurd (omega arith)),
          All-append _ s sep h ((λ e. absurd (omega arith)), ((λ e. absurd (omega arith)), tt)),
        ),
      )

differ : {s t : Bytes} → same_bytes s t ≡ false → s ≢ t
differ {s} {t} h e = absurd (cc (h, same_bytes_refl t, ap (λ u. same_bytes u t) e))

non_zero : {n : ℕ} → suc n ≢ 0
non_zero e = absurd (omega arith)

module _ {json : Json} (laws : Laws json) where
  pub request_round_trip :
      (r : Request)
      → IsInt r.x
      → IsInt r.y
      → r.op < 256
      → deserialize_request json (serialize_request json r) ≡ ok (true, r)
  unfolding serialize_request deserialize_request
  request_round_trip r hx hy hop =
      let root = json.parse (serialize_request json r) in
      let op : Bytes × ℤ = (codes "op", of_char r.op) in
      let x : json.as_int root (codes "x") ≡ ok r.x =
        laws.read_back [] ((codes "y", r.y) ∷ op ∷ []) (codes "x") r.x hx tt
          (differ refl, (differ refl, tt)) in
      let y : json.as_int root (codes "y") ≡ ok r.y =
        laws.read_back ((codes "x", r.x) ∷ []) (op ∷ []) (codes "y") r.y hy (differ refl, tt)
          (differ refl, tt) in
      let o : json.as_int root (codes "op") ≡ ok (of_char r.op) =
        laws.read_back ((codes "x", r.x) ∷ (codes "y", r.y) ∷ []) [] (codes "op") (of_char r.op)
          (of_char-IsInt r.op hop) (differ refl, (differ refl, tt)) tt in
      rw (x, y, o, to_char-of_char r.op hop) refl

  pub response_round_trip :
      (r : Response)
      → IsInt r.result
      → IsInt r.code
      → IsInt r.x
      → IsInt r.y
      → r.op < 256
      → deserialize_response json (serialize_response json r) ≡ ok (true, r)
  unfolding serialize_response deserialize_response
  response_round_trip r hr hc hx hy hop =
      let root = json.parse (serialize_response json r) in
      let code : Bytes × ℤ = (codes "code", r.code) in
      let result : Bytes × ℤ = (codes "result", r.result) in
      let xx : Bytes × ℤ = (codes "xx", r.x) in
      let yy : Bytes × ℤ = (codes "yy", r.y) in
      let zz : Bytes × ℤ = (codes "zz", of_char r.op) in
      let c : json.as_int root (codes "code") ≡ ok r.code =
        laws.read_back [] (result ∷ xx ∷ yy ∷ zz ∷ []) (codes "code") r.code hc tt
          (differ refl, (differ refl, (differ refl, (differ refl, tt)))) in
      let s : json.as_int root (codes "result") ≡ ok r.result =
        laws.read_back (code ∷ []) (xx ∷ yy ∷ zz ∷ []) (codes "result") r.result hr
          (differ refl, tt) (differ refl, (differ refl, (differ refl, tt))) in
      let x : json.as_int root (codes "xx") ≡ ok r.x =
        laws.read_back (code ∷ result ∷ []) (yy ∷ zz ∷ []) (codes "xx") r.x hx
          (differ refl, (differ refl, tt)) (differ refl, (differ refl, tt)) in
      let y : json.as_int root (codes "yy") ≡ ok r.y =
        laws.read_back (code ∷ result ∷ xx ∷ []) (zz ∷ []) (codes "yy") r.y hy
          (differ refl, (differ refl, (differ refl, tt))) (differ refl, tt) in
      let o : json.as_int root (codes "zz") ≡ ok (of_char r.op) =
        laws.read_back (code ∷ result ∷ xx ∷ yy ∷ []) [] (codes "zz") (of_char r.op)
          (of_char-IsInt r.op hop) (differ refl, (differ refl, (differ refl, (differ refl, tt))))
          tt in
      rw (c, s, x, y, o, to_char-of_char r.op hop) refl

  request_Lacks : (r : Request) → Lacks 0 (serialize_request json r)
  unfolding serialize_request
  request_Lacks r =
      laws.no_nul _ ((non_zero, tt), ((non_zero, tt), ((non_zero, (non_zero, tt)), tt)))

  -- A client that sends a request of int operands, as one chunk, gets one reply, if the calculator has a
  -- response for it; and what the client makes of the reply is that response with its own operands.
  pub serve_round_trip :
      (req : Request) (resp : Plain.Response)
      → IsInt req.x
      → IsInt req.y
      → req.op < 256
      → calculator req ≡ ok resp
      → length (encode (serialize_request json req)) < 2 ^ 31
      → length (encode (write_response json req resp)) < 2 ^ 31
      → (reply text : Bytes) × (serve
            (read_request json)
            (write_response json)
            (encode (serialize_request json req) ∷ [])
            []
          ≡ ok (reply ∷ []))
        × (decode reply ≡ ok (text, []))
        × (deserialize_response json text ≡ ok (true, with_operands req resp))
  unfolding read_request write_response with_operands serialize_request
  serve_round_trip req resp hx hy hop computed small fits =
      let message = serialize_request json req in
      let reply = write_response json req resp in
      let (hc, hr) = calculator-IsInt req resp hx hy computed in
      let parsed = request_round_trip req hx hy hop in
      let r : Reply (read_request json) (write_response json) message (encode reply) = record {
        req = req;
        resp = resp;
        filled = laws.filled _;
        parsed = rw (read_request, parsed) refl;
        computed = computed;
        framed = refl;
      } in
      (
        encode reply,
        reply,
        serve-Exchange (read_request json) (write_response json) (encode message ∷ []) []
            (encode reply ∷ [])
            (replies_to message []
              (c_str-Lacks (encode message) (encode-Lacks message (request_Lacks req))
                ∙ sym (append-nil (encode message)))
              (rw (append-nil (encode message)) small) r ended),
        ap decode (sym (append-nil (encode reply)))
            ∙ decode-encode reply [] (rw (append-nil (encode reply)) fits),
        response_round_trip (with_operands req resp) hr hc hx hy hop,
      )
