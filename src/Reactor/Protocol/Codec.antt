-- ===== src/Reactor/Protocol/Codec.antt =====
-- Requests and responses, and their texts.
use learn_in_linux.Common.{
  ℕ, ◌+◌, ◌≡◌, refl, true, false, ltb, some, [], ◌∷◌, ◌++◌, append_assoc, Bytes, length,
  length-append, take-length, arith, ok, Lacks, drop, drop_past, get_or_past,
}
use learn_in_linux.Common.Int.{ℤ, IsInt}
use learn_in_linux.Text.{rfind, to_string, is_digit}
use learn_in_linux.Text.Find.{find_here, rfind_here}
use learn_in_linux.Text.Decimal.{atoi-to_string, to_string-Lacks}
use learn_in_linux.Reactor.Protocol.{space}
use learn_in_linux.Reactor.Protocol.Request
use learn_in_linux.Reactor.Protocol.Request.{Request}
use learn_in_linux.Reactor.Protocol.Response
use learn_in_linux.Reactor.Protocol.Response.{Response}

-- No printed number holds a space.
number-Lacks : (z : ℤ) → Lacks b' ' (to_string z)
unfolding is_digit
number-Lacks z = to_string-Lacks b' ' z refl (λ e. omega arith)

-- `Deserialized` of the text of a response whose fields are `int`s succeeds and restores both.
pub response_round_trip :
    (r old : Response)
    → IsInt r.code
    → IsInt r.result
    → Response.deserialize old (Response.serialize r) ≡ ok (true, r)
unfolding Response.deserialize Response.serialize
response_round_trip r old hc hr = rw (
  find_here b' ' code result (number-Lacks r.code),
  Response.deserialize,
  take-length code (b' ' ∷ result),
  drop_past code result b' ',
  atoi-to_string r.code hc,
  atoi-to_string r.result hr,
)
  where
    code : Bytes
    code = to_string r.code

    result : Bytes
    result = to_string r.result

last_space :
    (x y : Bytes) (op : ℕ)
    → Lacks b' ' y
    → rfind space (x ++ b' ' ∷ op ∷ b' ' ∷ y) ≡ some (length (x ++ b' ' ∷ op ∷ []))
last_space x y op h =
    rw (← append_assoc x (b' ' ∷ op ∷ []) (b' ' ∷ y)) (rfind_here b' ' (x ++ b' ' ∷ op ∷ []) y h)

behind_last_space :
    (x y : Bytes) (op : ℕ) → drop (length (x ++ b' ' ∷ op ∷ []) + 1) (x ++ b' ' ∷ op ∷ b' ' ∷ y) ≡ y
behind_last_space x y op =
    rw (← append_assoc x (b' ' ∷ op ∷ []) (b' ' ∷ y)) (drop_past (x ++ b' ' ∷ op ∷ []) y b' ')

room : (x y : Bytes) → ltb (length (x ++ b' ' ∷ y)) (length x + 1) ≡ false
room x y = ground (arith, length-append x (b' ' ∷ y))

-- `Deserialized` of the text of a request whose operands are `int`s succeeds and restores all three
-- fields, whatever byte `op_` is.
pub request_round_trip :
    (r old : Request)
    → IsInt r.x
    → IsInt r.y
    → Request.deserialize old (Request.serialize r) ≡ ok (true, r)
unfolding Request.deserialize Request.serialize
request_round_trip r old hx hy = rw (
  find_here b' ' x (r.op ∷ b' ' ∷ y) (number-Lacks r.x),
  Request.deserialize,
  last_space x y r.op (number-Lacks r.y),
  take-length x (b' ' ∷ r.op ∷ b' ' ∷ y),
  behind_last_space x y r.op,
  atoi-to_string r.x hx,
  atoi-to_string r.y hy,
  room x (r.op ∷ b' ' ∷ y),
  get_or_past x (b' ' ∷ y) b' ' r.op 0,
)
  where
    x : Bytes
    x = to_string r.x

    y : Bytes
    y = to_string r.y
