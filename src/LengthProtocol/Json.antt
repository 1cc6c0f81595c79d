-- ===== src/LengthProtocol/Json.antt =====
-- 10-23/NetCal/Protocol.hpp: Request and Response as jsoncpp texts, without MYSELF. jsoncpp is a parameter.
use learn_in_linux.Common.{
  ℕ, ◌-◌, ◌%◌, ◌≡◌, ◌≢◌, Bool, true, List, [], ◌∷◌, ◌++◌, Bytes, All, Lacks, ltb, if◌then◌else◌,
  Result, ok, ◌>>=◌,
}
use learn_in_linux.Common.Int.{ℤ, pos, negsuc, IsInt}
use learn_in_linux.Text.{codes}
use learn_in_linux.Reactor.Protocol.Request.{Request}
use learn_in_linux.Reactor.Protocol.Response as Plain
use learn_in_linux.Reactor.Calculator.{calculator}

-- What the code calls of jsoncpp: `write` is FastWriter::write of an object, given by its members in
-- the order of their assignments, each an int; `parse` gives the `root` that Reader::parse leaves,
-- whether or not it succeeds; `as_int root key` is root[key].asInt(), which can throw.
pub record Json : Type 1 where
  pub Value : Type 0
  pub write : List (Bytes × ℤ) → Bytes
  pub parse : Bytes → Value
  pub as_int : Value → Bytes → Result ℤ

-- What the documentation says of them: an object is read back as it was written, and its text is never
-- empty and holds no NUL.
pub record Laws (json : Json) : Type 0 where
  pub read_back :
      (before after : List (Bytes × ℤ)) (key : Bytes) (v : ℤ)
      → IsInt v
      → All (λ m. m.0 ≢ key) before
      → All (λ m. m.0 ≢ key) after
      → json.as_int (json.parse (json.write (before ++ (key, v) ∷ after))) key ≡ ok v
  pub filled : (members : List (Bytes × ℤ)) → json.write members ≢ []
  pub no_nul :
      (members : List (Bytes × ℤ)) → All (λ m. Lacks 0 m.0) members → Lacks 0 (json.write members)

-- A `char` as an int, and an int as a `char`, of 8 bits with a sign.
unfoldable pub of_char : ℕ → ℤ
of_char c = if ltb c 128 then pos c else negsuc (255 - c)

unfoldable pub to_char : ℤ → ℕ
to_char (pos n) = n % 256
to_char (negsuc n) = 255 - n % 256

pub record Response : Type 0 where
  pub result : ℤ
  pub code : ℤ
  pub x : ℤ
  pub y : ℤ
  pub op : ℕ

-- `calculatorHelper` of CalServer.cc: the response of Reactor/reactor/main.cc, with the operands.
unfoldable pub with_operands : Request → Plain.Response → Response
with_operands req resp = record {
  result = resp.result;
  code = resp.code;
  x = req.x;
  y = req.y;
  op = req.op;
}

unfoldable pub calculator_helper : Request → Result Response
calculator_helper req = do resp ← calculator req; ok (with_operands req resp)

module _ (json : Json) where
  unfoldable pub serialize_request : Request → Bytes
  serialize_request r =
      json.write ((codes "x", r.x) ∷ (codes "y", r.y) ∷ (codes "op", of_char r.op) ∷ [])

  -- What `Deserialized` returns, and the fields after it.
  unfoldable pub deserialize_request : Bytes → Result (Bool × Request)
  deserialize_request str = do
    let root = json.parse str
    x ← json.as_int root (codes "x")
    y ← json.as_int root (codes "y")
    op ← json.as_int root (codes "op")
    ok (true, record { x = x; y = y; op = to_char op })

  unfoldable pub serialize_response : Response → Bytes
  serialize_response r = json.write (
      (codes "code", r.code)
      ∷ (codes "result", r.result)
      ∷ (codes "xx", r.x)
      ∷ (codes "yy", r.y)
      ∷ (codes "zz", of_char r.op)
      ∷ [])

  unfoldable pub deserialize_response : Bytes → Result (Bool × Response)
  deserialize_response s = do
    let root = json.parse s
    code ← json.as_int root (codes "code")
    result ← json.as_int root (codes "result")
    x ← json.as_int root (codes "xx")
    y ← json.as_int root (codes "yy")
    op ← json.as_int root (codes "zz")
    ok (true, record { result = result; code = code; x = x; y = y; op = to_char op })

  -- What the server reads of a message, whatever `Deserialized` returns, and what it writes.
  unfoldable pub read_request : Bytes → Result Request
  read_request s = do (done, req) ← deserialize_request s; ok req

  unfoldable pub write_response : Request → Plain.Response → Bytes
  write_response req resp = serialize_response (with_operands req resp)
