-- ===== src/LengthProtocol/Examples.antt =====
-- Frames of one message, whole and in part.
use learn_in_linux.Common.{map, flatten, ◌≡◌, ◌++◌, ◌∷◌, [], Bytes, Result, ok, ◌>>=◌, arith, refl}
use learn_in_linux.Text.{codes, to_string, digits, find, starts_with, rfind, atoi, c_str}
use learn_in_linux.Common.Int.{pos, add_int, ◌+ℤ◌}
use learn_in_linux.Reactor.Protocol.Request.{Request, deserialize}
use learn_in_linux.Reactor.Protocol.Response.{Response, serialize}
use learn_in_linux.Reactor.Calculator.{calculator}
use learn_in_linux.LengthProtocol.{sep, decode, encode}
use learn_in_linux.LengthProtocol.Frames.{decode-encode, decode_waits}
use learn_in_linux.LengthProtocol.Service.{serve, Reply, ended, waits, replies_to, serve-Exchange}
use learn_in_linux.Wire.Talk.{Peer, chunk, kernel, wire}
use learn_in_linux.LengthProtocol.Server.{
  room, NetCalServer, bind_service, thread_routine, calculator_loop,
}
use learn_in_linux.LengthProtocol.Threads.{thread_routine-serve}
use learn_in_linux.LengthProtocol.Negative.{decode_negative}

decode-encode_example :
    decode (encode (codes "1 + 2") ++ codes "12") ≡ ok (codes "1 + 2", codes "12")
unfolding encode to_string digits
decode-encode_example = decode-encode (codes "1 + 2") (codes "12") (omega arith)

decode_waits_example :
    decode (codes "5" ++ (sep ++ codes "1 +")) ≡ ok ([], codes "5" ++ (sep ++ codes "1 +"))
unfolding encode to_string digits
decode_waits_example =
    decode_waits (codes "1 + 2") (codes "5" ++ (sep ++ codes "1 +")) (codes " 2" ++ sep) refl
      (λ e. absurd (cc e)) (omega arith)

decode_negative_example :
    decode (codes "-2" ++ (sep ++ codes "1 + 2")) ≡ ok (codes "1 + 2", codes "1 + 2")
decode_negative_example = decode_negative (codes "1 + 2") (omega arith)

-- Texts in place of jsoncpp's.
abbrev read_text : Bytes → Result Request
read_text s = do (parsed, req) ← deserialize (record { x = pos 0; y = pos 0; op = 0 }) s; ok req

abbrev write_text : Request → Response → Bytes
write_text req resp = serialize resp

sum_Reply : Reply read_text write_text (codes "1 + 2") (encode (codes "0 3"))
unfolding deserialize find starts_with rfind atoi calculator add_int ◌+ℤ◌ serialize to_string digits
sum_Reply = record {
  req = record { x = pos 1; y = pos 2; op = b'+' };
  resp = record { result = pos 3; code = pos 0 };
  filled = λ e. absurd (cc e);
  parsed = refl;
  computed = refl;
  framed = refl;
}

serve-Exchange_example :
    serve read_text write_text ((codes "5" ++ (sep ++ codes "1 +")) ∷ (codes " 2" ++ sep) ∷ []) []
    ≡ ok (encode (codes "0 3") ∷ [])
unfolding encode to_string digits c_str
serve-Exchange_example =
    serve-Exchange read_text write_text
      ((codes "5" ++ (sep ++ codes "1 +")) ∷ (codes " 2" ++ sep) ∷ []) []
      (encode (codes "0 3") ∷ [])
      (waits (codes "1 + 2") (codes " 2" ++ sep) refl (λ e. absurd (cc e)) (omega arith)
        (replies_to (codes "1 + 2") [] refl (omega arith) sum_Reply ended))

-- A client whose request arrives in two chunks, and a server with one service.
abbrev asking : Peer
asking = record {
  chunks = (b'5', sep ++ codes "1 +") ∷ (b' ', b'2' ∷ sep) ∷ [];
  written = [];
  closes = 0;
}

abbrev new_server : NetCalServer kernel
new_server = record { listensock = 3; func = []; threads = []; kernel = asking }

thread_routine-serve_example :
    (k : Peer) × (thread_routine kernel
        (bind_service kernel
          (λ sock. calculator_loop kernel read_text write_text 3 sock [])
          new_server)
        4
        asking
      ≡ ok k)
    × ((k.written ≡ flatten (encode (codes "0 3") ∷ [])) × (k.closes ≡ 1))
unfolding encode to_string digits c_str
thread_routine-serve_example =
    thread_routine-serve (wire room 4) read_text write_text 3 new_server asking
      (encode (codes "0 3") ∷ []) refl (omega arith)
      (serve-Exchange read_text write_text (map chunk asking.chunks) [] (encode (codes "0 3") ∷ [])
        (waits (codes "1 + 2") (codes " 2" ++ sep) refl (λ e. absurd (cc e)) (omega arith)
          (replies_to (codes "1 + 2") [] refl (omega arith) sum_Reply ended)))
