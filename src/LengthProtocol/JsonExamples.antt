-- ===== src/LengthProtocol/JsonExamples.antt =====
-- A client of the whole of NetCal, over texts in place of jsoncpp's.
use learn_in_linux.Common.{◌≡◌, refl, true, [], ◌∷◌, Bytes, ok, arith}
use learn_in_linux.Common.Int.{pos, negsuc, mul_int, ◌*ℤ◌}
use learn_in_linux.Text.{to_string, digits}
use learn_in_linux.Reactor.Protocol.Request.{Request}
use learn_in_linux.Reactor.Protocol.Response as Plain
use learn_in_linux.Reactor.Calculator.{calculator}
use learn_in_linux.LengthProtocol.{decode, encode}
use learn_in_linux.LengthProtocol.Service.{serve}
use learn_in_linux.LengthProtocol.Json.{
  of_char, with_operands, serialize_request, deserialize_response, serialize_response, read_request,
  write_response,
}
use learn_in_linux.LengthProtocol.Members.{members, members_Laws}
use learn_in_linux.LengthProtocol.RoundTrip.{serve_round_trip}

abbrev asked : Request
asked = record { x = pos 6; y = negsuc 6; op = b'*' }

abbrev product : Plain.Response
product = record { result = negsuc 41; code = pos 0 }

serve_round_trip_example :
    (reply text : Bytes) × (serve
        (read_request members)
        (write_response members)
        (encode (serialize_request members asked) ∷ [])
        []
      ≡ ok (reply ∷ []))
    × (decode reply ≡ ok (text, []))
    × (deserialize_response members text ≡ ok (true, with_operands asked product))
unfolding calculator mul_int ◌*ℤ◌ encode to_string digits serialize_request write_response
    with_operands serialize_response of_char
serve_round_trip_example =
    serve_round_trip members_Laws asked product refl refl (omega arith) refl (omega arith)
      (omega arith)
