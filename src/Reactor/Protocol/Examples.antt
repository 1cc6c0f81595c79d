-- ===== src/Reactor/Protocol/Examples.antt =====
-- Runs of the message functions, and the theorems about them at one input each.
use learn_in_linux.Common.{◌≡◌, refl, true, [], ◌∷◌, ◌++◌, ok, ◌>>=◌}
use learn_in_linux.Common.Int.{pos, negsuc}
use learn_in_linux.Text.{codes, find, starts_with, atoi, rfind}
use learn_in_linux.Reactor.Protocol.{splite_message}
use learn_in_linux.Reactor.Protocol.Framing.{splite_message-append}
use learn_in_linux.Reactor.Protocol.Codec.{request_round_trip}
use learn_in_linux.Reactor.Protocol.Request
use learn_in_linux.Reactor.Protocol.Request.{Request}

splite_message_runs :
    splite_message (codes "1 + 1X2 * 3X4") [] ≡ ok (codes "4", codes "1 + 1" ∷ codes "2 * 3" ∷ [])
unfolding splite_message find starts_with
splite_message_runs = refl

splite_message-append_example :
    (splite_message (codes "1 +") [] >>= λ (r, got). splite_message (r ++ codes " 1X") got)
    ≡ splite_message (codes "1 + 1X") []
splite_message-append_example = splite_message-append (codes "1 +") (codes " 1X") []

abbrev seven : Request
seven = record { x = negsuc 6; y = pos 3; op = b' ' }

abbrev zeros : Request
zeros = record { x = pos 0; y = pos 0; op = 0 }

request_round_trip_example : Request.deserialize zeros (Request.serialize seven) ≡ ok (true, seven)
request_round_trip_example = request_round_trip seven zeros refl refl

-- A request with one space only: the operator is the first byte of the second number.
one_space :
    Request.deserialize zeros (codes "1 2") ≡ ok (true, record { x = pos 1; y = pos 2; op = b'2' })
unfolding Request.deserialize find rfind starts_with atoi
one_space = refl
