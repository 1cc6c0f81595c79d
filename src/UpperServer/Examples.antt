-- ===== src/UpperServer/Examples.antt =====
-- A client that says "hi", and then quits, to a server whose array, of six bytes, holds "secret".
use learn_in_linux.Common.{◌≡◌, [], ◌∷◌, ◌++◌, Bytes, ok, arith}
use learn_in_linux.Text.{codes, c_str}
use learn_in_linux.UpperServer.{room, same_ignoring_case, transervice}
use learn_in_linux.UpperServer.Replies.{replies, transervice_lem}
use learn_in_linux.Wire.Talk.{Peer, kernel, wire}

abbrev secret : Peer → Bytes
secret k = codes "secret"

abbrev talking : Peer
talking = record {
  chunks = (b'h', codes "i") ∷ (b'Q', codes "uit") ∷ (b'x', []) ∷ [];
  written = [];
  closes = 0;
}

transervice_lem_example :
    (k : Peer) × (transervice kernel secret 4 4 talking ≡ ok k)
    × ((k.written ≡ codes "HI" ++ 0 ∷ codes "ret") × (k.closes ≡ 1))
unfolding replies same_ignoring_case c_str
transervice_lem_example = transervice_lem (wire room 4) secret 4 talking (omega arith) (
  (omega arith, (omega arith, tt)),
  ((omega arith, (omega arith, (omega arith, (omega arith, tt)))), ((omega arith, tt), tt)),
)
