-- ===== src/UdpChat.antt =====
-- importent-code/UdpSocket/UdpServer.hpp: a chat over UDP. One thread receives messages, keeps a table of the
-- users and puts the messages into a ring queue; another takes them out and sends each to every user.
-- The ring queue is taken as the sequence of its values, for one producer and one consumer.
pub mod Users
pub mod Delivery
mod Examples
use learn_in_linux.Common.{
  ℕ, ◌+◌, ◌<◌, ◌≡◌, Bool, true, false, Option, none, some, List, [], ◌∷◌, ◌++◌, map, Bytes, length,
  if◌then◌else◌, Result, ok, fault, Fault,
}
use learn_in_linux.Common.Int.{pos}
use learn_in_linux.Text.{codes, to_string, c_str, same_bytes}
use learn_in_linux.Reactor.Os.{Os}

abbrev pub default_port : ℕ
default_port = 8080

-- A `sockaddr_in`: the address and the port.
pub record Peer : Type 0 where
  pub addr : ℕ
  pub port : ℕ

-- `_onlineuser`, as the list of its entries. They are visited in the order of this list.
abbrev pub Table : Type 0
Table = List (Bytes × Peer)

-- `_onlineuser[name] = peer`.
unfoldable pub add_user : Bytes → Peer → Table → Table
add_user name peer [] = (name, peer) ∷ []
add_user name peer ((key, old) ∷ users) =
    let others = add_user name peer users in
    if same_bytes key name then (key, peer) ∷ users else (key, old) ∷ others

-- Before `recvfrom`, before `addUser` with the message that was received, before the push.
pub data RecvAt : Type 0 where
  receiving : RecvAt
  adding pushing : (peer : Peer) (buffer : Bytes) → RecvAt

-- Before the pop, before the copy of the table, and in the loop over the copy `v`, with what of it is
-- left.
pub data CastAt : Type 0 where
  popping : CastAt
  copying : (sendstring : Bytes) → CastAt
  sending : (sendstring : Bytes) (v left : List Peer) → CastAt

-- The shared state. `received`, `begun` and `sent` are no fields of the class: they record the messages
-- that came in, the messages that were taken out of the queue with the users that were copied for them,
-- and what `sendto` was called with.
pub record Chat : Type 0 where
  pub users : Table
  pub rq : List Bytes
  pub received : List (Peer × Bytes)
  pub begun : List (Bytes × List Peer)
  pub sent : List (Bytes × Peer)

abbrev pub init : Chat
init = record { users = []; rq = []; received = []; begun = []; sent = [] }

-- `Start`, up to the start of both threads: the socket, bound to the port.
unfoldable pub start_server : {K : Type 0} (os : Os K) (port : ℕ) → K → Result (ℕ × K)
start_server os port k =
    let (s, k1) = os.socket k in
    elim s [
      | none ↦ fault (Fault.exited 1)
      | some sock ↦
          let (bound, k2) = os.bind sock port (codes "0.0.0.0") k1 in
          if bound then ok (sock, k2) else fault (Fault.exited 2)
    ]

-- `inet_ntoa` is the C library's.
module _ (inet_ntoa : ℕ → Bytes) where
  unfoldable pub name : Peer → Bytes
  name peer = inet_ntoa peer.addr ++ (codes "-" ++ to_string (pos peer.port))

  unfoldable pub payload : Peer → Bytes → Bytes
  payload peer buffer = name peer ++ (codes ">>" ++ buffer)

-- `cap` is the capacity of the queue.
module _ (inet_ntoa : ℕ → Bytes) (cap : ℕ) where
  -- `Recv`. A call of `recvfrom` that gives no byte changes nothing; a push waits for space.
  pub data Recv (c : Chat) : RecvAt → Chat → RecvAt → Type 0 where
    got_message :
        (peer : Peer) (b : ℕ) (bs : Bytes)
        → Recv c receiving
            (record c { received = c.received ++ (peer, c_str (b ∷ bs)) ∷ [] })
            (adding peer (c_str (b ∷ bs)))
    got_none : Recv c receiving c receiving
    added :
        {peer : Peer} {buffer : Bytes}
        → Recv c
            (adding peer buffer)
            (record c { users = add_user (name inet_ntoa peer) peer c.users })
            (pushing peer buffer)
    pushed :
        {peer : Peer} {buffer : Bytes}
        → length c.rq < cap
        → Recv c
            (pushing peer buffer)
            (record c { rq = c.rq ++ payload inet_ntoa peer buffer ∷ [] })
            receiving

  -- `Boardcast`. A pop waits for a value.
  pub data Boardcast (c : Chat) : CastAt → Chat → CastAt → Type 0 where
    popped :
        (sendstring : Bytes) (rest : List Bytes)
        → c.rq ≡ sendstring ∷ rest
        → Boardcast c popping (record c { rq = rest }) (copying sendstring)
    copied :
        {sendstring : Bytes}
        → Boardcast c
            (copying sendstring)
            (record c { begun = c.begun ++ (sendstring, map (λ u. u.1) c.users) ∷ [] })
            (sending sendstring (map (λ u. u.1) c.users) (map (λ u. u.1) c.users))
    sent_to :
        {sendstring : Bytes} {v left : List Peer} {e : Peer}
        → Boardcast c
            (sending sendstring v (e ∷ left))
            (record c { sent = c.sent ++ (sendstring, e) ∷ [] })
            (sending sendstring v left)
    sent_all :
        {sendstring : Bytes} {v : List Peer} → Boardcast c (sending sendstring v []) c popping

  -- What both threads can reach, whichever runs next.
  pub data Reach : Chat → RecvAt → CastAt → Type 0 where
    start : Reach init receiving popping
    recv : {c c' : Chat} {r r' : RecvAt} {b : CastAt} → Reach c r b → Recv c r c' r' → Reach c' r' b
    cast :
        {c c' : Chat} {r : RecvAt} {b b' : CastAt}
        → Reach c r b
        → Boardcast c b c' b'
        → Reach c' r b'
