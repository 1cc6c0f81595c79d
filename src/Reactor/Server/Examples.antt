-- ===== src/Reactor/Server/Examples.antt =====
-- A small kernel, a server with a listening socket and one client, and runs of the handlers on them.
use learn_in_linux.Common.{
  ℕ, ◌≡◌, refl, true, none, some, List, [], ◌∷◌, ◌++◌, inl, Bytes, ◌==◌, if◌then◌else◌, Result, ok,
  fault, Fault, arith,
}
use learn_in_linux.Text.{codes}
use learn_in_linux.Reactor.Os.{Os, Errno, Accepted, Received}
use learn_in_linux.Reactor.Server.{
  Connection, Server, to_recver, to_sender, to_excepter, recver, sender, lookup,
}
use learn_in_linux.Text.{c_str}
use learn_in_linux.Reactor.Protocol.Framing.{IsCut}
use learn_in_linux.Reactor.Server.Recv.{Delivers, Handled, chunk, pause, Changes, recver_delivers}
use learn_in_linux.Reactor.Server.SendLoop.{Takes, part, all}
use learn_in_linux.Reactor.Server.Send.{sender_takes}
use learn_in_linux.Reactor.Server.Lifetime.{recver_use_after_free, sender_use_after_free, stream}

-- A kernel that answers the reads from a list, and then that there is nothing yet; every other call
-- succeeds, and every send takes three bytes.
abbrev pub Script : Type 0
Script = List Received

abbrev pub next_read : Script → Received × Script
next_read [] = (Received.not_received Errno.again, [])
next_read (r ∷ rs) = (r, rs)

abbrev pub scripted : Os Script
scripted = record {
  socket = λ k. (some 3, k);
  setsockopt = λ sock k. k;
  bind = λ sock port ip k. (true, k);
  listen = λ sock backlog k. (true, k);
  accept = λ sock k. (Accepted.not_accepted Errno.again, k);
  get_flags = λ sock k. (some 0, k);
  set_flags = λ sock flags k. k;
  recv = λ sock size k. next_read k;
  send = λ sock bytes k. (record { count = 3; errno = Errno.again }, k);
  close = λ sock k. k;
  epoll_create = λ size k. (some 4, k);
  epoll_ctl = λ epfd op sock events k. (true, k);
  epoll_wait = λ epfd num timeout k. ([], k);
}

-- The same, with a peer that has reset the connection.
abbrev pub broken : Os Script
broken = record scripted {
  send = λ sock bytes k. (record { count = 0; errno = Errno.other 104 }, k);
}

abbrev pub client : Connection
client = record {
  sock = 5;
  recv_cb = some to_recver;
  send_cb = some to_sender;
  except_cb = some to_excepter;
  inbuffer = codes "1 + ";
  outbuffer = codes "0 42X";
}

abbrev pub one_client : Script → Server Script
one_client script = record {
  listensock = 3;
  port = 8080;
  epfd = 4;
  revs_num = 128;
  connections = (5, 1) ∷ [];
  heap = λ p. if p == 1 then some client else none;
  next = 2;
  kernel = script;
}

abbrev pub no_handler : ℕ → Bytes → Server Script → Result (Server Script)
no_handler p msg s = ok s

recver_use_after_free_example :
    recver scripted no_handler 8 1 (one_client (Received.received [] ∷ []))
    ≡ fault Fault.use_after_free
unfolding lookup
recver_use_after_free_example =
    recver_use_after_free scripted no_handler 7 1 (one_client (Received.received [] ∷ [])) client
      refl refl refl stream refl

sender_use_after_free_example : sender broken 8 1 (one_client []) ≡ fault Fault.use_after_free
unfolding lookup
sender_use_after_free_example =
    sender_use_after_free broken 7 1 104 (one_client []) client refl refl refl refl refl

-- Three bytes, and then the two that are left.
two_sends : Takes scripted 5 (codes "0 42X") [] (codes "0 42X") [] []
two_sends =
    part (codes "0 42X") 2 b'2' (b'X' ∷ []) refl refl refl (all (codes "2X") 2 refl refl refl)

sender_takes_example :
    (t : Server Script) × (sender scripted 2 1 (one_client []) ≡ ok t)
    × (codes "0 42X" ++ [] ≡ codes "0 42X")
    × Changes (one_client []) t 1 (record client { outbuffer = [] }) []
unfolding two_sends
sender_takes_example =
    sender_takes scripted 2 1 (one_client []) client [] refl refl two_sends (omega arith) refl

abbrev two_reads : Script
two_reads = Received.received (codes "1X2") ∷ Received.received (codes " - 3X") ∷ []

reads : Delivers scripted 5 two_reads (codes "1X2" ∷ codes " - 3X" ∷ []) []
reads =
    chunk b'1' (codes "X2") refl refl
      (chunk b' ' (codes "- 3X") refl refl (pause Errno.again (inl refl) refl refl))

recver_delivers_example :
    (messages : List Bytes) × (rest : Bytes) × (t : Server Script) × IsCut
      (codes "1 + 1X2 - 3X")
      messages
      rest
    × Changes (one_client two_reads) t 1 (record client { inbuffer = rest }) []
    × Handled no_handler 1 messages t (recver scripted no_handler 8 1 (one_client two_reads))
unfolding reads c_str
recver_delivers_example =
    recver_delivers scripted no_handler 8 1 (one_client two_reads) client two_reads refl refl reads
      (omega arith)
