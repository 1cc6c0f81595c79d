-- ===== src/Reactor/NetCal/Examples.antt =====
-- Runs of `NetCal` and of the calculator, and the theorems about them at one input each.
use learn_in_linux.Common.{
  ℕ, ◌≡◌, ◌<◌, refl, true, [], ◌∷◌, ◌++◌, Bytes, ok, some, ◌==◌, ◌+◌, if◌then◌else◌, false,
  Bool-cases, inl, inr, arith,
}
use learn_in_linux.Common.Int.{pos, negsuc, div_int, tdiv}
use learn_in_linux.Reactor.Protocol.{splite_message}
use learn_in_linux.Reactor.Protocol.Request
use learn_in_linux.Reactor.Protocol.Request.{Request}
use learn_in_linux.Reactor.Protocol.Response
use learn_in_linux.Reactor.Protocol.Response.{Response}
use learn_in_linux.Reactor.Calculator.{calculator}
use learn_in_linux.Reactor.Server.{Server}
use learn_in_linux.Reactor.Server.Recv.{Changes}
use learn_in_linux.Reactor.Server.Examples.{Script, scripted, one_client, client}
use learn_in_linux.Reactor.Os.{Os, Errno, Events, Accepted, Received}
use learn_in_linux.Reactor.Server.Table.{Laws, WellFormed}
use learn_in_linux.Common.Outcomes.{Yields}
use learn_in_linux.Reactor.NetCal.{net_cal, main}
use learn_in_linux.Reactor.NetCal.Kept.{MainMayFault, main-WellFormed}
use learn_in_linux.Reactor.NetCal.Answers.{net_cal_answers}

abbrev nine_by : ℕ → Request
nine_by op = record { x = negsuc 8; y = pos 4; op = op }

abbrev two : Response
two = record { result = negsuc 1; code = pos 0 }

abbrev unset : Response
unset = record { result = pos 0; code = pos 0 }

nine_by_four : calculator (nine_by b'/') ≡ ok two
unfolding calculator div_int tdiv
nine_by_four = refl

net_cal_answers_example :
    (t : Server Script) × (frame : Bytes) × (text : Bytes) × (net_cal scripted 1
        (Request.serialize (nine_by b'/'))
        (one_client [])
      ≡ ok t)
    × Changes (one_client []) t 1 (record client { outbuffer = client.outbuffer ++ frame }) []
    × (splite_message frame [] ≡ ok ([], text ∷ []))
    × (Response.deserialize unset text ≡ ok (true, two))
net_cal_answers_example =
    net_cal_answers scripted 1 (one_client []) client (nine_by b'/') two unset refl refl refl refl
      nine_by_four

abbrev large : Request
large = record { x = pos 2147483647; y = pos 1; op = b'+' }

-- Every descriptor below the state of the kernel is open: 3 to listen, 4 for epoll, 5 for the one client, who
-- never sends anything.
abbrev one_caller : Os ℕ
one_caller = record {
  socket = λ k. (some k, k + 1);
  setsockopt = λ sock k. k;
  bind = λ sock port ip k. (true, k);
  listen = λ sock backlog k. (true, k);
  accept = λ sock k.
      (if k == 5 then Accepted.accepted k 0 0 else Accepted.not_accepted Errno.again, k + 1);
  get_flags = λ sock k. (some 0, k);
  set_flags = λ sock flags k. k;
  recv = λ sock size k. (Received.not_received Errno.again, k);
  send = λ sock bytes k. (record { count = 0; errno = Errno.again }, k);
  close = λ sock k. k;
  epoll_create = λ size k. (some k, k + 1);
  epoll_ctl = λ epfd op sock events k. (true, k);
  epoll_wait = λ epfd num timeout k. (record { fd = 3; events = readable } ∷ [], k);
}
  where
    readable : Events
    readable = record {
      readable = true;
      writable = false;
      error = false;
      hangup = false;
      edge = true;
    }

abbrev IsOpen : ℕ → ℕ → Type 0
IsOpen fd k = fd < k

one_caller_laws : Laws one_caller IsOpen
one_caller_laws = record {
  socket_opens = λ k sock e. let same : k ≡ sock = cc e in omega arith;
  setsockopt_keeps = λ sock fd k h. h;
  bind_keeps = λ sock port fd ip k h. h;
  listen_keeps = λ sock backlog fd k h. h;
  create_keeps = λ size fd k h. omega arith;
  accept_fresh = λ l k sock ip port e. elim (Bool-cases (k == 5)) [
    | inl b ↦ let same : k ≡ sock = cc (rw b at e) in ((λ h. absurd (omega arith)), omega arith)
    | inr b ↦ absurd (cc (rw b at e))
  ];
  accept_keeps = λ l fd k h. omega arith;
  get_flags_keeps = λ sock fd k h. h;
  set_flags_keeps = λ sock flags fd k h. h;
  recv_keeps = λ sock size fd k h. h;
  send_keeps = λ sock fd bytes k h. h;
  ctl_keeps = λ epfd sock fd op events k h. h;
  wait_keeps = λ epfd num timeout fd k h. h;
  close_keeps = λ sock fd k other h. h;
}

main-WellFormed_example : Yields MainMayFault (WellFormed IsOpen) (main one_caller 2 4 3)
main-WellFormed_example = main-WellFormed one_caller_laws 2 4 3
