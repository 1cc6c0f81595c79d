-- ===== src/PollServer/Examples.antt =====
-- A server with a listening socket, a client that has closed its end, and a free slot.
use learn_in_linux.Common.{ℕ, ◌≡◌, refl, true, some, List, [], ◌∷◌}
use learn_in_linux.Reactor.Os.{Received}
use learn_in_linux.Reactor.Server.Examples.{Script, scripted}
use learn_in_linux.PollServer.{
  PollFd, unused, PollServer, Polled, polled, handler_event, handle_from, handle_slot, recver,
  accepter,
}

abbrev as_it_is : List PollFd → ℕ → Script → Polled × Script
as_it_is fds timeout k = (polled fds, k)

abbrev waiting : PollServer Script
waiting = record {
  port = 8080;
  listensock = 3;
  fds =
      record unused { fd = some 3; events = true }
      ∷ record { fd = some 5; events = true; revents = true }
      ∷ unused
      ∷ [];
  timeout = 1000;
  kernel = Received.received [] ∷ [];
}

-- The client's slot is free after the round.
one_round :
    (handler_event scripted as_it_is waiting).fds
    ≡ record unused { fd = some 3; events = true } ∷ record unused { revents = true } ∷ unused ∷ []
unfolding handler_event handle_from handle_slot recver accepter
one_round = refl
