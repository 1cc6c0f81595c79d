-- ===== src/Http/Server/Examples.antt =====
-- One client of the process that listens on descriptor 3: accepted, served by a child, and let go.
use learn_in_linux.Common.{ℕ, ◌≡◌, ◌≤◌, ◌<◌, ◌+◌, refl, [], ◌∷◌, All}
use learn_in_linux.Text.{codes}
use learn_in_linux.Reactor.Os.{Received}
use learn_in_linux.Http.{http_response}
use learn_in_linux.Http.Examples.{one_page, home_page}
use learn_in_linux.Http.Server.{
  listener, file_of, close_fd, accepting, Child, gone, Http, init, accepted, forked, closed,
  closed_listensock, handled, closed_sockfd, exited, Reach, start, parent, child,
}
use learn_in_linux.Http.Server.Tables.{ParentTable, ChildTable, reach-Tables}
use learn_in_linux.Http.Server.Answers.{count, IsAnswer, IsLoss, IsGone, answered_once}

abbrev asks : ℕ → Received
asks n = Received.received (codes "GET / HTTP")

abbrev ended : Child
ended = record { at = gone; sockfd = 4; fds = [] }

abbrev served : Http
served = record {
  fds = (3, listener) ∷ [];
  children = ended ∷ [];
  accepted = 1;
  sent = (0, http_response (codes "helloyou")) ∷ [];
  lost = [];
}

served-Reach : Reach one_page asks 3 served accepting
unfolding init file_of close_fd
served-Reach =
    child [] [] _ _ [] []
      (child [] [] _ _ [] []
        (child [] [] _ _ _ []
          (child [] [] _ _ [] [] (parent (parent (parent start (accepted 4 refl)) forked) closed)
            refl closed_listensock)
          refl (handled 0 (http_response (codes "helloyou")) refl home_page))
        refl closed_sockfd)
      refl exited

reach-Tables_example :
    ParentTable 3 accepting served.fds served.accepted × All (ChildTable 3) served.children
reach-Tables_example = reach-Tables one_page asks 3 served accepting served-Reach

answered_once_example :
    All (IsAnswer one_page asks 3) served.sent
    × All (IsLoss one_page asks 3) served.lost
    × ((n : ℕ) → count n served.sent + count n served.lost ≤ 1)
    × (accepting ≡ accepting
        → All (IsGone one_page asks 3) served.children
        → (n : ℕ) → n < served.accepted
        → count n served.sent + count n served.lost ≡ 1)
answered_once_example = answered_once one_page asks 3 served accepting served-Reach
