-- ===== src/EpollServer/Examples.antt =====
-- A kernel whose state is the list of watched descriptors. It reports the newest of them, and every
-- client has closed its end.
use learn_in_linux.Common.{
  ℕ, ◌≡◌, ◌≢◌, refl, Bool, true, some, List, [], ◌∷◌, Bytes, All, ==_refl, ok, arith,
}
use learn_in_linux.Reactor.Os.{Os, Errno, Event, Ctl, Accepted, Received}
use learn_in_linux.ProcessPool.{has, close}
use learn_in_linux.ProcessPool.Shutdown.{has-close}
use learn_in_linux.EpollServer.{EpollServer, epoll_in, start}
use learn_in_linux.EpollServer.Watched.{Laws, AreDistinct}
use learn_in_linux.EpollServer.Rounds.{start_lem}

abbrev newest : List ℕ → List Event
newest [] = []
newest (fd ∷ fds) = record { fd = fd; events = epoll_in } ∷ []

abbrev controlled : Ctl → ℕ → List ℕ → Bool × List ℕ
controlled Ctl.add fd k = (true, fd ∷ k)
controlled Ctl.modify fd k = (true, k)
controlled Ctl.remove fd k = (has fd k, close fd k)

abbrev listing : Os (List ℕ)
listing = record {
  socket = λ k. (some 3, k);
  setsockopt = λ sock k. k;
  bind = λ sock port ip k. (true, k);
  listen = λ sock backlog k. (true, k);
  accept = λ sock k. (Accepted.accepted 9 0 0, k);
  get_flags = λ sock k. (some 0, k);
  set_flags = λ sock flags k. k;
  recv = λ sock size k. (Received.received [], k);
  send = λ sock bytes k. (record { count = 0; errno = Errno.again }, k);
  close = λ sock k. k;
  epoll_create = λ size k. (some 4, k);
  epoll_ctl = λ epfd op sock events k. controlled op sock k;
  epoll_wait = λ epfd num timeout k. (newest k, k);
}

abbrev ignore : Bytes → List ℕ → List ℕ
ignore request k = k

abbrev IsListed : ℕ → ℕ → List ℕ → Type 0
IsListed epfd fd k = has fd k ≡ true

has_more : (fd x : ℕ) (k : List ℕ) → has fd k ≡ true → has fd (x ∷ k) ≡ true
unfolding has
has_more fd x k h = ground arith

has_first : (fd : ℕ) (k : List ℕ) → has fd (fd ∷ k) ≡ true
unfolding has
has_first fd k = rw (==_refl fd) refl

still_has : (sock fd : ℕ) (k : List ℕ) → fd ≢ sock → has fd k ≡ true → has fd (close sock k) ≡ true
still_has sock fd k other h = rw (has-close fd sock k) (ground arith)

newest_listed : (k : List ℕ) → All (λ ev. has ev.fd k ≡ true) (newest k) × AreDistinct (newest k)
newest_listed [] = (tt, tt)
newest_listed (fd ∷ fds) = ((has_first fd fds, tt), (tt, tt))

listing_laws : Laws listing ignore IsListed
listing_laws = record {
  wait_reports = λ epfd num timeout k. newest_listed k;
  wait_keeps = λ epfd num timeout fd k h. h;
  accept_keeps = λ epfd sock fd k h. h;
  add_keeps = λ epfd sock fd events k h. has_more fd sock k h;
  remove_watched = λ epfd fd events k h. h;
  remove_keeps = λ epfd sock fd events k other h. still_has sock fd k other h;
  recv_keeps = λ epfd sock size fd k h. h;
  close_keeps = λ epfd sock fd k other h. h;
  handler_keeps = λ epfd fd request k h. h;
}

abbrev one_client : EpollServer (List ℕ)
one_client = record { listensock = 3; epfd = 4; port = 8080; revs_num = 64; kernel = 5 ∷ 3 ∷ [] }

start_lem_example :
    (t : EpollServer (List ℕ)) × (start listing ignore 2 0 one_client ≡ ok t)
    × (t.listensock ≡ 3)
    × IsListed t.epfd t.listensock t.kernel
unfolding has
start_lem_example = start_lem listing_laws 2 0 one_client refl
