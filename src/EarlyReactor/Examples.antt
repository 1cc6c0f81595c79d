-- ===== src/EarlyReactor/Examples.antt =====
-- A kernel whose state is the number of clients that wait, at most two, on the sockets behind it, and
-- which always reports the listening socket 3.
use learn_in_linux.Common.{
  ℕ, zero, suc, ◌+◌, ◌-◌, ◌<◌, ◌≡◌, refl, true, none, some, [], ◌∷◌, All, ok, min, arith,
}
use learn_in_linux.Reactor.Os.{Os, Errno, Accepted, Received}
use learn_in_linux.EarlyReactor.{to_accepter, EarlyReactor, only_input, dispather}
use learn_in_linux.EarlyReactor.Entries.{GoesOn, IsEntry, Laws}
use learn_in_linux.EarlyReactor.Rounds.{dispather_lem}

abbrev next_client : ℕ → Accepted
next_client zero = Accepted.not_accepted Errno.again
next_client (suc n) = Accepted.accepted (10 + n) 0 0

abbrev waiting : ℕ → ℕ
waiting k = min k 2

abbrev kernel : Os ℕ
kernel = record {
  socket = λ k. (some 3, k);
  setsockopt = λ sock k. k;
  bind = λ sock port ip k. (true, k);
  listen = λ sock backlog k. (true, k);
  accept = λ sock k. (next_client (waiting k), waiting k - 1);
  get_flags = λ sock k. (some 0, k);
  set_flags = λ sock flags k. k;
  recv = λ sock size k. (Received.received [], k);
  send = λ sock bytes k. (record { count = 0; errno = Errno.again }, k);
  close = λ sock k. k;
  epoll_create = λ size k. (some 4, k);
  epoll_ctl = λ epfd op sock events k. (true, k);
  epoll_wait = λ epfd num timeout k. (record { fd = 3; events = only_input } ∷ [], k);
}

kernel-Laws : Laws kernel waiting 2
kernel-Laws = record {
  bounded = λ k. omega arith;
  accept_less = λ sock k g. less (waiting k) g;
  get_flags_keeps = λ sock k. omega arith;
  set_flags_keeps = λ sock flags k. omega arith;
  add_keeps = λ epfd sock events k. omega arith;
}
  where
    less : (w : ℕ) → GoesOn (next_client w) → waiting (w - 1) < w
    less zero g = absurd g
    less (suc n) g = omega arith

abbrev listening : EarlyReactor ℕ
listening = record {
  listensock = 3;
  port = 8080;
  epfd = 4;
  connections =
      (
        3,
        record {
          sock = 3;
          recv_cb = some to_accepter;
          send_cb = none;
          except_cb = none;
          inbuffer = [];
          outbuffer = [];
        },
      )
      ∷ [];
  revs_num = 128;
  kernel = 2;
}

dispather_lem_example :
    (t : EarlyReactor ℕ) × (dispather kernel 5 3 listening ≡ ok t)
    × (t.listensock ≡ 3)
    × All (IsEntry t.listensock) t.connections
dispather_lem_example =
    dispather_lem kernel-Laws 3 (omega arith) 5 listening ((refl, (λ e. refl), refl), tt)
