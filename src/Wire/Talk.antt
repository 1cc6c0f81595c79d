-- ===== src/Wire/Talk.antt =====
-- A kernel that has one client: the chunks that the client sends, what it was sent, and how often its
-- socket was closed.
use learn_in_linux.Common.{ℕ, suc, ◌≡◌, ◌≢◌, refl, true, some, List, [], ◌∷◌, ◌++◌, map, Bytes, All}
use learn_in_linux.Reactor.Os.{Os, Errno, Accepted, Received}
use learn_in_linux.Wire.{IsEnd, rest, Wire}

pub record Peer : Type 0 where
  pub chunks : List (ℕ × Bytes)
  pub written : Bytes
  pub closes : ℕ

abbrev pub chunk : ℕ × Bytes → Bytes
chunk (b, bs) = b ∷ bs

abbrev next_chunk : List (ℕ × Bytes) → Bytes × List (ℕ × Bytes)
next_chunk [] = ([], [])
next_chunk (c ∷ cs) = (chunk c, cs)

abbrev pub kernel : Os Peer
kernel = record {
  socket = λ k. (some 3, k);
  setsockopt = λ sock k. k;
  bind = λ sock port ip k. (true, k);
  listen = λ sock backlog k. (true, k);
  accept = λ sock k. (Accepted.accepted 4 1 2, k);
  get_flags = λ sock k. (some 0, k);
  set_flags = λ sock flags k. k;
  recv = λ sock size k.
      (Received.received (next_chunk k.chunks).0, record k { chunks = (next_chunk k.chunks).1 });
  send = λ sock bytes k.
      (record { count = 0; errno = Errno.again }, record k { written = k.written ++ bytes });
  close = λ sock k. record k { closes = suc k.closes };
  epoll_create = λ size k. (some 5, k);
  epoll_ctl = λ epfd op sock events k. (true, k);
  epoll_wait = λ epfd num timeout k. ([], k);
}

abbrev pub pending : Peer → List Bytes
pending k = map chunk k.chunks

full_chunks : (cs : List (ℕ × Bytes)) → All (λ c. c ≢ []) (map chunk cs)
full_chunks [] = tt
full_chunks ((b, bs) ∷ cs) = ((λ e. absurd (cc e)), full_chunks cs)

pub wire : (room sock : ℕ) → Wire kernel room sock pending (λ k. k.written) (λ k. k.closes)
wire room sock = record {
  some_bytes = λ k. full_chunks k.chunks;
  recv_chunk = λ k. reads k.chunks;
  recv_end = λ k. ends k.chunks;
  recv_pending = λ k. leaves k.chunks;
  recv_written = λ k. refl;
  recv_closes = λ k. refl;
  send_pending = λ bytes k. refl;
  send_written = λ bytes k. refl;
  send_closes = λ bytes k. refl;
  close_written = λ k. refl;
  close_closes = λ k. refl;
}
  where
    reads :
        (l : List (ℕ × Bytes)) (c : Bytes) (cs : List Bytes)
        → map chunk l ≡ c ∷ cs
        → Received.received (next_chunk l).0 ≡ Received.received c
    reads [] c cs e = absurd (cc e)
    reads (a ∷ l) c cs e = cc e

    ends : (l : List (ℕ × Bytes)) → map chunk l ≡ [] → IsEnd (Received.received (next_chunk l).0)
    ends [] e = tt
    ends (a ∷ l) e = absurd (cc e)

    leaves : (l : List (ℕ × Bytes)) → map chunk (next_chunk l).1 ≡ rest (map chunk l)
    leaves [] = refl
    leaves (a ∷ l) = refl
