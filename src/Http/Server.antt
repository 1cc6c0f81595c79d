-- ===== src/Http/Server.antt =====
-- 10-25/HttpServer.hpp: the accept loop with a child process for each client. The parent and its children
-- interleave between their calls; each has descriptors of its own.
pub mod Tables
pub mod Answers
mod Examples
use learn_in_linux.Common.{
  ℕ, suc, ◌≡◌, Option, none, some, List, [], ◌∷◌, ◌++◌, Bytes, ◌==◌, if◌then◌else◌, Result, ok,
  fault, Fault, ◌>>=◌,
}
use learn_in_linux.Text.{codes}
use learn_in_linux.Reactor.Os.{Os, Received}
use learn_in_linux.LengthProtocol.Server.{sock_socket, sock_bind, sock_listen}
use learn_in_linux.Http.{handler_http_request}

-- The constructor: the descriptor of the listening socket. Sock.hpp is that of 10-23/NetCal.
unfoldable pub http_server : {K : Type 0} (os : Os K) (port : ℕ) → K → Result (ℕ × K)
http_server os port k = do
  (listensock, k1) ← sock_socket os k
  k2 ← sock_bind os listensock port (codes "0.0.0.0") k1
  k3 ← sock_listen os listensock k2
  ok (listensock, k3)

-- What a descriptor stands for: the clients are counted in the order of `accept`.
pub data File : Type 0 where
  listener : File
  client : (n : ℕ) → File

-- The descriptors of one process.
abbrev pub Table : Type 0
Table = List (ℕ × File)

unfoldable pub file_of : ℕ → Table → Option File
file_of fd [] = none
file_of fd ((key, file) ∷ fds) = if key == fd then some file else file_of fd fds

unfoldable pub close_fd : ℕ → Table → Table
close_fd fd [] = []
close_fd fd ((key, file) ∷ fds) =
    let rest = close_fd fd fds in if key == fd then rest else (key, file) ∷ rest

-- The parent: before `accept`, before `fork`, and before the `close` behind it.
pub data ParentAt : Type 0 where
  accepting : ParentAt
  forking closing : (sockfd : ℕ) → ParentAt

-- A child: before each of its four calls, and when it has ended.
pub data ChildAt : Type 0 where
  closing_listensock handling closing_sockfd exiting gone : ChildAt

pub record Child : Type 0 where
  pub at : ChildAt
  pub sockfd : ℕ
  pub fds : Table

-- `fds` are the parent's. `accepted`, `sent` and `lost` are no fields of the class: they record how many
-- clients there were, what the children sent to whom, and the clients without a child (`none`) or whose
-- child failed in the handler.
pub record Http : Type 0 where
  pub fds : Table
  pub children : List Child
  pub accepted : ℕ
  pub sent : List (ℕ × Bytes)
  pub lost : List (ℕ × Option Fault)

-- `lines` reads the files, `request` gives what `recv` reads from a client.
module _ (lines : Bytes → Option (List Bytes)) (request : ℕ → Received) (listensock : ℕ) where
  unfoldable pub init : Http
  init = record {
    fds = (listensock, listener) ∷ [];
    children = [];
    accepted = 0;
    sent = [];
    lost = [];
  }

  -- `Start` in the parent. `fork` copies the table; where it fails the parent goes on.
  pub data Parent (h : Http) : ParentAt → Http → ParentAt → Type 0 where
    not_accepted : Parent h accepting h accepting
    accepted :
        (sockfd : ℕ)
        → file_of sockfd h.fds ≡ none
        → Parent h accepting
            (record h { fds = (sockfd, client h.accepted) ∷ h.fds; accepted = suc h.accepted })
            (forking sockfd)
    forked :
        {sockfd : ℕ}
        → Parent h
            (forking sockfd)
            (record h {
              children =
                  record { at = closing_listensock; sockfd = sockfd; fds = h.fds } ∷ h.children;
            })
            (closing sockfd)
    not_forked :
        {sockfd : ℕ} (n : ℕ)
        → file_of sockfd h.fds ≡ some (client n)
        → Parent h (forking sockfd) (record h { lost = (n, none) ∷ h.lost }) (closing sockfd)
    closed :
        {sockfd : ℕ}
        → Parent h (closing sockfd) (record h { fds = close_fd sockfd h.fds }) accepting

  -- `Start` in a child: what it sends, and whether it is lost. A failure in the handler ends it.
  pub data ChildMove (sockfd : ℕ) (fds : Table)
      : ChildAt → Child → List (ℕ × Bytes) → List (ℕ × Option Fault) → Type 0 where
    closed_listensock :
        ChildMove sockfd fds closing_listensock
          (record { at = handling; sockfd = sockfd; fds = close_fd listensock fds })
          []
          []
    handled :
        (n : ℕ) (text : Bytes)
        → file_of sockfd fds ≡ some (client n)
        → handler_http_request lines (request n) ≡ ok text
        → ChildMove sockfd fds handling
            (record { at = closing_sockfd; sockfd = sockfd; fds = fds })
            ((n, text) ∷ [])
            []
    failed :
        (n : ℕ) (e : Fault)
        → file_of sockfd fds ≡ some (client n)
        → handler_http_request lines (request n) ≡ fault e
        → ChildMove sockfd fds handling
            (record { at = gone; sockfd = sockfd; fds = [] })
            []
            ((n, some e) ∷ [])
    closed_sockfd :
        ChildMove sockfd fds closing_sockfd
          (record { at = exiting; sockfd = sockfd; fds = close_fd sockfd fds })
          []
          []
    exited : ChildMove sockfd fds exiting (record { at = gone; sockfd = sockfd; fds = [] }) [] []

  -- What the processes can reach, whichever runs next.
  pub data Reach : Http → ParentAt → Type 0 where
    start : Reach init accepting
    parent : {h h' : Http} {a a' : ParentAt} → Reach h a → Parent h a h' a' → Reach h' a'
    child :
        {h : Http} {a : ParentAt} (before after : List Child) (c c' : Child)
        (text : List (ℕ × Bytes)) (loss : List (ℕ × Option Fault))
        → Reach h a
        → h.children ≡ before ++ c ∷ after
        → ChildMove c.sockfd c.fds c.at c' text loss
        → Reach
            (record h {
              children = before ++ c' ∷ after;
              sent = text ++ h.sent;
              lost = loss ++ h.lost;
            })
            a
