-- ===== src/Reactor/Os.antt =====
-- The system calls that Reactor/reactor makes, as a parameter: `K` is the state of the kernel, and
-- each call gives its return value (with errno where it is read) and the kernel after it.
use learn_in_linux.Common.{ℕ, Bool, Option, List, Bytes}

-- The errno values that the code tells apart.
pub data Errno : Type 0 where
  again would_block interrupted : Errno
  other : ℕ → Errno

-- The event bits that the code reads or sets: EPOLLIN, EPOLLOUT, EPOLLERR, EPOLLHUP, EPOLLET.
pub record Events : Type 0 where
  pub readable : Bool
  pub writable : Bool
  pub error : Bool
  pub hangup : Bool
  pub edge : Bool

-- `struct epoll_event` with `data.fd`.
pub record Event : Type 0 where
  pub fd : ℕ
  pub events : Events

pub data Ctl : Type 0 where
  add modify remove : Ctl

-- A new descriptor with the peer's address and port, or -1 and errno.
pub data Accepted : Type 0 where
  accepted : (sock ip port : ℕ) → Accepted
  not_accepted : Errno → Accepted

-- The bytes read (none at the end of the stream), or -1 and errno.
pub data Received : Type 0 where
  received : Bytes → Received
  not_received : Errno → Received

-- `send`: how many bytes were taken (0 for a return value of 0 or -1), and errno behind the call.
pub record Sent : Type 0 where
  pub count : ℕ
  pub errno : Errno

pub record Os (K : Type 0) : Type 0 where
  -- `socket`: a descriptor, or `none` for -1.
  pub socket : K → Option ℕ × K
  pub setsockopt : ℕ → K → K
  -- `bind` and `listen`: whether the call returned 0.
  pub bind : (sock port : ℕ) → Bytes → K → Bool × K
  pub listen : (sock backlog : ℕ) → K → Bool × K
  pub accept : ℕ → K → Accepted × K
  -- `fcntl` with F_GETFL (`none` for -1) and with F_SETFL.
  pub get_flags : ℕ → K → Option ℕ × K
  pub set_flags : (sock flags : ℕ) → K → K
  pub recv : (sock size : ℕ) → K → Received × K
  pub send : (sock : ℕ) → Bytes → K → Sent × K
  pub close : ℕ → K → K
  pub epoll_create : ℕ → K → Option ℕ × K
  -- Whether the call returned 0. A removal passes no events.
  pub epoll_ctl : (epfd : ℕ) → Ctl → (sock : ℕ) → Option Events → K → Bool × K
  -- The ready events, at most `num`; none for a timeout and for an error.
  pub epoll_wait : (epfd num timeout : ℕ) → K → List Event × K
