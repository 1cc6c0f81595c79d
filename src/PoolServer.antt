-- ===== src/PoolServer.antt =====
-- 10-21/tcp_server.hpp with Task.hpp: a server that hands each client to the thread pool. `Services` are the
-- three functions that can serve a client. The system calls are a parameter; log lines and what is
-- printed are left out.
pub mod Services
pub mod Echo
pub mod Accepting
mod Examples
use learn_in_linux.Common.{
  ℕ, zero, suc, Bool, true, false, Option, none, some, List, [], ◌∷◌, ◌++◌, Bytes, if◌then◌else◌,
  Result, ok, fault, Fault, ◌>>=◌,
}
use learn_in_linux.Text.{codes}
use learn_in_linux.Reactor.Os.{Os, Accepted}
use learn_in_linux.PoolServer.Services.{dict_online}

abbrev pub gbacklog : ℕ
gbacklog = 20

-- class Task, whose `_func` is what it does to the kernel. The name of the thread is only printed.
pub record Task (K : Type 0) : Type 0 where
  pub sock : ℕ
  pub ip : ℕ
  pub port : ℕ
  pub func : ℕ → K → Result K

-- `operator()`.
unfoldable pub run_task : {K : Type 0} → Task K → K → Result K
run_task t k = t.func t.sock k

-- `pool` is what was pushed to the thread pool, oldest first. `listensock` is `none` for -1.
pub record PoolServer (K : Type 0) : Type 0 where
  pub port : ℕ
  pub ip : Bytes
  pub listensock : Option ℕ
  pub pool : List (Task K)

unfoldable pub tcp_server : {K : Type 0} → (port : ℕ) → (ip : Bytes) → PoolServer K
tcp_server port ip = record { port = port; ip = ip; listensock = none; pool = [] }

module _ {K : Type 0} (os : Os K) where
  unfoldable pub init_server : PoolServer K → K → Result (PoolServer K × K)
  init_server s k =
      let (sock, k1) = os.socket k in
      elim sock [
        | none ↦ fault (Fault.exited 2)
        | some listensock ↦
            let (bound, k2) = os.bind listensock s.port s.ip k1 in
            if bound
            then (let (listens, k3) = os.listen listensock gbacklog k2 in
                if listens
                then ok (record s { listensock = some listensock }, k3)
                else fault (Fault.exited 4))
            else fault (Fault.exited 3)
      ]

  -- One round of the loop of `start`: a call of `accept`, and `pushTask` for the client. A call for a
  -- descriptor -1 fails and changes nothing.
  unfoldable pub accept_once : PoolServer K → K → PoolServer K × K
  accept_once s k = elim s.listensock [
    | none ↦ (s, k)
    | some listensock ↦
        let (r, k') = os.accept listensock k in
        elim r [
          | Accepted.not_accepted e ↦ (s, k')
          | Accepted.accepted sock ip port ↦
              let t : Task K = record {
                sock = sock;
                ip = ip;
                port = port;
                func = dict_online os;
              } in
              (record s { pool = s.pool ++ t ∷ [] }, k')
        ]
  ]

  -- `start` never returns: this is the server after `n` rounds.
  unfoldable pub start : ℕ → PoolServer K → K → PoolServer K × K
  start zero s k = (s, k)
  start (suc n) s k = let (s', k') = accept_once s k in start n s' k'
