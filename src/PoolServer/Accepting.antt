-- ===== src/PoolServer/Accepting.antt =====
-- Which tasks the thread pool gets, and in which order.
use learn_in_linux.Common.{
  ℕ, zero, suc, ◌≡◌, refl, sym, ap, ◌∙◌, Option, none, some, List, [], ◌∷◌, ◌++◌, append-nil,
  append_assoc, Bytes, Result, ok, fault, Bool-cases, inl, inr,
}
use learn_in_linux.Reactor.Os.{Os, Accepted}
use learn_in_linux.ThreadPool.{System, Reach}
use learn_in_linux.ThreadPool.Safety.{tasks_once}
use learn_in_linux.PoolServer.Services.{dict_online}
use learn_in_linux.PoolServer.{
  Task, PoolServer, tcp_server, gbacklog, init_server, accept_once, start,
}

module _ {K : Type 0} (os : Os K) where
  -- What `n` calls of `accept` one after another give.
  abbrev pub answers : ℕ → (listensock : ℕ) → K → List Accepted
  answers zero l k = []
  answers (suc n) l k = (os.accept l k).0 ∷ answers n l (os.accept l k).1

  -- A task for each that gave a client.
  abbrev pub clients : List Accepted → List (Task K)
  clients [] = []
  clients (Accepted.not_accepted e ∷ rs) = clients rs
  clients (Accepted.accepted sock ip port ∷ rs) =
      record { sock = sock; ip = ip; port = port; func = dict_online os } ∷ clients rs

  server_of : PoolServer K → Result (PoolServer K × K) → PoolServer K
  server_of d (ok (s, k)) = s
  server_of d (fault e) = d

  init_server-listens :
      (s t : PoolServer K) (k k' : K)
      → init_server os s k ≡ ok (t, k')
      → (l : ℕ) × (t.listensock ≡ some l) × (t.pool ≡ s.pool)
  unfolding init_server server_of
  init_server-listens s t k k' e = by_socket (os.socket k).0 refl
    where
      by_socket :
          (o : Option ℕ)
          → (os.socket k).0 ≡ o
          → (l : ℕ) × (t.listensock ≡ some l) × (t.pool ≡ s.pool)
      by_socket none q = absurd (cc (rw (init_server, q) at e))
      by_socket (some l) q =
          let k1 = (os.socket k).1 in
          let k2 = (os.bind l s.port s.ip k1).1 in
          elim (Bool-cases (os.bind l s.port s.ip k1).0) [
            | inr taken ↦ absurd (cc (rw (init_server, q, taken) at e))
            | inl bound ↦ elim (Bool-cases (os.listen l gbacklog k2).0) [
              | inr refused ↦ absurd (cc (rw (init_server, q, bound, refused) at e))
              | inl listens ↦
                  let made = rw (init_server, q, bound, listens) at e in
                  (
                    l,
                    sym (ap (λ r. (server_of s r).listensock) made),
                    sym (ap (λ r. (server_of s r).pool) made),
                  )
            ]
          ]

  start-clients :
      (n l : ℕ) (s : PoolServer K) (k : K)
      → s.listensock ≡ some l
      → (start os n s k).0.pool ≡ s.pool ++ clients (answers n l k)
  unfolding start accept_once
  start-clients zero l s k e = sym (append-nil s.pool)
  start-clients (suc n) l s k e =
      by_answer (os.accept l k).0 refl (λ s' f. start-clients n l s' (os.accept l k).1 f)
    where
      Clients : PoolServer K → Type 0
      Clients s' =
          (start os n s' (os.accept l k).1).0.pool
          ≡ s'.pool ++ clients (answers n l (os.accept l k).1)

      by_answer :
          (r : Accepted)
          → (os.accept l k).0 ≡ r
          → ((s' : PoolServer K) → s'.listensock ≡ some l → Clients s')
          → (start os (suc n) s k).0.pool ≡ s.pool ++ clients (answers (suc n) l k)
      by_answer (Accepted.not_accepted x) q more = rw (start, accept_once, e, q) (more s e)
      by_answer (Accepted.accepted sock ip port) q more =
          let t : Task K = record { sock = sock; ip = ip; port = port; func = dict_online os } in
          rw (start, accept_once, e, q)
            (more (record s { pool = s.pool ++ t ∷ [] }) e
              ∙ append_assoc s.pool (t ∷ []) (clients (answers n l (os.accept l k).1)))

  -- After a start that does not exit and any number of rounds: in every state of the thread pool where
  -- it has got what the server pushed, the tasks that workers took and then those that wait are exactly
  -- one for each client that `accept` gave, in that order.
  pub accepted_once :
      (port : ℕ) (ip : Bytes) (n : ℕ) (k k' : K) (s : PoolServer K)
      → init_server os (tcp_server port ip) k ≡ ok (s, k')
      → {num m : ℕ} {threads : System (Task K)} → Reach num m threads
      → threads.pool.pushed ≡ (start os n s k').0.pool
      → (l : ℕ) × (s.listensock ≡ some l)
        × (threads.pool.taken ++ threads.pool.task_queue ≡ clients (answers n l k'))
  unfolding tcp_server
  accepted_once port ip n k k' s e r got =
      let (l, listens, empty) = init_server-listens (tcp_server port ip) s k k' e in
      (
        l,
        listens,
        sym (tasks_once r).0
            ∙ got
            ∙ start-clients n l s k' listens
            ∙ ap (λ p. p ++ clients (answers n l k')) empty,
      )
