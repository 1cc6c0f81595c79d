-- ===== src/ThreadPool.antt =====
-- 10-21/ThreadPool/threadPool.hpp: workers that take tasks from a queue under one mutex, and sleep on one
-- condition variable while it is empty. lockGuard.hpp locks and unlocks the mutex. `Singleton` is
-- getThreadPool. The pools of 10-15, 10-16 and importent-code/PthreadPool differ in small edits.
pub mod Invariant
pub mod Tasks
pub mod Safety
pub mod Singleton
mod Examples
use learn_in_linux.Common.{ℕ, ◌+◌, ◌≡◌, Bool, true, false, List, [], ◌∷◌, ◌++◌, length, replicate}
use learn_in_linux.Common.Threads.{Wakes}

-- `task_queue_` and whether `lock` is held. `pushed`, `taken` and `ran` are no fields of the class: they
-- record the tasks that were pushed, that a worker took from the queue, and that it has run.
pub record ThreadPool (T : Type 0) : Type 0 where
  pub task_queue : List T
  pub lock : Bool
  pub pushed : List T
  pub taken : List T
  pub ran : List T

abbrev pub init : {T : Type 0} → ThreadPool T
init = record { task_queue = []; lock = false; pushed = []; taken = []; ran = [] }

-- Where a thread stands: a worker in `routine` before the lock, before the loop's test, asleep in
-- `waitCond`, woken there, before the unlock with its task, before the call of the task; another thread
-- outside of the pool, or in `pushTask` before the lock, the push, the signal, the unlock.
pub data Pc (T : Type 0) : Type 0 where
  lock_w check_w asleep_w woken_w : Pc T
  unlock_w run_w : (task : T) → Pc T
  outside : Pc T
  lock_p push_p : (task : T) → Pc T
  signal_p unlock_p : Pc T

-- One statement of one thread, but for the signal. What a task does is outside of the pool.
pub data Move {T : Type 0} (q : ThreadPool T) : Pc T → ThreadPool T → Pc T → Type 0 where
  locked_w : q.lock ≡ false → Move q lock_w (record q { lock = true }) check_w
  is_empty : length q.task_queue ≡ 0 → Move q check_w (record q { lock = false }) asleep_w
  spurious : Move q asleep_w q woken_w
  relocked : q.lock ≡ false → Move q woken_w (record q { lock = true }) check_w
  get_task :
      (task : T) (rest : List T)
      → q.task_queue ≡ task ∷ rest
      → Move q check_w
          (record q { task_queue = rest; taken = q.taken ++ task ∷ [] })
          (unlock_w task)
  unlocked_w : {task : T} → Move q (unlock_w task) (record q { lock = false }) (run_w task)
  run_task : {task : T} → Move q (run_w task) (record q { ran = task ∷ q.ran }) lock_w
  push_task : (task : T) → Move q outside q (lock_p task)
  locked_p :
      {task : T} → q.lock ≡ false → Move q (lock_p task) (record q { lock = true }) (push_p task)
  pushed :
      {task : T}
      → Move q
          (push_p task)
          (record q { task_queue = q.task_queue ++ task ∷ []; pushed = q.pushed ++ task ∷ [] })
          signal_p
  unlocked_p : Move q unlock_p (record q { lock = false }) outside

abbrev pub sleeps : {T : Type 0} → Pc T → ℕ
sleeps asleep_w = 1
sleeps _ = 0

pub data Woken {T : Type 0} : Pc T → Pc T → Type 0 where
  of_wait : Woken asleep_w woken_w

-- The pool and all threads, in no order.
pub record System (T : Type 0) : Type 0 where
  pub pool : ThreadPool T
  pub threads : List (Pc T)

pub data Step {T : Type 0} (s t : System T) : Type 0 where
  pick :
      (before after : List (Pc T)) (p p' : Pc T)
      → s.threads ≡ before ++ p ∷ after
      → Move s.pool p t.pool p'
      → t.threads ≡ p' ∷ (before ++ after)
      → Step s t
  signal :
      (before after others : List (Pc T))
      → s.threads ≡ before ++ signal_p ∷ after
      → Wakes sleeps Woken (before ++ after) others
      → t.pool ≡ s.pool
      → t.threads ≡ unlock_p ∷ others
      → Step s t

-- What `num` workers, which `run` has started, and `n` other threads can reach.
pub data Reach {T : Type 0} (num n : ℕ) : System T → Type 0 where
  start :
      Reach num n (record { pool = init; threads = replicate num lock_w ++ replicate n outside })
  next : {s t : System T} → Reach num n s → Step s t → Reach num n t
