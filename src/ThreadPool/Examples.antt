-- ===== src/ThreadPool/Examples.antt =====
-- One worker, which sleeps, beside a thread that has pushed the task 7 and is about to signal; and two
-- threads that ask for the pool at once.
use learn_in_linux.Common.{ℕ, ◌+◌, ◌≡◌, refl, true, false, some, List, [], ◌∷◌, ◌++◌, arith}
use learn_in_linux.Common.Threads.{total, nobody}
use learn_in_linux.ThreadPool.{
  ThreadPool, Pc, lock_w, check_w, asleep_w, outside, lock_p, push_p, signal_p, unlock_p, unlock_w,
  run_w, get_task, unlocked_w, unlocked_p, signal, Move, locked_w, is_empty, push_task, locked_p,
  pushed, System, pick, Reach, start, next,
}
use learn_in_linux.ThreadPool.Tasks.{weigh, carries}
use learn_in_linux.ThreadPool.Safety.{CanRun, tasks_once, no_task_forgotten}
use learn_in_linux.ThreadPool.Singleton.{
  Shared, Asking, first_test, lock_mutex, second_test, make, unlock_mutex, return_ptr, got, Ask,
  not_there, locked, still_not_there, made, unlocked, returned, Reached, at_start, asks, singleton,
}

-- A step of the thread `p` beside one other.
acts :
    {s : System ℕ} (before after : List (Pc ℕ)) (p p' : Pc ℕ) {q' : ThreadPool ℕ}
    → Reach 1 1 s
    → s.threads ≡ before ++ p ∷ after
    → Move s.pool p q' p'
    → Reach 1 1 (record { pool = q'; threads = p' ∷ (before ++ after) })
acts before after p p' r e m = next r (pick before after p p' e m refl)

abbrev signalling : System ℕ
signalling = record {
  pool = record { task_queue = 7 ∷ []; lock = true; pushed = 7 ∷ []; taken = []; ran = [] };
  threads = signal_p ∷ asleep_w ∷ [];
}

signalling_Reach : Reach 1 1 signalling
signalling_Reach =
    let r1 = acts [] (outside ∷ []) lock_w check_w start refl (locked_w refl) in
    let r2 = acts [] (outside ∷ []) check_w asleep_w r1 refl (is_empty refl) in
    let r3 = acts (asleep_w ∷ []) [] outside (lock_p 7) r2 refl (push_task 7) in
    let r4 = acts [] (asleep_w ∷ []) (lock_p 7) (push_p 7) r3 refl (locked_p refl) in
    acts [] (asleep_w ∷ []) (push_p 7) signal_p r4 refl pushed

-- A worker has taken the task 7 and left the mutex.
abbrev working : System ℕ
working = record {
  pool = record { task_queue = []; lock = false; pushed = 7 ∷ []; taken = 7 ∷ []; ran = [] };
  threads = run_w 7 ∷ outside ∷ [];
}

-- The push behind its signal, which woke nobody.
abbrev signalled : System ℕ
signalled = record {
  pool = record { task_queue = 7 ∷ []; lock = true; pushed = 7 ∷ []; taken = []; ran = [] };
  threads = unlock_p ∷ lock_w ∷ [];
}

working_Reach : Reach 1 1 working
unfolding total
working_Reach =
    let r1 = acts (lock_w ∷ []) [] outside (lock_p 7) start refl (push_task 7) in
    let r2 = acts [] (lock_w ∷ []) (lock_p 7) (push_p 7) r1 refl (locked_p refl) in
    let r3 = acts [] (lock_w ∷ []) (push_p 7) signal_p r2 refl pushed in
    let r4 : Reach 1 1 signalled =
      next r3 (signal [] (lock_w ∷ []) (lock_w ∷ []) refl (nobody refl) refl refl) in
    let r5 = acts [] (lock_w ∷ []) unlock_p outside r4 refl unlocked_p in
    let r6 = acts (outside ∷ []) [] lock_w check_w r5 refl (locked_w refl) in
    let r7 = acts [] (outside ∷ []) check_w (unlock_w 7) r6 refl (get_task 7 [] refl) in
    acts [] (outside ∷ []) (unlock_w 7) (run_w 7) r7 refl unlocked_w

tasks_once_example :
    (working.pool.pushed ≡ working.pool.taken ++ working.pool.task_queue)
    × ((f : ℕ → ℕ)
        → weigh f working.pool.taken ≡ total (carries f) working.threads + weigh f working.pool.ran)
tasks_once_example = tasks_once working_Reach

no_task_forgotten_example : CanRun signalling
no_task_forgotten_example = no_task_forgotten signalling_Reach (omega arith) (omega arith)

-- A step of the thread at the head of two.
asks_first :
    {q q' : Shared} (p p' other : Asking)
    → Reached 2 q (p ∷ other ∷ [])
    → Ask q p q' p'
    → Reached 2 q' (p' ∷ other ∷ [])
asks_first p p' other r a = asks [] (other ∷ []) p p' r refl a refl

abbrev pool_made : Shared
pool_made = record { thread_ptr = some 0; mutex = false; created = 1 }

-- The other thread has seen no pool either and waits for the mutex.
pool_made-Reached : Reached 2 pool_made (got 0 ∷ lock_mutex ∷ [])
pool_made-Reached =
    let r1 = asks_first first_test lock_mutex first_test at_start (not_there refl) in
    let r2 = asks (lock_mutex ∷ []) [] first_test lock_mutex r1 refl (not_there refl) refl in
    let r3 = asks_first lock_mutex second_test lock_mutex r2 (locked refl) in
    let r4 = asks_first second_test make lock_mutex r3 (still_not_there refl) in
    let r5 = asks_first make unlock_mutex lock_mutex r4 made in
    let r6 = asks_first unlock_mutex return_ptr lock_mutex r5 unlocked in
    asks_first return_ptr (got 0) lock_mutex r6 (returned refl)

singleton_example : (pool_made.created ≡ 1) × (pool_made.thread_ptr ≡ some 0)
singleton_example = singleton pool_made-Reached [] (lock_mutex ∷ []) 0 refl
