-- ===== src/ThreadPool/Safety.antt =====
-- What every reachable state of the thread pool promises, for any number of workers and other threads.
use learn_in_linux.Common.{
  ℕ, ◌+◌, ◌≤◌, ◌<◌, ◌≡◌, ◌⊎◌, inl, inr, refl, ap, false, List, [], ◌∷◌, ◌++◌, length, arith,
  Bool-cases,
}
use native.Mathlib.Decide.{dec_lt}
use learn_in_linux.Common.Threads.{total, find_thread, bit}
use learn_in_linux.ThreadPool.{
  ThreadPool, Pc, lock_w, check_w, asleep_w, woken_w, unlock_w, run_w, outside, lock_p, push_p,
  signal_p, unlock_p, Move, locked_w, is_empty, relocked, get_task, unlocked_w, run_task, locked_p,
  pushed, unlocked_p, System, Reach,
}
use learn_in_linux.ThreadPool.Invariant.{holds, awake, signals, Reach-Inv}
use learn_in_linux.ThreadPool.Tasks.{weigh, carries, Reach-AreShared}

-- A thread that neither sleeps nor is outside of the pool.
abbrev pub busy : {T : Type 0} → Pc T → ℕ
busy asleep_w = 0
busy outside = 0
busy _ = 1

-- Some busy thread is at a statement that it can execute now. A signal never waits.
abbrev pub CanRun : {T : Type 0} → System T → Type 0
CanRun {T} s =
    (before : List (Pc T)) × (p : Pc T) × (after : List (Pc T)) × (s.threads ≡ before ++ p ∷ after)
    × (0 < busy p)
    × (((q' : ThreadPool T) × (p' : Pc T) × Move s.pool p q' p') ⊎ (0 < signals p))

module _ {T : Type 0} {num n : ℕ} {s : System T} (r : Reach num n s) where
  -- Every task is taken once, in the order of the pushes: what was pushed is what was taken and then what the
  -- queue holds. Of what was taken each task is with one worker or has been run, as often as it was taken: by any
  -- weight on tasks, such as one that counts a certain task, those that were taken weigh as much as those that
  -- the workers have and those that were run.
  pub tasks_once :
      (s.pool.pushed ≡ s.pool.taken ++ s.pool.task_queue)
      × ((f : T → ℕ) → weigh f s.pool.taken ≡ total (carries f) s.threads + weigh f s.pool.ran)
  tasks_once = let v = Reach-Inv r in (v.fifo, λ f. Reach-AreShared f r)

  abbrev Runs : Pc T → Type 0
  Runs p = ((q' : ThreadPool T) × (p' : Pc T) × Move s.pool p q' p') ⊎ (0 < signals p)

  check-Runs : (queue : List T) → s.pool.task_queue ≡ queue → Runs check_w
  check-Runs [] e = inl (_, _, is_empty (ap length e))
  check-Runs (t ∷ rest) e = inl (_, _, get_task t rest e)

  -- Who holds the mutex can go on.
  holder-Runs : (p : Pc T) → 0 < holds p → (0 < busy p) × Runs p
  holder-Runs check_w h = (omega arith, check-Runs s.pool.task_queue refl)
  holder-Runs (unlock_w t) h = (omega arith, inl (_, _, unlocked_w))
  holder-Runs (push_p t) h = (omega arith, inl (_, _, pushed))
  holder-Runs signal_p h = (omega arith, inr (omega arith))
  holder-Runs unlock_p h = (omega arith, inl (_, _, unlocked_p))
  holder-Runs _ h = absurd (omega arith)

  -- A thread that wants the mutex takes it, or another one has it.
  wants_mutex :
      (before after : List (Pc T)) (p : Pc T)
      → s.threads ≡ before ++ p ∷ after
      → 0 < busy p
      → (s.pool.lock ≡ false → Runs p)
      → CanRun s
  wants_mutex before after p e h takes = elim (Bool-cases s.pool.lock) [
    | inr free ↦ (before, p, after, e, h, takes free)
    | inl locked ↦
        let (b, q, a, f, k) =
          find_thread holds s.threads (omega (arith, (Reach-Inv r).mutex, ap bit locked)) in
        let (up, runs) = holder-Runs q k in (b, q, a, f, up, runs)
  ]

  -- Where a thread is busy, one can execute its next statement.
  busy_runs :
      (before after : List (Pc T)) (p : Pc T)
      → s.threads ≡ before ++ p ∷ after
      → 0 < busy p
      → CanRun s
  busy_runs before after lock_w e h =
      wants_mutex before after lock_w e h (λ o. inl (_, _, locked_w o))
  busy_runs before after woken_w e h =
      wants_mutex before after woken_w e h (λ o. inl (_, _, relocked o))
  busy_runs before after (lock_p t) e h =
      wants_mutex before after (lock_p t) e h (λ o. inl (_, _, locked_p o))
  busy_runs before after (run_w t) e h = (before, run_w t, after, e, h, inl (_, _, run_task))
  busy_runs before after check_w e h =
      (before, check_w, after, e, h, (holder-Runs check_w (omega arith)).1)
  busy_runs before after (unlock_w t) e h =
      (before, unlock_w t, after, e, h, inl (_, _, unlocked_w))
  busy_runs before after (push_p t) e h = (before, push_p t, after, e, h, inl (_, _, pushed))
  busy_runs before after signal_p e h = (before, signal_p, after, e, h, inr (omega arith))
  busy_runs before after unlock_p e h = (before, unlock_p, after, e, h, inl (_, _, unlocked_p))
  busy_runs before after asleep_w e h = absurd (omega arith)
  busy_runs before after outside e h = absurd (omega arith)

  weighs_runs : (w : Pc T → ℕ) → ((p : Pc T) → w p ≤ busy p) → 0 < total w s.threads → CanRun s
  weighs_runs w below h =
      let (before, p, after, e, some) = find_thread w s.threads h in
      busy_runs before after p e (omega (arith, below p))

  -- No task is forgotten: while a pool of one worker or more has a task in its queue, some thread in it is
  -- awake and can execute its next statement.
  pub no_task_forgotten : 0 < num → 0 < length s.pool.task_queue → CanRun s
  no_task_forgotten some_worker filled =
      let v = Reach-Inv r in
      elim (dec_lt 0 (total awake s.threads)) [
        | yes h ↦ weighs_runs awake (λ p. ground arith) h
        | no h ↦ weighs_runs signals (λ p. ground arith) (ground (arith, v.workers, v.someone))
      ]
