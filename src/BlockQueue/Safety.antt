-- ===== src/BlockQueue/Safety.antt =====
-- What every reachable state of the blocking queue promises, for any number of threads.
use learn_in_linux.Common.{
  ℕ, ◌+◌, ◌≤◌, ◌<◌, ◌≡◌, ◌⊎◌, inl, inr, refl, ap, true, false, List, [], ◌∷◌, ◌++◌, append_assoc,
  length, arith, Bool-cases, ◌==◌, ==_true, ==_false,
}
use native.Mathlib.Decide.{dec_lt}
use learn_in_linux.Common.Threads.{total, total-append, find_thread, bit, bit_le}
use learn_in_linux.BlockQueue.{
  BlockQueue, Pc, idle, lock_p, check_p, asleep_p, woken_p, signal_p, unlock_p, lock_c, check_c,
  asleep_c, woken_c, signal_c, unlock_c, Move, locked_p, is_full, stored, relocked_p, unlocked_p,
  locked_c, is_empty, taken, relocked_c, unlocked_c, sleeps_p, sleeps_c, System, Reach,
}
use learn_in_linux.BlockQueue.Weights.{holds, tries_p, tries_c, signals_p, signals_c}
use learn_in_linux.BlockQueue.Invariant.{Reach-Inv}

-- A thread that is inside of `push` or `pop` and does not sleep.
abbrev pub busy : {A : Type 0} → Pc A → ℕ
busy idle = 0
busy (asleep_p a) = 0
busy asleep_c = 0
busy _ = 1

-- Some busy thread is at a statement that it can execute now. A signal never waits.
abbrev pub CanRun : {A : Type 0} → System A → Type 0
CanRun {A} s =
    (before : List (Pc A)) × (p : Pc A) × (after : List (Pc A)) × (s.threads ≡ before ++ p ∷ after)
    × (0 < busy p)
    × (((q' : BlockQueue A) × (p' : Pc A) × Move s.queue p q' p') ⊎ (0 < signals_p p + signals_c p))

module _ {A : Type 0} {capacity n : ℕ} {s : System A} (r : Reach capacity n s) where
  -- First in, first out, and bounded: what was pushed is what was popped and then what the queue holds,
  -- which is never more than its capacity.
  pub bounded_fifo :
      (s.queue.pushed ≡ s.queue.popped ++ s.queue.bq) × (length s.queue.bq ≤ capacity)
  bounded_fifo = let v = Reach-Inv r in (v.fifo, v.bound)

  -- Two threads never hold the mutex at once.
  pub one_holder :
      (before between after : List (Pc A)) (p p' : Pc A)
      → s.threads ≡ before ++ p ∷ (between ++ p' ∷ after)
      → holds p + holds p' ≤ 1
  one_holder before between after p p' e =
      let first = total-append holds before (between ++ p' ∷ after) p in
      let second = total-append holds (before ++ between) after p' in
      let regrouped = ap (total holds) (append_assoc before between (p' ∷ after)) in
      omega (
        arith,
        (Reach-Inv r).lock,
        bit_le s.queue.mtx,
        ap (total holds) e,
        first,
        second,
        regrouped,
      )

  abbrev Runs : Pc A → Type 0
  Runs p =
      ((q' : BlockQueue A) × (p' : Pc A) × Move s.queue p q' p') ⊎ (0 < signals_p p + signals_c p)

  pop-Runs : (items : List A) → s.queue.bq ≡ items → Runs check_c
  pop-Runs [] e = inl (_, _, is_empty (ap length e))
  pop-Runs (a ∷ rest) e = inl (_, _, taken a rest e)

  -- Who holds the mutex can go on.
  holder-Runs : (p : Pc A) → 0 < holds p → (0 < busy p) × Runs p
  holder-Runs (check_p a) h = elim (Bool-cases (length s.queue.bq == s.queue.capacity)) [
    | inl q ↦ (omega arith, inl (_, _, is_full (==_true _ _ q)))
    | inr q ↦ (omega arith, inl (_, _, stored (==_false _ _ q)))
  ]
  holder-Runs signal_p h = (omega arith, inr (omega arith))
  holder-Runs unlock_p h = (omega arith, inl (_, _, unlocked_p))
  holder-Runs check_c h = (omega arith, pop-Runs s.queue.bq refl)
  holder-Runs signal_c h = (omega arith, inr (omega arith))
  holder-Runs unlock_c h = (omega arith, inl (_, _, unlocked_c))
  holder-Runs _ h = absurd (omega arith)

  someone_holds : s.queue.mtx ≡ true → CanRun s
  someone_holds locked =
      let (before, p, after, e, h) =
        find_thread holds s.threads (omega (arith, (Reach-Inv r).lock, ap bit locked)) in
      let (awake, runs) = holder-Runs p h in (before, p, after, e, awake, runs)

  -- A thread that wants the mutex takes it, or another one has it.
  wants_mutex :
      (before after : List (Pc A)) (p : Pc A)
      → s.threads ≡ before ++ p ∷ after
      → 0 < busy p
      → (s.queue.mtx ≡ false → Runs p)
      → CanRun s
  wants_mutex before after p e awake takes = elim (Bool-cases s.queue.mtx) [
    | inl locked ↦ someone_holds locked
    | inr open_ ↦ (before, p, after, e, awake, takes open_)
  ]

  -- No deadlock: where a thread is inside of `push` or `pop` and does not sleep, one such thread can
  -- execute its next statement.
  pub busy_runs :
      (before after : List (Pc A)) (p : Pc A)
      → s.threads ≡ before ++ p ∷ after
      → 0 < busy p
      → CanRun s
  busy_runs before after (lock_p a) e h =
      wants_mutex before after (lock_p a) e h (λ o. inl (_, _, locked_p o))
  busy_runs before after (woken_p a) e h =
      wants_mutex before after (woken_p a) e h (λ o. inl (_, _, relocked_p o))
  busy_runs before after lock_c e h =
      wants_mutex before after lock_c e h (λ o. inl (_, _, locked_c o))
  busy_runs before after woken_c e h =
      wants_mutex before after woken_c e h (λ o. inl (_, _, relocked_c o))
  busy_runs before after (check_p a) e h =
      (before, check_p a, after, e, h, (holder-Runs (check_p a) (omega arith)).1)
  busy_runs before after signal_p e h = (before, signal_p, after, e, h, inr (omega arith))
  busy_runs before after unlock_p e h = (before, unlock_p, after, e, h, inl (_, _, unlocked_p))
  busy_runs before after check_c e h = (before, check_c, after, e, h, pop-Runs s.queue.bq refl)
  busy_runs before after signal_c e h = (before, signal_c, after, e, h, inr (omega arith))
  busy_runs before after unlock_c e h = (before, unlock_c, after, e, h, inl (_, _, unlocked_c))
  busy_runs before after idle e h = absurd (omega arith)
  busy_runs before after (asleep_p a) e h = absurd (omega arith)
  busy_runs before after asleep_c e h = absurd (omega arith)

  -- A thread of a weight that only busy threads have.
  weighs_runs : (w : Pc A → ℕ) → ((p : Pc A) → w p ≤ busy p) → 0 < total w s.threads → CanRun s
  weighs_runs w below h =
      let (before, p, after, e, some) = find_thread w s.threads h in
      busy_runs before after p e (omega (arith, below p))

  -- No wakeup is lost: while a consumer sleeps though the queue holds a value, or a producer sleeps
  -- though it is not full, some other thread is inside, awake, and can execute its next statement.
  pub no_lost_wakeup :
      ((0 < total sleeps_c s.threads) × (0 < length s.queue.bq))
        ⊎ ((0 < total sleeps_p s.threads) × (length s.queue.bq < capacity))
      → CanRun s
  no_lost_wakeup (inl (asleep, filled)) = elim (Reach-Inv r).consumers [
    | inl awake ↦ absurd (omega arith)
    | inr some ↦ elim (dec_lt 0 (total tries_c s.threads)) [
      | yes h ↦ weighs_runs tries_c (λ p. ground arith) h
      | no h ↦ weighs_runs signals_p (λ p. ground arith) (omega arith)
    ]
  ]
  no_lost_wakeup (inr (asleep, room)) = elim (Reach-Inv r).producers [
    | inl awake ↦ absurd (omega arith)
    | inr some ↦ elim (dec_lt 0 (total tries_p s.threads)) [
      | yes h ↦ weighs_runs tries_p (λ p. ground arith) h
      | no h ↦ weighs_runs signals_c (λ p. ground arith) (omega arith)
    ]
  ]
