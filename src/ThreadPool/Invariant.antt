-- ===== src/ThreadPool/Invariant.antt =====
-- What holds between any two statements: who has the mutex, that no worker is lost, and that the tasks
-- leave the queue in their order.
use learn_in_linux.Common.{
  ℕ, suc, ◌+◌, ◌<◌, ◌≡◌, ◌⊎◌, inl, inr, refl, sym, ap, ◌∙◌, List, [], ◌∷◌, ◌++◌, append_assoc,
  length, replicate, zero, arith,
}
use learn_in_linux.Common.Threads.{
  total, total-replicate, bit, sums, told_apart, told_apart_two, Wakes, nobody, one,
}
use learn_in_linux.ThreadPool.{
  ThreadPool, Pc, lock_w, check_w, asleep_w, woken_w, unlock_w, run_w, outside, push_p, signal_p,
  unlock_p, Move, locked_w, is_empty, spurious, relocked, get_task, unlocked_w, run_task, push_task,
  locked_p, pushed, unlocked_p, sleeps, Woken, of_wait, System, Step, pick, signal, Reach, start,
  next,
}

module _ {T : Type 0} where
  -- A thread that holds the mutex; a worker that does not sleep; a thread that is
  -- about to signal.
  abbrev pub holds : Pc T → ℕ
  holds check_w = 1
  holds (unlock_w t) = 1
  holds (push_p t) = 1
  holds signal_p = 1
  holds unlock_p = 1
  holds _ = 0

  abbrev pub awake : Pc T → ℕ
  awake lock_w = 1
  awake check_w = 1
  awake woken_w = 1
  awake (unlock_w t) = 1
  awake (run_w t) = 1
  awake _ = 0

  abbrev pub signals : Pc T → ℕ
  signals signal_p = 1
  signals _ = 0

-- `W` gives the sum of a weight over all threads.
pub record Inv {T : Type 0} (num : ℕ) (q : ThreadPool T) (W : (Pc T → ℕ) → ℕ) : Type 0 where
  pub mutex : W holds ≡ bit q.lock
  pub workers : W awake + W sleeps ≡ num
  pub fifo : q.pushed ≡ q.taken ++ q.task_queue
  pub someone : (W sleeps ≡ 0) ⊎ ((length q.task_queue ≡ 0) ⊎ (0 < W awake + W signals))

module _ {T : Type 0} (num : ℕ) (q : ThreadPool T) (others : List (Pc T)) where
  get_task-Inv :
      (t : T) (rest : List T)
      → q.task_queue ≡ t ∷ rest
      → Inv num q (sums check_w others)
      → Inv num
          (record q { task_queue = rest; taken = q.taken ++ t ∷ [] })
          (sums (unlock_w t) others)
  get_task-Inv t rest e v = record {
    mutex = omega arith;
    workers = omega arith;
    fifo = v.fifo ∙ ap (λ l. q.taken ++ l) e ∙ sym (append_assoc q.taken (t ∷ []) rest);
    someone = inr (inr (omega arith));
  }

  pushed-Inv :
      (t : T)
      → Inv num q (sums (push_p t) others)
      → Inv num
          (record q { task_queue = q.task_queue ++ t ∷ []; pushed = q.pushed ++ t ∷ [] })
          (sums signal_p others)
  pushed-Inv t v = record {
    mutex = omega arith;
    workers = omega arith;
    fifo = ap (λ l. l ++ t ∷ []) v.fifo ∙ append_assoc q.taken q.task_queue (t ∷ []);
    someone = inr (inr (omega arith));
  }

  -- Every statement keeps the invariant.
  Move-Inv :
      {p p' : Pc T} {q' : ThreadPool T}
      → Move q p q' p'
      → Inv num q (sums p others)
      → Inv num q' (sums p' others)
  Move-Inv (locked_w h) v = ground (arith, v.fifo, v.someone)
  Move-Inv (is_empty h) v = ground (arith, v.fifo, v.someone)
  Move-Inv spurious v = ground (arith, v.fifo, v.someone)
  Move-Inv (relocked h) v = ground (arith, v.fifo, v.someone)
  Move-Inv (get_task t rest e) v = get_task-Inv t rest e v
  Move-Inv unlocked_w v = ground (arith, v.fifo, v.someone)
  Move-Inv run_task v = ground (arith, v.fifo, v.someone)
  Move-Inv (push_task t) v = ground (arith, v.fifo, v.someone)
  Move-Inv (locked_p h) v = ground (arith, v.fifo, v.someone)
  Move-Inv (pushed {task}) v = pushed-Inv task v
  Move-Inv unlocked_p v = ground (arith, v.fifo, v.someone)

  signal-Inv :
      {others' : List (Pc T)}
      → Wakes sleeps Woken others others'
      → Inv num q (sums signal_p others)
      → Inv num q (sums unlock_p others')
  unfolding total
  signal-Inv (nobody none_asleep) v = ground (arith, v.fifo, v.someone)
  signal-Inv (one before after p p' e of_wait) v =
      let u = told_apart_two (Inv num q) others before after signal_p asleep_w e v in
      ground (arith, u.fifo, u.someone)

pub Step-Inv :
    {T : Type 0} (num : ℕ) {s t : System T}
    → Step s t
    → Inv num s.pool (λ w. total w s.threads)
    → Inv num t.pool (λ w. total w t.threads)
unfolding total
Step-Inv num {s} {t} (pick before after p p' e mv g) v = rw g (
    Move-Inv num s.pool (before ++ after) mv
      (told_apart (Inv num s.pool) s.threads before after p e v))
Step-Inv num {s} {t} (signal before after others e wakes same g) v =
    rw (g, same)
      (signal-Inv num s.pool (before ++ after) wakes
        (told_apart (Inv num s.pool) s.threads before after signal_p e v))

pub total-append_list :
    {P : Type 0} (w : P → ℕ) (ps qs : List P) → total w (ps ++ qs) ≡ total w ps + total w qs
unfolding total
total-append_list w [] qs = omega arith
total-append_list w (p ∷ ps) qs = omega (arith, total-append_list w ps qs)

total_same : {P : Type 0} (w : P → ℕ) (n : ℕ) (p : P) → w p ≡ 1 → total w (replicate n p) ≡ n
unfolding total
total_same w zero p h = refl
total_same w (suc n) p h = omega (arith, h, total_same w n p h)

pub Reach-Inv :
    {T : Type 0} {num n : ℕ} {s : System T}
    → Reach num n s
    → Inv num s.pool (λ w. total w s.threads)
Reach-Inv {T} {num} {n} start =
    let parts =
      λ (w : Pc T → ℕ). total-append_list w (replicate num lock_w) (replicate n outside) in
    let none_of = λ (w : Pc T → ℕ) (h : w lock_w ≡ 0) (k : w outside ≡ 0).
      parts w
      ∙ ap (λ m. m + total w (replicate n outside)) (total-replicate w num lock_w h)
      ∙ ap (λ m. 0 + m) (total-replicate w n outside k) in
    record {
      mutex = none_of holds refl refl;
      workers = omega (
        arith,
        parts awake,
        total_same awake num lock_w refl,
        total-replicate awake n outside refl,
        none_of sleeps refl refl,
      );
      fifo = refl;
      someone = inl (none_of sleeps refl refl);
    }
Reach-Inv {num} (next r st) = Step-Inv num st (Reach-Inv r)
