-- ===== src/BlockQueue/Invariant.antt =====
-- What holds between any two statements: who has the mutex, what the queue holds, and that a sleeper
-- is not forgotten.
use learn_in_linux.Common.{
  ℕ, ◌+◌, ◌≤◌, ◌≡◌, ◌≢◌, ◌⊎◌, inl, refl, sym, ap, ◌∙◌, List, [], ◌∷◌, ◌++◌, append_assoc, length,
  length-append, arith,
}
use learn_in_linux.Common.Threads.{
  total, total-replicate, bit, sums, told_apart, told_apart_two, Wakes, nobody, one,
}
use learn_in_linux.BlockQueue.{
  BlockQueue, Pc, idle, check_p, asleep_p, signal_p, unlock_p, check_c, asleep_c, signal_c,
  unlock_c, Move, call_push, locked_p, is_full, stored, spurious_p, relocked_p, unlocked_p,
  call_pop, locked_c, is_empty, taken, spurious_c, relocked_c, unlocked_c, sleeps_p, sleeps_c,
  WokenP, of_full, WokenC, of_empty, System, Step, pick, signal_empty, signal_full, Reach, start,
  next,
}
use learn_in_linux.BlockQueue.Weights.{holds, tries_p, tries_c, signals_p, signals_c}

-- `W` gives the sum of a weight over all threads.
pub record Inv {A : Type 0} (capacity : ℕ) (q : BlockQueue A) (W : (Pc A → ℕ) → ℕ) : Type 0 where
  pub same : q.capacity ≡ capacity
  pub bound : length q.bq ≤ capacity
  pub lock : W holds ≡ bit q.mtx
  pub fifo : q.pushed ≡ q.popped ++ q.bq
  pub consumers : (W sleeps_c ≡ 0) ⊎ (length q.bq ≤ W tries_c + W signals_p)
  pub producers : (W sleeps_p ≡ 0) ⊎ (capacity ≤ length q.bq + W tries_p + W signals_c)

module _ {A : Type 0} (capacity : ℕ) (q : BlockQueue A) (others : List (Pc A)) where
  stored-Inv :
      (a : A)
      → length q.bq ≢ q.capacity
      → Inv capacity q (sums (check_p a) others)
      → Inv capacity
          (record q { bq = q.bq ++ a ∷ []; pushed = q.pushed ++ a ∷ [] })
          (sums signal_p others)
  stored-Inv a h v =
      let longer : length (q.bq ++ a ∷ []) ≡ length q.bq + 1 = length-append q.bq (a ∷ []) in
      record {
        same = v.same;
        bound = omega arith;
        lock = omega arith;
        fifo = ap (λ l. l ++ a ∷ []) v.fifo ∙ append_assoc q.popped q.bq (a ∷ []);
        consumers = ground (arith, v.consumers);
        producers = ground (arith, v.producers);
      }

  taken-Inv :
      (a : A) (rest : List A)
      → q.bq ≡ a ∷ rest
      → Inv capacity q (sums check_c others)
      → Inv capacity (record q { bq = rest; popped = q.popped ++ a ∷ [] }) (sums signal_c others)
  taken-Inv a rest e v =
      let long : length q.bq ≡ length (a ∷ rest) = ap length e in
      record {
        same = v.same;
        bound = omega arith;
        lock = omega arith;
        fifo = v.fifo ∙ ap (λ l. q.popped ++ l) e ∙ sym (append_assoc q.popped (a ∷ []) rest);
        consumers = ground (arith, v.consumers);
        producers = ground (arith, v.producers);
      }

  -- Every statement keeps the invariant.
  Move-Inv :
      {p p' : Pc A} {q' : BlockQueue A}
      → Move q p q' p'
      → Inv capacity q (sums p others)
      → Inv capacity q' (sums p' others)
  Move-Inv (call_push a) v = ground (arith, v.fifo)
  Move-Inv (locked_p h) v = ground (arith, v.fifo)
  Move-Inv (is_full h) v = ground (arith, v.fifo)
  Move-Inv (stored {input} h) v = stored-Inv input h v
  Move-Inv spurious_p v = ground (arith, v.fifo)
  Move-Inv (relocked_p h) v = ground (arith, v.fifo)
  Move-Inv unlocked_p v = ground (arith, v.fifo)
  Move-Inv call_pop v = ground (arith, v.fifo)
  Move-Inv (locked_c h) v = ground (arith, v.fifo)
  Move-Inv (is_empty h) v = ground (arith, v.fifo)
  Move-Inv (taken a rest e) v = taken-Inv a rest e v
  Move-Inv spurious_c v = ground (arith, v.fifo)
  Move-Inv (relocked_c h) v = ground (arith, v.fifo)
  Move-Inv unlocked_c v = ground (arith, v.fifo)

-- A signal keeps it: the count of who will still look at the queue goes from the signaller to the one
-- that it wakes, and if there is none to wake nobody sleeps.
module _ {A : Type 0} (capacity : ℕ) (q : BlockQueue A) (others : List (Pc A)) where
  signal_empty-Inv :
      {others' : List (Pc A)}
      → Wakes sleeps_c WokenC others others'
      → Inv capacity q (sums signal_p others)
      → Inv capacity q (sums unlock_p others')
  unfolding total
  signal_empty-Inv (nobody none_asleep) v = ground (arith, v.fifo)
  signal_empty-Inv (one before after p p' e of_empty) v =
      let u = told_apart_two (Inv capacity q) others before after signal_p asleep_c e v in
      ground (arith, u.fifo)

  signal_full-Inv :
      {others' : List (Pc A)}
      → Wakes sleeps_p WokenP others others'
      → Inv capacity q (sums signal_c others)
      → Inv capacity q (sums unlock_c others')
  unfolding total
  signal_full-Inv (nobody none_asleep) v = ground (arith, v.fifo)
  signal_full-Inv (one before after p p' e (of_full {input})) v =
      let u = told_apart_two (Inv capacity q) others before after signal_c (asleep_p input) e v in
      ground (arith, u.fifo)

-- Every step of any thread keeps the invariant of the queue and all its threads.
pub Step-Inv :
    {A : Type 0} (capacity : ℕ) {s t : System A}
    → Step s t
    → Inv capacity s.queue (λ w. total w s.threads)
    → Inv capacity t.queue (λ w. total w t.threads)
unfolding total
Step-Inv {A} capacity {s} {t} step v = by_step step
  where
    by_step : Step s t → Inv capacity t.queue (λ w. total w t.threads)
    by_step (pick before after p p' e mv g) = rw g (
        Move-Inv capacity s.queue (before ++ after) mv
          (told_apart (Inv capacity s.queue) s.threads before after p e v))
    by_step (signal_empty before after others e wakes same g) =
        rw (g, same)
          (signal_empty-Inv capacity s.queue (before ++ after) wakes
            (told_apart (Inv capacity s.queue) s.threads before after signal_p e v))
    by_step (signal_full before after others e wakes same g) =
        rw (g, same)
          (signal_full-Inv capacity s.queue (before ++ after) wakes
            (told_apart (Inv capacity s.queue) s.threads before after signal_c e v))

pub Reach-Inv :
    {A : Type 0} {capacity n : ℕ} {s : System A}
    → Reach capacity n s
    → Inv capacity s.queue (λ w. total w s.threads)
Reach-Inv {A} {capacity} {n} start =
    let none_of = λ (w : Pc A → ℕ) (h : w idle ≡ 0). total-replicate w n idle h in
    record {
      same = refl;
      bound = omega arith;
      lock = none_of holds refl;
      fifo = refl;
      consumers = inl (none_of sleeps_c refl);
      producers = inl (none_of sleeps_p refl);
    }
Reach-Inv {capacity} (next r st) = Step-Inv capacity st (Reach-Inv r)
