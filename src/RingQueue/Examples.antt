-- ===== src/RingQueue/Examples.antt =====
-- Two threads over a queue of two slots: the first pushes 7 and comes to store 8 while the second is
-- about to load 7.
use learn_in_linux.Common.{
  ℕ, ◌≤◌, ◌<◌, ◌≡◌, ◌≢◌, refl, true, false, List, [], ◌∷◌, ◌++◌, length, arith,
}
use learn_in_linux.RingQueue.{
  Queue, Pc, idle, lock_p, store, wrap_p, unlock_p, post_data, lock_c, load, Move, wait_space,
  locked_p, stored, wrapped_p, unlocked_p, posted_data, wait_data, locked_c, System, Step, pick,
  Reach, start, next,
}
use learn_in_linux.RingQueue.Safety.{first_in_first_out, slots_differ, no_deadlock}

-- One step of the first thread, and of the second.
first :
    {s : System ℕ} (p p' o : Pc ℕ) {q' : Queue ℕ}
    → Reach 0 2 2 s
    → s.threads ≡ p ∷ o ∷ []
    → Move 0 s.queue p q' p'
    → Reach 0 2 2 (record { queue = q'; threads = p' ∷ o ∷ [] })
first p p' o r e m = next r (pick [] (o ∷ []) p p' e m refl)

second :
    {s : System ℕ} (p p' o : Pc ℕ) {q' : Queue ℕ}
    → Reach 0 2 2 s
    → s.threads ≡ o ∷ p ∷ []
    → Move 0 s.queue p q' p'
    → Reach 0 2 2 (record { queue = q'; threads = o ∷ p' ∷ [] })
second p p' o r e m = next r (pick (o ∷ []) [] p p' e m refl)

abbrev queue_7 : Queue ℕ
queue_7 = record {
  ring = 7 ∷ 0 ∷ [];
  cap = 2;
  data_sem = 1;
  space_sem = 1;
  c_step = 0;
  p_step = 1;
  c_mutex = false;
  p_mutex = false;
  pushed = 7 ∷ [];
  popped = [];
}

pushed_7 : Reach 0 2 2 (record { queue = queue_7; threads = idle ∷ idle ∷ [] })
pushed_7 =
    first post_data idle idle
      (first unlock_p post_data idle
        (first wrap_p unlock_p idle
          (first (store 7) wrap_p idle
            (first (lock_p 7) (store 7) idle
              (first idle (lock_p 7) idle start refl (wait_space 7 (omega arith))) refl
              (locked_p refl))
            refl (stored (omega arith)))
          refl wrapped_p)
        refl unlocked_p)
      refl posted_data

abbrev queue_both : Queue ℕ
queue_both = record {
  ring = 7 ∷ 0 ∷ [];
  cap = 2;
  data_sem = 0;
  space_sem = 0;
  c_step = 0;
  p_step = 1;
  c_mutex = true;
  p_mutex = true;
  pushed = 7 ∷ [];
  popped = [];
}

abbrev both : System ℕ
both = record { queue = queue_both; threads = store 8 ∷ load ∷ [] }

both-Reach : Reach 0 2 2 both
both-Reach =
    second lock_c load (store 8)
      (second idle lock_c (store 8)
        (first (lock_p 8) (store 8) idle
          (first idle (lock_p 8) idle pushed_7 refl (wait_space 8 (omega arith))) refl
          (locked_p refl))
        refl (wait_data (omega arith)))
      refl (locked_c refl)

first_in_first_out_example : (waiting : List ℕ) × (7 ∷ [] ≡ [] ++ waiting) × (length waiting ≤ 2)
first_in_first_out_example = first_in_first_out (omega arith) both-Reach

slots_differ_example :
    (both.queue.p_step ≢ both.queue.c_step)
    × (1 < length queue_both.ring)
    × (0 < length queue_both.ring)
slots_differ_example =
    slots_differ (omega arith) both-Reach [] (load ∷ []) (store 8 ∷ []) [] 8 refl refl

abbrev at_store : Pc ℕ
at_store = store 8

abbrev at_load : Pc ℕ
at_load = load

no_deadlock_example : (t : System ℕ) × Step 0 both t
no_deadlock_example =
    no_deadlock (omega arith) both-Reach [] (load ∷ []) (store 8) refl (λ e. absurd (cc e))
