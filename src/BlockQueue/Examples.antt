-- ===== src/BlockQueue/Examples.antt =====
-- Two threads over a queue of one value: one sleeps in `pop`, the other has pushed 7 and is about to
-- signal.
use learn_in_linux.Common.{ℕ, ◌≤◌, ◌≡◌, refl, inl, true, List, [], ◌∷◌, ◌++◌, length, arith}
use learn_in_linux.Common.Threads.{total}
use learn_in_linux.BlockQueue.{
  BlockQueue, Pc, idle, lock_p, check_p, signal_p, lock_c, check_c, asleep_c, Move, call_push,
  locked_p, stored, call_pop, locked_c, is_empty, System, pick, Reach, start, next,
}
use learn_in_linux.BlockQueue.Safety.{CanRun, bounded_fifo, no_lost_wakeup}

-- A step of the thread `p` beside one other.
acts :
    {s : System ℕ} (before after : List (Pc ℕ)) (p p' : Pc ℕ) {q' : BlockQueue ℕ}
    → Reach 1 2 s
    → s.threads ≡ before ++ p ∷ after
    → Move s.queue p q' p'
    → Reach 1 2 (record { queue = q'; threads = p' ∷ (before ++ after) })
acts before after p p' r e m = next r (pick before after p p' e m refl)

abbrev signalling : System ℕ
signalling = record {
  queue = record { bq = 7 ∷ []; capacity = 1; mtx = true; pushed = 7 ∷ []; popped = [] };
  threads = signal_p ∷ asleep_c ∷ [];
}

signalling_Reach : Reach 1 2 signalling
signalling_Reach =
    let r1 = acts [] (idle ∷ []) idle lock_c start refl call_pop in
    let r2 = acts [] (idle ∷ []) lock_c check_c r1 refl (locked_c refl) in
    let r3 = acts [] (idle ∷ []) check_c asleep_c r2 refl (is_empty refl) in
    let r4 = acts (asleep_c ∷ []) [] idle (lock_p 7) r3 refl (call_push 7) in
    let r5 = acts [] (asleep_c ∷ []) (lock_p 7) (check_p 7) r4 refl (locked_p refl) in
    acts [] (asleep_c ∷ []) (check_p 7) signal_p r5 refl (stored (λ e. absurd (omega arith)))

bounded_fifo_example : (7 ∷ [] ≡ [] ++ signalling.queue.bq) × (length signalling.queue.bq ≤ 1)
bounded_fifo_example = bounded_fifo signalling_Reach

no_lost_wakeup_example : CanRun signalling
unfolding total
no_lost_wakeup_example = no_lost_wakeup signalling_Reach (inl (omega arith, omega arith))
