-- ===== src/RingQueue/Safety.antt =====
-- What every reachable state of the ring queue promises, for any number of threads.
use learn_in_linux.Common.{
  ℕ, ◌+◌, ◌%◌, ◌≤◌, ◌<◌, ◌≡◌, ◌≢◌, inl, inr, refl, sym, ap, ◌∙◌, List, ◌∷◌, ◌++◌, append_assoc,
  length, replicate, arith, Bool-cases,
}
use native.Mathlib.Nat.{mod-eq_of_lt}
use learn_in_linux.RingQueue.{
  Queue, Pc, idle, lock_p, store, wrap_p, unlock_p, post_data, lock_c, load, wrap_c, unlock_c,
  post_space, Move, locked_p, stored, wrapped_p, unlocked_p, posted_data, locked_c, loaded,
  wrapped_c, unlocked_c, posted_space, System, Step, pick, Reach,
}
use learn_in_linux.RingQueue.Window.{window, length-window, add-mod-ne}
use learn_in_linux.RingQueue.Invariant.{Reach-Inv}
use learn_in_linux.Common.Threads.{
  total, total-append, total-le, total-replicate, find_thread, bit, bit_le,
}
use learn_in_linux.RingQueue.Weights.{
  writing, written, reading, freed, in_push, in_pop, moved_p, moved_c, moved_p-le, moved_c-le,
}

module _ {A : Type 0} {d : A} {num n : ℕ} {s : System A} (pos : 0 < num) (r : Reach d num n s) where
  -- First in, first out: at any time what was popped is the beginning of what was pushed, and what is
  -- not popped yet are at most `num` values.
  pub first_in_first_out :
      (waiting : List A) × (s.queue.pushed ≡ s.queue.popped ++ waiting) × (length waiting ≤ num)
  first_in_first_out =
      let v = Reach-Inv pos r in
      let inside = window d num s.queue.ring (s.queue.c_step % num) v.held in
      (
        inside,
        v.fifo,
        omega (arith, v.spaces, length-window d num s.queue.ring (s.queue.c_step % num) v.held),
      )

  -- While no thread is inside of `push` or `pop`, the semaphores count the values that wait and the
  -- free slots.
  pub idle_counts :
      s.threads ≡ replicate n idle
      → (waiting : List A) × (s.queue.pushed ≡ s.queue.popped ++ waiting)
        × (s.queue.data_sem ≡ length waiting)
        × (s.queue.space_sem + length waiting ≡ num)
  idle_counts quiet =
      let v = Reach-Inv pos r in
      let inside = window d num s.queue.ring (s.queue.c_step % num) v.held in
      let none_of =
        λ (w : Pc A → ℕ) (h : w idle ≡ 0). ap (total w) quiet ∙ total-replicate w n idle h in
      let long = length-window d num s.queue.ring (s.queue.c_step % num) v.held in
      (
        inside,
        v.fifo,
        omega (arith, v.values, long, none_of reading refl, none_of written refl),
        omega (arith, v.spaces, long, none_of writing refl, none_of freed refl),
      )

  -- The weight of one thread and that of the others.
  parted :
      (w : Pc A → ℕ) (before after : List (Pc A)) (p : Pc A)
      → s.threads ≡ before ++ p ∷ after
      → total w s.threads ≡ w p + total w (before ++ after)
  parted w before after p e = ap (total w) e ∙ total-append w before after p

  store_ready :
      (before after : List (Pc A)) (a : A)
      → s.threads ≡ before ++ store a ∷ after
      → (s.queue.p_step < num)
        × (s.queue.p_step ≡ (s.queue.c_step + (Reach-Inv pos r).held) % num)
        × ((Reach-Inv pos r).held < num)
  store_ready before after a e =
      let v = Reach-Inv pos r in
      let p_in : s.queue.p_step < num = omega (
        arith,
        v.p_range,
        v.p_lock,
        bit_le s.queue.p_mutex,
        parted moved_p before after (store a) e,
        parted in_push before after (store a) e,
        total-le moved_p in_push moved_p-le (before ++ after),
      ) in
      (
        p_in,
        sym (mod-eq_of_lt p_in) ∙ v.apart,
        omega (arith, v.spaces, parted writing before after (store a) e),
      )

  load_ready :
      (before after : List (Pc A))
      → s.threads ≡ before ++ load ∷ after
      → (s.queue.c_step < num) × (0 < (Reach-Inv pos r).held)
  load_ready before after e =
      let v = Reach-Inv pos r in
      (
        omega (
          arith,
          v.c_range,
          v.c_lock,
          bit_le s.queue.c_mutex,
          parted moved_c before after load e,
          parted in_pop before after load e,
          total-le moved_c in_pop moved_c-le (before ++ after),
        ),
        omega (arith, v.values, parted reading before after load e),
      )

  -- A thread that is about to store and one that is about to load are never at the same slot, so a
  -- mutex for each end is enough; and both slots are inside of the ring.
  pub slots_differ :
      (b1 a1 b2 a2 : List (Pc A)) (input : A)
      → s.threads ≡ b1 ++ store input ∷ a1
      → s.threads ≡ b2 ++ load ∷ a2
      → (s.queue.p_step ≢ s.queue.c_step)
        × (s.queue.p_step < length s.queue.ring)
        × (s.queue.c_step < length s.queue.ring)
  slots_differ b1 a1 b2 a2 input e f =
      let v = Reach-Inv pos r in
      let (p_in, p_at, free) = store_ready b1 a1 input e in
      let (c_in, full) = load_ready b2 a2 f in
      (
        (λ same. add-mod-ne num s.queue.c_step v.held c_in full free (sym p_at ∙ same)),
        omega (arith, v.size, p_in),
        omega (arith, v.size, c_in),
      )

  -- Two threads are never both inside of the producers' mutex, nor both inside of the consumers'.
  mutual_exclusion :
      (before between after : List (Pc A)) (p p' : Pc A)
      → s.threads ≡ before ++ p ∷ (between ++ p' ∷ after)
      → (in_push p + in_push p' ≤ 1) × (in_pop p + in_pop p' ≤ 1)
  mutual_exclusion before between after p p' e =
      let v = Reach-Inv pos r in
      (
        omega (arith, v.p_lock, bit_le s.queue.p_mutex, two in_push),
        omega (arith, v.c_lock, bit_le s.queue.c_mutex, two in_pop),
      )
    where
      two :
          (w : Pc A → ℕ) → total w s.threads ≡ w p + (w p' + total w ((before ++ between) ++ after))
      two w =
          parted w before (between ++ p' ∷ after) p e
          ∙ ap (λ m. w p + m)
              (ap (total w) (sym (append_assoc before between (p' ∷ after)))
                ∙ total-append w (before ++ between) after p')

  abbrev Moves : Type 0
  Moves = (t : System A) × Step d s t

  by_move :
      (before after : List (Pc A)) {p p' : Pc A} {q' : Queue A}
      → s.threads ≡ before ++ p ∷ after
      → Move d s.queue p q' p'
      → Moves
  by_move before after {p} {p'} {q'} e mv =
      (record { queue = q'; threads = before ++ p' ∷ after }, pick before after p p' e mv refl)

  pusher_moves :
      (before after : List (Pc A)) (p : Pc A)
      → s.threads ≡ before ++ p ∷ after
      → 0 < in_push p
      → Moves
  pusher_moves before after (store a) e h =
      by_move before after e
        (stored (omega (arith, (Reach-Inv pos r).size, (store_ready before after a e).0)))
  pusher_moves before after wrap_p e h = by_move before after e wrapped_p
  pusher_moves before after unlock_p e h = by_move before after e unlocked_p
  pusher_moves before after _ e h = absurd (omega arith)

  popper_moves :
      (before after : List (Pc A)) (p : Pc A)
      → s.threads ≡ before ++ p ∷ after
      → 0 < in_pop p
      → Moves
  popper_moves before after load e h =
      by_move before after e
        (loaded (omega (arith, (Reach-Inv pos r).size, (load_ready before after e).0)))
  popper_moves before after wrap_c e h = by_move before after e wrapped_c
  popper_moves before after unlock_c e h = by_move before after e unlocked_c
  popper_moves before after _ e h = absurd (omega arith)

  -- No deadlock: as long as a thread is inside of `push` or `pop` behind its semaphore, some thread can
  -- make a step.
  pub no_deadlock :
      (before after : List (Pc A)) (p : Pc A)
      → s.threads ≡ before ++ p ∷ after
      → p ≢ idle
      → (t : System A) × Step d s t
  no_deadlock before after idle e h = absurd (h refl)
  no_deadlock before after (lock_p a) e h = elim (Bool-cases s.queue.p_mutex) [
    | inl locked ↦
        let (b, q, c, f, inside) =
          find_thread in_push s.threads (omega (arith, (Reach-Inv pos r).p_lock, ap bit locked)) in
        pusher_moves b c q f inside
    | inr open_ ↦ by_move before after e (locked_p open_)
  ]
  no_deadlock before after (store a) e h = pusher_moves before after (store a) e (omega arith)
  no_deadlock before after wrap_p e h = by_move before after e wrapped_p
  no_deadlock before after unlock_p e h = by_move before after e unlocked_p
  no_deadlock before after post_data e h = by_move before after e posted_data
  no_deadlock before after lock_c e h = elim (Bool-cases s.queue.c_mutex) [
    | inl locked ↦
        let (b, q, c, f, inside) =
          find_thread in_pop s.threads (omega (arith, (Reach-Inv pos r).c_lock, ap bit locked)) in
        popper_moves b c q f inside
    | inr open_ ↦ by_move before after e (locked_c open_)
  ]
  no_deadlock before after load e h = popper_moves before after load e (omega arith)
  no_deadlock before after wrap_c e h = by_move before after e wrapped_c
  no_deadlock before after unlock_c e h = by_move before after e unlocked_c
  no_deadlock before after post_space e h = by_move before after e posted_space
