-- ===== src/RingQueue/Invariant.antt =====
-- What holds between any two statements: where every slot's token is, who holds a mutex, and that the
-- ring's window is what was pushed and not yet popped.
use learn_in_linux.Common.{
  ℕ, suc, ◌+◌, ◌-◌, ◌%◌, ◌≤◌, ◌<◌, ◌≡◌, refl, sym, ap, ◌∙◌, List, [], ◌∷◌, ◌++◌, append_assoc,
  length, get_or, set, replicate, length-set, length-replicate, arith,
}
use mathlib.Core.Path.{fun_ext}
use native.Mathlib.Nat.{mod-eq_of_lt, mod-add-mod, mod-mod, mod-lt}
use learn_in_linux.RingQueue.{
  Queue, init, Pc, idle, store, wrap_p, unlock_p, load, wrap_c, unlock_c, Move, wait_space,
  locked_p, stored, wrapped_p, unlocked_p, posted_data, wait_data, locked_c, loaded, wrapped_c,
  unlocked_c, posted_space, System, Step, pick, Reach, start, next,
}
use learn_in_linux.RingQueue.Window.{window, window-set}
use learn_in_linux.Common.Threads.{total, total-append, total-le, total-replicate, bit, bit_le}
use learn_in_linux.RingQueue.Weights.{
  writing, written, reading, freed, in_push, in_pop, moved_p, moved_c, moved_p-le, moved_c-le,
}

-- `W` gives the sum of a weight over all threads.
pub record Inv {A : Type 0} (d : A) (num : ℕ) (q : Queue A) (W : (Pc A → ℕ) → ℕ) : Type 0 where
  pub held : ℕ
  pub size : length q.ring ≡ num
  pub bound : q.cap ≡ num
  pub slots : 0 < num
  pub values : q.data_sem + W reading + W written ≡ held
  pub spaces : q.space_sem + W writing + W freed + held ≡ num
  pub p_lock : W in_push ≡ bit q.p_mutex
  pub c_lock : W in_pop ≡ bit q.c_mutex
  pub p_range : q.p_step < num + W moved_p
  pub c_range : q.c_step < num + W moved_c
  pub apart : q.p_step % num ≡ (q.c_step + held) % num
  pub fifo : q.pushed ≡ q.popped ++ window d num q.ring (q.c_step % num) held

mod_step : (n x y : ℕ) → x % n ≡ y % n → (x + 1) % n ≡ (y + 1) % n
mod_step n x y h = sym (mod-add-mod x n 1) ∙ ap (λ k. (k + 1) % n) h ∙ mod-add-mod y n 1

-- One thread at `p`, and the others.
abbrev sums : {A : Type 0} → Pc A → List (Pc A) → (Pc A → ℕ) → ℕ
sums p others w = w p + total w others

module _ {A : Type 0} (d : A) (num : ℕ) (q : Queue A) (others : List (Pc A)) where
  abbrev alone_p : total {P = Pc A} moved_p others ≤ total in_push others
  alone_p = total-le moved_p in_push moved_p-le others

  abbrev alone_c : total {P = Pc A} moved_c others ≤ total in_pop others
  alone_c = total-le moved_c in_pop moved_c-le others

  stored-Inv :
      (a : A)
      → Inv d num q (sums (store a) others)
      → Inv d num
          (record q {
            ring = set q.ring q.p_step a;
            p_step = q.p_step + 1;
            pushed = q.pushed ++ a ∷ [];
          })
          (sums wrap_p others)
  stored-Inv a v = record {
    held = v.held + 1;
    size = length-set q.ring q.p_step a ∙ v.size;
    bound = v.bound;
    slots = v.slots;
    values = omega arith;
    spaces = omega arith;
    p_lock = omega arith;
    c_lock = omega arith;
    p_range = omega (arith, alone_p, bit_le q.p_mutex);
    c_range = omega arith;
    apart = mod_step num q.p_step (q.c_step + v.held) v.apart ∙ ap (λ k. k % num) (omega arith);
    fifo = longer;
  }
    where
      room : v.held < num
      room = omega (arith, v.spaces)

      within : q.p_step < num
      within = omega (arith, alone_p, bit_le q.p_mutex, v.p_range, v.p_lock)

      longer :
          q.pushed ++ a ∷ []
          ≡ q.popped ++ window d num (set q.ring q.p_step a) (q.c_step % num) (v.held + 1)
      longer =
          let e : v.held + 1 ≡ suc v.held = omega arith in
          rw (
            v.fifo,
            append_assoc q.popped,
            e,
            window-set d num v.held (q.c_step % num) q.p_step q.ring a v.size
                (mod-lt q.c_step v.slots) room
                (sym (mod-eq_of_lt within) ∙ v.apart ∙ sym (mod-add-mod q.c_step num v.held)),
          )

  loaded-Inv :
      Inv d num q (sums load others)
      → Inv d num
          (record q { c_step = q.c_step + 1; popped = q.popped ++ get_or q.ring q.c_step d ∷ [] })
          (sums wrap_c others)
  loaded-Inv v = record {
    held = v.held - 1;
    size = v.size;
    bound = v.bound;
    slots = v.slots;
    values = omega arith;
    spaces = omega arith;
    p_lock = omega arith;
    c_lock = omega arith;
    p_range = omega arith;
    c_range = omega (arith, alone_c, bit_le q.c_mutex);
    apart = v.apart ∙ ap (λ k. k % num) (omega (arith, v.values));
    fifo = shorter;
  }
    where
      within : q.c_step < num
      within = omega (arith, alone_c, bit_le q.c_mutex, v.c_range, v.c_lock)

      one_more : v.held ≡ suc (v.held - 1)
      one_more = omega (arith, v.values)

      first :
          window d num q.ring (q.c_step % num) (suc (v.held - 1))
          ≡ get_or q.ring q.c_step d ∷ window d num q.ring ((q.c_step + 1) % num) (v.held - 1)
      first = rw (mod-eq_of_lt within)

      shorter :
          q.pushed
          ≡ (q.popped ++ get_or q.ring q.c_step d ∷ [])
            ++ window d num q.ring ((q.c_step + 1) % num) (v.held - 1)
      shorter =
          v.fifo
          ∙ ap (λ w. q.popped ++ w) (ap (window d num q.ring (q.c_step % num)) one_more ∙ first)
          ∙ sym (append_assoc q.popped (get_or q.ring q.c_step d ∷ []) _)

  wrapped_p-Inv :
      Inv d num q (sums wrap_p others)
      → Inv d num (record q { p_step = q.p_step % q.cap }) (sums unlock_p others)
  wrapped_p-Inv v = record {
    held = v.held;
    size = v.size;
    bound = v.bound;
    slots = v.slots;
    values = omega arith;
    spaces = omega arith;
    p_lock = omega arith;
    c_lock = omega arith;
    p_range = rw v.bound (omega (arith, mod-lt q.p_step v.slots));
    c_range = omega arith;
    apart = rw v.bound (mod-mod q.p_step num ∙ v.apart);
    fifo = v.fifo;
  }

  wrapped_c-Inv :
      Inv d num q (sums wrap_c others)
      → Inv d num (record q { c_step = q.c_step % q.cap }) (sums unlock_c others)
  wrapped_c-Inv v = record {
    held = v.held;
    size = v.size;
    bound = v.bound;
    slots = v.slots;
    values = omega arith;
    spaces = omega arith;
    p_lock = omega arith;
    c_lock = omega arith;
    p_range = omega arith;
    c_range = rw v.bound (omega (arith, mod-lt q.c_step v.slots));
    apart = rw v.bound (v.apart ∙ sym (mod-add-mod q.c_step num v.held));
    fifo = rw (v.bound, mod-mod q.c_step num) v.fifo;
  }

  -- Every statement keeps the invariant.
  Move-Inv :
      {p p' : Pc A} {q' : Queue A}
      → Move d q p q' p'
      → Inv d num q (sums p others)
      → Inv d num q' (sums p' others)
  Move-Inv (wait_space a h) v = ground (arith, v.fifo)
  Move-Inv (locked_p h) v = ground (arith, v.fifo)
  Move-Inv (stored {input} h) v = stored-Inv input v
  Move-Inv wrapped_p v = wrapped_p-Inv v
  Move-Inv unlocked_p v = ground (arith, v.fifo)
  Move-Inv posted_data v = ground (arith, v.fifo)
  Move-Inv (wait_data h) v = ground (arith, v.fifo)
  Move-Inv (locked_c h) v = ground (arith, v.fifo)
  Move-Inv (loaded h) v = loaded-Inv v
  Move-Inv wrapped_c v = wrapped_c-Inv v
  Move-Inv unlocked_c v = ground (arith, v.fifo)
  Move-Inv posted_space v = ground (arith, v.fifo)

-- Every statement of any thread keeps the invariant of the queue and all its threads.
pub Step-Inv :
    {A : Type 0} {d : A} (num : ℕ) {s t : System A}
    → Step d s t
    → Inv d num s.queue (λ w. total w s.threads)
    → Inv d num t.queue (λ w. total w t.threads)
Step-Inv {d} num {s} {t} (pick before after p p' e mv g) v =
    rw (g, regroup p') (Move-Inv d num s.queue (before ++ after) mv (rw (e, regroup p) at v))
  where
    regroup :
        (x : Pc _) → (λ (w : Pc _ → ℕ). total w (before ++ x ∷ after)) ≡ sums x (before ++ after)
    regroup x = fun_ext λ w. total-append w before after x

-- A new queue of one slot or more, with idle threads, has the invariant.
pub init-Inv :
    {A : Type 0} (d : A) (num n : ℕ)
    → 0 < num
    → Inv d num (init d num) (λ w. total w (replicate n idle))
init-Inv d num n h = record {
  held = 0;
  size = length-replicate num d;
  bound = refl;
  slots = h;
  values = omega (
    arith,
    total-replicate {P = Pc _} reading n idle refl,
    total-replicate {P = Pc _} written n idle refl,
  );
  spaces = omega (
    arith,
    total-replicate {P = Pc _} writing n idle refl,
    total-replicate {P = Pc _} freed n idle refl,
  );
  p_lock = total-replicate in_push n idle refl;
  c_lock = total-replicate in_pop n idle refl;
  p_range = omega arith;
  c_range = omega arith;
  apart = refl;
  fifo = refl;
}

pub Reach-Inv :
    {A : Type 0} {d : A} {num n : ℕ} {s : System A}
    → 0 < num
    → Reach d num n s
    → Inv d num s.queue (λ w. total w s.threads)
Reach-Inv {d} {num} {n} h start = init-Inv d num n h
Reach-Inv {num} h (next r st) = Step-Inv num st (Reach-Inv h r)
