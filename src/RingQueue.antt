-- ===== src/RingQueue.antt =====
-- importent-code/UdpSocket/RingQueue.hpp: a bounded queue for many producers and consumers, over a
-- ring of slots, two counting semaphores and two mutexes. Threads interleave between any two of the
-- steps below. The same class stands in importent-code/RingQueue/RingQueue.hpp, 11-11/RingQueue and
-- 重要的代码/RingQueue, with its fields under other names.
pub mod Window
pub mod Weights
pub mod Invariant
pub mod Safety
mod Examples
use learn_in_linux.Common.{
  ℕ, suc, ◌+◌, ◌-◌, ◌%◌, ◌<◌, ◌≡◌, Bool, true, false, List, [], ◌∷◌, ◌++◌, length, get_or, set,
  replicate,
}

-- The queue's fields. A semaphore is its value, a mutex whether it is held. `pushed` and `popped` are
-- no fields of the class: they record the values that were stored and read, oldest first.
pub record Queue (A : Type 0) : Type 0 where
  pub ring : List A
  pub cap : ℕ
  pub data_sem : ℕ
  pub space_sem : ℕ
  pub c_step : ℕ
  pub p_step : ℕ
  pub c_mutex : Bool
  pub p_mutex : Bool
  pub pushed : List A
  pub popped : List A

-- `RingQueue(num)`; `d` is the value `T()` of the slots.
abbrev pub init : {A : Type 0} → A → ℕ → Queue A
init d num = record {
  ring = replicate num d;
  cap = num;
  data_sem = 0;
  space_sem = num;
  c_step = 0;
  p_step = 0;
  c_mutex = false;
  p_mutex = false;
  pushed = [];
  popped = [];
}

-- Where a thread stands: outside of both functions, or before the named statement of `push(in)` or of
-- `pop`.
pub data Pc (A : Type 0) : Type 0 where
  idle : Pc A
  lock_p : (input : A) → Pc A
  store : (input : A) → Pc A
  wrap_p unlock_p post_data : Pc A
  lock_c load wrap_c unlock_c post_space : Pc A

-- One statement of one thread. A `P` waits until the semaphore is positive, a `Lock` until the mutex
-- is free; an access out of the ring's range has no rule. `d` is never read.
pub data Move {A : Type 0} (d : A) (q : Queue A) : Pc A → Queue A → Pc A → Type 0 where
  wait_space :
      (input : A)
      → 0 < q.space_sem
      → Move d q idle (record q { space_sem = q.space_sem - 1 }) (lock_p input)
  locked_p :
      {input : A}
      → q.p_mutex ≡ false
      → Move d q (lock_p input) (record q { p_mutex = true }) (store input)
  stored :
      {input : A}
      → q.p_step < length q.ring
      → Move d q
          (store input)
          (record q {
            ring = set q.ring q.p_step input;
            p_step = q.p_step + 1;
            pushed = q.pushed ++ input ∷ [];
          })
          wrap_p
  wrapped_p : Move d q wrap_p (record q { p_step = q.p_step % q.cap }) unlock_p
  unlocked_p : Move d q unlock_p (record q { p_mutex = false }) post_data
  posted_data : Move d q post_data (record q { data_sem = q.data_sem + 1 }) idle
  wait_data : 0 < q.data_sem → Move d q idle (record q { data_sem = q.data_sem - 1 }) lock_c
  locked_c : q.c_mutex ≡ false → Move d q lock_c (record q { c_mutex = true }) load
  loaded :
      q.c_step < length q.ring
      → Move d q load
          (record q { c_step = q.c_step + 1; popped = q.popped ++ get_or q.ring q.c_step d ∷ [] })
          wrap_c
  wrapped_c : Move d q wrap_c (record q { c_step = q.c_step % q.cap }) unlock_c
  unlocked_c : Move d q unlock_c (record q { c_mutex = false }) post_space
  posted_space : Move d q post_space (record q { space_sem = q.space_sem + 1 }) idle

-- The queue and its threads; a thread's role is open: from `idle` it may push or pop.
pub record System (A : Type 0) : Type 0 where
  pub queue : Queue A
  pub threads : List (Pc A)

pub data Step {A : Type 0} (d : A) (s t : System A) : Type 0 where
  pick :
      (before after : List (Pc A)) (p p' : Pc A)
      → s.threads ≡ before ++ p ∷ after
      → Move d s.queue p t.queue p'
      → t.threads ≡ before ++ p' ∷ after
      → Step d s t

-- What `n` threads can reach over a new queue of `num` slots.
pub data Reach {A : Type 0} (d : A) (num n : ℕ) : System A → Type 0 where
  start : Reach d num n (record { queue = init d num; threads = replicate n idle })
  next : {s t : System A} → Reach d num n s → Step d s t → Reach d num n t
