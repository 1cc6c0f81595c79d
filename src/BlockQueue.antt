-- ===== src/BlockQueue.antt =====
-- importent-code/BlockQueue/BlockQueue.hpp: a bounded queue for many producers and consumers, with one
-- mutex (held by a LockGuard of Lockguard.hpp) and two condition variables. 11-11/BlockQueue and
-- 10-14 have the same class.
pub mod Weights
pub mod Invariant
pub mod Safety
mod Examples
use learn_in_linux.Common.{
  ℕ, ◌+◌, ◌<◌, ◌≡◌, ◌≢◌, Bool, true, false, List, [], ◌∷◌, ◌++◌, length, replicate,
}
use learn_in_linux.Common.Threads.{Wakes}

-- `bq`, `capacity` and whether the mutex is held. `pushed` and `popped` are no fields of the class: they
-- record the values that were stored and taken, oldest first.
pub record BlockQueue (A : Type 0) : Type 0 where
  pub bq : List A
  pub capacity : ℕ
  pub mtx : Bool
  pub pushed : List A
  pub popped : List A

abbrev pub init : {A : Type 0} → ℕ → BlockQueue A
init capacity = record { bq = []; capacity = capacity; mtx = false; pushed = []; popped = [] }

-- Where a thread stands: outside, or in `push(in)` or `pop`: before the lock, before the test of the
-- loop, asleep in `pthread_cond_wait` on `full` or `empty`, woken there and in want of the mutex again,
-- before the signal, before the unlock.
pub data Pc (A : Type 0) : Type 0 where
  idle : Pc A
  lock_p check_p asleep_p woken_p : (input : A) → Pc A
  signal_p unlock_p : Pc A
  lock_c check_c asleep_c woken_c : Pc A
  signal_c unlock_c : Pc A

-- One statement of one thread, but for the signals. A wait gives the mutex back, may end at any time
-- (POSIX allows it to end without a signal), and takes the mutex before it returns to the loop's test.
pub data Move {A : Type 0} (q : BlockQueue A) : Pc A → BlockQueue A → Pc A → Type 0 where
  call_push : (input : A) → Move q idle q (lock_p input)
  locked_p :
      {input : A} → q.mtx ≡ false → Move q (lock_p input) (record q { mtx = true }) (check_p input)
  is_full :
      {input : A}
      → length q.bq ≡ q.capacity
      → Move q (check_p input) (record q { mtx = false }) (asleep_p input)
  stored :
      {input : A}
      → length q.bq ≢ q.capacity
      → Move q
          (check_p input)
          (record q { bq = q.bq ++ input ∷ []; pushed = q.pushed ++ input ∷ [] })
          signal_p
  spurious_p : {input : A} → Move q (asleep_p input) q (woken_p input)
  relocked_p :
      {input : A} → q.mtx ≡ false → Move q (woken_p input) (record q { mtx = true }) (check_p input)
  unlocked_p : Move q unlock_p (record q { mtx = false }) idle
  call_pop : Move q idle q lock_c
  locked_c : q.mtx ≡ false → Move q lock_c (record q { mtx = true }) check_c
  is_empty : length q.bq ≡ 0 → Move q check_c (record q { mtx = false }) asleep_c
  taken :
      (a : A) (rest : List A)
      → q.bq ≡ a ∷ rest
      → Move q check_c (record q { bq = rest; popped = q.popped ++ a ∷ [] }) signal_c
  spurious_c : Move q asleep_c q woken_c
  relocked_c : q.mtx ≡ false → Move q woken_c (record q { mtx = true }) check_c
  unlocked_c : Move q unlock_c (record q { mtx = false }) idle

abbrev pub sleeps_p : {A : Type 0} → Pc A → ℕ
sleeps_p (asleep_p a) = 1
sleeps_p _ = 0

abbrev pub sleeps_c : {A : Type 0} → Pc A → ℕ
sleeps_c asleep_c = 1
sleeps_c _ = 0

pub data WokenP {A : Type 0} : Pc A → Pc A → Type 0 where
  of_full : {input : A} → WokenP (asleep_p input) (woken_p input)

pub data WokenC {A : Type 0} : Pc A → Pc A → Type 0 where
  of_empty : WokenC asleep_c woken_c

-- The queue and its threads, in no order.
pub record System (A : Type 0) : Type 0 where
  pub queue : BlockQueue A
  pub threads : List (Pc A)

pub data Step {A : Type 0} (s t : System A) : Type 0 where
  pick :
      (before after : List (Pc A)) (p p' : Pc A)
      → s.threads ≡ before ++ p ∷ after
      → Move s.queue p t.queue p'
      → t.threads ≡ p' ∷ (before ++ after)
      → Step s t
  signal_empty :
      (before after others : List (Pc A))
      → s.threads ≡ before ++ signal_p ∷ after
      → Wakes sleeps_c WokenC (before ++ after) others
      → t.queue ≡ s.queue
      → t.threads ≡ unlock_p ∷ others
      → Step s t
  signal_full :
      (before after others : List (Pc A))
      → s.threads ≡ before ++ signal_c ∷ after
      → Wakes sleeps_p WokenP (before ++ after) others
      → t.queue ≡ s.queue
      → t.threads ≡ unlock_c ∷ others
      → Step s t

-- What `n` threads can reach over a new queue.
pub data Reach {A : Type 0} (capacity n : ℕ) : System A → Type 0 where
  start : Reach capacity n (record { queue = init capacity; threads = replicate n idle })
  next : {s t : System A} → Reach capacity n s → Step s t → Reach capacity n t
