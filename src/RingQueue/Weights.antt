-- ===== src/RingQueue/Weights.antt =====
-- The steps of a thread that count: what each one holds.
use learn_in_linux.Common.{ℕ, ◌≤◌, arith}
use learn_in_linux.RingQueue.{
  Pc, lock_p, store, wrap_p, unlock_p, post_data, lock_c, load, wrap_c, unlock_c, post_space,
}

module _ {A : Type 0} where
  -- A thread of `push` that took a free slot and has not stored into it; that stored and has not posted.
  abbrev pub writing : Pc A → ℕ
  writing (lock_p a) = 1
  writing (store a) = 1
  writing _ = 0

  abbrev pub written : Pc A → ℕ
  written wrap_p = 1
  written unlock_p = 1
  written post_data = 1
  written _ = 0

  -- The same for `pop`, with a value in place of a free slot.
  abbrev pub reading : Pc A → ℕ
  reading lock_c = 1
  reading load = 1
  reading _ = 0

  abbrev pub freed : Pc A → ℕ
  freed wrap_c = 1
  freed unlock_c = 1
  freed post_space = 1
  freed _ = 0

  -- A thread inside of the producers' or the consumers' mutex; one that has moved the index beyond.
  abbrev pub in_push : Pc A → ℕ
  in_push (store a) = 1
  in_push wrap_p = 1
  in_push unlock_p = 1
  in_push _ = 0

  abbrev pub in_pop : Pc A → ℕ
  in_pop load = 1
  in_pop wrap_c = 1
  in_pop unlock_c = 1
  in_pop _ = 0

  abbrev pub moved_p : Pc A → ℕ
  moved_p wrap_p = 1
  moved_p _ = 0

  abbrev pub moved_c : Pc A → ℕ
  moved_c wrap_c = 1
  moved_c _ = 0

  pub moved_p-le : (p : Pc A) → moved_p p ≤ in_push p
  moved_p-le p = ground arith

  pub moved_c-le : (p : Pc A) → moved_c p ≤ in_pop p
  moved_c-le p = ground arith
