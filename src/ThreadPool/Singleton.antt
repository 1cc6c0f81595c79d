-- ===== src/ThreadPool/Singleton.antt =====
-- ThreadPool::getThreadPool of 10-21/ThreadPool/threadPool.hpp: the pool is made by the first thread that
-- asks for it, behind a test, a mutex and a second test. Reads and writes of the pointer are taken one
-- after another, as if it were atomic.
use learn_in_linux.Common.{
  ℕ, suc, ◌≤◌, ◌≡◌, ◌⊎◌, inl, refl, Bool, true, false, Option, none, some, List, ◌∷◌, ◌++◌,
  replicate, arith, ap, sym, ◌∙◌,
}
use mathlib.Core.Path.{subst}
use learn_in_linux.Common.Threads.{bit_le, total, total-le, total-replicate, bit, sums, told_apart}

-- `thread_ptr` and whether `mutex` is held; `created` counts the pools that were made, and a pool's
-- address is its number.
pub record Shared : Type 0 where
  pub thread_ptr : Option ℕ
  pub mutex : Bool
  pub created : ℕ

-- Before the first test, the lock, the second test, the `new`, the unlock, the return, and behind it with
-- the pool that was returned.
pub data Asking : Type 0 where
  first_test lock_mutex second_test make unlock_mutex return_ptr : Asking
  got : ℕ → Asking

pub data Ask (q : Shared) : Asking → Shared → Asking → Type 0 where
  not_there : q.thread_ptr ≡ none → Ask q first_test q lock_mutex
  there : {p : ℕ} → q.thread_ptr ≡ some p → Ask q first_test q return_ptr
  locked : q.mutex ≡ false → Ask q lock_mutex (record q { mutex = true }) second_test
  still_not_there : q.thread_ptr ≡ none → Ask q second_test q make
  now_there : {p : ℕ} → q.thread_ptr ≡ some p → Ask q second_test q unlock_mutex
  made : Ask q make (record q { thread_ptr = some q.created; created = suc q.created }) unlock_mutex
  unlocked : Ask q unlock_mutex (record q { mutex = false }) return_ptr
  returned : {p : ℕ} → q.thread_ptr ≡ some p → Ask q return_ptr q (got p)

pub data Reached (n : ℕ) : Shared → List Asking → Type 0 where
  at_start :
      Reached n (record { thread_ptr = none; mutex = false; created = 0 }) (replicate n first_test)
  asks :
      {q q' : Shared} {ps ps' : List Asking} (before after : List Asking) (p p' : Asking)
      → Reached n q ps
      → ps ≡ before ++ p ∷ after
      → Ask q p q' p'
      → ps' ≡ p' ∷ (before ++ after)
      → Reached n q' ps'

abbrev holds : Asking → ℕ
holds second_test = 1
holds make = 1
holds unlock_mutex = 1
holds _ = 0

abbrev makes : Asking → ℕ
makes make = 1
makes _ = 0

-- Who has passed a test that saw the pool.
abbrev has_seen : Asking → ℕ
has_seen unlock_mutex = 1
has_seen return_ptr = 1
has_seen (got p) = 1
has_seen _ = 0

-- A pool other than the first one.
abbrev strange : Asking → ℕ
strange (got p) = p
strange _ = 0

abbrev pointed : Option ℕ → ℕ
pointed none = 0
pointed (some p) = suc p

record Inv (q : Shared) (W : (Asking → ℕ) → ℕ) : Type 0 where
  lock : W holds ≡ bit q.mutex
  one : pointed q.thread_ptr ≡ q.created
  bound : q.created ≤ 1
  alone : (W makes ≡ 0) ⊎ ((q.created ≡ 0) × (W makes ≡ 1))
  seen : (W has_seen ≡ 0) ⊎ (q.created ≡ 1)
  same : W strange ≡ 0

Ask-Inv :
    {q q' : Shared} {p p' : Asking} (others : List Asking)
    → Ask q p q' p'
    → total makes others ≤ total holds others
    → Inv q (sums p others)
    → Inv q' (sums p' others)
Ask-Inv others (not_there h) le v = ground (arith, v.alone, v.seen)
Ask-Inv others (there h) le v = let e = ap pointed h in ground (arith, v.alone, v.seen)
Ask-Inv others (locked h) le v = let e = ap bit h in ground (arith, v.alone, v.seen)
Ask-Inv {q} others (still_not_there h) le v =
    let e = ap pointed h in let b = bit_le q.mutex in ground (arith, v.alone, v.seen)
Ask-Inv others (now_there h) le v = let e = ap pointed h in ground (arith, v.alone, v.seen)
Ask-Inv {q} others made le v = let b = bit_le q.mutex in ground (arith, v.alone, v.seen)
Ask-Inv others unlocked le v = ground (arith, v.alone, v.seen)
Ask-Inv others (returned h) le v = let e = ap pointed h in ground (arith, v.alone, v.seen)

makes_le : (p : Asking) → makes p ≤ holds p
makes_le p = ground arith

Reached-Inv : {n : ℕ} {q : Shared} {ps : List Asking} → Reached n q ps → Inv q (λ w. total w ps)
unfolding total
Reached-Inv {n} at_start = record {
  lock = total-replicate holds n first_test refl;
  one = refl;
  bound = omega arith;
  alone = inl (total-replicate makes n first_test refl);
  seen = inl (total-replicate has_seen n first_test refl);
  same = total-replicate strange n first_test refl;
}
Reached-Inv {q = q'} (asks {q} {ps = ps} before after p p' r e a f) =
    let others = before ++ after in
    subst (λ l. Inv q' (λ w. total w l)) (sym f)
      (Ask-Inv others a (total-le makes holds makes_le others)
        (told_apart (Inv q) ps before after p e (Reached-Inv r)))

points_to_first : (o : Option ℕ) → pointed o ≡ 1 → o ≡ some 0
points_to_first none h = absurd (omega arith)
points_to_first (some p) h = ap some (omega arith)

-- However the threads interleave, once one of them has got a pool, exactly one pool has been made, and the
-- pool that the thread has got is the one that the pointer still holds.
pub singleton :
    {n : ℕ} {q : Shared} {ps : List Asking}
    → Reached n q ps
    → (before after : List Asking) (p : ℕ) → ps ≡ before ++ got p ∷ after
    → (q.created ≡ 1) × (q.thread_ptr ≡ some p)
singleton {n} {q} {ps} r before after p e =
    let v = told_apart (Inv q) ps before after (got p) e (Reached-Inv r) in
    let first : p ≡ 0 = omega (arith, v.same) in
    let once : q.created ≡ 1 = ground (arith, v.seen) in
    (once, points_to_first q.thread_ptr (v.one ∙ once) ∙ ap some (sym first))
