-- ===== src/ThreadPool/Tasks.antt =====
-- Where each task is that a worker took from the queue: every weight on tasks is shared out between the workers'
-- own tasks and those that were run.
use learn_in_linux.Common.{ℕ, ◌+◌, ◌≡◌, refl, ap, ◌∙◌, List, [], ◌∷◌, ◌++◌, replicate, arith}
use mathlib.Core.Path.{subst}
use learn_in_linux.Common.Threads.{total, total-append, total-replicate, Wakes, nobody, one}
use learn_in_linux.ThreadPool.{
  ThreadPool, Pc, lock_w, asleep_w, unlock_w, run_w, outside, signal_p, Move, locked_w, is_empty,
  spurious, relocked, get_task, unlocked_w, run_task, push_task, locked_p, pushed, unlocked_p,
  sleeps, Woken, of_wait, System, Step, pick, signal, Reach, start, next,
}
use learn_in_linux.ThreadPool.Invariant.{total-append_list}

module _ {T : Type 0} (f : T → ℕ) where
  -- The weight of a list of tasks, and of the task that a worker has.
  abbrev pub weigh : List T → ℕ
  weigh [] = 0
  weigh (t ∷ ts) = f t + weigh ts

  abbrev pub carries : Pc T → ℕ
  carries (unlock_w t) = f t
  carries (run_w t) = f t
  carries _ = 0

  weigh-append : (xs ys : List T) → weigh (xs ++ ys) ≡ weigh xs + weigh ys
  weigh-append [] ys = omega arith
  weigh-append (x ∷ xs) ys = omega (arith, weigh-append xs ys)

  abbrev AreShared : ThreadPool T → ℕ → Type 0
  AreShared q carried = weigh q.taken ≡ carried + weigh q.ran

  Move-AreShared :
      {p p' : Pc T} {q q' : ThreadPool T}
      → Move q p q' p'
      → (n : ℕ) → AreShared q (carries p + n)
      → AreShared q' (carries p' + n)
  Move-AreShared (locked_w h) n v = v
  Move-AreShared (is_empty h) n v = v
  Move-AreShared spurious n v = v
  Move-AreShared (relocked h) n v = v
  Move-AreShared {q} (get_task t rest e) n v = omega (arith, v, weigh-append q.taken (t ∷ []))
  Move-AreShared unlocked_w n v = v
  Move-AreShared run_task n v = omega (arith, v)
  Move-AreShared (push_task t) n v = v
  Move-AreShared (locked_p h) n v = v
  Move-AreShared pushed n v = v
  Move-AreShared unlocked_p n v = v

  Wakes-same :
      (ps qs : List (Pc T)) → Wakes sleeps Woken ps qs → total carries ps ≡ total carries qs
  unfolding total
  Wakes-same ps qs (nobody none_asleep) = refl
  Wakes-same ps qs (one before after p p' e of_wait) =
      ap (total carries) e ∙ total-append carries before after asleep_w

  Step-AreShared :
      {s t : System T}
      → Step s t
      → AreShared s.pool (total carries s.threads)
      → AreShared t.pool (total carries t.threads)
  unfolding total
  Step-AreShared {s} {t} (pick before after p p' e m g) v =
      let old = ap (total carries) e ∙ total-append carries before after p in
      rw g (Move-AreShared m (total carries (before ++ after)) (subst (AreShared s.pool) old v))
  Step-AreShared {s} {t} (signal before after others e wakes same g) v =
      let old = ap (total carries) e ∙ total-append carries before after signal_p in
      let woken = Wakes-same (before ++ after) others wakes in
      rw (g, same) (omega (arith, v, old, woken))

  pub Reach-AreShared :
      {num n : ℕ} {s : System T} → Reach num n s → AreShared s.pool (total carries s.threads)
  Reach-AreShared {num} {n} start = omega (
    arith,
    total-append_list carries (replicate num lock_w) (replicate n outside),
    total-replicate carries num lock_w refl,
    total-replicate carries n outside refl,
  )
  Reach-AreShared (next r st) = Step-AreShared st (Reach-AreShared r)
