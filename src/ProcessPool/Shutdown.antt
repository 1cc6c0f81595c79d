-- ===== src/ProcessPool/Shutdown.antt =====
-- `waitProcess`: when a child that it waits for ends, which hangs on the write ends that its siblings
-- keep.
use learn_in_linux.Common.{
  ℕ, suc, ◌<◌, ◌≡◌, refl, ap, ◌∙◌, false, not, ◌&&◌, ◌||◌, Option, some, List, [], ◌∷◌, ◌++◌, map,
  append_assoc, append-nil, length, ok, arith, ◌==◌, ==_refl,
}
use learn_in_linux.Common.Int.{ℤ, pos}
use learn_in_linux.ProcessPool.{
  EndPoint, end_point, Child, has, close, close_all, create_processes, held, remove, child_with,
  waitpid, wait_process, main,
}
use learn_in_linux.ProcessPool.Rotation.{quits_three, ctrl_process_lem}

has-append : (fd : ℕ) (xs ys : List ℕ) → has fd (xs ++ ys) ≡ (has fd xs || has fd ys)
unfolding has
has-append fd [] ys = refl
has-append fd (x ∷ xs) ys = ground (arith, has-append fd xs ys)

pub has-close : (x fd : ℕ) (xs : List ℕ) → has x (close fd xs) ≡ (not (x == fd) && has x xs)
unfolding has close
has-close x fd [] = ground arith
has-close x fd (y ∷ ys) = ground (arith, has-close x fd ys)

has-close_all : (x : ℕ) (fds xs : List ℕ) → has x (close_all fds xs) ≡ (not (has x fds) && has x xs)
unfolding has close_all
has-close_all x [] xs = refl
has-close_all x (fd ∷ fds) xs = ground (arith, has-close_all x fds (close fd xs), has-close x fd xs)

holds_none : (xs : List ℕ) → ((x : ℕ) → has x xs ≡ false) → xs ≡ []
unfolding has
holds_none [] h = refl
holds_none (x ∷ xs) h = let e = h x in absurd (cc (rw (==_refl x) at e))

-- A child that was forked while the parent held `fds` and then its own pipe keeps no write end.
nothing_kept : (fds : List ℕ) (p : ℕ) → close p (close_all fds (fds ++ p ∷ [])) ≡ []
unfolding has
nothing_kept fds p = holds_none _ λ x.
    has-close x p (close_all fds (fds ++ p ∷ []))
    ∙ ap (λ b. not (x == p) && b)
        (has-close_all x fds (fds ++ p ∷ [])
          ∙ ap (λ b. not (has x fds) && b) (has-append x fds (p ∷ [])))
    ∙ ground arith

close_absent : (fd : ℕ) (xs : List ℕ) → has fd xs ≡ false → close fd xs ≡ xs
unfolding has close
close_absent fd [] h = refl
close_absent fd (x ∷ xs) h = ground (arith, close_absent fd xs)

-- `pipe` and `fork` when both succeed, and what comes of them.
abbrev pub succeeds : ℕ × ℕ → Option ℕ × Option ℕ
succeeds (p, id) = (some p, some id)

abbrev reader : ℕ × ℕ → Child
reader (p, id) = record { pid = id; writes = []; stdin = p }

pub end_points_from : ℕ → List (ℕ × ℕ) → List EndPoint
end_points_from number [] = []
end_points_from number ((p, id) ∷ made) = end_point number id p ∷ end_points_from (suc number) made

abbrev pub pipe_of : ℕ × ℕ → ℕ
pipe_of (p, id) = p

-- The pipes are different ones.
abbrev pub AreDistinct : List (ℕ × ℕ) → Type 0
AreDistinct [] = Unit
AreDistinct ((p, id) ∷ made) = (has p (map pipe_of made) ≡ false) × AreDistinct made

create_processes_lem :
    (made : List (ℕ × ℕ)) (number : ℕ) (fds : List ℕ) (ends : List EndPoint) (children : List Child)
    → create_processes
        (map succeeds made)
        number
        fds
        ends
        (record { writes = fds; children = children })
      ≡ ok (
        ends ++ end_points_from number made,
        record { writes = fds ++ map pipe_of made; children = children ++ map reader made },
      )
unfolding create_processes end_points_from
create_processes_lem [] number fds ends children =
    rw (append-nil ends, append-nil fds, append-nil children) refl
create_processes_lem ((p, id) ∷ made) number fds ends children = rw (nothing_kept fds p) (
    create_processes_lem made (suc number) (fds ++ p ∷ []) (ends ++ end_point number id p ∷ [])
      (children ++ reader (p, id) ∷ [])
    ∙ rw
        (
          append_assoc ends (end_point number id p ∷ []) (end_points_from (suc number) made),
          append_assoc fds (p ∷ []) (map pipe_of made),
          append_assoc children (reader (p, id) ∷ []) (map reader made),
        )
        refl)

none_held : (fd : ℕ) (made : List (ℕ × ℕ)) → held fd (map reader made) ≡ false
unfolding held has
none_held fd [] = refl
none_held fd ((p, id) ∷ made) = none_held fd made

-- The first child ends as soon as no other process has its pipe open for writing.
waitpid_first :
    (p id : ℕ) (writes : List ℕ) (children : List Child)
    → has p writes ≡ false
    → held p children ≡ false
    → waitpid id (record { writes = writes; children = reader (p, id) ∷ children })
      ≡ ok (record { writes = writes; children = children })
unfolding waitpid child_with remove held has
waitpid_first p id writes children closed free =
    rw (waitpid, ==_refl id) (rw (closed, free) (rw (==_refl id) refl))

wait_process_lem :
    (made : List (ℕ × ℕ)) (number : ℕ)
    → AreDistinct made
    → wait_process
        (end_points_from number made)
        (record { writes = map pipe_of made; children = map reader made })
      ≡ ok (record { writes = []; children = [] })
unfolding wait_process end_point end_points_from close
wait_process_lem [] number d = refl
wait_process_lem ((p, id) ∷ made) number (new, d) =
    rw
      (
        ==_refl p,
        close_absent p (map pipe_of made) new,
        waitpid_first p id (map pipe_of made) (map reader made) new (none_held p made),
      )
      (wait_process_lem made (suc number) d)

length-end_points_from :
    (number : ℕ) (made : List (ℕ × ℕ)) → length (end_points_from number made) ≡ length made
unfolding end_points_from
length-end_points_from number [] = refl
length-end_points_from number ((p, id) ∷ made) = ap suc (length-end_points_from (suc number) made)

-- The program ends: where `pipe` and `fork` succeed, with different pipes, and for one process or more,
-- once a 3 is typed in, whatever commands come before it, every child is waited for without blocking, and
-- no descriptor of a pipe is left open.
pub main_ends :
    (made : List (ℕ × ℕ)) (before after : List ℤ)
    → 0 < length made
    → AreDistinct made
    → (written : List (ℕ × ℤ)) × (main (map succeeds made) (before ++ pos 3 ∷ after)
        ≡ ok (written, record { writes = []; children = [] }))
unfolding main
main_ends made before after some_process d =
    let long = length-end_points_from 0 made in
    let (written, e, f, g) =
      ctrl_process_lem (before ++ pos 3 ∷ after) 0 (end_points_from 0 made) (omega arith) in
    (
      written,
      rw
          (
            create_processes_lem made 0 [] [] [],
            e,
            quits_three before after,
            wait_process_lem made 0 d,
          )
          refl,
    )
