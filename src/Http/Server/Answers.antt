-- ===== src/Http/Server/Answers.antt =====
-- Who is answered, and with what, in every state that the processes can reach.
use learn_in_linux.Common.{
  ℕ, suc, ◌+◌, ◌<◌, ◌≤◌, ◌≡◌, refl, sym, ap, ◌∙◌, ◌⊎◌, Option, none, some, List, [], ◌∷◌, ◌++◌,
  Bytes, All, ltb, ◌==◌, ==_refl, ok, fault, Fault, arith,
}
use mathlib.Core.Path.{subst}
use learn_in_linux.Common.Threads.{bit, total, total-append}
use learn_in_linux.Reactor.Os.{Received}
use learn_in_linux.Http.{handler_http_request}
use learn_in_linux.Http.Requests.{handler_http_request-faults}
use learn_in_linux.Http.Server.{
  File, client, Table, file_of, close_fd, ParentAt, accepting, forking, Child, ChildAt,
  closing_listensock, handling, gone, Http, init, Parent, not_accepted, accepted, forked,
  not_forked, closed, ChildMove, closed_listensock, handled, failed, closed_sockfd, exited, Reach,
  start, parent, child,
}
use learn_in_linux.Http.Server.Tables.{
  file_of-both, file_of-alone, close_listener, TableAt, ChildTable, All-at, reach-Tables,
}

-- How often a client is named.
abbrev pub count : {X : Type 0} → ℕ → List (ℕ × X) → ℕ
count n [] = 0
count n ((m, x) ∷ xs) = bit (m == n) + count n xs

abbrev serves : ℕ → Option File → ℕ
serves n (some (client m)) = bit (m == n)
serves n _ = 0

-- Whether the client is one that a child has still to answer.
abbrev waits_at : ℕ → ChildAt → ℕ → Table → ℕ
waits_at n closing_listensock s fds = serves n (file_of s fds)
waits_at n handling s fds = serves n (file_of s fds)
waits_at n _ s fds = 0

abbrev waits : ℕ → Child → ℕ
waits n c = waits_at n c.at c.sockfd c.fds

-- Whether the client is one that the parent has still to give a child.
abbrev forks : ℕ → ParentAt → Table → ℕ
forks n (forking s) fds = serves n (file_of s fds)
forks n _ fds = 0

-- Every client that was accepted stands in one place.
abbrev Accounted : ParentAt → Http → Type 0
Accounted a h =
    (n : ℕ)
    → (total (waits n) h.children + forks n a h.fds) + (count n h.sent + count n h.lost)
      ≡ bit (ltb n h.accepted)

bit-suc : (m n : ℕ) → bit (m == n) + bit (ltb n m) ≡ bit (ltb n (suc m))
bit-suc m n = ground arith

module _ (lines : Bytes → Option (List Bytes)) (request : ℕ → Received) (l : ℕ) where
  parent-Accounted :
      (h h' : Http) (a a' : ParentAt)
      → Parent lines request l h a h' a'
      → Accounted a h
      → Accounted a' h'
  unfolding total file_of
  parent-Accounted h h' a a' not_accepted v n = v n
  parent-Accounted h h' a a' (accepted s free) v n =
      let new : serves n (file_of s ((s, client h.accepted) ∷ h.fds)) ≡ bit (h.accepted == n) =
        rw (file_of, ==_refl s) refl in
      omega (arith, v n, new, bit-suc h.accepted n)
  parent-Accounted h h' a a' forked v n = omega (arith, v n)
  parent-Accounted h h' a a' (not_forked {sockfd = s} m e) v n =
      let known : serves n (file_of s h.fds) ≡ bit (m == n) = rw e refl in omega (arith, v n, known)
  parent-Accounted h h' a a' closed v n = v n

  child-waits :
      (s : ℕ) (fds : Table) (at : ChildAt) (c' : Child) (text : List (ℕ × Bytes))
      (loss : List (ℕ × Option Fault))
      → ChildMove lines request l s fds at c' text loss
      → TableAt l at s fds
      → (n : ℕ) → waits n c' + (count n text + count n loss) ≡ waits_at n at s fds
  child-waits s fds at c' text loss closed_listensock (m, ne, t) n =
      let here : file_of s (close_fd l fds) ≡ file_of s fds = rw t (
        ap (file_of s) (close_listener s l m ne)
        ∙ file_of-alone s l m
        ∙ sym (file_of-both s l m)) in
      let same = ap (serves n) here in omega (arith, same)
  child-waits s fds at c' text loss (handled m b e r) t n =
      let known : serves n (file_of s fds) ≡ bit (m == n) = rw e refl in omega (arith, known)
  child-waits s fds at c' text loss (failed m x e r) t n =
      let known : serves n (file_of s fds) ≡ bit (m == n) = rw e refl in omega (arith, known)
  child-waits s fds at c' text loss closed_sockfd t n = refl
  child-waits s fds at c' text loss exited t n = refl

  count-append :
      {X : Type 0} (n : ℕ) (xs ys : List (ℕ × X)) → count n (xs ++ ys) ≡ count n xs + count n ys
  count-append n [] ys = omega arith
  count-append n ((m, x) ∷ xs) ys = omega (arith, count-append n xs ys)

  reach-Accounted : (h : Http) (a : ParentAt) → Reach lines request l h a → Accounted a h
  unfolding init total
  reach-Accounted h a start n = ground arith
  reach-Accounted h a (parent {h = g} {a = b} r m) n =
      parent-Accounted g h b a m (reach-Accounted g b r) n
  reach-Accounted h a (child {h = g} before after c c' text loss r e m) n =
      let (t, cs) = reach-Tables lines request l g a r in
      let own = All-at (ChildTable l) before after c (subst (All (ChildTable l)) e cs) in
      let old = ap (total (waits n)) e ∙ total-append (waits n) before after c in
      let new = total-append (waits n) before after c' in
      omega (
        arith,
        reach-Accounted g a r n,
        old,
        new,
        child-waits c.sockfd c.fds c.at c' text loss m own n,
        count-append n text g.sent,
        count-append n loss g.lost,
      )

  -- What was sent to a client is what the handler answers to its request.
  abbrev pub IsAnswer : ℕ × Bytes → Type 0
  IsAnswer (n, text) = handler_http_request lines (request n) ≡ ok text

  -- A client is lost by a `fork` that failed, or by a handler that did.
  abbrev pub IsLoss : ℕ × Option Fault → Type 0
  IsLoss (n, none) = Unit
  IsLoss (n, some e) =
      (handler_http_request lines (request n) ≡ fault e)
      × ((e ≡ Fault.out_of_bounds) ⊎ (e ≡ Fault.uninitialized))

  reach-answers :
      (h : Http) (a : ParentAt)
      → Reach lines request l h a
      → All IsAnswer h.sent × All IsLoss h.lost
  unfolding init
  reach-answers h a start = (tt, tt)
  reach-answers h a (parent {h = g} {a = b} r m) = by_parent g h b a m (reach-answers g b r)
    where
      by_parent :
          (h h' : Http) (a a' : ParentAt)
          → Parent lines request l h a h' a'
          → All IsAnswer h.sent × All IsLoss h.lost
          → All IsAnswer h'.sent × All IsLoss h'.lost
      by_parent h h' a a' not_accepted v = v
      by_parent h h' a a' (accepted s free) v = v
      by_parent h h' a a' forked v = v
      by_parent h h' a a' (not_forked m e) (v, w) = (v, (tt, w))
      by_parent h h' a a' closed v = v
  reach-answers h a (child {h = g} before after c c' text loss r e m) =
      by_child c.sockfd c.fds c.at c' text loss m (reach-answers g a r)
    where
      by_child :
          (s : ℕ) (fds : Table) (at : ChildAt) (c' : Child) (text : List (ℕ × Bytes))
          (loss : List (ℕ × Option Fault))
          → ChildMove lines request l s fds at c' text loss
          → All IsAnswer g.sent × All IsLoss g.lost
          → All IsAnswer (text ++ g.sent) × All IsLoss (loss ++ g.lost)
      by_child s fds at c' text loss closed_listensock v = v
      by_child s fds at c' text loss (handled n b e r) (v, w) = ((r, v), w)
      by_child s fds at c' text loss (failed n e' e r) (v, w) =
          (v, ((r, handler_http_request-faults lines (request n) e' r), w))
      by_child s fds at c' text loss closed_sockfd v = v
      by_child s fds at c' text loss exited v = v

  abbrev pub IsGone : Child → Type 0
  IsGone c = c.at ≡ gone

  gone-waits : (n : ℕ) (cs : List Child) → All IsGone cs → total (waits n) cs ≡ 0
  unfolding total
  gone-waits n [] h = refl
  gone-waits n (c ∷ cs) (e, h) =
      let idle : waits n c ≡ 0 = ap (λ x. waits_at n x c.sockfd c.fds) e in
      omega (arith, idle, gone-waits n cs h)

  bit_true : (n m : ℕ) → n < m → bit (ltb n m) ≡ 1
  bit_true n m h = ground arith

  bit_le_one : (n m : ℕ) → bit (ltb n m) ≤ 1
  bit_le_one n m = ground arith

  -- Whichever process runs next: what was sent to a client is what the handler answers to its own request, no
  -- client is answered twice, and none is both answered and lost. A client is lost only by a `fork` that fails, or by a handler that
  -- reads an element that a vector does not have or a buffer that was not written. When the parent is before `accept` and every child has ended, each client that was accepted has been
  -- answered or is lost.
  pub answered_once :
      (h : Http) (a : ParentAt)
      → Reach lines request l h a
      → All IsAnswer h.sent
        × All IsLoss h.lost
        × ((n : ℕ) → count n h.sent + count n h.lost ≤ 1)
        × (a ≡ accepting
            → All IsGone h.children
            → (n : ℕ) → n < h.accepted
            → count n h.sent + count n h.lost ≡ 1)
  answered_once h a r =
      let (sent, lost) = reach-answers h a r in
      let all = reach-Accounted h a r in
      (
        sent,
        lost,
        (λ n. omega (arith, all n, bit_le_one n h.accepted)),
        λ e idle n before.
            let none_forks : forks n a h.fds ≡ 0 = ap (λ x. forks n x h.fds) e in
            omega (
              arith,
              all n,
              none_forks,
              gone-waits n h.children idle,
              bit_true n h.accepted before,
            ),
      )
