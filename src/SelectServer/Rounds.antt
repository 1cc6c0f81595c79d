-- ===== src/SelectServer/Rounds.antt =====
-- One round of `Start`: what is watched, when the set of descriptors overflows, and who is read.
use learn_in_linux.Common.{
  ℕ, zero, suc, ◌+◌, ◌≤◌, ◌<◌, ◌≡◌, ◌⊎◌, ◌↔◌, inl, inr, refl, sym, ap, true, Option, none, some,
  List, [], ◌∷◌, length, Bool-cases, ◌==◌, ltb, ==_true, ==_refl, arith, ok, fault, Fault,
}
use mathlib.Core.Path.{subst}
use learn_in_linux.Reactor.Os.{Os}
use learn_in_linux.SelectServer.{
  SelectServer, Selected, timed_out, failed, selected, fd_isset, handler_event, start_once, start,
  set_all, max_fd, num,
}
use learn_in_linux.SelectServer.Table.{entry}
use learn_in_linux.SelectServer.Invariant.{Laws, WellFormed, keeps, handle_from-WellFormed}

-- Either every descriptor has a bit in `fd_set`, or there is one that has none.
pub set_all-cases :
    (fds : List (Option ℕ))
    → ((rfds : List ℕ) × (set_all fds ≡ ok rfds))
      ⊎ ((i : ℕ) × (fd : ℕ) × (entry fds i ≡ some fd)
          × (num ≤ fd)
          × (set_all fds ≡ fault Fault.out_of_bounds))
unfolding set_all
set_all-cases [] = inl ([], refl)
set_all-cases (none ∷ fds) = elim (set_all-cases fds) [
  | inl r ↦ inl r
  | inr (i, fd, e, le, f) ↦ inr (suc i, fd, e, le, f)
]
set_all-cases (some fd ∷ fds) = elim (Bool-cases (ltb fd num)) [
  | inr q ↦ inr (zero, fd, refl, ground arith, rw q refl)
  | inl q ↦ elim (set_all-cases fds) [
    | inl (rfds, e) ↦ inl (fd ∷ rfds, rw (q, e) refl)
    | inr (i, x, e, le, f) ↦ inr (suc i, x, e, le, rw (q, f) refl)
  ]
]

max_fd_start : (m : ℕ) (fds : List (Option ℕ)) → m ≤ max_fd m fds
unfolding max_fd
max_fd_start m [] = omega arith
max_fd_start m (none ∷ fds) = max_fd_start m fds
max_fd_start m (some fd ∷ fds) = elim (Bool-cases (ltb m fd)) [
  | inl q ↦ rw q (let h : m < fd = ground arith in omega (arith, h, max_fd_start fd fds))
  | inr q ↦ rw q (max_fd_start m fds)
]

max_fd_le : (m : ℕ) (fds : List (Option ℕ)) (i fd : ℕ) → entry fds i ≡ some fd → fd ≤ max_fd m fds
unfolding max_fd
max_fd_le m [] i fd e = absurd (cc e)
max_fd_le m (none ∷ fds) zero fd e = absurd (cc e)
max_fd_le m (none ∷ fds) (suc i) fd e = max_fd_le m fds i fd e
max_fd_le m (some x ∷ fds) zero fd e =
    let same : x ≡ fd = cc e in
    elim (Bool-cases (ltb m x)) [
      | inl q ↦ rw q (omega (arith, same, max_fd_start x fds))
      | inr q ↦ rw q (let h : x ≤ m = ground arith in omega (arith, h, same, max_fd_start m fds))
    ]
max_fd_le m (some x ∷ fds) (suc i) fd e = elim (Bool-cases (ltb m x)) [
  | inl q ↦ rw q (max_fd_le x fds i fd e)
  | inr q ↦ rw q (max_fd_le m fds i fd e)
]

set_all-some :
    (x : ℕ) (fds : List (Option ℕ)) (rfds : List ℕ)
    → set_all (some x ∷ fds) ≡ ok rfds
    → (rest : List ℕ) × (set_all fds ≡ ok rest) × (rfds ≡ x ∷ rest)
unfolding set_all
set_all-some x fds rfds e = elim (Bool-cases (ltb x num)) [
  | inr q ↦ let g : fault Fault.out_of_bounds ≡ ok rfds = rw q at e in absurd (cc g)
  | inl q ↦ elim (set_all-cases fds) [
    | inr (i, y, p, le, f) ↦
        let g : fault Fault.out_of_bounds ≡ ok rfds = rw (q, f) at e in absurd (cc g)
    | inl (rest, f) ↦ let g : ok (x ∷ rest) ≡ ok rfds = rw (q, f) at e in (rest, f, cc g)
  ]
]

-- Every descriptor of a set that was built has a bit.
set_all_bounded :
    (fds : List (Option ℕ)) (rfds : List ℕ)
    → set_all fds ≡ ok rfds
    → (i fd : ℕ) → entry fds i ≡ some fd
    → fd < num
unfolding set_all
set_all_bounded [] rfds e i fd p = absurd (cc p)
set_all_bounded (none ∷ fds) rfds e zero fd p = absurd (cc p)
set_all_bounded (none ∷ fds) rfds e (suc i) fd p = set_all_bounded fds rfds e i fd p
set_all_bounded (some x ∷ fds) rfds e zero fd p = elim (Bool-cases (ltb x num)) [
  | inl q ↦ let same : x ≡ fd = cc p in let h : x < num = ground arith in omega arith
  | inr q ↦ let g : fault Fault.out_of_bounds ≡ ok rfds = rw q at e in absurd (cc g)
]
set_all_bounded (some x ∷ fds) rfds e (suc i) fd p =
    let (rest, f, g) = set_all-some x fds rfds e in set_all_bounded fds rest f i fd p

-- The set that `Start` builds holds the descriptors of the array and no other.
pub set_all-fd_isset :
    (fds : List (Option ℕ)) (rfds : List ℕ)
    → set_all fds ≡ ok rfds
    → (fd : ℕ) → (fd_isset fd rfds ≡ true) ↔ ((i : ℕ) × (entry fds i ≡ some fd))
unfolding set_all fd_isset
set_all-fd_isset [] rfds e fd =
    let empty : [] ≡ rfds = cc e in
    ((λ q. absurd (cc (q, ap (fd_isset fd) empty))), (λ (i, p). absurd (cc p)))
set_all-fd_isset (none ∷ fds) rfds e fd =
    let there = set_all-fd_isset fds rfds e fd in
    ((λ q. let (i, p) = there.0 q in (suc i, p)), (λ p. there.1 (tail p)))
  where
    tail : ((i : ℕ) × (entry (none ∷ fds) i ≡ some fd)) → (i : ℕ) × (entry fds i ≡ some fd)
    tail (zero, p) = absurd (cc p)
    tail (suc i, p) = (i, p)
set_all-fd_isset (some x ∷ fds) rfds e fd =
    let (rest, f, g) = set_all-some x fds rfds e in
    let there = set_all-fd_isset fds rest f fd in
    subst (λ r. (fd_isset fd r ≡ true) ↔ ((i : ℕ) × (entry (some x ∷ fds) i ≡ some fd))) (sym g)
      (
        (λ q. elim (Bool-cases (fd == x)) [
          | inl here ↦ (zero, ap some (sym (==_true fd x here)))
          | inr other ↦ let (i, p) = there.0 (rw other at q) in (suc i, p)
        ]),
        (λ p. back rest there.1 p),
      )
  where
    back :
        (rest : List ℕ)
        → (((i : ℕ) × (entry fds i ≡ some fd)) → fd_isset fd rest ≡ true)
        → ((i : ℕ) × (entry (some x ∷ fds) i ≡ some fd))
        → fd_isset fd (x ∷ rest) ≡ true
    back rest h (zero, p) = let same : x ≡ fd = cc p in rw same (rw (==_refl fd) refl)
    back rest h (suc i, p) = elim (Bool-cases (fd == x)) [
      | inl here ↦ rw here refl
      | inr other ↦ rw other (h (i, p))
    ]

module _ {K : Type 0} {os : Os K} {select : ℕ → List ℕ → K → Selected × K} {Open : ℕ → K → Type 0}
    (laws : Laws os select Open) where
  -- One round returns and keeps the array in order, where every descriptor of the array is below
  -- FD_SETSIZE; where one is not, the round writes out of `fd_set`'s bounds.
  pub start_once-WellFormed :
      (s : SelectServer K)
      → WellFormed Open s
      → ((t : SelectServer K) × (start_once os select s ≡ ok t)
          × WellFormed Open t
          × ((i fd : ℕ) → entry s.fd_array i ≡ some fd → fd < num))
        ⊎ ((start_once os select s ≡ fault Fault.out_of_bounds)
            × ((i : ℕ) × (fd : ℕ) × (entry s.fd_array i ≡ some fd) × (num ≤ fd)))
  unfolding start_once handler_event
  start_once-WellFormed s v = elim (set_all-cases s.fd_array) [
    | inr (i, fd, e, le, f) ↦ inr (rw (start_once, f) refl, (i, fd, e, le))
    | inl (rfds, f) ↦
        inl (by_answer rfds f (select (max_fd s.listensock s.fd_array + 1) rfds s.kernel).0 refl)
  ]
    where
      after : List ℕ → K
      after rfds = (select (max_fd s.listensock s.fd_array + 1) rfds s.kernel).1

      waited : (rfds : List ℕ) → WellFormed Open (record s { kernel = after rfds })
      waited rfds =
          keeps s v (after rfds)
            (λ fd. laws.select_keeps (max_fd s.listensock s.fd_array + 1) fd rfds s.kernel)

      by_answer :
          (rfds : List ℕ)
          → set_all s.fd_array ≡ ok rfds
          → (r : Selected) → (select (max_fd s.listensock s.fd_array + 1) rfds s.kernel).0 ≡ r
          → (t : SelectServer K) × (start_once os select s ≡ ok t)
            × WellFormed Open t
            × ((i fd : ℕ) → entry s.fd_array i ≡ some fd → fd < num)
      by_answer rfds f timed_out q = (
        record s { kernel = after rfds },
        rw (start_once, f, q) refl,
        waited rfds,
        set_all_bounded s.fd_array rfds f,
      )
      by_answer rfds f failed q = (
        record s { kernel = after rfds },
        rw (start_once, f, q) refl,
        waited rfds,
        set_all_bounded s.fd_array rfds f,
      )
      by_answer rfds f (selected ready) q =
          let s' : SelectServer K = record s { kernel = after rfds } in
          (
            handler_event os select ready s',
            rw (start_once, f, q) refl,
            handle_from-WellFormed laws ready (length s.fd_array) 0 s' (waited rfds),
            set_all_bounded s.fd_array rfds f,
          )

  -- Any number of rounds keep the array in order, or end in that undefined behaviour.
  pub start-WellFormed :
      (n : ℕ) (s : SelectServer K)
      → WellFormed Open s
      → ((t : SelectServer K) × (start os select n s ≡ ok t) × WellFormed Open t)
        ⊎ (start os select n s ≡ fault Fault.out_of_bounds)
  unfolding start
  start-WellFormed zero s v = inl (s, refl, v)
  start-WellFormed (suc n) s v = elim (start_once-WellFormed s v) [
    | inr (e, at) ↦ inr (rw e refl)
    | inl (t, e, w, few) ↦ rw e (start-WellFormed n t w)
  ]

-- `select` is asked for exactly the descriptors of the array, with a first argument above all of them.
pub watched :
    (listensock : ℕ) (fds : List (Option ℕ)) (rfds : List ℕ)
    → set_all fds ≡ ok rfds
    → (fd : ℕ)
    → ((fd_isset fd rfds ≡ true) ↔ ((i : ℕ) × (entry fds i ≡ some fd)))
      × (fd_isset fd rfds ≡ true → fd < max_fd listensock fds + 1)
watched listensock fds rfds e fd =
    let same = set_all-fd_isset fds rfds e fd in
    (same, λ q. let (i, p) = same.0 q in omega (arith, max_fd_le listensock fds i fd p))
