-- ===== src/ProcessPool/Rotation.antt =====
-- `ctrlProcess` deals the commands out in turn.
use learn_in_linux.Common.{
  ℕ, zero, suc, ◌+◌, ◌%◌, ◌<◌, ◌≡◌, refl, ap, ◌∙◌, inl, inr, Bool, true, false, ◌++◌, Option, some,
  List, [], ◌∷◌, map, get_elem?, length, if◌then◌else◌, ok, arith, Bool-cases,
}
use mathlib.Core.Option
use native.Mathlib.Nat.{mod-lt, mod-add-mod, mod-eq_of_lt}
use learn_in_linux.Common.Int.{ℤ, pos}
use learn_in_linux.ProcessPool.{EndPoint, ctrl_process, is_quit, is_task}

-- The commands up to the first 3 that name a task.
pub accepted : List ℤ → List ℤ
accepted [] = []
accepted (c ∷ cs) =
    let rest = accepted cs in if is_quit c then [] else if is_task c then c ∷ rest else rest

-- Whether a 3 is among the commands.
unfoldable pub quits : List ℤ → Bool
quits [] = false
quits (c ∷ cs) = let rest = quits cs in if is_quit c then true else rest

pub quits_three : (before after : List ℤ) → quits (before ++ pos 3 ∷ after) ≡ true
unfolding quits is_quit
quits_three [] after = refl
quits_three (c ∷ before) after = elim (Bool-cases (is_quit c)) [
  | inl q ↦ rw q refl
  | inr go ↦ rw go (quits_three before after)
]

abbrev pub fd_at : List EndPoint → ℕ → Option ℕ
fd_at ends i = Option.map (λ e. e.write_fd) (get_elem? ends i)

get_elem?-some :
    {A : Type 0} (xs : List A) (i : ℕ) → i < length xs → (a : A) × (get_elem? xs i ≡ some a)
get_elem?-some [] i h = absurd (omega arith)
get_elem?-some (x ∷ xs) zero h = (x, refl)
get_elem?-some (x ∷ xs) (suc i) h = get_elem?-some xs i (omega arith)

pub ctrl_process_lem :
    (commands : List ℤ) (cnt : ℕ) (ends : List EndPoint)
    → cnt < length ends
    → (written : List (ℕ × ℤ)) × (ctrl_process commands cnt ends ≡ ok (written, quits commands))
      × (map (λ w. w.1) written ≡ accepted commands)
      × ((k : ℕ)
          → k < length written
          → get_elem? (map (λ w. w.0) written) k ≡ fd_at ends ((cnt + k) % length ends))
unfolding ctrl_process accepted quits
ctrl_process_lem [] cnt ends h = ([], refl, refl, λ k lt. absurd (omega arith))
ctrl_process_lem (c ∷ cs) cnt ends h = elim (Bool-cases (is_quit c)) [
  | inl q ↦ ([], rw q refl, rw q refl, λ k lt. absurd (omega arith))
  | inr go ↦ elim (Bool-cases (is_task c)) [
    | inr skip ↦
        let (written, e, f, g) = ctrl_process_lem cs cnt ends h in
        (written, rw (go, skip) e, rw (go, skip) f, g)
    | inl task ↦
        let positive : 0 < length ends = omega arith in
        let (written, e, f, g) =
          ctrl_process_lem cs ((cnt + 1) % length ends) ends (mod-lt (cnt + 1) positive) in
        let (end, found) = get_elem?-some ends cnt h in
        (
          (end.write_fd, c) ∷ written,
          rw (go, task, found, e) refl,
          rw (go, task) (ap (λ l. c ∷ l) f),
          turn written end found g,
        )
  ]
]
  where
    turn :
        (written : List (ℕ × ℤ)) (end : EndPoint)
        → get_elem? ends cnt ≡ some end
        → ((k : ℕ)
            → k < length written
            → get_elem? (map (λ w. w.0) written) k
              ≡ fd_at ends (((cnt + 1) % length ends + k) % length ends))
        → (k : ℕ) → k < length ((end.write_fd, c) ∷ written)
        → get_elem? (map (λ w. w.0) ((end.write_fd, c) ∷ written)) k
          ≡ fd_at ends ((cnt + k) % length ends)
    turn written end found g zero lt =
        let small : (cnt + zero) % length ends ≡ cnt + zero = mod-eq_of_lt (omega arith) in
        let here : (cnt + zero) % length ends ≡ cnt = omega arith in rw (here, found) refl
    turn written end found g (suc k) lt =
        g k (omega arith)
        ∙ ap (fd_at ends)
            (mod-add-mod (cnt + 1) (length ends) k ∙ ap (λ n. n % length ends) (omega arith))
