-- ===== src/Shell/Round.antt =====
-- A round of the loop in terms of the words of the line: behind the array, what `obey` does with them.
use learn_in_linux.Common.{
  ℕ, suc, ◌≤◌, ◌<◌, ◌≡◌, refl, ap, ◌∙◌, Option, none, some, List, [], ◌∷◌, ◌++◌, Bytes, take-length,
  length, length-append, get_or, leb, if◌then◌else◌, Bool-cases, Option-cases, inl, inr, Result, ok,
  fault, Fault, ◌>>=◌, arith,
}
use learn_in_linux.Text.{codes, c_str, same_bytes}
use learn_in_linux.Shell.{
  size, myval_size, RedirStatus, check_redir, Argv, args, child, Action, set_env, change_dir,
  run_child, Shell, obey, drop_last, round,
}
use learn_in_linux.Shell.Words.{words}
use learn_in_linux.Shell.Parse.{expand, parse-words, Outcome}

unfoldable pub head? : List Bytes → Option Bytes
head? [] = none
head? (w ∷ ws) = some w

-- What the words of a command are to do, with the redirection: the new `g_myval`, and the action.
unfoldable pub intended :
    Bytes → Option (RedirStatus × Bytes) → List Bytes → Result (Bytes × Action)
intended myval sep [] = fault Fault.null_pointer
intended myval sep (name ∷ rest) =
    let run = ok (myval, run_child (child sep (name ∷ rest))) in
    if same_bytes name (codes "export")
    then elim (head? rest) [
      | none ↦ run
      | some value ↦
          if leb myval_size (length value)
          then fault Fault.out_of_bounds
          else ok (value, set_env value)
    ]
    else if same_bytes name (codes "cd")
    then ok (myval, change_dir (head? rest))
    else run

abbrev pub with_argv : Argv → Bytes × Action → Result (Shell × Action)
with_argv g (myval, action) = ok (record { g_argv = g; g_myval = myval }, action)

first-args : (g : Argv) → get_or g 0 none ≡ head? (args g)
unfolding args head?
first-args [] = refl
first-args (none ∷ g) = refl
first-args (some a ∷ g) = refl

obey-args :
    (g : Argv) (myval : Bytes) (sep : Option (RedirStatus × Bytes))
    → obey (record { g_argv = g; g_myval = myval }) sep
      ≡ (intended myval sep (args g) >>= with_argv g)
unfolding obey intended args head?
obey-args [] myval sep = refl
obey-args (none ∷ g) myval sep = refl
obey-args (some name ∷ g) myval sep = elim (Bool-cases (same_bytes name (codes "export"))) [
  | inl e ↦ elim (Option-cases (head? (args g))) [
    | inl n ↦ rw (obey, intended, first-args g, e, n) refl
    | inr (value, v) ↦ elim (Bool-cases (leb myval_size (length value))) [
      | inl b ↦ rw (obey, intended, first-args g, e, v, b) refl
      | inr b ↦ rw (obey, intended, first-args g, e, v, b) refl
    ]
  ]
  | inr e ↦ elim (Bool-cases (same_bytes name (codes "cd"))) [
    | inl d ↦ rw (obey, intended, first-args g, e, d) refl
    | inr d ↦ rw (obey, intended, e, d) refl
  ]
]

drop_last-append : (s : Bytes) (c : ℕ) → drop_last (s ++ c ∷ []) ≡ ok s
unfolding drop_last
drop_last-append [] c = refl
drop_last-append (d ∷ s) c =
    let e : length (s ++ c ∷ []) ≡ suc (length s) = omega (arith, length-append s (c ∷ [])) in
    rw (drop_last, e) (ap (λ t. ok (d ∷ t)) (take-length s (c ∷ [])))

-- The command in front of the sign of redirection, if there is one, and the redirection.
abbrev pub command : Bytes → Option (RedirStatus × (Bytes × Bytes)) → Bytes
command start none = start
command start (some (status, (text, sep))) = text

abbrev pub redirection : Option (RedirStatus × (Bytes × Bytes)) → Option (RedirStatus × Bytes)
redirection none = none
redirection (some (status, (text, sep))) = some (status, sep)

-- What a round ends with, for the words of its command.
abbrev pub Obeys :
    Result (Shell × Action) → Bytes → Option (RedirStatus × Bytes) → List Bytes → Type 0
Obeys m myval sep [] = m ≡ fault Fault.null_pointer
Obeys m myval sep (w ∷ ws) =
    (length (expand (w ∷ ws)) < size
      → (g : Argv) × (length g ≡ size)
        × (m ≡ (intended myval sep (expand (w ∷ ws)) >>= with_argv g)))
    × (size ≤ length (expand (w ∷ ws)) → m ≡ fault Fault.out_of_bounds)

Obeys-Outcome :
    (m : Result Argv) (myval : Bytes) (sep : Option (RedirStatus × Bytes)) (ws : List Bytes)
    → Outcome m ws
    → Obeys (m >>= λ g. obey (record { g_argv = g; g_myval = myval }) sep) myval sep ws
Obeys-Outcome m myval sep [] e =
    ap (λ x. x >>= λ g. obey (record { g_argv = g; g_myval = myval }) sep) e
Obeys-Outcome m myval sep (w ∷ ws) (fits, full) = (
  (λ room.
      let (g, e, named, long) = fits room in
      (
        g,
        long,
        ap (λ x. x >>= λ g. obey (record { g_argv = g; g_myval = myval }) sep) e
            ∙ obey-args g myval sep
            ∙ ap (λ a. intended myval sep a >>= with_argv g) named,
      )),
  λ room. ap (λ x. x >>= λ g. obey (record { g_argv = g; g_myval = myval }) sep) (full room),
)

-- A round on a line that ends with some byte `c`, which is cut off, does with the words of the command in front of the
-- sign of redirection what is intended. This holds for every command with words that fit into `g_argv` with the
-- options that are added and NULL; with more words the shell writes behind the array, and with none it passes a null
-- pointer to `strcmp`.
pub round-words :
    (sh : Shell) (line start : Bytes) (c : ℕ) (found : Option (RedirStatus × (Bytes × Bytes)))
    → length sh.g_argv ≡ size
    → c_str line ≡ start ++ c ∷ []
    → check_redir start ≡ ok found
    → Obeys (round sh line) sh.g_myval (redirection found) (words (command start found))
unfolding round
round-words sh line start c none long e found =
    rw (round, e, drop_last-append start c, found)
      (Obeys-Outcome _ sh.g_myval none (words start) (parse-words sh.g_argv start long))
round-words sh line start c (some (status, (text, sep))) long e found =
    rw (round, e, drop_last-append start c, found)
      (Obeys-Outcome _ sh.g_myval (some (status, sep)) (words text)
        (parse-words sh.g_argv text long))
