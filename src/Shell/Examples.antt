-- ===== src/Shell/Examples.antt =====
-- Lines that the shell reads.
use learn_in_linux.Common.{
  length, ◌>>=◌, arith, Result, ℕ, ◌≡◌, ◌≢◌, refl, none, some, [], ◌∷◌, ◌++◌, Bytes, Lacks,
  replicate, ok, fault, Fault,
}
use learn_in_linux.Text.{codes, c_str, find, starts_with}
use learn_in_linux.Text.Find.{Lacks-of_find}
use learn_in_linux.Shell.{
  Action, size, input_redir, output_redir, append_redir, check_redir, Argv, parse, child, redirect,
  open_file, wronly, trunc, creat, dup2, execvp, exit, run_child, init, round,
}
use learn_in_linux.Shell.Words.{words, pieces, grow, non_empty}
use learn_in_linux.Shell.Parse.{expand, Outcome, parse-words}
use learn_in_linux.Shell.Redir.{check_redir_lem}
use learn_in_linux.Shell.Round.{intended, with_argv}
use learn_in_linux.Shell.Runs.{Streams, inherited, file, to_file, Does, round_runs}

abbrev fresh : Argv
fresh = replicate size none

abbrev lists : Bytes
lists = codes "ls  -a"

abbrev line : Bytes
line = codes "ls  -a> out" ++ b'\n' ∷ []

two_words : words lists ≡ codes "ls" ∷ (codes "-a" ∷ [])
unfolding words pieces grow non_empty
two_words = refl

parse-words_example : Outcome (parse fresh lists) (words lists)
parse-words_example = parse-words fresh lists refl

check_redir_lem_example :
    (check_redir (codes " out") ≡ ok none)
    × ((p : Bytes)
        → check_redir (p ++ b'<' ∷ codes " out") ≡ ok (some (input_redir, (p, codes " out"))))
    × ((p : Bytes) (c : ℕ)
        → c ≢ b'>'
        → check_redir (p ++ c ∷ (b'>' ∷ codes " out"))
          ≡ ok (some (output_redir, (p ++ c ∷ [], codes " out"))))
    × ((p : Bytes)
        → check_redir (p ++ b'>' ∷ (b'>' ∷ codes " out"))
          ≡ ok (some (append_redir, (p, codes " out"))))
    × (check_redir (b'>' ∷ codes " out") ≡ fault Fault.out_of_bounds)
unfolding find starts_with
check_redir_lem_example = check_redir_lem (codes " out") (plain b'>' refl, plain b'<' refl)
  where
    plain : (b : ℕ) → find (b ∷ []) (codes " out") ≡ none → Lacks b (codes " out")
    plain b e = Lacks-of_find b (codes " out") e

-- The file that is opened has the space in its name.
redirected :
    intended [] (some (output_redir, codes " out")) (expand (words lists))
    ≡ ok (
      [],
      run_child (
          open_file (codes " out") (wronly ∷ (trunc ∷ (creat ∷ [])))
          ∷ (dup2 1
              ∷ (execvp (codes "ls" ∷ (codes "--color=auto" ∷ (codes "-a" ∷ [])))
                  ∷ (exit 1 ∷ [])))),
    )
unfolding intended expand words pieces grow non_empty child redirect
redirected = refl

abbrev to_out : Streams
to_out = record {
  stdin = inherited;
  stdout = file (codes " out") (wronly ∷ (trunc ∷ (creat ∷ [])));
}

round_runs_example :
    (g : Argv) × (length g ≡ size)
    × (r : Result (Bytes × Action)) × Does [] to_out (expand (codes "ls" ∷ (codes "-a" ∷ []))) r
    × (round init line ≡ (r >>= with_argv g))
unfolding c_str find starts_with expand
round_runs_example =
    round_runs init line (codes "ls  -a> out") lists to_out b'\n' (codes "ls") (codes "-a" ∷ [])
      refl refl
      (to_file (codes "ls  -") (codes " out") b'a'
        (Lacks-of_find b'>' (codes " out") refl, Lacks-of_find b'<' (codes " out") refl)
        (λ e. absurd (omega (arith, e))))
      two_words (omega arith)
