-- ===== src/Shell/Runs.antt =====
-- A round of the loop from the line to the program that it starts: with which words, and with which files in
-- the place of its standard streams.
use learn_in_linux.Common.{
  ℕ, ◌≤◌, ◌<◌, ◌≡◌, ◌≢◌, refl, sym, ap, ◌∙◌, false, Option, none, some, List, [], ◌∷◌, ◌++◌, Bytes,
  length, leb, ◌==◌, if◌then◌else◌, Bool-cases, inl, inr, Result, ok, fault, Fault, ◌>>=◌, arith,
}
use mathlib.Core.Path.{subst}
use learn_in_linux.Text.{codes, c_str, same_bytes, same_bytes_eq}
use learn_in_linux.Shell.{
  size, myval_size, RedirStatus, input_redir, output_redir, append_redir, check_redir, Argv,
  OpenFlag, rdonly, wronly, trunc, append, creat, Call, open_file, dup2, execvp, exit, redirect,
  child, Action, set_env, change_dir, run_child, Shell, round,
}
use learn_in_linux.Shell.Words.{words}
use learn_in_linux.Shell.Parse.{expand}
use learn_in_linux.Shell.Redir.{Plain, check_redir_lem}
use learn_in_linux.Shell.Round.{head?, intended, with_argv, Obeys, round-words}
use learn_in_linux.Shell.Round as Line

-- What a standard stream of a process is connected to: as in the shell, or a file that was opened.
pub data Stream : Type 0 where
  inherited : Stream
  file : (path : Bytes) (flags : List OpenFlag) → Stream

pub record Streams : Type 0 where
  pub stdin : Stream
  pub stdout : Stream

abbrev pub as_shell : Streams
as_shell = record { stdin = inherited; stdout = inherited }

-- `dup2(fd, stream)`.
abbrev connect : ℕ → Stream → Streams → Streams
connect n f s =
    if n == 0 then record s { stdin = f } else if n == 1 then record s { stdout = f } else s

-- The streams and the words that a program starts with, when `open` and `execvp` succeed. `last` is what was
-- opened last.
unfoldable pub launched : List Call → (last : Stream) → Streams → Option (Streams × List Bytes)
launched [] last s = none
launched (open_file path flags ∷ calls) last s = launched calls (file path flags) s
launched (dup2 n ∷ calls) last s = launched calls last (connect n last s)
launched (execvp argv ∷ calls) last s = some (s, argv)
launched (exit code ∷ calls) last s = none

-- A line's command in front of its last sign of redirection, and the streams that the sign asks for. The name of the
-- file is all that stands behind the sign.
pub data Redirects : Bytes → Bytes → Streams → Type 0 where
  no_sign : (line : Bytes) → Plain line → Redirects line line as_shell
  from_file :
      (command name : Bytes)
      → Plain name
      → Redirects
          (command ++ b'<' ∷ name)
          command
          (record { stdin = file name (rdonly ∷ []); stdout = inherited })
  to_file :
      (command name : Bytes) (c : ℕ)
      → Plain name
      → c ≢ b'>'
      → Redirects
          (command ++ c ∷ (b'>' ∷ name))
          (command ++ c ∷ [])
          (record { stdin = inherited; stdout = file name (wronly ∷ (trunc ∷ (creat ∷ []))) })
  behind_file :
      (command name : Bytes)
      → Plain name
      → Redirects
          (command ++ b'>' ∷ (b'>' ∷ name))
          command
          (record { stdin = inherited; stdout = file name (wronly ∷ (append ∷ (creat ∷ []))) })

-- What the words of a command come to: `export` and `cd` in the shell itself, and else a program.
pub data Does (myval : Bytes) (streams : Streams)
    : List Bytes → Result (Bytes × Action) → Type 0 where
  exports :
      {value : Bytes} {more : List Bytes}
      → length value < 64
      → Does myval streams (codes "export" ∷ (value ∷ more)) (ok (value, set_env value))
  overruns :
      {value : Bytes} {more : List Bytes}
      → 64 ≤ length value
      → Does myval streams (codes "export" ∷ (value ∷ more)) (fault Fault.out_of_bounds)
  goes_to :
      {path : Bytes} {more : List Bytes}
      → Does myval streams (codes "cd" ∷ (path ∷ more)) (ok (myval, change_dir (some path)))
  stays : Does myval streams (codes "cd" ∷ []) (ok (myval, change_dir none))
  starts :
      {name : Bytes} {rest : List Bytes} (calls : List Call)
      → (name ≡ codes "export" → rest ≡ [])
      → name ≢ codes "cd"
      → launched calls inherited as_shell ≡ some (streams, name ∷ rest)
      → Does myval streams (name ∷ rest) (ok (myval, run_child calls))

module _ (myval : Bytes) (streams : Streams) (sep : Option (RedirStatus × Bytes))
    (starts_with : (argv : List Bytes)
      → launched (child sep argv) inherited as_shell ≡ some (streams, argv)) where
  export-Does :
      (rest : List Bytes)
      → Does myval streams (codes "export" ∷ rest) (intended myval sep (codes "export" ∷ rest))
  unfolding intended head?
  export-Does [] =
      starts (child sep (codes "export" ∷ [])) (λ e. refl) (λ e. absurd (cc e))
        (starts_with (codes "export" ∷ []))
  export-Does (value ∷ more) = elim (Bool-cases (leb myval_size (length value))) [
    | inl b ↦ rw (intended, b) (overruns (ground arith))
    | inr b ↦ rw (intended, b) (exports (ground arith))
  ]

  cd-Does :
      (rest : List Bytes)
      → Does myval streams (codes "cd" ∷ rest) (intended myval sep (codes "cd" ∷ rest))
  unfolding intended head?
  cd-Does [] = stays
  cd-Does (path ∷ more) = goes_to

  intended-Does :
      (name : Bytes) (rest : List Bytes)
      → Does myval streams (name ∷ rest) (intended myval sep (name ∷ rest))
  unfolding intended
  intended-Does name rest = elim (Bool-cases (same_bytes name (codes "export"))) [
    | inl e ↦
        subst (λ n. Does myval streams (n ∷ rest) (intended myval sep (n ∷ rest)))
          (sym (same_bytes_eq name (codes "export") e)) (export-Does rest)
    | inr e ↦ elim (Bool-cases (same_bytes name (codes "cd"))) [
      | inl d ↦
          subst (λ n. Does myval streams (n ∷ rest) (intended myval sep (n ∷ rest)))
            (sym (same_bytes_eq name (codes "cd") d)) (cd-Does rest)
      | inr d ↦ program e d
    ]
  ]
    where
      program :
          same_bytes name (codes "export") ≡ false
          → same_bytes name (codes "cd") ≡ false
          → Does myval streams (name ∷ rest) (intended myval sep (name ∷ rest))
      program e d =
          rw (intended, e, d)
            (starts (child sep (name ∷ rest))
              (λ x. absurd (cc (e, ap (λ n. same_bytes n (codes "export")) x)))
              (λ x. absurd (cc (d, ap (λ n. same_bytes n (codes "cd")) x)))
              (starts_with (name ∷ rest)))

-- The command and the streams that the line asks for are those that `CheckRedir` and the child come to.
abbrev Redirected : Bytes → Bytes → Streams → Type 0
Redirected start command streams =
    (found : Option (RedirStatus × (Bytes × Bytes))) × (check_redir start ≡ ok found)
    × (Line.command start found ≡ command)
    × ((argv : List Bytes)
        → launched (child (Line.redirection found) argv) inherited as_shell ≡ some (streams, argv))

Redirects-Redirected :
    (start command : Bytes) (streams : Streams)
    → Redirects start command streams
    → Redirected start command streams
unfolding launched child redirect
Redirects-Redirected start command streams (no_sign line plain) =
    (none, (check_redir_lem line plain).0, refl, λ argv. refl)
Redirects-Redirected start command streams (from_file p name plain) =
    let (none_found, input, output, appended, past) = check_redir_lem name plain in
    (some (input_redir, (p, name)), input p, refl, λ argv. refl)
Redirects-Redirected start command streams (to_file p name c plain ne) =
    let (none_found, input, output, appended, past) = check_redir_lem name plain in
    (some (output_redir, (p ++ c ∷ [], name)), output p c ne, refl, λ argv. refl)
Redirects-Redirected start command streams (behind_file p name plain) =
    let (none_found, input, output, appended, past) = check_redir_lem name plain in
    (some (append_redir, (p, name)), appended p, refl, λ argv. refl)

-- A round on a line that ends with some byte `c`, which is cut off, and whose command has words that fit into
-- `g_argv` with the options that are added and NULL: it goes on to the next round with `g_argv` of its size, and the
-- words do what a shell does with them. `export` of fewer than 64 bytes sets its value and of more overruns the
-- buffer, `cd` goes to its path or stays, and anything else is a program that starts with these words and,
-- if `open` succeeds, with the file that the line names in the place of the stream that its last sign means.
pub round_runs :
    (sh : Shell) (line start command : Bytes) (streams : Streams) (c : ℕ) (w : Bytes)
    (ws : List Bytes)
    → length sh.g_argv ≡ size
    → c_str line ≡ start ++ c ∷ []
    → Redirects start command streams
    → words command ≡ w ∷ ws
    → length (expand (w ∷ ws)) < size
    → (g : Argv) × (length g ≡ size)
      × (r : Result (Bytes × Action)) × Does sh.g_myval streams (expand (w ∷ ws)) r
      × (round sh line ≡ (r >>= with_argv g))
unfolding expand
round_runs sh line start command streams c w ws long e redirects named room =
    let (found, at, same, starts_with) = Redirects-Redirected start command streams redirects in
    let obeys : Obeys (round sh line) sh.g_myval (Line.redirection found) (w ∷ ws) =
      subst (Obeys (round sh line) sh.g_myval (Line.redirection found)) (ap words same ∙ named)
        (round-words sh line start c found long e at) in
    let (g, size_kept, does) = obeys.0 room in
    let (name, rest, is) = expand_some w ws in
    (
      g,
      size_kept,
      intended sh.g_myval (Line.redirection found) (expand (w ∷ ws)),
      subst (λ l. Does sh.g_myval streams l (intended sh.g_myval (Line.redirection found) l))
          (sym is)
          (intended-Does sh.g_myval streams (Line.redirection found) starts_with name rest),
      does,
    )
  where
    expand_some :
        (w : Bytes) (ws : List Bytes)
        → (name : Bytes) × (rest : List Bytes) × (expand (w ∷ ws) ≡ name ∷ rest)
    expand_some w ws = elim (Bool-cases (same_bytes w (codes "ls"))) [
      | inl e ↦ (w, codes "--color=auto" ∷ ws, rw (expand, e) refl)
      | inr e ↦ elim (Bool-cases (same_bytes w (codes "ll"))) [
        | inl d ↦ (codes "ls", codes "-l" ∷ (codes "--color=auto" ∷ ws), rw (expand, e, d) refl)
        | inr d ↦ (w, ws, rw (expand, e, d) refl)
      ]
    ]
