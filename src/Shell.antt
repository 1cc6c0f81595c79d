-- ===== src/Shell.antt =====
-- 9-19/shell/myshell.c: one round of the loop of `main`, on the line that `fgets` read. The texts in `cmd_line`
-- are values here: the NULs that CheckRedir and strtok write end them.
pub mod Words
pub mod Parse
pub mod Redir
pub mod Round
pub mod Runs
mod Examples
use learn_in_linux.Common.{
  ℕ, zero, suc, ◌≡◌, Bool, true, false, Option, none, some, List, [], ◌∷◌, ◌++◌, Bytes, take, drop,
  length, get_or, replicate, ◌==◌, leb, if◌then◌else◌, Result, ok, fault, Fault, ◌>>=◌,
}
use learn_in_linux.Text.{codes, c_str, same_bytes}

-- SIZE, and the size of `g_myval`.
abbrev pub size : ℕ
size = 32

abbrev pub myval_size : ℕ
myval_size = 64

-- INPUT_REDIR, OUTPUT_REDIR and APPEND_REDIR; NONE_REDIR is never read.
pub data RedirStatus : Type 0 where
  input_redir output_redir append_redir : RedirStatus

-- `CheckRedir`, with `end` behind the first `i` bytes: `redir_status`, the command in front of
-- the sign and what it returns, or `none` for NULL. At the first byte `end - 1` lies in front of the buffer.
unfoldable pub redir_loop : ℕ → Bytes → Result (Option (RedirStatus × (Bytes × Bytes)))
redir_loop zero start = ok none
redir_loop (suc i) start =
    let before = redir_loop i start in
    if get_or start i 0 == b'>'
    then elim i [
      | zero ↦ fault Fault.out_of_bounds
      | suc j ↦
          if get_or start j 0 == b'>'
          then ok (some (append_redir, (take j start, drop (suc (suc j)) start)))
          else ok (some (output_redir, (take (suc j) start, drop (suc (suc j)) start)))
    ]
    else if get_or start i 0 == b'<'
    then ok (some (input_redir, (take i start, drop (suc i) start)))
    else before

unfoldable pub check_redir : Bytes → Result (Option (RedirStatus × (Bytes × Bytes)))
check_redir start = redir_loop (length start) start

-- `strtok` of the C library for one separator: the next token, and what the call after it starts from.
unfoldable pub skip : Bytes → Bytes
skip [] = []
skip (c ∷ s) = let rest = skip s in if c == b' ' then rest else c ∷ s

unfoldable pub token : Bytes → Bytes × Bytes
token [] = ([], [])
token (c ∷ s) = let (w, r) = token s in if c == b' ' then ([], s) else (c ∷ w, r)

unfoldable pub strtok : Bytes → Option (Bytes × Bytes)
strtok s = elim (skip s) [ [] ↦ none | c ∷ t ↦ some (token (c ∷ t)) ]

-- `g_argv`: texts, and `none` for NULL.
abbrev pub Argv : Type 0
Argv = List (Option Bytes)

unfoldable pub put : ℕ → Option Bytes → Argv → Result Argv
put i v [] = fault Fault.out_of_bounds
put zero v (x ∷ xs) = ok (v ∷ xs)
put (suc i) v (x ∷ xs) = do ys ← put i v xs; ok (x ∷ ys)

-- `while(g_argv[index++]=strtok(NULL,SEP));`
unfoldable pub fill : ℕ → Argv → ℕ → Bytes → Result Argv
fill zero g index s = fault Fault.out_of_fuel
fill (suc fuel) g index s = elim (strtok s) [
  | none ↦ put index none g
  | some (w, rest) ↦ put index (some w) g >>= λ g'. fill fuel g' (suc index) rest
]

-- From the first `strtok` to the loop. `strcmp` of a null pointer is undefined.
unfoldable pub parse : Argv → Bytes → Result Argv
parse g s = elim (strtok s) [
  | none ↦ fault Fault.null_pointer
  | some (w, rest) ↦
      let enough = suc (length rest) in
      if same_bytes w (codes "ls")
      then (do
        g0 ← put 0 (some w) g
        g1 ← put 1 (some (codes "--color=auto")) g0
        fill enough g1 2 rest)
      else if same_bytes w (codes "ll")
      then (do
        g0 ← put 0 (some (codes "ls")) g
        g1 ← put 1 (some (codes "-l")) g0
        g2 ← put 2 (some (codes "--color=auto")) g1
        fill enough g2 3 rest)
      else (do g0 ← put 0 (some w) g; fill enough g0 1 rest)
]

-- What `execvp` reads of `g_argv`.
unfoldable pub args : Argv → List Bytes
args [] = []
args (none ∷ g) = []
args (some a ∷ g) = a ∷ args g

-- The calls of the child; `dup2` puts the file that was opened in the place of a standard stream.
pub data OpenFlag : Type 0 where
  rdonly wronly trunc append creat : OpenFlag

pub data Call : Type 0 where
  open_file : (path : Bytes) (flags : List OpenFlag) → Call
  dup2 : (stream : ℕ) → Call
  execvp : (argv : List Bytes) → Call
  exit : (code : ℕ) → Call

unfoldable pub redirect : RedirStatus → Bytes → List Call
redirect input_redir sep = open_file sep (rdonly ∷ []) ∷ (dup2 0 ∷ [])
redirect output_redir sep = open_file sep (wronly ∷ (trunc ∷ (creat ∷ []))) ∷ (dup2 1 ∷ [])
redirect append_redir sep = open_file sep (wronly ∷ (append ∷ (creat ∷ []))) ∷ (dup2 1 ∷ [])

unfoldable pub child : Option (RedirStatus × Bytes) → List Bytes → List Call
child none argv = execvp argv ∷ (exit 1 ∷ [])
child (some (status, sep)) argv = redirect status sep ++ (execvp argv ∷ (exit 1 ∷ []))

-- What a round does: `putenv`, `chdir` or nothing, or `fork` and the wait for the child.
pub data Action : Type 0 where
  set_env : (value : Bytes) → Action
  change_dir : (path : Option Bytes) → Action
  run_child : List Call → Action

-- `g_myval` is where every entry that `putenv` was given points to.
pub record Shell : Type 0 where
  pub g_argv : Argv
  pub g_myval : Bytes

abbrev pub init : Shell
init = record { g_argv = replicate size none; g_myval = [] }

-- The commands behind the parsing, in the order of the tests.
unfoldable pub obey : Shell → Option (RedirStatus × Bytes) → Result (Shell × Action)
obey sh sep =
    let run = ok (sh, run_child (child sep (args sh.g_argv))) in
    let first = get_or sh.g_argv 1 none in
    elim (get_or sh.g_argv 0 none) [
      | none ↦ fault Fault.null_pointer
      | some name ↦
          if same_bytes name (codes "export")
          then elim first [
            | none ↦ run
            | some value ↦
                if leb myval_size (length value)
                then fault Fault.out_of_bounds
                else ok (record sh { g_myval = value }, set_env value)
          ]
          else if same_bytes name (codes "cd")
          then ok (sh, change_dir first)
          else run
    ]

-- `cmd_line[strlen(cmd_line)-1]='\0'`.
unfoldable pub drop_last : Bytes → Result Bytes
drop_last [] = fault Fault.out_of_bounds
drop_last (c ∷ s) = ok (take (length s) (c ∷ s))

unfoldable pub round : Shell → Bytes → Result (Shell × Action)
round sh line = do
  start ← drop_last (c_str line)
  found ← check_redir start
  elim found [
    | none ↦ parse sh.g_argv start >>= λ g. obey (record sh { g_argv = g }) none
    | some (status, (command, sep)) ↦
        parse sh.g_argv command >>= λ g. obey (record sh { g_argv = g }) (some (status, sep))
  ]
