-- ===== src/ProcessPool.antt =====
-- 10-1/processpool: a parent hands tasks to child processes over pipes. processpoll.cc makes the
-- processes, gives out the commands and waits for the children; task.hpp has what a child executes.
-- A pipe stands for its write end's descriptor. A process is the write ends that it holds and the pipe
-- that it reads as its standard input; what the tasks print changes nothing.
pub mod Rotation
pub mod Shutdown
mod Examples
use learn_in_linux.Common.{
  ℕ, zero, suc, ◌+◌, ◌%◌, Bool, true, false, not, ◌&&◌, ◌||◌, Option, none, some, List, [], ◌∷◌,
  ◌++◌, Bytes, get_elem?, length, take, ltb, ◌==◌, if◌then◌else◌, Result, ok, fault, Fault, ◌>>=◌,
}
use learn_in_linux.Common.Int.{ℤ, pos, negsuc}
use learn_in_linux.Text.{codes, to_string}

pub record EndPoint : Type 0 where
  pub child_id : ℕ
  pub write_fd : ℕ
  pub processname : Bytes

-- The constructor, with `EndPoint::number` before it. The buffer has room for 63 bytes.
unfoldable pub end_point : (number child_id write_fd : ℕ) → EndPoint
end_point number child_id write_fd = record {
  child_id = child_id;
  write_fd = write_fd;
  processname = take 63 (
      codes "process-"
      ++ (to_string (pos number)
          ++ (codes "["
              ++ (to_string (pos child_id)
                  ++ (codes ":" ++ (to_string (pos write_fd) ++ codes "]"))))));
}

pub record Child : Type 0 where
  pub pid : ℕ
  pub writes : List ℕ
  pub stdin : ℕ

-- `writes` are the write ends that the parent has open.
pub record World : Type 0 where
  pub writes : List ℕ
  pub children : List Child

unfoldable pub has : ℕ → List ℕ → Bool
has fd [] = false
has fd (x ∷ xs) = (fd == x) || has fd xs

-- `close(fd)`.
unfoldable pub close : ℕ → List ℕ → List ℕ
close fd [] = []
close fd (x ∷ xs) = if fd == x then close fd xs else x ∷ close fd xs

-- `for (auto &fd : fds) close(fd);`.
unfoldable pub close_all : List ℕ → List ℕ → List ℕ
close_all [] writes = writes
close_all (fd ∷ fds) writes = close_all fds (close fd writes)

-- The rounds of `createProcesses`, of which there are `gnum`. Each element is what `pipe` and `fork` give in its round: the pipe
-- and the child's pid, or `none` for a failure. A child starts with the descriptors of its parent.
unfoldable pub create_processes :
    List (Option ℕ × Option ℕ)
    → (number : ℕ) → (fds : List ℕ) → List EndPoint
    → World
    → Result (List EndPoint × World)
create_processes [] number fds end_points w = ok (end_points, w)
create_processes ((none, id) ∷ more) number fds end_points w = fault Fault.assert_failed
create_processes ((some p, none) ∷ more) number fds end_points w = fault Fault.assert_failed
create_processes ((some p, some id) ∷ more) number fds end_points w =
    let open_ends = w.writes ++ p ∷ [] in
    let child : Child = record {
      pid = id;
      writes = close p (close_all fds open_ends);
      stdin = p;
    } in
    create_processes more (suc number) (fds ++ p ∷ []) (end_points ++ end_point number id p ∷ [])
      (record { writes = open_ends; children = w.children ++ child ∷ [] })

-- What `read(0, &command, sizeof(int))` gives: an int, the end of the pipe, or another number of bytes.
pub data Read : Type 0 where
  full : ℤ → Read
  at_end short : Read

-- The tasks of `funcs`, by their places.
pub data Action : Type 0 where
  print_log insert_my_sql net_request : Action

abbrev pub funcs : List Action
funcs = print_log ∷ insert_my_sql ∷ net_request ∷ []

-- `Task::Execute`: what is called, if anything.
unfoldable pub execute : ℤ → Option Action
execute (pos n) = get_elem? funcs n
execute (negsuc n) = none

-- `WaitCommand` on what its reads give: the tasks that it runs before it leaves its loop.
unfoldable pub wait_command : List Read → List Action
wait_command [] = []
wait_command (full c ∷ reads) =
    let rest = wait_command reads in elim (execute c) [ none ↦ rest | some a ↦ a ∷ rest ]
wait_command (at_end ∷ reads) = []
wait_command (short ∷ reads) = []

-- Whether `ctrlProcess` leaves its loop on a command, and whether it goes on with the next one.
unfoldable pub is_quit : ℤ → Bool
is_quit (pos n) = n == 3
is_quit (negsuc n) = false

unfoldable pub is_task : ℤ → Bool
is_task (pos n) = ltb n 3
is_task (negsuc n) = false

-- `ctrlProcess` on the commands that are typed in: what it writes, each with the descriptor, and whether it
-- leaves its loop. It does that for a 3 only, and else waits for one more command.
unfoldable pub ctrl_process : List ℤ → (cnt : ℕ) → List EndPoint → Result (List (ℕ × ℤ) × Bool)
ctrl_process [] cnt ends = ok ([], false)
ctrl_process (command ∷ commands) cnt ends =
    let skipped = ctrl_process commands cnt ends in
    let written = ctrl_process commands ((cnt + 1) % length ends) ends in
    if is_quit command
    then ok ([], true)
    else if not (is_task command)
    then skipped
    else elim (get_elem? ends cnt) [
      | none ↦ fault Fault.out_of_bounds
      | some e ↦ written >>= (λ (out, left). ok ((e.write_fd, command) ∷ out, left))
    ]

-- Whether some process other than the parent has the write end open.
unfoldable pub held : ℕ → List Child → Bool
held fd [] = false
held fd (c ∷ cs) = has fd c.writes || held fd cs

unfoldable pub remove : ℕ → List Child → List Child
remove pid [] = []
remove pid (c ∷ cs) = if pid == c.pid then cs else c ∷ remove pid cs

unfoldable pub child_with : ℕ → List Child → Option Child
child_with pid [] = none
child_with pid (c ∷ cs) = if pid == c.pid then some c else child_with pid cs

-- `waitpid(pid, nullptr, 0)`: it returns when the child has ended, which reads until no process has the
-- write end of its pipe. With no such child it returns at once.
unfoldable pub waitpid : ℕ → World → Result World
waitpid pid w = elim (child_with pid w.children) [
  | none ↦ ok w
  | some c ↦
      if has c.stdin w.writes || held c.stdin w.children
      then fault Fault.blocked
      else ok (record w { children = remove pid w.children })
]

unfoldable pub wait_process : List EndPoint → World → Result World
wait_process [] w = ok w
wait_process (e ∷ ends) w = do
  w' ← waitpid e.child_id (record w { writes = close e.write_fd w.writes })
  wait_process ends w'

-- `main` on what `pipe` and `fork` give and on the commands: what was written, and the world in the end. With no
-- 3 among the commands it never comes to `waitProcess`.
unfoldable pub main : List (Option ℕ × Option ℕ) → List ℤ → Result (List (ℕ × ℤ) × World)
main answers commands = do
  (ends, w) ← create_processes answers 0 [] [] (record { writes = []; children = [] })
  (written, left) ← ctrl_process commands 0 ends
  if left then (do w' ← wait_process ends w; ok (written, w')) else fault Fault.blocked
