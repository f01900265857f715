-- ===== src/Shell/Run.antt =====
-- hw1/shell.c: the loop of shell, and what a forked process does. The process IDs that fork returns
-- are arguments, and what the loop asks of the system is a list of events. Dup and the files behind
-- it stand in the record Command.
use cs162hw.Base.{
  ℕ, zero, suc, Bool, true, false, ◌&&◌, Option, none, some, List, [], ◌∷◌, ◌++◌, length, ltb,
  if◌then◌else◌, get_elem?, ◌>>=◌,
}
use cs162hw.Base.Text.{Text}
use cs162hw.Shell.{max_toks, get_toks, Command, read_command}

-- concat, and the paths of get_multiplePath: the name itself, and behind each directory of PATH. The
-- array has no NULL at its end: `behind` is what the memory holds there, up to the first NULL.
unfoldable pub concat : Text → Text → Text
concat s1 s2 = s1 ++ b'/' ∷ s2

unfoldable pub in_each : List Text → Text → List Text
in_each [] file_path = []
in_each (dir ∷ dirs) file_path = concat dir file_path ∷ in_each dirs file_path

unfoldable pub get_multiple_path : Text → List Text → Text → List Text
get_multiple_path path behind file_path = file_path ∷ (in_each (get_toks path) file_path ++ behind)

-- The loop of the forked process: the first path that isExecutable takes and execv runs; `none`
-- where there is no such path, and the process ends with 1.
unfoldable pub exec_first : (Text → Bool) → (Text → Bool) → List Text → Option Text
exec_first is_executable execv [] = none
exec_first is_executable execv (path ∷ paths) =
    let rest = exec_first is_executable execv paths in
    if is_executable path && execv path then some path else rest

-- The forked process for the tokens of a command. `none` where it reads NULL, as there are no tokens,
-- or where the directories of PATH fill the whole array, so that no NULL ends them.
unfoldable pub child :
    (Text → Bool) → (Text → Bool) → Text → List Text → List Text → Option (Option Text)
child is_executable execv path behind tokens = get_elem? tokens 0 >>= λ name.
    if ltb (length (get_toks path)) max_toks
    then some (exec_first is_executable execv (get_multiple_path path behind name))
    else none

pub data Event : Type 0 where
  help pwd quit : Event
  chdir : Option Text → Event
  forked waited : ℕ → Event

-- pid_in_wait_array, as far as len_pid_queue, what was done, and whether the shell goes on.
pub record Session : Type 0 where
  pub pid_in_wait_array : List ℕ
  pub events : List Event
  pub running : Bool

abbrev pub max_pids : ℕ
max_pids = 1024

abbrev pub start : Session
start = record { pid_in_wait_array = []; events = []; running = true }

-- cmd_wait
unfoldable pub wait_all : List ℕ → List Event
wait_all [] = []
wait_all (pid ∷ pids) = waited pid ∷ wait_all pids

unfoldable pub cmd_wait : Session → Session
cmd_wait s = record s { events = s.events ++ wait_all s.pid_in_wait_array; pid_in_wait_array = [] }

abbrev pub add_event : Session → Event → Session
add_event s e = record s { events = s.events ++ e ∷ [] }

-- The entry of cmd_table, called with the tokens behind the first.
unfoldable pub run_builtin : Session → ℕ → Option Text → Session
run_builtin s zero arg = add_event s help
run_builtin s (suc zero) arg = record (add_event s quit) { running = false }
run_builtin s (suc (suc zero)) arg = add_event s pwd
run_builtin s (suc (suc (suc zero))) arg = add_event s (chdir arg)
run_builtin s (suc (suc (suc (suc i)))) arg = cmd_wait s

-- The parent behind fork: it waits for a command in the foreground, and keeps the ID of one in the
-- background. `none` where that is written behind the array.
unfoldable pub parent : Session → Bool → ℕ → Option Session
parent s is_back pid =
    let s' = add_event s (forked pid) in
    if is_back
    then (if ltb (length s.pid_in_wait_array) max_pids
        then some (record s' { pid_in_wait_array = s.pid_in_wait_array ++ pid ∷ [] })
        else none)
    else some (add_event s' (waited pid))

-- One round of the loop. A fork that fails ends the shell.
unfoldable pub run_command : Session → Command → Option ℕ → Option Session
run_command s c pid = elim c.builtin [
  | some i ↦ some (run_builtin s i (get_elem? c.tokens 1))
  | none ↦ elim pid [ none ↦ some (record s { running = false }) | some p ↦ parent s c.is_back p ]
]

-- The loop of shell over the lines of its input.
unfoldable pub shell : Session → List (Text × Option ℕ) → Option Session
shell s [] = some s
shell s ((line, pid) ∷ lines) =
    let next = run_command s (read_command (get_toks line)) pid >>= λ s'. shell s' lines in
    if s.running then next else some s
