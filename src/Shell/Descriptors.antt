-- ===== src/Shell/Descriptors.antt =====
-- hw1/shell.c, the loop of `shell`: the descriptors of a redirection. A file has a number, and a
-- table of descriptors tells which file each one stands for. What open finds is an argument.
use cs162hw.Base.{ℕ, ◌<◌, ◌≡◌, Bool, Option, none, some, ◌==◌, if◌then◌else◌}

abbrev pub Table : Type 0
Table = ℕ → Option ℕ

unfoldable pub set : Table → ℕ → Option ℕ → Table
set t fd file n = if n == fd then file else t n

-- The descriptor that the operating system chooses for an open file: a free one, as long as there
-- is one below the limit of the process.
pub record Kernel : Type 0 where
  pub limit : ℕ
  pub lowest : Table → Option ℕ
  pub lowest-free : (t : Table) (fd : ℕ) → lowest t ≡ some fd → t fd ≡ none
  pub lowest-finds : (t : Table) (n : ℕ) → n < limit → t n ≡ none → (fd : ℕ) × (lowest t ≡ some fd)

-- The calls of open, dup, dup2 and close; `none` is the descriptor -1.
unfoldable pub place : Table → ℕ → Option ℕ → Option ℕ × Table
place t file none = (none, t)
place t file (some fd) = (some fd, set t fd (some file))

unfoldable pub open_file : Kernel → Option ℕ → Table → Option ℕ × Table
open_file k none t = (none, t)
open_file k (some file) t = place t file (k.lowest t)

unfoldable pub dup : Kernel → ℕ → Table → Option ℕ × Table
dup k fd t = open_file k (t fd) t

unfoldable pub dup2_file : ℕ → Option ℕ → Table → Table
dup2_file to none t = t
dup2_file to (some file) t = set t to (some file)

unfoldable pub dup2 : Option ℕ → ℕ → Table → Table
dup2 none to t = t
dup2 (some fd) to t = dup2_file to (t fd) t

unfoldable pub close : Option ℕ → Table → Table
close none t = t
close (some fd) t = set t fd none

-- A redirection of `target`, with the saved descriptor; and the way back.
unfoldable pub redirect_to : Kernel → ℕ → Option ℕ → Table → Option ℕ × Table
redirect_to k target opened t =
    let (fd, t1) = open_file k opened t in
    let (save, t2) = dup k target t1 in (save, close fd (dup2 fd target t2))

unfoldable pub restore : ℕ → Option ℕ → Table → Table
restore target save t = close save (dup2 save target t)

-- Before the command, and behind it.
unfoldable pub redirected :
    Kernel → Bool → Option ℕ → Bool → Option ℕ → Table → Option ℕ × Option ℕ × Table
redirected k change_out out change_in in_file t =
    let (stdout_save, t1) = if change_out then redirect_to k 1 out t else (none, t) in
    let (stdin_save, t2) = if change_in then redirect_to k 0 in_file t1 else (none, t1) in
    (stdout_save, stdin_save, t2)

unfoldable pub restored : Bool → Bool → Option ℕ × Option ℕ × Table → Table
restored change_out change_in (stdout_save, stdin_save, t) =
    let t1 = if change_out then restore 1 stdout_save t else t in
    if change_in then restore 0 stdin_save t1 else t1

-- What the target stands for while the command runs: its file, unless that could not be opened.
abbrev pub file_or : Option ℕ → Option ℕ → Option ℕ
file_or none old = old
file_or (some file) old = some file
