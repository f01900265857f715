-- ===== src/Disk.antt =====
-- The directory that a server keeps its files in, and what the operating system answers.
--
-- kvserver_init hands one directory name to the store and to the log, so that both kinds of files
-- lie in one directory: `HASH-POS.entry` (hw4/src/kvstore.h) and `ID.log` (hw4/src/tpclog.h). The
-- suffixes keep the two name spaces apart, and sprintf prints different numbers differently, so a
-- file is found here by its numbers.
use cs162hw.Base.{
  ℕ, ◌≤◌, ◌<◌, Bool, ◌&&◌, Option, List, none, some, [], is_some, true, false, ◌==◌, if◌then◌else◌,
  ◌≡◌, arith, length,
}
use cs162hw.Base.Dict
use cs162hw.Base.Dict.{Dict, nat_eq, pair_inst}
use cs162hw.Consts.{MsgType}

-- kventry_t
pub record Entry : Type 0 where
  pub length : ℕ
  pub bytes : List ℕ

-- logentry_t
pub record LogEntry : Type 0 where
  pub type : MsgType
  pub length : ℕ
  pub bytes : List ℕ

-- `none` is a log file that a short write has left incomplete.
pub record Disk : Type 0 where
  pub present : Bool
  pub entries : Dict (ℕ × ℕ) Entry
  pub logs : Dict ℕ (Option LogEntry)

abbrev pub no_disk : Disk
no_disk = record { present = false; entries = []; logs = [] }

-- What write answers: the whole size, less, or -1.
pub data Written : Type 0 where
  whole short failed : Written

-- The answers of the system calls: whether a file can be opened, written, removed or renamed.
pub record Os : Type 0 where
  pub makes_dir : Bool
  pub opens_entry : ℕ → ℕ → Bool
  pub removes_entry : Bool
  pub renames_entry : Bool
  pub opens_log : ℕ → Bool
  pub writes_log : Written
  pub removes_log : ℕ → Bool
  pub errno : ℕ

-- Every call succeeds.
abbrev pub working : Os
working = record {
  makes_dir = true;
  opens_entry = λ h i. true;
  removes_entry = true;
  renames_entry = true;
  opens_log = λ i. true;
  writes_log = whole;
  removes_log = λ i. true;
  errno = 0;
}

-- The file `H-I.entry`, its writing and its removal.
abbrev pub entry_at : Disk → ℕ → ℕ → Option Entry
entry_at d h i = Dict.get d.entries (h, i)

abbrev pub put_entry : Disk → ℕ → ℕ → Entry → Disk
put_entry d h i e = record d { entries = Dict.put d.entries (h, i) e }

abbrev pub remove_entry : Disk → ℕ → ℕ → Disk
remove_entry d h i = record d { entries = Dict.remove d.entries (h, i) }

-- The file `I.log`.
abbrev pub log_at : Disk → ℕ → Option (Option LogEntry)
log_at d i = Dict.get d.logs i

abbrev pub put_log : Disk → ℕ → Option LogEntry → Disk
put_log d i e = record d { logs = Dict.put d.logs i e }

abbrev pub remove_log : Disk → ℕ → Disk
remove_log d i = record d { logs = Dict.remove d.logs i }

pub entry_at-put_entry :
    (d : Disk) (h i g j : ℕ) (e : Entry)
    → entry_at (put_entry d h i e) g j ≡ (if h == g && i == j then some e else entry_at d g j)
entry_at-put_entry d h i g j e = Dict.get-put d.entries (h, i) (g, j) e

pub entry_at-remove_entry :
    (d : Disk) (h i g j : ℕ)
    → entry_at (remove_entry d h i) g j ≡ (if h == g && i == j then none else entry_at d g j)
entry_at-remove_entry d h i g j = Dict.get-remove d.entries (h, i) (g, j)

pub log_at-put_log :
    (d : Disk) (i j : ℕ) (e : Option LogEntry)
    → log_at (put_log d i e) j ≡ (if i == j then some e else log_at d j)
log_at-put_log d i j e = Dict.get-put d.logs i j e

pub log_at-remove_log :
    (d : Disk) (i j : ℕ) → log_at (remove_log d i) j ≡ (if i == j then none else log_at d j)
log_at-remove_log d i j = Dict.get-remove d.logs i j

-- A chain of files that are all present is no longer than the directory, and so is a log.
pub chain-le-length :
    (d : Disk) (h n : ℕ)
    → ((i : ℕ) → i < n → is_some (entry_at d h i) ≡ true)
    → n ≤ length d.entries
chain-le-length d h n all = Dict.pigeonhole (λ i. (h, i)) (λ i j e. ground arith) n d.entries all

pub logs-le-length :
    (d : Disk) (n : ℕ) → ((i : ℕ) → i < n → is_some (log_at d i) ≡ true) → n ≤ length d.logs
logs-le-length d n all = Dict.pigeonhole (λ i. i) (λ i j e. ground arith) n d.logs all
