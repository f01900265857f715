-- ===== src/Log.antt =====
-- hw4/src/tpclog.c: the log of the two-phase commit, one file for each entry, numbered from 0. A
-- function returns its code, the log in memory, and the directory.
--
-- The loops over the files have as much fuel as there are log files, and one more (Log/Scan).
pub mod Scan
use cs162hw.Base.{
  ℕ, zero, suc, ◌+◌, ◌-◌, ℤ, pos, Bool, true, false, ◌||◌, not, Option, none, some, List, [], ◌∷◌,
  ◌++◌, length, ◌==◌, if◌then◌else◌, is_some,
}
use cs162hw.Base.Text.{Text}
use cs162hw.Consts.{MsgType, putreq, delreq, commit, abort, number, err_invld_msg, err_fil_access}
use cs162hw.Disk.{Written, whole, short, failed, Disk, LogEntry, Os, log_at, put_log, remove_log}

-- tpclog_t
pub record TpcLog : Type 0 where
  pub nextid : ℕ
  pub iterpos : ℕ

-- The search of tpclog_init for the first number that no file has.
unfoldable pub next_id : ℕ → Disk → ℕ → ℕ
next_id zero d i = i
next_id (suc fuel) d i =
    let rest = next_id fuel d (suc i) in if is_some (log_at d i) then rest else i

-- tpclog_init. On a failure the log is left as it was.
unfoldable pub init : Os → TpcLog → Disk → ℤ × TpcLog × Disk
init os log d =
    if d.present
    then (pos 0, record log { nextid = next_id (length d.logs + 1) d 0 }, d)
    else if os.makes_dir
    then (
      pos 0,
      record log { nextid = next_id (length d.logs + 1) d 0 },
      record d { present = true },
    )
    else (pos os.errno, log, d)

abbrev pub is_type : MsgType → MsgType → Bool
is_type a b = number a == number b

-- The bytes of a log entry: key and value, each with its NUL, as far as the type has them. The
-- strings that the type does not have are not read.
unfoldable pub make_data : MsgType → Text → Text → List ℕ
make_data type key value =
    if is_type type putreq
    then key ++ 0 ∷ (value ++ 0 ∷ [])
    else if is_type type delreq
    then key ++ 0 ∷ []
    else []

unfoldable pub make_log_entry : MsgType → Text → Text → LogEntry
make_log_entry type key value = record {
  type = type;
  length = length (make_data type key value);
  bytes = make_data type key value;
}

-- The write of tpclog_log. A short one leaves an incomplete file behind, and its number is spent.
-- One that fails does so too, but -1 is not less than the size, which has no sign.
unfoldable pub write_entry : Written → TpcLog → Disk → LogEntry → ℤ × TpcLog × Disk
write_entry whole log d e =
    (pos 0, record log { nextid = suc log.nextid }, put_log d log.nextid (some e))
write_entry short log d e =
    (err_fil_access, record log { nextid = suc log.nextid }, put_log d log.nextid none)
write_entry failed log d e =
    (pos 0, record log { nextid = suc log.nextid }, put_log d log.nextid none)

-- tpclog_log
unfoldable pub log_msg : Os → TpcLog → Disk → MsgType → Text → Text → ℤ × TpcLog × Disk
log_msg os log d type key value =
    if is_type type putreq || is_type type delreq || is_type type abort || is_type type commit
    then (if os.opens_log log.nextid
        then write_entry os.writes_log log d (make_log_entry type key value)
        else (err_fil_access, log, d))
    else (err_invld_msg, log, d)

-- tpclog_load_entry, on the file with number `i`; `none` for a negative code.
unfoldable pub load_entry : Os → Disk → ℕ → Option LogEntry
load_entry os d i = if os.opens_log i then elim (log_at d i) [ none ↦ none | some e ↦ e ] else none

-- tpclog_iterate_begin
unfoldable pub iterate_begin : TpcLog → TpcLog
iterate_begin log = record log { iterpos = 0 }

-- tpclog_iterate_has_next
unfoldable pub has_next : TpcLog → Disk → Bool
has_next log d = is_some (log_at d log.iterpos)

-- tpclog_iterate_next; `none` is NULL.
unfoldable pub iterate_next : Os → TpcLog → Disk → Option LogEntry × TpcLog
iterate_next os log d =
    if has_next log d
    then (load_entry os d log.iterpos, record log { iterpos = suc log.iterpos })
    else (none, log)

-- The loop of tpclog_clear_log: the files are removed from number `i` on, the first ones first.
-- `false` if a removal fails.
unfoldable pub clear_loop : ℕ → Os → Disk → ℕ → Bool × Disk
clear_loop zero os d i = (true, d)
clear_loop (suc fuel) os d i =
    let rest = clear_loop fuel os (remove_log d i) (suc i) in
    if is_some (log_at d i) then (if os.removes_log i then rest else (false, d)) else (true, d)

-- tpclog_clear_log. A failure returns before `nextid` is reset.
unfoldable pub clear_log : Os → TpcLog → Disk → ℤ × TpcLog × Disk
clear_log os log d =
    let (done, d') = clear_loop (length d.logs + 1) os d 0 in
    if done then (pos 0, record log { nextid = 0 }, d') else (pos os.errno, log, d')
