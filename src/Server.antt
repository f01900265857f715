-- ===== src/Server.antt =====
-- hw4/src/kvserver.c: a follower. A function of it takes the answers of the operating system and
-- the server, and returns `none` where the C code reads through a NULL pointer. `hash` is
-- strhash64.
--
-- The loops over the log have as much fuel as there are log files, and one more; the log is not
-- changed while they run.
pub mod Redo
pub mod Action
pub mod Phase
pub mod Decide
pub mod Vote
pub mod Handle
pub mod Restart
pub mod Recover
pub mod Stale
pub mod Race
pub mod Sample
mod Tests
use cs162hw.Base.{
  ℕ, zero, suc, ◌+◌, ℤ, pos, is_neg, int_eq, Bool, true, false, ◌||◌, Option, none, some, List, [],
  ◌∷◌, length, ltb, ◌==◌, if◌then◌else◌, ◌>>=◌,
}
use cs162hw.Base.Text.{Text, c_str}
use cs162hw.Consts.{
  MsgType, index, getreq, putreq, delreq, commit, abort, getresp, error, vote, ack, TpcState,
  tpc_init, tpc_wait, tpc_ready, tpc_abort, tpc_commit, max_keylen, max_vallen, err_key_len,
  err_val_len, msg_commit, errmsg_invalid_request, get_msg,
}
use cs162hw.Disk.{Disk, LogEntry, Os}
use cs162hw.Store
use cs162hw.Log
use cs162hw.Log.{TpcLog, is_type, has_next, iterate_begin, iterate_next, log_msg, clear_log}
use cs162hw.Message.{Request, Response}

-- kvserver_t: the directory, the log in memory and the state. The pending message is never used.
pub record Server : Type 0 where
  pub disk : Disk
  pub log : TpcLog
  pub state : TpcState
  pub hostname : Text
  pub port : ℕ
  pub max_threads : ℕ

-- parse_log: what stands behind the first NUL among the first `len` bytes.
unfoldable pub parse_log : List ℕ → ℕ → Option (List ℕ)
parse_log bytes zero = none
parse_log [] (suc len) = none
parse_log (b ∷ bytes) (suc len) = if b == 0 then some bytes else parse_log bytes len

-- The loop of kvserver_rebuild_state: the entry that iterate_next returned last.
unfoldable pub last_loop : ℕ → Os → Disk → TpcLog → Option LogEntry → Option LogEntry × TpcLog
last_loop zero os d log iter = (iter, log)
last_loop (suc fuel) os d log iter =
    let (e, log') = iterate_next os log d in
    let rest = last_loop fuel os d log' e in if has_next log d then rest else (iter, log)

abbrev pub voting : TpcState → Bool
voting tpc_init = true
voting tpc_wait = true
voting _ = false

abbrev pub is_ready : TpcState → Bool
is_ready tpc_ready = true
is_ready _ = false

-- The last part of a transaction: the log is cleared and the server waits for the next one.
unfoldable pub finish : Os → Server → Server
finish os s =
    let (code, log, d) = clear_log os s.log s.disk in
    record s { disk = d; log = log; state = tpc_wait }

-- The ABORT branch of kvserver_handle_tpc.
unfoldable pub handle_abort : Os → Server → Response → Server × Response
handle_abort os s res =
    if is_ready s.state
    then (let (code, log, d) = log_msg os s.log s.disk abort [] [] in
        (
          finish os (record s { disk = d; log = log; state = tpc_abort }),
          record res { type = ack },
        ))
    else (s, record res { type = ack })

-- kvserver_put_check
unfoldable pub server_put_check : Disk → Text → Text → ℤ
server_put_check d key value =
    if ltb max_keylen (length key) || length key == 0
    then err_key_len
    else if ltb max_vallen (length value)
    then err_val_len
    else (let check = Store.put_check d key value in if is_neg check then check else pos 0)

-- The PUTREQ branch of kvserver_handle_tpc. The result of tpclog_log is not looked at.
unfoldable pub handle_put : Os → Server → Text → Text → Server × Response
handle_put os s key val =
    if voting s.state
    then (let check = server_put_check s.disk key val in
        let (code, log, d) = log_msg os s.log s.disk putreq key val in
        if int_eq check (pos 0)
        then (
          record s { disk = d; log = log; state = tpc_ready },
          record { type = vote; body = some msg_commit },
        )
        else (s, record { type = vote; body = some (get_msg check) }))
    else (s, record { type = error; body = some errmsg_invalid_request })

module _ (hash : Text → ℕ) where
  -- kvserver_get
  unfoldable pub server_get : Os → Disk → Text → ℤ × Option Text
  server_get os d key =
      if ltb max_keylen (length key) then (err_key_len, none) else Store.get hash os d key

  -- kvserver_put
  unfoldable pub server_put : Os → Disk → Text → Text → ℤ × Disk
  server_put os d key value =
      let ret = server_put_check d key value in
      if is_neg ret then (ret, d) else Store.put hash os d key value

  -- kvserver_del_check
  unfoldable pub server_del_check : Os → Disk → Text → ℤ
  server_del_check os d key =
      if ltb max_keylen (length key) || length key == 0
      then err_key_len
      else (let check = Store.del_check hash os d key in if is_neg check then check else pos 0)

  -- kvserver_del
  unfoldable pub server_del : Os → Disk → Text → ℤ × Disk
  server_del os d key =
      let ret = server_del_check os d key in
      if is_neg ret then (ret, d) else Store.del hash os d key

  -- One round of do_log: the action of a log entry. A PUT with no value behind its key reads NULL.
  unfoldable pub redo : Os → Disk → LogEntry → Option Disk
  redo os d e =
      if is_type e.type putreq
      then elim (parse_log e.bytes e.length) [
        | none ↦ none
        | some value ↦ some (server_put os d (c_str e.bytes) (c_str value)).1
      ]
      else if is_type e.type delreq
      then some (server_del os d (c_str e.bytes)).1
      else some d

  -- do_log, from the position of the iteration on.
  unfoldable pub do_loop : ℕ → Os → Disk → TpcLog → Option (Disk × TpcLog)
  do_loop zero os d log = some (d, log)
  do_loop (suc fuel) os d log =
      let (iter, log') = iterate_next os log d in
      let rest = iter >>= λ e. redo os d e >>= λ d'. do_loop fuel os d' log' in
      if has_next log d then rest else some (d, log)

  unfoldable pub do_log : Os → Disk → TpcLog → Option (Disk × TpcLog)
  do_log os d log = do_loop (length d.logs + 1) os d (iterate_begin log)

  -- The DELREQ branch.
  unfoldable pub handle_del : Os → Server → Text → Server × Response
  handle_del os s key =
      if voting s.state
      then (let check = server_del_check os s.disk key in
          let (code, log, d) = log_msg os s.log s.disk delreq key [] in
          if int_eq check (pos 0)
          then (
            record s { disk = d; log = log; state = tpc_ready },
            record { type = vote; body = some msg_commit },
          )
          else (s, record { type = vote; body = some (get_msg check) }))
      else (s, record { type = error; body = some errmsg_invalid_request })

  -- The COMMIT branch.
  unfoldable pub handle_commit : Os → Server → Response → Option (Server × Response)
  handle_commit os s res =
      if is_ready s.state
      then (let (code, log, d) = log_msg os s.log s.disk commit [] [] in
          do_log os d log >>= λ (d', log'). some (
            finish os (record s { disk = d'; log = log'; state = tpc_commit }),
            record res { type = ack },
          ))
      else some (s, record res { type = ack })

  -- The GETREQ branch.
  unfoldable pub handle_get : Os → Server → Text → Server × Response
  handle_get os s key =
      let (code, value) = server_get os s.disk key in
      if int_eq code (pos 0)
      then (s, record { type = getresp; body = value })
      else (s, record { type = error; body = some (get_msg code) })

  -- kvserver_handle_tpc. A type that is not handled leaves the response as it is.
  unfoldable pub handle_type :
      Os → Server → Request → Response → MsgType → Option (Server × Response)
  handle_type os s req res putreq =
      req.key >>= λ key. req.val >>= λ val. some (handle_put os s key val)
  handle_type os s req res delreq = req.key >>= λ key. some (handle_del os s key)
  handle_type os s req res commit = handle_commit os s res
  handle_type os s req res abort = some (handle_abort os s res)
  handle_type os s req res getreq = req.key >>= λ key. some (handle_get os s key)
  handle_type os s req res _ = some (s, res)

  unfoldable pub handle_tpc : Os → Server → Request → Response → Option (Server × Response)
  handle_tpc os s req res = handle_type os s req res req.type

  -- kvserver_rebuild_state behind its loop, given the newest entry of the log.
  unfoldable pub resume : Os → Server → Option LogEntry → Option Server
  resume os s none = some s
  resume os s (some e) =
      if is_type e.type putreq || is_type e.type delreq
      then some (record s { state = tpc_ready })
      else if is_type e.type commit
      then (do_log os s.disk s.log >>= λ (d', log').
          some (finish os (record s { disk = d'; log = log' })))
      else if is_type e.type abort
      then some (finish os s)
      else some s

  -- kvserver_rebuild_state
  unfoldable pub rebuild_state : Os → Server → Option Server
  rebuild_state os s =
      let (iter, log) = last_loop (length s.disk.logs + 1) os s.disk (iterate_begin s.log) none in
      resume os (record s { log = log }) iter

  -- kvserver_init; `raw` is the memory of the server before, and its directory.
  unfoldable pub init : Os → Server → ℕ → Text → ℕ → Option (ℤ × Server)
  init os raw max_threads hostname port =
      let (ret, d1) = Store.init os raw.disk in
      let (ret', log, d2) = Log.init os raw.log d1 in
      let s : Server = record {
        disk = d2;
        log = log;
        state = tpc_init;
        hostname = hostname;
        port = port;
        max_threads = max_threads;
      } in
      let rebuilt = rebuild_state os s >>= λ s'. some (pos 0, s') in
      if is_neg ret
      then some (ret, record raw { disk = d1 })
      else if is_neg ret'
      then some (ret', record raw { disk = d2; log = log })
      else rebuilt

  -- kvserver_clean
  unfoldable pub clean : Server → ℤ × Server
  clean s = let (ret, d) = Store.clean s.disk in (ret, record s { disk = d })
