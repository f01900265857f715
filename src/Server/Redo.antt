-- ===== src/Server/Redo.antt =====
-- do_log: what a log entry stands for, and the log replayed in order.
use cs162hw.Base.{
  ◌>>=◌, ℕ, zero, suc, ◌+◌, ◌≤◌, ◌<◌, ◌≡◌, refl, inl, inr, ℤ, true, Option, none, some, List, [],
  ◌∷◌, ◌++◌, length, arith, Bool-cases, Option-cases, is_some, ◌==◌, length-append,
}
use cs162hw.Base.Text.{Text, IsText, c_str, c_str-append}
use cs162hw.Consts.{putreq, delreq}
use cs162hw.Disk.{Disk, LogEntry, Os, log_at, logs-le-length}
use cs162hw.Store
use cs162hw.Store.{found, failed}
use cs162hw.Log.{
  TpcLog, make_data, make_log_entry, has_next, iterate_begin, iterate_next, load_entry,
}
use cs162hw.Server.{parse_log, server_put, server_del, redo, do_loop, do_log, last_loop}

-- The changes that a transaction can ask for.
pub data Action : Type 0 where
  put : Text → Text → Action
  del : Text → Action

-- The log entry of an action.
unfoldable pub entry_of : Action → LogEntry
entry_of (put k v) = make_log_entry putreq k v
entry_of (del k) = make_log_entry delreq k []

-- The strings of an action are C strings.
abbrev pub IsAction : Action → Type 0
IsAction (put k v) = IsText k × IsText v
IsAction (del k) = IsText k

-- parse_log finds the value behind the key.
pub parse_log-append :
    (k rest : List ℕ) (n : ℕ) → IsText k → length k < n → parse_log (k ++ 0 ∷ rest) n ≡ some rest
unfolding parse_log
parse_log-append k rest zero text lt = absurd (omega arith)
parse_log-append [] rest (suc n) text lt = refl
parse_log-append (b ∷ k) rest (suc n) text lt =
    ground (arith, parse_log-append k rest n text.1 (omega arith))

module _ (hash : Text → ℕ) (os : Os) where
  -- The effect of an action on the store.
  unfoldable pub perform : Action → Disk → Disk
  perform (put k v) d = (server_put hash os d k v).1
  perform (del k) d = (server_del hash os d k).1

  -- What the log keeps of an action is enough to do it again.
  pub redo-entry_of :
      (a : Action) (d : Disk) → IsAction a → redo hash os d (entry_of a) ≡ some (perform a d)
  unfolding redo entry_of make_log_entry make_data perform
  redo-entry_of (put k v) d (tk, tv) =
      let found : parse_log (k ++ 0 ∷ (v ++ 0 ∷ [])) (length (k ++ 0 ∷ (v ++ 0 ∷ [])))
          ≡ some (v ++ 0 ∷ []) =
        parse_log-append k (v ++ 0 ∷ []) _ tk
          (omega (arith, length-append k (0 ∷ (v ++ 0 ∷ [])))) in
      rw (found, c_str-append k (v ++ 0 ∷ []) tk, c_str-append v [] tv)
  redo-entry_of (del k) d tk = rw (c_str-append k [] tk)

  logs-put_write :
      (d : Disk) (k v : Text) (c : ℤ) → (Store.put_write hash os d k v c).1.logs ≡ d.logs
  unfolding Store.put_write
  logs-put_write d k v c = ground arith

  logs-put : (d : Disk) (k v : Text) → (server_put hash os d k v).1.logs ≡ d.logs
  unfolding server_put Store.put
  logs-put d k v = ground (arith, logs-put_write d k v (Store.put_find hash os d k))

  logs-del_write : (d : Disk) (k : Text) (i : ℕ) → (Store.del_write hash os d k i).1.logs ≡ d.logs
  unfolding Store.del_write
  logs-del_write d k i = ground arith

  logs-store_del : (d : Disk) (k : Text) → (Store.del hash os d k).1.logs ≡ d.logs
  unfolding Store.del
  logs-store_del d k = go (Store.find_entry hash os d k) refl
    where
      go :
          (r : Store.Found)
          → Store.find_entry hash os d k ≡ r
          → (Store.del hash os d k).1.logs ≡ d.logs
      go (found i v) eq = ground (arith, logs-del_write d k i)
      go (failed c) eq = ground arith

  logs-del : (d : Disk) (k : Text) → (server_del hash os d k).1.logs ≡ d.logs
  unfolding server_del
  logs-del d k = ground (arith, logs-store_del d k)

  -- An action leaves the log files alone.
  pub logs-perform : (a : Action) (d : Disk) → (perform a d).logs ≡ d.logs
  unfolding perform
  logs-perform (put k v) d = logs-put d k v
  logs-perform (del k) d = logs-del d k

  -- Neither a put nor a deletion touches the log files.
  pub logs-redo : (d d' : Disk) (e : LogEntry) → redo hash os d e ≡ some d' → d'.logs ≡ d.logs
  unfolding redo
  logs-redo d d' e h = elim (Option-cases (parse_log e.bytes e.length)) [
    | inl gone ↦ ground (arith, logs-del d (c_str e.bytes))
    | inr (v, eq) ↦ ground (arith, logs-del d (c_str e.bytes), logs-put d (c_str e.bytes) (c_str v))
  ]

-- The log files from `i` on are those of `es`, in order, and no more.
abbrev pub Entries : Disk → ℕ → List LogEntry → Type 0
Entries d i [] = log_at d i ≡ none
Entries d i (e ∷ es) = (log_at d i ≡ some (some e)) × Entries d (suc i) es

pub Entries-logs :
    (d d' : Disk) (i : ℕ) (es : List LogEntry) → d'.logs ≡ d.logs → Entries d i es → Entries d' i es
Entries-logs d d' i [] same h = ground arith
Entries-logs d d' i (e ∷ es) same (h, rest) = (ground arith, Entries-logs d d' (suc i) es same rest)

module _ (hash : Text → ℕ) (os : Os) where
  -- The entries replayed one after the other.
  unfoldable pub run : Disk → List LogEntry → Option Disk
  run d [] = some d
  run d (e ∷ es) = redo hash os d e >>= λ d'. run d' es

  -- One round of the loop.
  iterate_next-some :
      (d : Disk) (log : TpcLog) (e : LogEntry)
      → ((i : ℕ) → os.opens_log i ≡ true)
      → log_at d log.iterpos ≡ some (some e)
      → (has_next log d ≡ true)
        × (iterate_next os log d ≡ (some e, record log { iterpos = suc log.iterpos }))
  unfolding iterate_next has_next load_entry
  iterate_next-some d log e opens h = (rw h, ground (arith, opens log.iterpos))

  -- do_log redoes the entries of the log in order, each once, whatever they are: it fails exactly
  -- where redoing one of them does.
  pub do_loop-run :
      (es : List LogEntry) (fuel : ℕ) (d : Disk) (log : TpcLog)
      → ((i : ℕ) → os.opens_log i ≡ true)
      → Entries d log.iterpos es
      → length es < fuel
      → do_loop hash fuel os d log
        ≡ (run d es >>= λ d'. some (d', record log { iterpos = log.iterpos + length es }))
  unfolding do_loop run
  do_loop-run es zero d log opens h enough = absurd (omega arith)
  do_loop-run [] (suc fuel) d log opens h enough = unfold has_next in ground arith
  do_loop-run (e ∷ es) (suc fuel) d log opens (h, rest) enough =
      let (more, step) = iterate_next-some d log e opens h in
      rw (more, step)
        (go (redo hash os d e) refl (λ d' same.
          do_loop-run es fuel d' (record log { iterpos = suc log.iterpos }) opens
            (Entries-logs d d' (suc log.iterpos) es same rest) (omega arith)))
    where
      go :
          (r : Option Disk)
          → redo hash os d e ≡ r
          → ((d' : Disk)
              → d'.logs ≡ d.logs
              → do_loop hash fuel os d' (record log { iterpos = suc log.iterpos }) ≡ (
                  run d' es >>= λ d''.
                  some (d'', record log { iterpos = suc log.iterpos + length es })))
          → (r >>= λ d'. do_loop hash fuel os d' (record log { iterpos = suc log.iterpos })) ≡ (
              (r >>= λ d'. run d' es) >>= λ d'.
              some (d', record log { iterpos = log.iterpos + suc (length es) }))
      go none eq ih = refl
      go (some d') eq ih =
          let same : suc log.iterpos + length es ≡ log.iterpos + suc (length es) = omega arith in
          rw (ih d' (logs-redo hash os d d' e eq), same)

Entries-present :
    (d : Disk) (n : ℕ) (es : List LogEntry) (i : ℕ)
    → Entries d n es
    → n ≤ i
    → i < n + length es
    → is_some (log_at d i) ≡ true
Entries-present d n [] i h le lt = absurd (omega arith)
Entries-present d n (e ∷ es) i (h, rest) le lt = elim (Bool-cases (i == n)) [
  | inl at ↦ ground arith
  | inr past ↦ Entries-present d (suc n) es i rest (ground arith) (omega arith)
]

-- The entries of a log are no more than its files.
pub Entries-length : (d : Disk) (es : List LogEntry) → Entries d 0 es → length es ≤ length d.logs
Entries-length d es h =
    logs-le-length d (length es) (λ i lt. Entries-present d 0 es i h (omega arith) (omega arith))

-- The newest entry of a log, behind `iter`.
unfoldable pub last : Option LogEntry → List LogEntry → Option LogEntry
last iter [] = iter
last iter (e ∷ es) = last (some e) es

module _ (hash : Text → ℕ) (os : Os) (opens : (i : ℕ) → os.opens_log i ≡ true) where
  -- Where the log files can be opened, and they are exactly those of a list of entries, do_log
  -- redoes the entries from the oldest on, each once and no other, and stops where redoing one of
  -- them reads NULL.
  pub do_log-run :
      (d : Disk) (log : TpcLog) (es : List LogEntry)
      → Entries d 0 es
      → do_log hash os d log
        ≡ (run hash os d es >>= λ d'. some (d', record log { iterpos = 0 + length es }))
  unfolding do_log iterate_begin
  do_log-run d log es h =
      do_loop-run hash os es (length d.logs + 1) d (record log { iterpos = 0 }) opens h
        (omega (arith, Entries-length d es h))

  -- kvserver_rebuild_state looks at the newest entry of the log.
  pub last_loop_lem :
      (es : List LogEntry) (fuel : ℕ) (d : Disk) (log : TpcLog) (iter : Option LogEntry)
      → Entries d log.iterpos es
      → length es < fuel
      → last_loop fuel os d log iter
        ≡ (last iter es, record log { iterpos = log.iterpos + length es })
  unfolding last_loop last
  last_loop_lem es zero d log iter h enough = absurd (omega arith)
  last_loop_lem [] (suc fuel) d log iter h enough = unfold has_next in ground arith
  last_loop_lem (e ∷ es) (suc fuel) d log iter (h, rest) enough =
      let (more, step) = iterate_next-some hash os d log e opens h in
      let same : suc log.iterpos + length es ≡ log.iterpos + suc (length es) = omega arith in
      rw (
        more,
        step,
        last_loop_lem es fuel d (record log { iterpos = suc log.iterpos }) (some e) rest
            (omega arith),
        same,
      )
