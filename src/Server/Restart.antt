-- ===== src/Server/Restart.antt =====
-- kvserver_init on a directory with a log: what kvserver_rebuild_state comes to.
use cs162hw.Base.{
  ◌>>=◌, ℕ, ◌+◌, ◌≡◌, ℤ, pos, true, Option, none, some, List, [], ◌∷◌, length, arith,
}
use cs162hw.Base.Text.{Text}
use cs162hw.Base.Dict.{nat_eq}
use cs162hw.Consts.{commit, abort, tpc_init, tpc_ready}
use cs162hw.Disk.{Disk, LogEntry, Os, log_at}
use cs162hw.Store
use cs162hw.Store.Find.{IsStore}
use cs162hw.Log.{make_log_entry, iterate_begin}
use cs162hw.Log.Scan.{IsLog, Full, init-Full}
use cs162hw.Server.{Server, last_loop, finish, resume, rebuild_state, init}
use cs162hw.Server.Redo.{
  Action, put, del, entry_of, perform, Entries, Entries-length, last, last_loop_lem,
}
use cs162hw.Server.Action.{acts, Works, IsAllowed, after}
use cs162hw.Server.Phase.{decision}
use cs162hw.Server.Decide.{do_log-entries}

-- Doing an action again changes nothing more.
pub after-after :
    (a : Action) (j : Text) (r : ℤ × Option Text) → after a j (after a j r) ≡ after a j r
after-after (put k v) j r = ground arith
after-after (del k) j r = ground arith

pub IsLog-Full : (d : Disk) (n : ℕ) → IsLog d n → Full d n
IsLog-Full d n is i lt = ground (arith, is i)

pub IsLog-end : (d : Disk) (n : ℕ) → IsLog d n → log_at d n ≡ none
IsLog-end d n is = ground (arith, is n)

-- The server that kvserver_init sets up before it looks at the log.
abbrev pub fresh : Server → ℕ → ℕ → Text → ℕ → Server
fresh raw n threads host port = record {
  disk = record raw.disk { present = true };
  log = record raw.log { nextid = n };
  state = tpc_init;
  hostname = host;
  port = port;
  max_threads = threads;
}

module _ (hash : Text → ℕ) (os : Os) (works : Works os) where
  store_init-eq : (d : Disk) → Store.init os d ≡ (pos 0, record d { present = true })
  unfolding Store.init
  store_init-eq d = ground (arith, works.makes_dir)

  pub init-eq :
      (raw : Server) (n threads : ℕ) (host : Text) (port : ℕ)
      → Full raw.disk n
      → log_at raw.disk n ≡ none
      → init hash os raw threads host port
        ≡ (rebuild_state hash os (fresh raw n threads host port) >>= λ s. some (pos 0, s))
  unfolding init
  init-eq raw n threads host port all gone = rw (
    store_init-eq raw.disk,
    init-Full os raw.log (record raw.disk { present = true }) n works.makes_dir all gone,
  )

  rebuild_last :
      (s : Server) (es : List LogEntry)
      → Entries s.disk 0 es
      → last_loop (length s.disk.logs + 1) os s.disk (iterate_begin s.log) none
        ≡ (last none es, record s.log { iterpos = 0 + length es })
  unfolding iterate_begin
  rebuild_last s es h =
      last_loop_lem hash os works.opens_log es (length s.disk.logs + 1) s.disk
        (record s.log { iterpos = 0 }) none h (omega (arith, Entries-length s.disk es h))

  pub rebuild-resume :
      (s : Server) (es : List LogEntry)
      → Entries s.disk 0 es
      → rebuild_state hash os s
        ≡ resume hash os
            (record s { log = record s.log { iterpos = 0 + length es } })
            (last none es)
  unfolding rebuild_state
  rebuild-resume s es h = rw (rebuild_last s es h, rebuild_state)

  -- kvserver_rebuild_state where the newest entry is an action, a COMMIT or an ABORT.
  pub rebuild-pending :
      (s : Server) (a : Action)
      → Entries s.disk 0 (entry_of a ∷ [])
      → rebuild_state hash os s
        ≡ some (record s { log = record s.log { iterpos = 1 }; state = tpc_ready })
  unfolding resume last entry_of make_log_entry
  rebuild-pending s (put k v) h = rw (rebuild-resume s (entry_of (put k v) ∷ []) h)
  rebuild-pending s (del k) h = rw (rebuild-resume s (entry_of (del k) ∷ []) h)

  pub rebuild-commit :
      (s : Server) (a : Action)
      → IsStore hash s.disk
      → IsAllowed a
      → IsLog s.disk 2
      → Entries s.disk 0 (entry_of a ∷ decision commit ∷ [])
      → rebuild_state hash os s
        ≡ some (
            finish os
              (record s { disk = perform hash os a s.disk; log = record s.log { iterpos = 2 } }))
  unfolding resume last make_log_entry
  rebuild-commit s a inv ok is h = rw (
    rebuild-resume s (entry_of a ∷ decision commit ∷ []) h,
    do_log-entries hash os (acts works) s.disk a ok h (record s.log { iterpos = 2 }),
  )

  pub rebuild-abort :
      (s : Server) (a : Action)
      → Entries s.disk 0 (entry_of a ∷ decision abort ∷ [])
      → rebuild_state hash os s ≡ some (finish os (record s { log = record s.log { iterpos = 2 } }))
  unfolding resume last make_log_entry
  rebuild-abort s a h = rw (rebuild-resume s (entry_of a ∷ decision abort ∷ []) h)
