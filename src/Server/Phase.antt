-- ===== src/Server/Phase.antt =====
-- The state of a follower and its log agree, whatever request it handles.
use cs162hw.Base.{ap, refl, ◌∙◌, ℕ, suc, ◌≡◌, ◌⊎◌, pos, Option, some, [], arith}
use cs162hw.Base.Text.{Text}
use cs162hw.Consts.{
  MsgType, putreq, delreq, commit, abort, TpcState, tpc_init, tpc_wait, tpc_ready, tpc_abort,
  tpc_commit,
}
use cs162hw.Disk.{Disk, LogEntry, Os, log_at, put_log, log_at-put_log}
use cs162hw.Store
use cs162hw.Store.Find.{IsStore, Opens}
use cs162hw.Store.Get.{get_same}
use cs162hw.Log.{TpcLog, make_log_entry, log_msg, write_entry}
use cs162hw.Log.Scan.{IsLog}
use cs162hw.Server.{Server}
use cs162hw.Server.Redo.{Action, entry_of}
use cs162hw.Server.Action.{Acts, IsAllowed}

-- The log entry of a decision.
abbrev pub decision : MsgType → LogEntry
decision t = make_log_entry t [] []

-- Between requests: an empty log before a vote, and the one action that was voted for after it.
abbrev pub Phase : TpcState → Disk → ℕ → Type 0
Phase tpc_init d n = n ≡ 0
Phase tpc_wait d n = n ≡ 0
Phase tpc_ready d n = (a : Action) × IsAllowed a × (n ≡ 1) × (log_at d 0 ≡ some (some (entry_of a)))
Phase tpc_abort d n = ⊥
Phase tpc_commit d n = ⊥

module _ (hash : Text → ℕ) where
  pub record IsServer (s : Server) : Type 0 where
    pub store : IsStore hash s.disk
    pub files : IsLog s.disk s.log.nextid
    pub phase : Phase s.state s.disk s.log.nextid

  -- The store reads the entry files only.
  pub IsStore-entries :
      (d d' : Disk)
      → d'.entries ≡ d.entries
      → d'.present ≡ d.present
      → IsStore hash d
      → IsStore hash d'
  IsStore-entries d d' same there inv = record {
    there = ground (arith, inv.there);
    complete = λ h i j lt is. ground (arith, inv.complete h i j lt);
    chained = λ h i e at. ground (arith, inv.chained h i e);
    unique = λ h i j e f a b. ground (arith, inv.unique h i j e f);
  }

  -- So a get does not depend on the log files.
  pub get-entries :
      (os : Os) (d d' : Disk) (j : Text)
      → Opens os
      → d'.entries ≡ d.entries
      → d'.present ≡ d.present
      → IsStore hash d
      → Store.get hash os d' j ≡ Store.get hash os d j
  get-entries os d d' j opens same there inv =
      get_same hash os d d' j opens inv (IsStore-entries d d' same there inv)
        (λ i e at. (i, (ground arith, at.1))) (λ lacks i e at. lacks i e (ground arith))

-- A message that is logged becomes the next file.
pub log_msg-eq :
    (os : Os) (log : TpcLog) (d : Disk) (t : MsgType) (k v : Text)
    → Acts os
    → (t ≡ putreq) ⊎ (t ≡ delreq) ⊎ (t ≡ commit) ⊎ (t ≡ abort)
    → log_msg os log d t k v ≡ (
      pos 0,
      record log { nextid = suc log.nextid },
      put_log d log.nextid (some (make_log_entry t k v)),
    )
unfolding log_msg
log_msg-eq os log d t k v able h =
    let written : write_entry os.writes_log log d (make_log_entry t k v) ≡ (
      pos 0,
      record log { nextid = suc log.nextid },
      put_log d log.nextid (some (make_log_entry t k v)),
    ) =
      ap (λ w. write_entry w log d (make_log_entry t k v)) able.writes_log
      ∙ (unfold write_entry in refl) in
    ground (arith, able.opens_log log.nextid, written)

pub IsLog-put_log :
    (d : Disk) (n : ℕ) (e : Option LogEntry) → IsLog d n → IsLog (put_log d n e) (suc n)
IsLog-put_log d n e is i = rw log_at-put_log (ground (arith, is i))
