-- ===== src/Server/Tests.antt =====
-- The theorems of the follower at concrete inputs.
use cs162hw.Base.{◌≡◌, ◌≢◌, refl, ◌⊎◌, inl, pos, none, some, [], ◌∷◌, arith, ◌>>=◌, ◌+◌}
use cs162hw.Base.Text.{Text, codes}
use cs162hw.Base.Dict
use cs162hw.Consts.{tpc_init, MsgType, putreq, commit, abort, vote, ack, tpc_wait, msg_commit}
use cs162hw.Disk.{working, put_log, log_at}
use cs162hw.Message.{Request, Response, blank}
use cs162hw.Store
use cs162hw.Store.Sample.{len_hash}
use cs162hw.Server.Sample.{k, w, idle, working-Works, idle-IsServer, allowed}
use cs162hw.Server.{Server, handle_put, handle_commit, handle_abort, handle_tpc, init, do_log}
use cs162hw.Server.Redo.{put, entry_of, run, do_log-run}
use cs162hw.Server.Action.{IsAllowedPut, after}
use cs162hw.Server.Phase.{decision, IsServer}
use cs162hw.Server.Decide.{Voted, commit-after, abort-after}
use cs162hw.Server.Vote.{voted, voted-Voted, put-votes}
use cs162hw.Server.Handle.{handle_tpc-IsServer}
use cs162hw.Server.Race.{first, second, vote_race}
use cs162hw.Server.Recover.{init-Voted, init-commit, init-abort}
use cs162hw.Server.Stale.{stopping, stale_commit}

abbrev ready : Server
ready = voted idle (put k w)

ready-Voted : Voted len_hash ready (put k w)
ready-Voted = voted-Voted len_hash working working-Works idle idle-IsServer refl (put k w) allowed

put-votes_example :
    (IsAllowedPut k w
      × (handle_put working idle k w
          ≡ (voted idle (put k w), record { type = vote; body = some msg_commit }))
      × Voted len_hash (voted idle (put k w)) (put k w))
    ⊎ ((¬ IsAllowedPut k w)
        × ((handle_put working idle k w).0 ≡ idle)
        × ((handle_put working idle k w).1.type ≡ vote)
        × ((handle_put working idle k w).1.body ≢ some msg_commit))
put-votes_example =
    put-votes len_hash working working-Works idle idle-IsServer refl k w (omega arith) (omega arith)

commit-after_example :
    (s' : Server) × (handle_commit len_hash working ready blank
      ≡ some (s', record { type = ack; body = none }))
    × IsServer len_hash s'
    × (s'.state ≡ tpc_wait)
    × ((j : Text)
        → Store.get len_hash working s'.disk j
          ≡ after (put k w) j (Store.get len_hash working ready.disk j))
commit-after_example = commit-after len_hash working working-Works ready (put k w) ready-Voted blank

abort-after_example :
    (s' : Server) × (handle_abort working ready blank ≡ (s', record { type = ack; body = none }))
    × IsServer len_hash s'
    × (s'.state ≡ tpc_wait)
    × (s'.disk.entries ≡ ready.disk.entries)
abort-after_example = abort-after len_hash working working-Works ready (put k w) ready-Voted blank

abbrev put_request : Request
put_request = record { type = putreq; key = some k; val = some w }

handle_tpc-IsServer_example :
    (s' : Server) × (r : Response) × (handle_tpc len_hash working idle put_request blank
      ≡ some (s', r))
    × IsServer len_hash s'
handle_tpc-IsServer_example =
    handle_tpc-IsServer len_hash working working-Works idle idle-IsServer put_request blank
      (k, w, refl, refl, omega arith, omega arith)

init-Voted_example :
    (s' : Server) × (init len_hash working ready 2 (codes "h") 1 ≡ some (pos 0, s'))
    × Voted len_hash s' (put k w)
    × (s'.disk ≡ ready.disk)
init-Voted_example =
    init-Voted len_hash working working-Works ready 2 (codes "h") 1 ready (put k w) ready-Voted refl

-- A follower that has logged the decision.
abbrev decided : MsgType → Server
decided t = record ready { disk = put_log ready.disk 1 (some (decision t)) }

init-commit_example :
    (s' : Server) × (init len_hash working (decided commit) 2 (codes "h") 1 ≡ some (pos 0, s'))
    × IsServer len_hash s'
    × (s'.state ≡ tpc_wait)
    × ((j : Text)
        → Store.get len_hash working s'.disk j
          ≡ after (put k w) j (Store.get len_hash working ready.disk j))
init-commit_example =
    init-commit len_hash working working-Works (decided commit) 2 (codes "h") 1 ready (put k w)
      ready-Voted (inl refl)

init-abort_example :
    (s' : Server) × (init len_hash working (decided abort) 2 (codes "h") 1 ≡ some (pos 0, s'))
    × IsServer len_hash s'
    × (s'.state ≡ tpc_wait)
    × (s'.disk.entries ≡ ready.disk.entries)
init-abort_example =
    init-abort len_hash working working-Works (decided abort) 2 (codes "h") 1 ready (put k w)
      ready-Voted refl

do_log-run_example : do_log len_hash working ready.disk ready.log ≡ (
    run len_hash working ready.disk (entry_of (put k w) ∷ []) >>= λ d'.
    some (d', record ready.log { iterpos = 0 + 1 }))
unfolding Dict.get Dict.put Dict.remove
do_log-run_example =
    do_log-run len_hash working (λ i. refl) ready.disk ready.log (entry_of (put k w) ∷ [])
      (refl, refl)

stale_commit_example :
    (s1 s2 s3 : Server) × (handle_commit len_hash (stopping working) ready blank
      ≡ some (s1, record blank { type = ack }))
    × (init len_hash working (record idle { disk = s1.disk }) 2 (codes "h") 1 ≡ some (pos 0, s2))
    × (s2.state ≡ tpc_init)
    × ((handle_put working s2 k w).1 ≡ record { type = vote; body = some msg_commit })
    × (init len_hash working
          (record idle { disk = (handle_put working s2 k w).0.disk })
          2
          (codes "h")
          1
        ≡ some (pos 0, s3))
    × (s3.state ≡ tpc_wait)
    × (Store.get len_hash working s3.disk k ≡ (pos 0, some w))
stale_commit_example =
    stale_commit len_hash working working-Works ready (put k w) ready-Voted blank idle idle 2
      (codes "h") 1 k w allowed

-- A second key.
abbrev other_key : Text
other_key = codes "cd"

other_allowed : IsAllowedPut other_key w
other_allowed = record {
  key_text = omega arith;
  value_text = omega arith;
  nonempty = omega arith;
  key_fits = omega arith;
  value_fits = omega arith;
}

vote_race_example :
    ((first working idle k w).1.body ≡ some msg_commit)
    × ((second working idle k w other_key w).1.body ≡ some msg_commit)
    × (log_at (second working idle k w other_key w).0.disk 0 ≡ some (some (entry_of (put k w))))
    × (log_at (second working idle k w other_key w).0.disk 1
        ≡ some (some (entry_of (put other_key w))))
    × (s' : Server) × (handle_abort working (second working idle k w other_key w).0 blank
        ≡ (s', record blank { type = ack }))
    × (handle_commit len_hash working s' blank ≡ some (s', record blank { type = ack }))
    × (s'.disk.entries ≡ idle.disk.entries)
vote_race_example =
    vote_race len_hash working working-Works idle idle-IsServer refl k w other_key w allowed
      other_allowed
