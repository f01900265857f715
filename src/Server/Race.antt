-- ===== src/Server/Race.antt =====
-- Two worker threads in the PUTREQ branch of kvserver_handle_tpc. Nothing locks the state of the
-- server: a second thread may test it and check its key before the first one has logged its action.
use cs162hw.Base.{
  ℕ, suc, ◌≡◌, ◌∙◌, refl, ap, inl, inr, ℤ, pos, int_eq, Bool, true, some, [], arith, if◌then◌else◌,
}
use cs162hw.Base.Text.{Text}
use cs162hw.Consts.{
  putreq, vote, error, ack, abort, tpc_ready, tpc_wait, tpc_abort, msg_commit,
  errmsg_invalid_request, get_msg,
}
use cs162hw.Disk.{Os, log_at, put_log, log_at-put_log}
use cs162hw.Message.{Response, blank}
use cs162hw.Log.{log_msg}
use cs162hw.Server.{
  Server, voting, handle_put, handle_abort, handle_commit, server_put_check, finish,
}
use cs162hw.Server.Redo.{put, entry_of}
use cs162hw.Server.Action.{acts, Works, IsAllowedPut}
use cs162hw.Server.Phase.{IsServer, IsStore-entries, log_msg-eq, IsLog-put_log, decision}
use cs162hw.Server.Decide.{finish-IsServer}
use cs162hw.Server.Vote.{empty_log, put_check_exact}

-- The tests of the branch.
unfoldable pub put_tested : Server → Text → Text → Bool × ℤ
put_tested s key val = (voting s.state, server_put_check s.disk key val)

-- What follows them.
unfoldable pub put_logged : Os → Server → Text → Text → Bool × ℤ → Server × Response
put_logged os s key val (open_to_vote, check) =
    if open_to_vote
    then (let (code, log, d) = log_msg os s.log s.disk putreq key val in
        if int_eq check (pos 0)
        then (
          record s { disk = d; log = log; state = tpc_ready },
          record { type = vote; body = some msg_commit },
        )
        else (s, record { type = vote; body = some (get_msg check) }))
    else (s, record { type = error; body = some errmsg_invalid_request })

-- One thread alone.
pub put_logged-put_tested :
    (os : Os) (s : Server) (k v : Text)
    → put_logged os s k v (put_tested s k v) ≡ handle_put os s k v
unfolding put_logged put_tested handle_put
put_logged-put_tested os s k v = refl

-- Both threads have made their tests before the first one goes on.
abbrev pub first : Os → Server → Text → Text → Server × Response
first os s k v = put_logged os s k v (put_tested s k v)

abbrev pub second : Os → Server → Text → Text → Text → Text → Server × Response
second os s k v k' v' = put_logged os (first os s k v).0 k' v' (put_tested s k' v')

module _ (hash : Text → ℕ) (os : Os) (works : Works os) where
  passes :
      (s : Server) (k v : Text)
      → IsServer hash s
      → voting s.state ≡ true
      → IsAllowedPut k v
      → put_tested s k v ≡ (true, pos 0)
  unfolding put_tested
  passes s k v inv open_to_vote ok =
      elim (put_check_exact hash os works s inv open_to_vote k v ok.key_text ok.value_text) [
        | inl (_, eq) ↦ rw (open_to_vote, eq) refl
        | inr (bad, _) ↦ absurd (bad ok)
      ]

  logs :
      (s : Server) (k v : Text)
      → put_logged os s k v (true, pos 0) ≡ (
        record s {
          disk = put_log s.disk s.log.nextid (some (entry_of (put k v)));
          log = record s.log { nextid = suc s.log.nextid };
          state = tpc_ready;
        },
        record { type = vote; body = some msg_commit },
      )
  unfolding put_logged entry_of
  logs s k v = rw (log_msg-eq os s.log s.disk putreq k v (acts works) (inl refl)) refl

  module _ (s : Server) (inv : IsServer hash s) (open_to_vote : voting s.state ≡ true)
      (k v k' v' : Text) (ok : IsAllowedPut k v) (ok' : IsAllowedPut k' v') where
    -- The server with both actions in its log.
    both : Server
    both = record s {
      disk =
          put_log (put_log s.disk s.log.nextid (some (entry_of (put k v)))) (suc s.log.nextid)
            (some (entry_of (put k' v')));
      log = record s.log { nextid = suc (suc s.log.nextid) };
      state = tpc_ready;
    }

    one_voted : first os s k v ≡ (
      record s {
        disk = put_log s.disk s.log.nextid (some (entry_of (put k v)));
        log = record s.log { nextid = suc s.log.nextid };
        state = tpc_ready;
      },
      record { type = vote; body = some msg_commit },
    )
    one_voted = ap (put_logged os s k v) (passes s k v inv open_to_vote ok) ∙ logs s k v

    both_voted : second os s k v k' v' ≡ (both, record { type = vote; body = some msg_commit })
    unfolding both
    both_voted =
        ap (put_logged os (first os s k v).0 k' v') (passes s k' v' inv open_to_vote ok')
        ∙ ap (λ (x : Server × Response). put_logged os x.0 k' v' (true, pos 0)) one_voted
        ∙ logs _ k' v'

    -- What an ABORT does to it.
    aborted : Server
    aborted = record both {
      disk = put_log both.disk (suc (suc s.log.nextid)) (some (decision abort));
      log = record s.log { nextid = suc (suc (suc s.log.nextid)) };
      state = tpc_abort;
    }

    abort_both : handle_abort os both blank ≡ (finish os aborted, record blank { type = ack })
    unfolding both aborted handle_abort
    abort_both =
        rw
          (log_msg-eq os (record s.log { nextid = suc (suc s.log.nextid) }) both.disk abort [] []
            (acts works) (inr (inr (inr refl))))
          refl

    finished :
        IsServer hash (finish os aborted)
        × ((finish os aborted).state ≡ tpc_wait)
        × ((finish os aborted).disk.entries ≡ s.disk.entries)
    unfolding both aborted
    finished =
        let (server, state, entries, there) =
          finish-IsServer hash os works aborted (suc (suc (suc s.log.nextid)))
            (IsStore-entries hash s.disk aborted.disk refl refl inv.store)
            (IsLog-put_log both.disk (suc (suc s.log.nextid)) _ (
              IsLog-put_log (put_log s.disk s.log.nextid (some (entry_of (put k v))))
                (suc s.log.nextid) _ (IsLog-put_log s.disk s.log.nextid _ inv.files))) in
        (server, state, entries)

    -- From a well-formed follower that is open to votes, and whose system calls succeed, the
    -- interleaving of two allowed PUTREQs votes to commit both of them, with both in the log. If
    -- one of the two is then aborted, the COMMIT of the other is acknowledged, but its action is
    -- lost: the store is what it was before.
    pub vote_race :
        ((first os s k v).1.body ≡ some msg_commit)
        × ((second os s k v k' v').1.body ≡ some msg_commit)
        × (log_at (second os s k v k' v').0.disk 0 ≡ some (some (entry_of (put k v))))
        × (log_at (second os s k v k' v').0.disk 1 ≡ some (some (entry_of (put k' v'))))
        × (s' : Server) × (handle_abort os (second os s k v k' v').0 blank
            ≡ (s', record blank { type = ack }))
        × (handle_commit hash os s' blank ≡ some (s', record blank { type = ack }))
        × (s'.disk.entries ≡ s.disk.entries)
    unfolding both
    vote_race =
        let (server, state, entries) = finished in
        let empty = empty_log hash os works s inv open_to_vote in
        (
          ap (λ (x : Server × Response). x.1.body) one_voted,
          ap (λ (x : Server × Response). x.1.body) both_voted,
          ap (λ (x : Server × Response). log_at x.0.disk 0) both_voted
              ∙ rw (log_at-put_log, log_at-put_log, empty) (ground arith),
          ap (λ (x : Server × Response). log_at x.0.disk 1) both_voted
              ∙ rw (log_at-put_log, empty) (ground arith),
          finish os aborted,
          ap (λ (x : Server × Response). handle_abort os x.0 blank) both_voted ∙ abort_both,
          (unfold handle_commit in rw state refl),
          entries,
        )
