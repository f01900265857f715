-- ===== src/Server/Decide.antt =====
-- The second phase: COMMIT does the action that was voted for, ABORT drops it, and both leave an
-- empty log.
use cs162hw.Base.{
  ℕ, suc, ◌≡◌, ◌∙◌, sym, subst, refl, ◌⊎◌, inl, inr, pos, some, [], ◌∷◌, arith, is_some, ltb, ap,
}
use cs162hw.Base.Text.{Text}
use cs162hw.Base.Dict
use cs162hw.Base.Dict.{nat_eq}
use cs162hw.Consts.{MsgType, commit, abort, ack, tpc_wait, tpc_ready, tpc_abort, tpc_commit}
use cs162hw.Disk.{Disk, Os, log_at, put_log, log_at-put_log}
use cs162hw.Store
use cs162hw.Store.Find.{IsStore}
use cs162hw.Log.{TpcLog, make_log_entry, log_msg}
use cs162hw.Log.Scan.{IsLog, clear_log-IsLog}
use cs162hw.Message.{Response}
use cs162hw.Server.{Server, finish, handle_commit, handle_abort, do_log, redo}
use cs162hw.Server.Redo.{
  Action, entry_of, perform, redo-entry_of, logs-perform, Entries, run, do_log-run,
}
use cs162hw.Server.Action.{Acts, acts, Works, IsAllowed, IsAllowed-IsAction, after, perform-after}
use cs162hw.Server.Phase.{
  decision, IsServer, IsStore-entries, get-entries, log_msg-eq, IsLog-put_log,
}

module _ (hash : Text → ℕ) where
  -- The follower has voted to commit `a`: it is ready, and `a` is all that its log holds.
  pub record Voted (s : Server) (a : Action) : Type 0 where
    pub store : IsStore hash s.disk
    pub ready : s.state ≡ tpc_ready
    pub allowed : IsAllowed a
    pub one : s.log.nextid ≡ 1
    pub files : IsLog s.disk 1
    pub logged : log_at s.disk 0 ≡ some (some (entry_of a))

  -- A log that holds an action and the decision to commit it.
  module _ (os : Os) (able : Acts os) (d : Disk) (a : Action) (allowed : IsAllowed a)
      (h : Entries d 0 (entry_of a ∷ decision commit ∷ [])) where
    pub do_log-entries :
        (log : TpcLog)
        → do_log hash os d log ≡ some (perform hash os a d, record log { iterpos = 2 })
    unfolding run redo make_log_entry
    do_log-entries log = rw (
      do_log-run hash os able.opens_log d log (entry_of a ∷ decision commit ∷ []) h,
      redo-entry_of hash os a d (IsAllowed-IsAction a allowed),
    )

  module _ (os : Os) (works : Works os) where
    -- The end of a transaction on any log without gaps.
    pub finish-IsServer :
        (s : Server) (n : ℕ)
        → IsStore hash s.disk
        → IsLog s.disk n
        → IsServer hash (finish os s)
          × ((finish os s).state ≡ tpc_wait)
          × ((finish os s).disk.entries ≡ s.disk.entries)
          × ((finish os s).disk.present ≡ s.disk.present)
    unfolding finish
    finish-IsServer s n inv is =
        let (code, zero_id, entries, there, gone) =
          clear_log-IsLog os s.log s.disk n works.removes_log is in
        (
          record {
            store = IsStore-entries hash s.disk _ entries there inv;
            files = λ i. rw (zero_id, gone i) (ground arith);
            phase = zero_id;
          },
          refl,
          entries,
          there,
        )

    -- A log that holds an action and the decision to commit it.
    module _ (d : Disk) (a : Action) (inv : IsStore hash d) (allowed : IsAllowed a) (is : IsLog d 2)
        (h : Entries d 0 (entry_of a ∷ decision commit ∷ [])) where
      -- The log is cleared once the action is done; a get of any key then sees the action.
      pub finish-after :
          (s : Server)
          → s.disk ≡ perform hash os a d
          → IsServer hash (finish os s)
            × ((finish os s).state ≡ tpc_wait)
            × ((j : Text)
                → Store.get hash os (finish os s).disk j ≡ after a j (Store.get hash os d j))
      finish-after s same =
          let inv' : IsStore hash s.disk =
            subst (IsStore hash) (sym same)
              (perform-after hash os d inv (acts works) a [] allowed).0 in
          let is' : IsLog s.disk 2 = λ i.
            subst (λ l. is_some (Dict.get l i) ≡ ltb i 2)
              (sym (ap (λ (x : Disk). x.logs) same ∙ logs-perform hash os a d)) (is i) in
          let (server, state, entries, there) = finish-IsServer s 2 inv' is' in
          (
            server,
            state,
            λ j.
                get-entries hash os s.disk (finish os s).disk j works.opens entries there inv'
                ∙ ap (λ x. Store.get hash os x j) same
                ∙ (perform-after hash os d inv (acts works) a j allowed).1,
          )

    module _ (s : Server) (a : Action) (v : Voted s a) where
      -- A decision becomes the second file of the log.
      abbrev pub decided : MsgType → Disk
      decided t = put_log s.disk 1 (some (decision t))

      log_decision :
          (t : MsgType)
          → (t ≡ commit) ⊎ (t ≡ abort)
          → log_msg os s.log s.disk t [] [] ≡ (pos 0, record s.log { nextid = 2 }, decided t)
      log_decision t is =
          log_msg-eq os s.log s.disk t [] [] (acts works) (ground arith)
          ∙ ap (λ n. (pos 0, record s.log { nextid = suc n }, put_log s.disk n (some (decision t))))
              v.one

      pub Entries-decided : (t : MsgType) → Entries (decided t) 0 (entry_of a ∷ decision t ∷ [])
      Entries-decided t = (
        rw log_at-put_log v.logged,
        (rw log_at-put_log refl, rw log_at-put_log (ground (arith, v.files 2))),
      )

      pub decided-IsStore : (t : MsgType) → IsStore hash (decided t)
      decided-IsStore t = IsStore-entries hash s.disk (decided t) refl refl v.store

      pub decided-IsLog : (t : MsgType) → IsLog (decided t) 2
      decided-IsLog t = IsLog-put_log s.disk 1 (some (decision t)) v.files

      -- Where the system calls succeed, a COMMIT to a follower that has voted is acknowledged, and
      -- the follower ends with an empty log, waiting, on a well-formed store; a get of any key
      -- then sees the action that was voted for and nothing else.
      pub commit-after :
          (res : Response)
          → (s' : Server) × (handle_commit hash os s res ≡ some (s', record res { type = ack }))
            × IsServer hash s'
            × (s'.state ≡ tpc_wait)
            × ((j : Text) → Store.get hash os s'.disk j ≡ after a j (Store.get hash os s.disk j))
      commit-after res =
          let d = decided commit in
          let worked : Server = record s {
            disk = perform hash os a d;
            log = record s.log { nextid = 2; iterpos = 2 };
            state = tpc_commit;
          } in
          let (server, state, sees) =
            finish-after d a (decided-IsStore commit) v.allowed (decided-IsLog commit)
              (Entries-decided commit) worked refl in
          (
            finish os worked,
            unfold handle_commit in
                rw (
                  v.ready,
                  log_decision commit (inl refl),
                  do_log-entries os (acts works) d a v.allowed (Entries-decided commit)
                      (record s.log { nextid = 2 }),
                ),
            server,
            state,
            λ j.
                sees j
                ∙ ap (after a j) (get-entries hash os s.disk d j works.opens refl refl v.store),
          )

      -- Where the system calls succeed, an ABORT to a follower that has voted is acknowledged, and
      -- the follower ends with an empty log, waiting; its store is what it was.
      pub abort-after :
          (res : Response)
          → (s' : Server) × (handle_abort os s res ≡ (s', record res { type = ack }))
            × IsServer hash s'
            × (s'.state ≡ tpc_wait)
            × (s'.disk.entries ≡ s.disk.entries)
      abort-after res =
          let dropped : Server = record s {
            disk = decided abort;
            log = record s.log { nextid = 2 };
            state = tpc_abort;
          } in
          let (server, state, entries, there) =
            finish-IsServer dropped 2 (decided-IsStore abort) (decided-IsLog abort) in
          (
            finish os dropped,
            unfold handle_abort in rw (v.ready, log_decision abort (inr refl)),
            server,
            state,
            entries,
          )
