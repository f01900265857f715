-- ===== src/Server/Stale.antt =====
-- tpclog_clear_log removes 0.log first. A follower that stops between that and the removal of
-- 1.log leaves a decision behind, which the next transaction takes for its own.
use cs162hw.Base.{
  ℕ, zero, suc, ◌+◌, ◌≤◌, ◌==◌, ◌≡◌, ◌∙◌, ap, subst, sym, refl, inl, pos, true, false, none, some,
  [], ◌∷◌, length, ltb, is_some, arith,
}
use cs162hw.Base.Dict
use cs162hw.Base.Dict.{nat_eq}
use cs162hw.Base.Text.{Text, str_eq_refl}
use cs162hw.Consts.{putreq, commit, vote, ack, tpc_init, tpc_wait, msg_commit}
use cs162hw.Disk.{
  Disk, Os, log_at, put_log, remove_log, log_at-put_log, log_at-remove_log, logs-le-length,
}
use cs162hw.Store
use cs162hw.Store.Find.{IsStore}
use cs162hw.Message.{Response}
use cs162hw.Server.{Server, init, resume, handle_put, handle_commit, finish, server_put_check}
use cs162hw.Server.Redo.{Action, put, entry_of, perform, logs-perform, Entries, Entries-logs, last}
use cs162hw.Server.Vote.{voted}
use cs162hw.Log.{clear_loop, clear_log, log_msg}
use cs162hw.Log.Scan.{IsLog}
use cs162hw.Server.Action.{Acts, Works, IsAllowedPut, acts, perform-after}
use cs162hw.Server.Phase.{decision, IsStore-entries, IsLog-put_log, log_msg-eq}
use cs162hw.Server.Decide.{Voted, do_log-entries, Entries-decided, decided-IsStore}
use cs162hw.Server.Restart.{fresh, init-eq, rebuild-resume}
use cs162hw.Server.Recover.{init-decided}

-- Of the files of the log only 0.log can be removed. tpclog_clear_log then leaves the directory of a
-- follower that is stopped between its first removal and its second.
abbrev pub stopping : Os → Os
stopping os = record os { removes_log = λ i. i == 0 }

clear_loop-first :
    (os : Os) (d : Disk) (fuel : ℕ)
    → 2 ≤ fuel
    → is_some (log_at d 0) ≡ true
    → is_some (log_at d 1) ≡ true
    → clear_loop fuel (stopping os) d 0 ≡ (false, remove_log d 0)
unfolding clear_loop
clear_loop-first os d zero enough here next = absurd (omega arith)
clear_loop-first os d (suc zero) enough here next = absurd (omega arith)
clear_loop-first os d (suc (suc fuel)) enough here next =
    let next' : is_some (log_at (remove_log d 0) 1) ≡ true = rw log_at-remove_log next in
    rw (here, next') refl

module _ (hash : Text → ℕ) (os : Os) (works : Works os) where
  stopping-Acts : Acts (stopping os)
  stopping-Acts = record {
    opens = works.opens;
    deletes = record { removes = works.deletes.removes; renames = works.deletes.renames };
    opens_log = works.opens_log;
    writes_log = works.writes_log;
  }

  -- A voted follower that gets a COMMIT.
  module _ (s : Server) (a : Action) (v : Voted hash s a) where
    abbrev worked : Disk
    worked = perform hash (stopping os) a (put_log s.disk 1 (some (decision commit)))

    abbrev committed : Server
    committed = record s {
      disk = remove_log worked 0;
      log = record s.log { nextid = 2; iterpos = 2 };
      state = tpc_wait;
    }

    files : IsLog worked 2
    files i =
        subst (λ l. is_some (Dict.get ⦃e = nat_eq⦄ l i) ≡ ltb i 2)
          (sym (logs-perform hash (stopping os) a (put_log s.disk 1 (some (decision commit)))))
          (IsLog-put_log s.disk 1 (some (decision commit)) v.files i)

    logged : Entries worked 0 (entry_of a ∷ decision commit ∷ [])
    logged =
        Entries-logs (put_log s.disk 1 (some (decision commit))) worked 0
          (entry_of a ∷ decision commit ∷ [])
          (logs-perform hash (stopping os) a (put_log s.disk 1 (some (decision commit))))
          (Entries-decided hash os works s a v commit)

    store : IsStore hash worked
    store =
        (perform-after hash (stopping os) (put_log s.disk 1 (some (decision commit)))
          (decided-IsStore hash os works s a v commit) stopping-Acts a [] v.allowed).0

    handle_commit-stopping :
        (res : Response)
        → handle_commit hash (stopping os) s res ≡ some (committed, record res { type = ack })
    unfolding handle_commit finish clear_log
    handle_commit-stopping res =
        let written : log_msg (stopping os) s.log s.disk commit [] []
            ≡ (pos 0, record s.log { nextid = 2 }, put_log s.disk 1 (some (decision commit))) =
          log_msg-eq (stopping os) s.log s.disk commit [] [] stopping-Acts (ground arith)
          ∙ ap
              (λ n.
                (pos 0, record s.log { nextid = suc n }, put_log s.disk n (some (decision commit))))
              v.one in
        let enough : 2 ≤ length worked.logs + 1 =
          omega (arith, logs-le-length worked 2 (λ i lt. ground (arith, files i))) in
        rw
          (
            v.ready,
            written,
            do_log-entries hash (stopping os) stopping-Acts
                (put_log s.disk 1 (some (decision commit))) a v.allowed
                (Entries-decided hash os works s a v commit) (record s.log { nextid = 2 }),
            clear_loop-first os worked (length worked.logs + 1) enough (files 0) (files 1),
          )
          refl

  -- A directory whose log holds only a COMMIT, in 1.log, from the restart on.
  module _ (d : Disk) (inv : IsStore hash d) (is : IsLog d 2)
      (left : Entries d 1 (decision commit ∷ [])) (threads : ℕ) (host : Text) (port : ℕ)
      (k w : Text) (ok : IsAllowedPut k w) where
    abbrev restarted : Server → Server
    restarted memory = record {
      disk = remove_log d 0;
      log = record memory.log { nextid = 0; iterpos = 0 };
      state = tpc_init;
      hostname = host;
      port = port;
      max_threads = threads;
    }

    restart-eq :
        (memory : Server)
        → init hash os (record memory { disk = remove_log d 0 }) threads host port
          ≡ some (pos 0, restarted memory)
    restart-eq memory =
        let raw : Server = record memory { disk = remove_log d 0 } in
        let dir : record (remove_log d 0) { present = true } ≡ remove_log d 0 =
          ground (arith, inv.there) in
        let gone : log_at (remove_log d 0) 0 ≡ none = rw log_at-remove_log in
        rw
          (
            init-eq hash os works raw 0 threads host port (λ i lt. absurd (omega arith)) gone,
            rebuild-resume hash os works (fresh raw 0 threads host port) [] gone,
          )
          (unfold resume last in
            ap (λ d'. some (pos 0, record (restarted memory) { disk = d' })) dir)

    vote-eq :
        (memory : Server)
        → handle_put os (restarted memory) k w
          ≡ (voted (restarted memory) (put k w), record { type = vote; body = some msg_commit })
    unfolding handle_put server_put_check Store.put_check entry_of
    vote-eq memory = ground (
      arith,
      ok.nonempty,
      ok.key_fits,
      ok.value_fits,
      inv.there,
      log_msg-eq os (restarted memory).log (remove_log d 0) putreq k w (acts works) (inl refl),
    )

    -- The next start finds the logged PUTREQ in front of the COMMIT.
    stale-init :
        (memory memory' : Server)
        → (s' : Server) × (init hash os
              (record memory' { disk = (voted (restarted memory) (put k w)).disk })
              threads
              host
              port
            ≡ some (pos 0, s'))
          × (s'.state ≡ tpc_wait)
          × (Store.get hash os s'.disk k ≡ (pos 0, some w))
    stale-init memory memory' =
        let raw : Server = record memory' { disk = (voted (restarted memory) (put k w)).disk } in
        let is' : IsLog raw.disk 2 =
          λ i. rw (log_at-put_log, log_at-remove_log) (ground (arith, is i)) in
        let h : Entries raw.disk 0 (entry_of (put k w) ∷ decision commit ∷ []) = (
          rw log_at-put_log refl,
          (
            rw (log_at-put_log, log_at-remove_log) left.0,
            rw (log_at-put_log, log_at-remove_log) left.1,
          ),
        ) in
        let (s', eq, server, state, sees) =
          init-decided hash os works raw threads host port (put k w)
            (IsStore-entries hash d raw.disk refl refl inv) ok is' h in
        (s', eq, state, sees k ∙ rw (str_eq_refl k))

  -- Where the system calls succeed, but of the files of the log only 0.log can be removed, a COMMIT
  -- to a follower that has voted is acknowledged. The follower that is started again on the
  -- directory it leaves is in its first state, and votes to commit a PUTREQ that is allowed. If it
  -- is then started once more, it commits that PUTREQ, though no decision about it has come: the
  -- value is there and the follower is waiting.
  pub stale_commit :
      (s : Server) (a : Action)
      → Voted hash s a
      → (res : Response) (memory memory' : Server) (threads : ℕ) (host : Text) (port : ℕ)
        (k w : Text)
      → IsAllowedPut k w
      → (s1 s2 s3 : Server) × (handle_commit hash (stopping os) s res
          ≡ some (s1, record res { type = ack }))
        × (init hash os (record memory { disk = s1.disk }) threads host port ≡ some (pos 0, s2))
        × (s2.state ≡ tpc_init)
        × ((handle_put os s2 k w).1 ≡ record { type = vote; body = some msg_commit })
        × (init hash os (record memory' { disk = (handle_put os s2 k w).0.disk }) threads host port
            ≡ some (pos 0, s3))
        × (s3.state ≡ tpc_wait)
        × (Store.get hash os s3.disk k ≡ (pos 0, some w))
  stale_commit s a v res memory memory' threads host port k w ok =
      let d = worked s a v in
      let inv = store s a v in
      let is = files s a v in
      let left = (logged s a v).1 in
      let re = restarted d inv is left threads host port k w ok memory in
      let voted-re = vote-eq d inv is left threads host port k w ok memory in
      let (s3, eq, state, got) = stale-init d inv is left threads host port k w ok memory memory' in
      (
        committed s a v,
        re,
        s3,
        handle_commit-stopping s a v res,
        restart-eq d inv is left threads host port k w ok memory,
        refl,
        ap (λ (r : Server × Response). r.1) voted-re,
        ap
              (λ (r : Server × Response).
                init hash os (record memory' { disk = r.0.disk }) threads host port)
              voted-re
            ∙ eq,
        state,
        got,
      )
