-- ===== src/Server/Recover.antt =====
-- A follower that stops and is started again on its directory.
use cs162hw.Base.{
  ℕ, ◌≡◌, ◌∙◌, ap, subst, sym, refl, ◌⊎◌, inl, inr, pos, true, some, [], ◌∷◌, arith, is_some, ltb,
}
use cs162hw.Base.Text.{Text}
use cs162hw.Base.Dict
use cs162hw.Base.Dict.{nat_eq}
use cs162hw.Consts.{commit, abort, tpc_wait, tpc_ready}
use cs162hw.Disk.{Disk, Os, log_at, put_log}
use cs162hw.Store
use cs162hw.Store.Find.{IsStore}
use cs162hw.Log.Scan.{IsLog}
use cs162hw.Server.{Server, finish, init}
use cs162hw.Server.Redo.{Action, entry_of, perform, logs-perform, Entries, Entries-logs}
use cs162hw.Server.Action.{acts, Works, IsAllowed, after, perform-after}
use cs162hw.Server.Phase.{decision, IsServer, IsStore-entries, get-entries}
use cs162hw.Server.Decide.{
  Voted, finish-IsServer, finish-after, Entries-decided, decided-IsLog, decided-IsStore,
}
use cs162hw.Server.Restart.{
  after-after, IsLog-Full, IsLog-end, fresh, init-eq, rebuild-pending, rebuild-commit,
  rebuild-abort,
}

module _ (hash : Text → ℕ) (os : Os) (works : Works os) where
  module _ (raw : Server) (threads : ℕ) (host : Text) (port : ℕ) where
    -- A directory that is there is not changed by the start itself.
    same_dir : IsStore hash raw.disk → record raw.disk { present = true } ≡ raw.disk
    same_dir inv = ground (arith, inv.there)

    -- Where the system calls succeed, a follower that stops after its vote is started again with
    -- the vote: it is ready, and waits for the decision about the same action, on the same
    -- directory.
    pub init-Voted :
        (s : Server) (a : Action)
        → Voted hash s a
        → raw.disk ≡ s.disk
        → (s' : Server) × (init hash os raw threads host port ≡ some (pos 0, s'))
          × Voted hash s' a
          × (s'.disk ≡ s.disk)
    init-Voted s a v same =
        let is : IsLog raw.disk 1 = subst (λ d. IsLog d 1) (sym same) v.files in
        let inv : IsStore hash raw.disk = subst (IsStore hash) (sym same) v.store in
        let logged : log_at raw.disk 0 ≡ some (some (entry_of a)) =
          subst (λ d. log_at d 0 ≡ some (some (entry_of a))) (sym same) v.logged in
        let s' : Server = record (fresh raw 1 threads host port) {
          log = record raw.log { nextid = 1; iterpos = 1 };
          state = tpc_ready;
        } in
        (
          s',
          rw (
            init-eq hash os works raw 1 threads host port (IsLog-Full raw.disk 1 is)
                (IsLog-end raw.disk 1 is),
            rebuild-pending hash os works (fresh raw 1 threads host port) a
                (logged, ground (arith, is 1)),
          ),
          record {
            store = IsStore-entries hash raw.disk _ refl (sym inv.there) inv;
            ready = refl;
            allowed = v.allowed;
            one = refl;
            files = is;
            logged = logged;
          },
          same_dir inv ∙ same,
        )

    -- The start on a directory whose log holds an action and the decision to commit it.
    pub init-decided :
        (a : Action)
        → IsStore hash raw.disk
        → IsAllowed a
        → IsLog raw.disk 2
        → Entries raw.disk 0 (entry_of a ∷ decision commit ∷ [])
        → (s' : Server) × (init hash os raw threads host port ≡ some (pos 0, s'))
          × IsServer hash s'
          × (s'.state ≡ tpc_wait)
          × ((j : Text) → Store.get hash os s'.disk j ≡ after a j (Store.get hash os raw.disk j))
    init-decided a inv ok is h =
        let s = fresh raw 2 threads host port in
        let inv' : IsStore hash s.disk = IsStore-entries hash raw.disk _ refl (sym inv.there) inv in
        let worked : Server = record s {
          disk = perform hash os a s.disk;
          log = record s.log { iterpos = 2 };
        } in
        let (server, state, sees) = finish-after hash os works s.disk a inv' ok is h worked refl in
        (
          finish os worked,
          rw (
            init-eq hash os works raw 2 threads host port (IsLog-Full raw.disk 2 is)
                (IsLog-end raw.disk 2 is),
            rebuild-commit hash os works s a inv' ok is h,
          ),
          server,
          state,
          λ j. sees j ∙ ap (λ d. after a j (Store.get hash os d j)) (same_dir inv),
        )

    -- Where the system calls succeed, a follower that stops after it has logged a COMMIT, before
    -- or after it has changed its store, does the action when it is started again: it is waiting,
    -- its log is empty, and a get of any key sees the action exactly once.
    pub init-commit :
        (s : Server) (a : Action)
        → Voted hash s a
        → (raw.disk ≡ put_log s.disk 1 (some (decision commit)))
          ⊎ (raw.disk ≡ perform hash os a (put_log s.disk 1 (some (decision commit))))
        → (s' : Server) × (init hash os raw threads host port ≡ some (pos 0, s'))
          × IsServer hash s'
          × (s'.state ≡ tpc_wait)
          × ((j : Text) → Store.get hash os s'.disk j ≡ after a j (Store.get hash os s.disk j))
    init-commit s a v (inl before) =
        let d = put_log s.disk 1 (some (decision commit)) in
        let (s', eq, server, state, sees) =
          init-decided a
            (subst (IsStore hash) (sym before) (decided-IsStore hash os works s a v commit))
            v.allowed
            (subst (λ x. IsLog x 2) (sym before) (decided-IsLog hash os works s a v commit))
            (subst (λ x. Entries x 0 (entry_of a ∷ decision commit ∷ [])) (sym before)
              (Entries-decided hash os works s a v commit)) in
        (
          s',
          eq,
          server,
          state,
          λ j.
              sees j
              ∙ ap (λ x. after a j (Store.get hash os x j)) before
              ∙ ap (after a j) (get-entries hash os s.disk d j works.opens refl refl v.store),
        )
    init-commit s a v (inr done) =
        let d = put_log s.disk 1 (some (decision commit)) in
        let inv = decided-IsStore hash os works s a v commit in
        let logs : raw.disk.logs ≡ d.logs =
          ap (λ (x : Disk). x.logs) done ∙ logs-perform hash os a d in
        let (s', eq, server, state, sees) =
          init-decided a
            (subst (IsStore hash) (sym done)
              (perform-after hash os d inv (acts works) a [] v.allowed).0)
            v.allowed
            (λ i.
              subst (λ l. is_some (Dict.get l i) ≡ ltb i 2) (sym logs)
                (decided-IsLog hash os works s a v commit i))
            (Entries-logs d raw.disk 0 (entry_of a ∷ decision commit ∷ []) logs
              (Entries-decided hash os works s a v commit)) in
        (
          s',
          eq,
          server,
          state,
          λ j.
              sees j
              ∙ ap (λ x. after a j (Store.get hash os x j)) done
              ∙ ap (after a j) (perform-after hash os d inv (acts works) a j v.allowed).1
              ∙ after-after a j (Store.get hash os d j)
              ∙ ap (after a j) (get-entries hash os s.disk d j works.opens refl refl v.store),
        )

    -- Where the system calls succeed, a follower that stops after it has logged an ABORT drops the
    -- action when it is started again: it is waiting, its log is empty, and its store is what it
    -- was.
    pub init-abort :
        (s : Server) (a : Action)
        → Voted hash s a
        → raw.disk ≡ put_log s.disk 1 (some (decision abort))
        → (s' : Server) × (init hash os raw threads host port ≡ some (pos 0, s'))
          × IsServer hash s'
          × (s'.state ≡ tpc_wait)
          × (s'.disk.entries ≡ s.disk.entries)
    init-abort s a v same =
        let is : IsLog raw.disk 2 =
          subst (λ x. IsLog x 2) (sym same) (decided-IsLog hash os works s a v abort) in
        let inv : IsStore hash raw.disk =
          subst (IsStore hash) (sym same) (decided-IsStore hash os works s a v abort) in
        let h : Entries raw.disk 0 (entry_of a ∷ decision abort ∷ []) =
          subst (λ x. Entries x 0 (entry_of a ∷ decision abort ∷ [])) (sym same)
            (Entries-decided hash os works s a v abort) in
        let s0 = fresh raw 2 threads host port in
        let dropped : Server = record s0 { log = record s0.log { iterpos = 2 } } in
        let (server, state, entries, there) =
          finish-IsServer hash os works dropped 2
            (IsStore-entries hash raw.disk _ refl (sym inv.there) inv) is in
        (
          finish os dropped,
          rw (
            init-eq hash os works raw 2 threads host port (IsLog-Full raw.disk 2 is)
                (IsLog-end raw.disk 2 is),
            rebuild-abort hash os works s0 a h,
          ),
          server,
          state,
          entries ∙ ap (λ (x : Disk). x.entries) same,
        )
