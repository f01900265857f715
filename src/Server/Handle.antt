-- ===== src/Server/Handle.antt =====
-- kvserver_handle_tpc on every request.
use cs162hw.Base.{ℕ, ◌≡◌, refl, inl, inr, sym, subst, Option, some, arith, Bool-cases, is_some, ltb}
use cs162hw.Base.Text.{Text, IsText}
use cs162hw.Consts.{MsgType, getreq, putreq, delreq, commit, abort, ack, TpcState, tpc_ready}
use cs162hw.Disk.{Os, log_at}
use cs162hw.Message.{Request, Response}
use cs162hw.Server.{
  Server, voting, handle_put, handle_del, handle_commit, handle_abort, handle_get, handle_type,
  handle_tpc,
}
use cs162hw.Server.Redo.{Action}
use cs162hw.Server.Action.{Works}
use cs162hw.Server.Phase.{Phase, IsServer}
use cs162hw.Server.Decide.{Voted, commit-after, abort-after}
use cs162hw.Server.Vote.{put-votes, del-votes}

-- What kvrequest_recieve makes sure of: the strings that a type needs are there.
abbrev pub HasStrings : MsgType → Option Text → Option Text → Type 0
HasStrings putreq k v =
    (key : Text) × (val : Text) × (k ≡ some key) × (v ≡ some val) × IsText key × IsText val
HasStrings delreq k v = (key : Text) × (k ≡ some key) × IsText key
HasStrings getreq k v = (key : Text) × (k ≡ some key)
HasStrings _ k v = Unit

module _ (hash : Text → ℕ) where
  ready-Voted : (s : Server) → IsServer hash s → s.state ≡ tpc_ready → (a : Action) × Voted hash s a
  ready-Voted s inv ready = go s.state refl inv.phase
    where
      go :
          (st : TpcState)
          → s.state ≡ st
          → Phase st s.disk s.log.nextid
          → (a : Action) × Voted hash s a
      go tpc_ready eq (a, ok, one, logged) = (
        a,
        record {
          store = inv.store;
          ready = ready;
          allowed = ok;
          one = one;
          files = λ i. subst (λ n. is_some (log_at s.disk i) ≡ ltb i n) one (inv.files i);
          logged = logged;
        },
      )
      go _ eq p = cc

  Voted-IsServer : (s : Server) (a : Action) → Voted hash s a → IsServer hash s
  Voted-IsServer s a v = record {
    store = v.store;
    files = λ i. subst (λ n. is_some (log_at s.disk i) ≡ ltb i n) (sym v.one) (v.files i);
    phase =
        subst (λ st. Phase st s.disk s.log.nextid) (sym v.ready) (a, v.allowed, v.one, v.logged);
  }

  module _ (os : Os) (works : Works os) (s : Server) (inv : IsServer hash s) where
    put-IsServer : (k v : Text) → IsText k → IsText v → IsServer hash (handle_put os s k v).0
    put-IsServer k v tk tv = elim (Bool-cases (voting s.state)) [
      | inl open_to_vote ↦ elim (put-votes hash os works s inv open_to_vote k v tk tv) [
        | inl (ok, eq, is) ↦ rw eq (Voted-IsServer _ _ is)
        | inr (bad, same, type, body) ↦ rw same inv
      ]
      | inr shut ↦ unfold handle_put in rw shut inv
    ]

    del-IsServer : (k : Text) → IsText k → IsServer hash (handle_del hash os s k).0
    del-IsServer k tk = elim (Bool-cases (voting s.state)) [
      | inl open_to_vote ↦ elim (del-votes hash os works s inv open_to_vote k tk) [
        | inl (ok, got, eq, is) ↦ rw eq (Voted-IsServer _ _ is)
        | inr (bad, same, type, body) ↦ rw same inv
      ]
      | inr shut ↦ unfold handle_del in rw shut inv
    ]

    commit-IsServer :
        (res : Response)
        → (s' : Server) × (r : Response) × (handle_commit hash os s res ≡ some (s', r))
          × IsServer hash s'
    commit-IsServer res = go s.state refl
      where
        go :
            (st : TpcState)
            → s.state ≡ st
            → (s' : Server) × (r : Response) × (handle_commit hash os s res ≡ some (s', r))
              × IsServer hash s'
        go tpc_ready eq =
            let (a, v) = ready-Voted s inv eq in
            let (s', done, is, state, sees) = commit-after hash os works s a v res in
            (s', _, done, is)
        go _ eq = (s, record res { type = ack }, unfold handle_commit in rw eq, inv)

    abort-IsServer : (res : Response) → IsServer hash (handle_abort os s res).0
    abort-IsServer res = go s.state refl
      where
        go : (st : TpcState) → s.state ≡ st → IsServer hash (handle_abort os s res).0
        go tpc_ready eq =
            let (a, v) = ready-Voted s inv eq in
            let (s', done, is, state, same) = abort-after hash os works s a v res in rw done is
        go _ eq = unfold handle_abort in simp eq inv

    -- Where the system calls succeed, a well-formed follower handles every request that has the
    -- strings its type needs without reading NULL, and its state, its log and its store agree
    -- again afterwards.
    pub handle_tpc-IsServer :
        (req : Request) (res : Response)
        → HasStrings req.type req.key req.val
        → (s' : Server) × (r : Response) × (handle_tpc hash os s req res ≡ some (s', r))
          × IsServer hash s'
    handle_tpc-IsServer req res has = unfold handle_tpc in go req.type has
      where
        go :
            (t : MsgType)
            → HasStrings t req.key req.val
            → (s' : Server) × (r : Response) × (handle_type hash os s req res t ≡ some (s', r))
              × IsServer hash s'
        go putreq (k, v, ek, ev, tk, tv) = (
          (handle_put os s k v).0,
          (handle_put os s k v).1,
          (unfold handle_type in rw (ek, ev)),
          put-IsServer k v tk tv,
        )
        go delreq (k, ek, tk) = (
          (handle_del hash os s k).0,
          (handle_del hash os s k).1,
          (unfold handle_type in rw ek),
          del-IsServer k tk,
        )
        go commit h = unfold handle_type in commit-IsServer res
        go abort h = (
          (handle_abort os s res).0,
          (handle_abort os s res).1,
          (unfold handle_type in refl),
          abort-IsServer res,
        )
        go getreq (k, ek) = (
          s,
          (handle_get hash os s k).1,
          (unfold handle_type handle_get in rw ek (ground arith)),
          inv,
        )
        go _ h = (s, res, (unfold handle_type in refl), inv)
