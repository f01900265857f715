-- ===== src/Leader/Node.antt =====
-- One follower in a transaction of the leader: what it does with the request and the decision, the
-- first time and again.
use cs162hw.Base.{
  ℕ, ◌≡◌, ◌≢◌, ◌∙◌, sym, refl, ◌⊎◌, inl, inr, Bool-cases, some, true, false, ap, int_eq, pos, ℤ,
  arith,
}
use cs162hw.Base.Text.{Text, str_eq, str_eq_sound}
use cs162hw.Consts.{
  TpcState, msg_commit, commit, abort, ack, tpc_wait, tpc_ready, errmsg_invalid_request, vote,
  get_msg, err_key_len, err_val_len, err_no_key,
}
use cs162hw.Disk.{Os}
use cs162hw.Store
use cs162hw.Message.{Response, blank}
use cs162hw.Server
use cs162hw.Server.{
  Server, voting, is_ready, handle_put, handle_del, handle_commit, handle_abort, server_put_check,
  server_del_check,
}
use cs162hw.Server.Redo.{Action, put, del, IsAction}
use cs162hw.Server.Action.{Works, after}
use cs162hw.Server.Phase.{IsServer, get-entries}
use cs162hw.Server.Decide.{Voted, commit-after, abort-after}
use cs162hw.Server.Vote.{put-votes, del-votes, voted}
use cs162hw.Leader.Cluster.{request_of, decide, IsShort}

module _ (hash : Text → ℕ) (os : Os) (a : Action) where
  -- The follower has voted for the action, and its store is still that of `s0`.
  pub record Pending (s0 s : Server) : Type 0 where
    pub voted : Voted hash s a
    pub entries : s.disk.entries ≡ s0.disk.entries

  -- It has done the action: a get sees it and nothing else.
  pub record Done (s0 s : Server) : Type 0 where
    pub server : IsServer hash s
    pub waiting : s.state ≡ tpc_wait
    pub sees : (j : Text) → Store.get hash os s.disk j ≡ after a j (Store.get hash os s0.disk j)

  -- It is open to votes, and its store is that of `s0`.
  pub record Idle (s0 s : Server) : Type 0 where
    pub server : IsServer hash s
    pub open_to_vote : voting s.state ≡ true
    pub entries : s.disk.entries ≡ s0.disk.entries

not_ready : (st : TpcState) → voting st ≡ true → is_ready st ≡ false
not_ready TpcState.tpc_init v = refl
not_ready tpc_wait v = refl
not_ready tpc_ready v = cc
not_ready TpcState.tpc_abort v = refl
not_ready TpcState.tpc_commit v = refl

commit-IsShort : IsShort msg_commit
commit-IsShort = (omega arith, omega arith)

invalid-IsShort : IsShort errmsg_invalid_request
invalid-IsShort = (omega arith, omega arith)

-- The messages of errors are short.
pub get_msg-IsShort : (code : ℤ) → IsShort (get_msg code)
unfolding get_msg
get_msg-IsShort code = elim (Bool-cases (int_eq code err_key_len)) [
  | inl is ↦ rw is (omega arith, omega arith)
  | inr a ↦ elim (Bool-cases (int_eq code err_val_len)) [
    | inl is ↦ rw (a, is) (omega arith, omega arith)
    | inr b ↦ elim (Bool-cases (int_eq code err_no_key)) [
      | inl is ↦ rw (a, b, is) (omega arith, omega arith)
      | inr c ↦ rw (a, b, c) (omega arith, omega arith)
    ]
  ]
]

module _ (hash : Text → ℕ) (os : Os) (works : Works os) (s0 : Server) (inv : IsServer hash s0)
    (open_to_vote : voting s0.state ≡ true) where
  -- How a follower answers in the first phase.
  abbrev pub Answers : Action → Server → Type 0
  Answers a s =
      (s' : Server) × (r : Response) × (body : Text) × (Server.handle_tpc hash os s (request_of a)
          blank
        ≡ some (s', r))
      × (r.body ≡ some body)
      × IsShort body
      × (((str_eq body msg_commit ≡ true) × Pending hash os a s0 s')
          ⊎ ((str_eq body msg_commit ≡ false) × (s' ≡ s)))

  put_body : (k v : Text) → (b : Text) × ((handle_put os s0 k v).1.body ≡ some b) × IsShort b
  unfolding handle_put
  put_body k v = elim (Bool-cases (int_eq (server_put_check s0.disk k v) (pos 0))) [
    | inl ok ↦ rw (open_to_vote, ok) (_, refl, commit-IsShort)
    | inr other ↦ rw (open_to_vote, other) (_, refl, get_msg-IsShort _)
  ]

  del_body : (k : Text) → (b : Text) × ((handle_del hash os s0 k).1.body ≡ some b) × IsShort b
  unfolding handle_del
  del_body k = elim (Bool-cases (int_eq (server_del_check hash os s0.disk k) (pos 0))) [
    | inl ok ↦ rw (open_to_vote, ok) (_, refl, commit-IsShort)
    | inr other ↦ rw (open_to_vote, other) (_, refl, get_msg-IsShort _)
  ]

  not_commit : (b : Text) → (some b ≢ some msg_commit) → str_eq b msg_commit ≡ false
  not_commit b ne = elim (Bool-cases (str_eq b msg_commit)) [
    | inl same ↦ absurd (ne (ap some (str_eq_sound b msg_commit same)))
    | inr other ↦ other
  ]

  pub first_answer : (a : Action) → IsAction a → Answers a s0
  unfolding Server.handle_tpc Server.handle_type
  first_answer (put k v) (tk, tv) =
      let (b, body, short) = put_body k v in
      elim (put-votes hash os works s0 inv open_to_vote k v tk tv) [
        | inl (ok, eq, is) ↦ (
          voted s0 (put k v),
          record { type = vote; body = some msg_commit },
          msg_commit,
          ap some eq,
          refl,
          commit-IsShort,
          inl (refl, record { voted = is; entries = refl }),
        )
        | inr (bad, same, type, other) ↦ (
          (handle_put os s0 k v).0,
          (handle_put os s0 k v).1,
          b,
          refl,
          body,
          short,
          inr (not_commit b (λ e. other (body ∙ e)), same),
        )
      ]
  first_answer (del k) tk =
      let (b, body, short) = del_body k in
      elim (del-votes hash os works s0 inv open_to_vote k tk) [
        | inl (ok, got, eq, is) ↦ (
          voted s0 (del k),
          record { type = vote; body = some msg_commit },
          msg_commit,
          ap some eq,
          refl,
          commit-IsShort,
          inl (refl, record { voted = is; entries = refl }),
        )
        | inr (bad, same, type, other) ↦ (
          (handle_del hash os s0 k).0,
          (handle_del hash os s0 k).1,
          b,
          refl,
          body,
          short,
          inr (not_commit b (λ e. other (body ∙ e)), same),
        )
      ]

  -- A follower that is ready refuses another request.
  pub ready_answer : (a : Action) (s : Server) → Pending hash os a s0 s → Answers a s
  unfolding Server.handle_tpc Server.handle_type handle_put handle_del
  ready_answer (put k v) s p =
      rw p.voted.ready (_, _, errmsg_invalid_request, refl, refl, invalid-IsShort, inr (refl, refl))
  ready_answer (del k) s p =
      rw p.voted.ready (_, _, errmsg_invalid_request, refl, refl, invalid-IsShort, inr (refl, refl))

  module _ (a : Action) where
    -- The decision to commit, and the same decision once more.
    pub commit-Done :
        (s : Server)
        → Pending hash os a s0 s ⊎ Done hash os a s0 s
        → (s' : Server) × (Server.handle_tpc hash os s (decide commit) blank
            ≡ some (s', record blank { type = ack }))
          × Done hash os a s0 s'
    unfolding Server.handle_tpc Server.handle_type
    commit-Done s (inl p) =
        let (s', eq, server, state, sees) = commit-after hash os works s a p.voted blank in
        (
          s',
          eq,
          record {
            server = server;
            waiting = state;
            sees = λ j.
                sees j
                ∙ ap (after a j) (
                    get-entries hash os s0.disk s.disk j works.opens p.entries
                      (p.voted.store.there ∙ sym inv.store.there) inv.store);
          },
        )
    commit-Done s (inr d) = (s, unfold handle_commit in rw (d.waiting, handle_commit) refl, d)

    -- The decision to abort, to a follower that has voted for the action or has not.
    pub abort-Idle :
        (s : Server)
        → Pending hash os a s0 s ⊎ Idle hash os a s0 s
        → (s' : Server) × (Server.handle_tpc hash os s (decide abort) blank
            ≡ some (s', record blank { type = ack }))
          × Idle hash os a s0 s'
    unfolding Server.handle_tpc Server.handle_type
    abort-Idle s (inl p) =
        let (s', eq, server, state, same) = abort-after hash os works s a p.voted blank in
        (
          s',
          ap some eq,
          record { server = server; open_to_vote = rw state; entries = same ∙ p.entries },
        )
    abort-Idle s (inr d) =
        (s, unfold handle_abort in rw (not_ready s.state d.open_to_vote, handle_abort) refl, d)
