-- ===== src/Leader/Commits.antt =====
-- A transaction that nothing stands against is committed: the replicas of a key are different
-- followers, so each is asked once.
use cs162hw.Base.{
  ℕ, zero, suc, ◌≤◌, ◌<◌, ◌≡◌, ◌≢◌, ◌∙◌, refl, ap, sym, inl, inr, true, Option, none, some, [],
  length, ◌>>=◌, arith,
}
use cs162hw.Base.Text.{Text}
use cs162hw.Consts.{vote, error, commit, success, msg_commit}
use cs162hw.Disk.{Os}
use cs162hw.Message.{Response, blank, arrived}
use cs162hw.Server
use cs162hw.Server.{Server, voting}
use cs162hw.Server.Redo.{put}
use cs162hw.Server.Action.{Works, IsAllowedPut}
use cs162hw.Server.Phase.{IsServer}
use cs162hw.Server.Vote.{voted, put-votes}
use cs162hw.Leader.{
  Leader, answer, get_successor, vote_loop, ack_loop, two_phases, handle_tpc, agrees, get_primary,
}
use cs162hw.Leader.Ring.{get_primary_cases}
use cs162hw.Leader.Insert.{IsLeader}
use cs162hw.Leader.Cluster.{World, set_server, deliver, reach-eq, request_of, decide, Carries}
use cs162hw.Leader.Node.{Done}
use cs162hw.Leader.Rounds.{Visits, World_of, elem_at, successor_below}
use cs162hw.Leader.Atomic.{two_phases-Outcome, elem_below, handle_tpc-eq}
use cs162hw.Leader.Positions.{never_again}

pub success-ne-error : success ≢ error
success-ne-error same = cc

module _ (hash : Text → ℕ) (os : Os) (page : Text) (works : Works os) (l : Leader) (k v : Text)
    (start : ℕ → Server) (inv : (i : ℕ) → IsServer hash (start i))
    (open_to_vote : (i : ℕ) → voting (start i).state ≡ true) (allowed : IsAllowedPut k v)
    (can : Carries (request_of (put k v))) (is_leader : IsLeader l) where
  first_vote :
      (i : ℕ)
      → Server.handle_tpc hash os (start i) (request_of (put k v)) blank
        ≡ some (voted (start i) (put k v), record { type = vote; body = some msg_commit })
  unfolding Server.handle_tpc Server.handle_type
  first_vote i =
      elim (put-votes hash os works (start i) (inv i) (open_to_vote i) k v allowed.key_text
        allowed.value_text) [
          | inl (ok, eq, is) ↦ ap some eq
          | inr (bad, same, type, other) ↦ absurd (bad allowed)
        ]

  all_vote :
      (n p : ℕ) (servers : ℕ → Server)
      → p < length l.followers
      → n ≤ length l.followers
      → ((i : ℕ) → Visits l n p i → servers i ≡ start i)
      → (servers' : ℕ → Server) × (vote_loop
            (deliver hash os page)
            n
            l
            (request_of (put k v))
            (World_of hash os page servers [])
            p
            true
          ≡ some (true, World_of hash os page servers' []))
  unfolding vote_loop agrees
  all_vote zero p servers lt le fresh = (servers, refl)
  all_vote (suc n) p servers lt le fresh =
      let (f, at) = elem_at l.followers p lt in
      let s = voted (start f.id) (put k v) in
      let vote_eq =
        reach-eq hash os page (World_of hash os page servers []) f (request_of (put k v)) s
          (record { type = vote; body = some msg_commit }) can (omega arith, omega arith)
          (rw (fresh f.id (inl (f, at, refl))) (first_vote f.id)) in
      let sent : deliver hash os page (World_of hash os page servers []) f (request_of (put k v))
          ≡ (
            answer (arrived (record { type = vote; body = some msg_commit })),
            World_of hash os page (set_server servers f.id s) [],
          ) =
        unfold deliver in vote_eq in
      let (servers', run) =
        all_vote n (get_successor l p) (set_server servers f.id s) (successor_below l p lt)
          (omega arith)
          (λ i later.
            let other = never_again l n p i f is_leader.ring lt le at later in
            ground (arith, fresh i (inr later))) in
      rw (at, ◌>>=◌, sent, run) (servers', refl)

  abbrev succeed : World → Option (Response × World)
  succeed w = some (record blank { type = success }, w)

  -- With all votes the response is a success.
  agreed_success :
      (fuel p : ℕ) (res : Response) (w : World) (servers : ℕ → Server)
      → vote_loop
          (deliver hash os page)
          l.redundancy
          l
          (request_of (put k v))
          (World_of hash os page start [])
          p
          true
        ≡ some (true, World_of hash os page servers [])
      → two_phases
          (deliver hash os page)
          fuel
          l
          (request_of (put k v))
          blank
          (World_of hash os page start [])
          p
        ≡ some (res, w)
      → res.type ≡ success
  unfolding two_phases
  agreed_success fuel p res w servers votes run = go _ (sym opened ∙ run)
    where
      go : (o : Option World) → (o >>= succeed) ≡ some (res, w) → res.type ≡ success
      go none eq = cc
      go (some w') eq = cc

      opened :
          two_phases
            (deliver hash os page)
            fuel
            l
            (request_of (put k v))
            blank
            (World_of hash os page start [])
            p
          ≡ (ack_loop
                (deliver hash os page)
                fuel
                l
                (decide commit)
                (World_of hash os page servers [])
                p
              >>= succeed)
      opened = rw (votes, two_phases) refl

  -- Where the leader is at capacity with at least one follower, every follower is well-formed, open
  -- to votes and its system calls succeed, and every connection succeeds, a PUT of a key and a
  -- value that are allowed, that pass through a URL as they are, and whose URL fits into the 128
  -- bytes of url_encode, is committed within the first round, over a network of bytes: the response
  -- is a success, and every replica of the key has the new value.
  pub put-commits :
      (fuel : ℕ)
      → l.follower_count ≡ l.follower_capacity
      → 0 < l.follower_count
      → 0 < fuel
      → (p : ℕ) × (res : Response) × (w : World) × (get_primary hash l k ≡ some (some p))
        × (handle_tpc
              (deliver hash os page)
              hash
              fuel
              l
              (some (request_of (put k v)))
              blank
              (record { servers = start; links = [] })
            ≡ some (res, w))
        × (res.type ≡ success)
        × ((i : ℕ) → Visits l l.redundancy p i → Done hash os (put k v) (start i) (w.servers i))
  put-commits fuel full some_there enough = elim (get_primary_cases hash l k is_leader some_there) [
    | inl (room, null) ↦ absurd (omega arith)
    | inr (p, f, primary, at, least) ↦
        let lt = elem_below l.followers p f at in
        let (res, servers, links, run, outcome) =
          two_phases-Outcome hash os page works l (put k v) (allowed.key_text, allowed.value_text)
            can start inv open_to_vote fuel p [] lt enough in
        let (servers1, votes) =
          all_vote l.redundancy p start lt (omega (arith, is_leader.redundant, is_leader.count))
            (λ i there. refl) in
        let good : res.type ≡ success = agreed_success fuel p res _ servers1 votes run in
        (
          p,
          res,
          record { servers = servers; links = links },
          primary,
          handle_tpc-eq hash os page works l (put k v) (allowed.key_text, allowed.value_text) can
                start inv open_to_vote fuel p _ full primary
              ∙ run,
          good,
          elim outcome [
            | inl (same, done) ↦ done
            | inr (bad, rest) ↦ absurd (success-ne-error (sym good ∙ bad))
          ],
        )
  ]
