-- ===== src/Leader/Atomic.antt =====
-- The transaction of the leader as a whole: tpcleader_handle_tpc of hw4/src/tpcleader.c over
-- followers that run kvserver_handle_tpc of hw4/src/kvserver.c.
use cs162hw.Base.{
  ℕ, zero, suc, [], ◌∷◌, ◌<◌, ◌≡◌, ◌∙◌, refl, sym, subst, ◌⊎◌, inl, inr, Bool, true, Bool-cases,
  some, List, length, get_elem?, arith, ◌==◌,
}
use cs162hw.Base.Text.{Text}
use cs162hw.Consts.{success, error, commit, abort}
use cs162hw.Disk.{Os}
use cs162hw.Message.{Response, blank}
use cs162hw.Server.{Server, voting}
use cs162hw.Server.Redo.{Action, put, del, IsAction}
use cs162hw.Server.Action.{Works}
use cs162hw.Server.Phase.{IsServer}
use cs162hw.Leader.{Follower, Leader, ack_loop, get_primary, two_phases, handle_tpc}
use cs162hw.Leader.Ring.{get_primary_cases}
use cs162hw.Leader.Insert.{IsLeader}
use cs162hw.Leader.Cluster.{
  World, deliver, request_of, key_of_action, decide, Carries, commit-Carries, abort-Carries,
}
use cs162hw.Leader.Node.{Pending, Done, Idle, commit-Done, abort-Idle}
use cs162hw.Leader.Rounds.{Visits, World_of, ack_loop_lem}
use cs162hw.Leader.Poll.{Asked, vote_loop_lem}

pub elem_below :
    (fs : List Follower) (p : ℕ) (f : Follower) → get_elem? fs p ≡ some f → p < length fs
elem_below [] p f at = cc
elem_below (g ∷ fs) zero f at = omega arith
elem_below (g ∷ fs) (suc p) f at = omega (arith, elem_below fs p f at)

module _ (hash : Text → ℕ) (os : Os) (page : Text) (works : Works os) (l : Leader) (a : Action)
    (is : IsAction a) (can : Carries (request_of a)) (start : ℕ → Server)
    (inv : (i : ℕ) → IsServer hash (start i))
    (open_to_vote : (i : ℕ) → voting (start i).state ≡ true) where
  -- All or nothing, on the replicas from position `p` on.
  abbrev pub Outcome : ℕ → Response → (ℕ → Server) → Type 0
  Outcome p res servers =
      ((res.type ≡ success)
        × ((i : ℕ) → Visits l l.redundancy p i → Done hash os a (start i) (servers i)))
      ⊎ ((res.type ≡ error)
          × ((i : ℕ) → Visits l l.redundancy p i → Idle hash os a (start i) (servers i)))

  -- The second phase, for either decision.
  commit_phase :
      (fuel p : ℕ) (servers : ℕ → Server) (links : List Bool)
      → p < length l.followers
      → length links < fuel
      → ((i : ℕ) → Visits l l.redundancy p i → Pending hash os a (start i) (servers i))
      → (servers' : ℕ → Server) × (links' : List Bool) × (ack_loop
            (deliver hash os page)
            fuel
            l
            (decide commit)
            (World_of hash os page servers links)
            p
          ≡ some (World_of hash os page servers' links'))
        × ((i : ℕ) → Visits l l.redundancy p i → Done hash os a (start i) (servers' i))
  commit_phase fuel p servers links lt enough all =
      let (servers', links', run, kept, done) =
        ack_loop_lem hash os page l (decide commit) commit-Carries (Visits l l.redundancy p)
          (λ i s. Pending hash os a (start i) s ⊎ Done hash os a (start i) s)
          (λ i s. Done hash os a (start i) s)
          (λ i s. commit-Done hash os works (start i) (inv i) (open_to_vote i) a s) (λ i s d. inr d)
          fuel p servers links lt enough (λ i v. v) (λ i v. inl (all i v)) in
      (servers', links', run, done)

  abort_phase :
      (fuel p : ℕ) (servers : ℕ → Server) (links : List Bool)
      → p < length l.followers
      → length links < fuel
      → ((i : ℕ) → Asked hash os page works l a is can start inv open_to_vote i (servers i))
      → (servers' : ℕ → Server) × (links' : List Bool) × (ack_loop
            (deliver hash os page)
            fuel
            l
            (decide abort)
            (World_of hash os page servers links)
            p
          ≡ some (World_of hash os page servers' links'))
        × ((i : ℕ) → Visits l l.redundancy p i → Idle hash os a (start i) (servers' i))
  abort_phase fuel p servers links lt enough all =
      let (servers', links', run, kept, done) =
        ack_loop_lem hash os page l (decide abort) abort-Carries (Visits l l.redundancy p)
          (λ i s. Pending hash os a (start i) s ⊎ Idle hash os a (start i) s)
          (λ i s. Idle hash os a (start i) s)
          (λ i s. abort-Idle hash os works (start i) (inv i) (open_to_vote i) a s) (λ i s d. inr d)
          fuel p servers links lt enough (λ i v. v)
          (λ i v. elim (all i) [
            | inr q ↦ inl q
            | inl same ↦ inr (
                subst (Idle hash os a (start i)) (sym same)
                  (record { server = inv i; open_to_vote = open_to_vote i; entries = refl }))
          ]) in
      (servers', links', run, done)

  pub two_phases-Outcome :
      (fuel p : ℕ) (links : List Bool)
      → p < length l.followers
      → length links < fuel
      → (res : Response) × (servers : ℕ → Server) × (links' : List Bool) × (two_phases
            (deliver hash os page)
            fuel
            l
            (request_of a)
            blank
            (World_of hash os page start links)
            p
          ≡ some (res, World_of hash os page servers links'))
        × Outcome p res servers
  unfolding two_phases
  two_phases-Outcome fuel p links lt enough =
      let (c, servers, links1, run, all, le, keeps, agree) =
        vote_loop_lem hash os page works l a is can start inv open_to_vote l.redundancy p start
          links true lt (λ i. inl refl) in
      elim (Bool-cases c) [
        | inl agreed ↦
            let (servers', links', run', done) =
              commit_phase fuel p servers links1 lt (omega arith) (agree agreed).1 in
            rw (run, agreed, run') (_, servers', links', refl, inl (refl, done))
        | inr refused ↦
            let (servers', links', run', done) =
              abort_phase fuel p servers links1 lt (omega arith) all in
            rw (run, refused, run') (_, servers', links', refl, inr (refl, done))
      ]

  -- The request of an action has its key.
  pub handle_tpc-eq :
      (fuel p : ℕ) (w : World)
      → l.follower_count ≡ l.follower_capacity
      → get_primary hash l (key_of_action a) ≡ some (some p)
      → handle_tpc (deliver hash os page) hash fuel l (some (request_of a)) blank w
        ≡ two_phases (deliver hash os page) fuel l (request_of a) blank w p
  unfolding handle_tpc
  handle_tpc-eq fuel p w full primary = go a primary
    where
      full' : (l.follower_count == l.follower_capacity) ≡ true
      full' = ground arith

      go :
          (b : Action)
          → get_primary hash l (key_of_action b) ≡ some (some p)
          → handle_tpc (deliver hash os page) hash fuel l (some (request_of b)) blank w
            ≡ two_phases (deliver hash os page) fuel l (request_of b) blank w p
      go (put k v) at = rw (full', at) refl
      go (del k) at = rw (full', at) refl

  -- A transaction of a leader at capacity with at least one follower, over followers that are
  -- well-formed and open to votes and whose system calls succeed, ends for every schedule of
  -- failing connections, if it has more rounds than there are connections in the schedule, and if
  -- its request can be sent: its strings are C strings that pass through a URL as they are, and its
  -- URL fits into the 128 bytes of url_encode. Requests and responses are sent and read as bytes.
  -- Either the response is a success and every replica of the key has done the action, or it is an
  -- error and every replica is open to votes again with the store that it had.
  pub handle_tpc-Outcome :
      (fuel : ℕ) (links : List Bool)
      → IsLeader l
      → l.follower_count ≡ l.follower_capacity
      → 0 < l.follower_count
      → length links < fuel
      → (p : ℕ) × (res : Response) × (servers : ℕ → Server) × (links' : List Bool) × (get_primary
            hash l
            (key_of_action a)
          ≡ some (some p))
        × (handle_tpc
              (deliver hash os page)
              hash
              fuel
              l
              (some (request_of a))
              blank
              (record { servers = start; links = links })
            ≡ some (res, record { servers = servers; links = links' }))
        × Outcome p res servers
  handle_tpc-Outcome fuel links is_leader full some_there enough =
      elim (get_primary_cases hash l (key_of_action a) is_leader some_there) [
        | inl (room, null) ↦ absurd (omega arith)
        | inr (p, f, primary, at, least) ↦
            let (res, servers, links', run, outcome) =
              two_phases-Outcome fuel p links (elem_below l.followers p f at) enough in
            (
              p,
              res,
              servers,
              links',
              primary,
              handle_tpc-eq fuel p (World_of hash os page start links) full primary ∙ run,
              outcome,
            )
      ]
