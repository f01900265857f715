-- ===== src/Leader/ReadBack.antt =====
-- tpcleader_handle_get behind a transaction that has succeeded, for either action.
use cs162hw.Base.{
  ℕ, zero, suc, ◌+◌, ◌≤◌, ◌<◌, ◌≡◌, ◌∙◌, refl, ap, sym, subst, inl, inr, Bool, true, none, some,
  List, Bool-cases, ◌==◌, length, ◌>>=◌, arith, le→ltb,
}
use cs162hw.Base.Text.{Text, str_eq_refl}
use cs162hw.Consts.{success, error, getresp, max_keylen, err_no_key, errmsg_no_key, get_msg}
use cs162hw.Disk.{Os}
use cs162hw.Message.{Response, blank}
use cs162hw.Store
use cs162hw.Server
use cs162hw.Server.{Server, server_get, handle_get, voting}
use cs162hw.Server.Redo.{Action, put, del}
use cs162hw.Server.Action.{Works, IsAllowed, IsAllowedDel}
use cs162hw.Leader.{Leader, handle_tpc, get_loop, get_primary, get_successor}
use cs162hw.Leader.Ring.{get_primary_cases}
use cs162hw.Leader.Insert.{IsLeader}
use cs162hw.Server.Phase.{IsServer}
use cs162hw.Leader.Atomic.{two_phases-Outcome, handle_tpc-eq, elem_below}
use cs162hw.Leader.Cluster.{request_of, World, deliver, set_server, key_of_action, Carries}
use cs162hw.Leader.Node.{get_msg-IsShort}
use cs162hw.Leader.Commits.{success-ne-error}
use cs162hw.Leader
use cs162hw.Leader.Read.{get_request, get_request-Carries, put-get}
use cs162hw.Leader.Rounds.{Visits, World_of, deliver_cases, elem_at, successor_below}

-- What a client reads of the key of an action that has been done.
abbrev pub reading : Action → Response
reading (put k v) = record { type = getresp; body = some v }
reading (del k) = record { type = error; body = some errmsg_no_key }

module _ (hash : Text → ℕ) (os : Os) (page : Text) where
  missed :
      (s : Server) (k : Text)
      → length k ≤ max_keylen
      → Store.get hash os s.disk k ≡ (err_no_key, none)
      → Server.handle_tpc hash os s (get_request k) blank
        ≡ some (s, record { type = error; body = some (get_msg err_no_key) })
  unfolding Server.handle_tpc Server.handle_type handle_get server_get
  missed s k short lacks = rw (le→ltb max_keylen (length k) short, lacks, handle_get) refl

  module _ (l : Leader) (k : Text) (short : length k ≤ max_keylen)
      (can : Carries (get_request k)) where
    -- No replica has the key: each of them is asked.
    none_gets :
        (fuel left p : ℕ) (servers : ℕ → Server) (links : List Bool)
        → p < length l.followers
        → length links + left < fuel
        → ((i : ℕ) → Visits l left p i → Store.get hash os (servers i).disk k ≡ (err_no_key, none))
        → (w : World) × (get_loop
              (deliver hash os page)
              fuel
              left
              l
              (get_request k)
              (World_of hash os page servers links)
              p
            ≡ some (none, w))
    unfolding get_loop
    none_gets zero left p servers links lt enough lacks = absurd (omega arith)
    none_gets (suc fuel) zero p servers links lt enough lacks = (_, refl)
    none_gets (suc fuel) (suc left) p servers links lt enough lacks =
        let (f, at) = elem_at l.followers p lt in
        let (links', cases) =
          deliver_cases hash os page servers links f (get_request k) (servers f.id) _ can
            (get_msg-IsShort err_no_key)
            (missed (servers f.id) k short (lacks f.id (inl (f, at, refl)))) in
        elim cases [
          | inr (reached, le) ↦
              let (w, run) =
                none_gets fuel left (get_successor l p) (set_server servers f.id (servers f.id))
                  links' (successor_below l p lt) (omega arith)
                  (λ i v. same_store servers f.id i (lacks i (inr v))) in
              rw (at, ◌>>=◌, reached, ap (λ x. x.1) reached, run) (w, refl)
          | inl (failed, less) ↦
              let (w, run) = none_gets fuel (suc left) p servers links' lt (omega arith) lacks in
              rw (at, ◌>>=◌, failed, ap (λ x. x.1) failed, run) (w, refl)
        ]
      where
        same_store :
            (servers : ℕ → Server) (at i : ℕ)
            → Store.get hash os (servers i).disk k ≡ (err_no_key, none)
            → Store.get hash os (set_server servers at (servers at) i).disk k ≡ (err_no_key, none)
        same_store servers at i lacks = elim (Bool-cases (i == at)) [
          | inl here ↦ rw here (
              subst (λ n. Store.get hash os (servers n).disk k ≡ (err_no_key, none)) (ground arith)
                lacks)
          | inr other ↦ rw other lacks
        ]

module _ (hash : Text → ℕ) (os : Os) (page : Text) (works : Works os) (l : Leader)
    (start : ℕ → Server) (inv : (i : ℕ) → IsServer hash (start i))
    (open_to_vote : (i : ℕ) → voting (start i).state ≡ true) (is_leader : IsLeader l)
    (full : l.follower_count ≡ l.follower_capacity) (some_there : 0 < l.follower_count)
    (replicated : 0 < l.redundancy) where
  -- The transaction ends, and a GET behind a success reads what it has done.
  abbrev ReadsBack : Action → ℕ → List Bool → Type 0
  ReadsBack a fuel links =
      (res : Response) × (w : World) × (handle_tpc (deliver hash os page) hash fuel l
          (some (request_of a)) blank (record { servers = start; links = links })
        ≡ some (res, w))
      × (res.type ≡ success
          → (tries : ℕ) → length w.links + l.redundancy < tries
          → (w' : World) × (Leader.handle_get (deliver hash os page) hash tries l
                (some (get_request (key_of_action a))) blank w
              ≡ some (reading a, w')))

  del-get :
      (k : Text)
      → IsAllowedDel k
      → Carries (request_of (del k))
      → (fuel : ℕ) (links : List Bool) → length links < fuel
      → ReadsBack (del k) fuel links
  unfolding Leader.handle_get
  del-get k allowed can fuel links enough = elim (get_primary_cases hash l k is_leader some_there) [
    | inl (room, null) ↦ absurd (omega arith)
    | inr (p, f, primary, at, least) ↦
        let lt = elem_below l.followers p f at in
        let (res, servers, links', run, outcome) =
          two_phases-Outcome hash os page works l (del k) allowed.key_text can start inv
            open_to_vote fuel p links lt enough in
        (
          res,
          record { servers = servers; links = links' },
          handle_tpc-eq hash os page works l (del k) allowed.key_text can start inv open_to_vote
                fuel p _ full primary
              ∙ run,
          λ good tries left. elim outcome [
            | inl (same, done) ↦
                let (w, gone) =
                  none_gets hash os page l k allowed.key_fits (get_request-Carries (del k) can)
                    tries l.redundancy p servers links' lt left
                    (λ i v. (done i v).sees k ∙ rw (str_eq_refl k) refl) in
                rw (primary, gone) (w, refl)
            | inr (bad, rest) ↦ absurd (success-ne-error (sym good ∙ bad))
          ],
        )
  ]

  -- Read your writes, over a network of bytes. A PUT or a DELETE that is allowed, whose strings
  -- pass through a URL as they are and whose URL fits into the 128 bytes of url_encode, through a
  -- leader at capacity, with at least one follower and a redundancy of at least one, over followers
  -- that are well-formed and open to votes and whose system calls succeed, ends with a response for
  -- every schedule of failing connections, given more rounds than connections in it; and if that is
  -- a success, then a GET of the key, given more tries than replicas and connections left in the
  -- schedule, ends: behind a PUT with the new value, and behind a DELETE with the error that there
  -- is no such key.
  pub tpc-get :
      (a : Action)
      → IsAllowed a
      → Carries (request_of a)
      → (fuel : ℕ) (links : List Bool) → length links < fuel
      → (res : Response) × (w : World) × (handle_tpc
            (deliver hash os page)
            hash
            fuel
            l
            (some (request_of a))
            blank
            (record { servers = start; links = links })
          ≡ some (res, w))
        × (res.type ≡ success
            → (tries : ℕ) → length w.links + l.redundancy < tries
            → (w' : World) × (Leader.handle_get
                  (deliver hash os page)
                  hash
                  tries
                  l
                  (some (get_request (key_of_action a)))
                  blank
                  w
                ≡ some (reading a, w')))
  tpc-get (del k) allowed can fuel links enough = del-get k allowed can fuel links enough
  tpc-get (put k v) allowed can fuel links enough =
      let (res, w, run, reads) =
        put-get hash os page works l k v start inv open_to_vote allowed can is_leader full
          some_there replicated fuel links enough in
      (res, w, run, λ good tries left. reads good tries (omega arith))
