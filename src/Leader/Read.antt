-- ===== src/Leader/Read.antt =====
-- tpcleader_handle_get over the followers: what a GET sees, in particular behind a transaction.
use cs162hw.Base.{
  ◌∷◌, [], ◌++◌, length-append, ℕ, zero, suc, ◌≤◌, ◌<◌, ◌≡◌, ◌∙◌, refl, ap, sym, subst, inl, inr,
  Bool, true, none, some, List, length, ◌>>=◌, get_elem?, arith, pos, le→ltb,
}
use cs162hw.Base.Text.{codes, Text, str_eq_refl}
use cs162hw.Consts.{success, getreq, getresp, max_keylen}
use cs162hw.Disk.{Os}
use cs162hw.Message.{Request, Response, blank}
use cs162hw.Store
use cs162hw.Server
use cs162hw.Server.{Server, server_get, handle_get, voting}
use cs162hw.Server.Redo.{Action, put, del}
use cs162hw.Server.Action.{Works, IsAllowedPut}
use cs162hw.Leader.{Follower, Leader, handle_tpc, unreachable, answer, get_loop, get_primary}
use cs162hw.Leader.Ring.{get_primary_cases}
use cs162hw.Leader.Insert.{IsLeader}
use cs162hw.Server.Phase.{IsServer}
use cs162hw.Leader.Atomic.{two_phases-Outcome, handle_tpc-eq, elem_below}
use cs162hw.Leader.Cluster.{request_of, World, deliver, Carries, IsShort, key_of_action}
use cs162hw.Url.{print_url, print_param}
use cs162hw.Wire.{path_for}
use cs162hw.Leader.Node.{Done}
use cs162hw.Leader.Commits.{success-ne-error}
use cs162hw.Leader
use cs162hw.Leader.Rounds.{Visits, World_of, deliver_cases}

-- The request of a client for the value of a key.
abbrev pub get_request : Text → Request
get_request k = record { type = getreq; key = some k; val = none }

-- The GET of a key can be sent where the action could.
pub get_request-Carries :
    (a : Action) → Carries (request_of a) → Carries (get_request (key_of_action a))
unfolding print_url print_param path_for
get_request-Carries (put k v) can = record {
  answered = tt;
  sendable = (k, refl);
  key_passes = can.key_passes;
  val_passes = tt;
  fits = omega (
    arith,
    can.fits,
    length-append (k ++ b'&' ∷ []) [],
    length-append (k ++ b'&' ∷ []) (print_param (codes "val") (some v)),
  );
}
get_request-Carries (del k) can = record {
  answered = tt;
  sendable = (k, refl);
  key_passes = can.key_passes;
  val_passes = tt;
  fits = can.fits;
}

module _ (hash : Text → ℕ) (os : Os) (page : Text) where
  server_get-eq :
      (s : Server) (k v : Text)
      → length k ≤ max_keylen
      → Store.get hash os s.disk k ≡ (pos 0, some v)
      → server_get hash os s.disk k ≡ (pos 0, some v)
  unfolding server_get
  server_get-eq s k v short has = rw (le→ltb max_keylen (length k) short, server_get) has

  served :
      (s : Server) (k v : Text)
      → length k ≤ max_keylen
      → Store.get hash os s.disk k ≡ (pos 0, some v)
      → Server.handle_tpc hash os s (get_request k) blank
        ≡ some (s, record { type = getresp; body = some v })
  unfolding Server.handle_tpc Server.handle_type handle_get
  served s k v short has = rw (server_get-eq s k v short has, handle_get) refl

  module _ (l : Leader) (k v : Text) (short : length k ≤ max_keylen) (can : Carries (get_request k))
      (is : IsShort v) (p : ℕ) (f : Follower) (at : get_elem? l.followers p ≡ some f)
      (left : ℕ) where
    -- The follower is tried until it is reached.
    first_get :
        (fuel : ℕ) (servers : ℕ → Server) (links : List Bool)
        → Store.get hash os (servers f.id).disk k ≡ (pos 0, some v)
        → length links < fuel
        → (w : World) × (get_loop
              (deliver hash os page)
              fuel
              (suc left)
              l
              (get_request k)
              (World_of hash os page servers links)
              p
            ≡ some (some (record { type = getresp; body = some v }), w))
    unfolding get_loop
    first_get zero servers links has enough = absurd (omega arith)
    first_get (suc fuel) servers links has enough =
        let (links', cases) =
          deliver_cases hash os page servers links f (get_request k) (servers f.id) _ can is
            (served (servers f.id) k v short has) in
        elim cases [
          | inr (reached, le) ↦ rw (at, ◌>>=◌, reached, ap (λ x. x.1) reached) (_, refl)
          | inl (failed, less) ↦
              let (w, run) = first_get fuel servers links' has (omega arith) in
              rw (at, ◌>>=◌, failed, ap (λ x. x.1) failed, run) (w, refl)
        ]

positive : (n : ℕ) → 0 < n → (m : ℕ) × (n ≡ suc m)
positive zero some_there = absurd (omega arith)
positive (suc m) some_there = (m, refl)

module _ (hash : Text → ℕ) (os : Os) (page : Text) (works : Works os) (l : Leader) (k v : Text)
    (start : ℕ → Server) (inv : (i : ℕ) → IsServer hash (start i))
    (open_to_vote : (i : ℕ) → voting (start i).state ≡ true) (allowed : IsAllowedPut k v)
    (can : Carries (request_of (put k v))) (is_leader : IsLeader l)
    (full : l.follower_count ≡ l.follower_capacity) (some_there : 0 < l.follower_count)
    (replicated : 0 < l.redundancy) where
  get-eq :
      (fuel p : ℕ) (f : Follower) (servers : ℕ → Server) (links : List Bool)
      → get_primary hash l k ≡ some (some p)
      → get_elem? l.followers p ≡ some f
      → ((i : ℕ) → Visits l l.redundancy p i → Done hash os (put k v) (start i) (servers i))
      → length links < fuel
      → (w : World) × (Leader.handle_get
            (deliver hash os page)
            hash
            fuel
            l
            (some (get_request k))
            blank
            (World_of hash os page servers links)
          ≡ some (record { type = getresp; body = some v }, w))
  unfolding Leader.handle_get
  get-eq fuel p f servers links primary at done enough =
      let (left, red) = positive l.redundancy replicated in
      let visited : Visits l l.redundancy p f.id = rw red (inl (f, at, refl)) in
      let has : Store.get hash os (servers f.id).disk k ≡ (pos 0, some v) =
        (done f.id visited).sees k ∙ rw (str_eq_refl k) in
      let (w, run) =
        first_get hash os page l k v allowed.key_fits (get_request-Carries (put k v) can)
          (allowed.value_text, omega (arith, allowed.value_fits)) p f at left fuel servers links has
          enough in
      let run' =
        subst
          (λ n.
            get_loop (deliver hash os page) fuel n l (get_request k)
              (World_of hash os page servers links) p
            ≡ some (some (record { type = getresp; body = some v }), w))
          (sym red) run in
      rw (primary, run') (w, refl)

  -- A PUT of an allowed key and value, whose request can be sent, through a leader at capacity,
  -- with at least one follower and a redundancy of at least one, over followers that are
  -- well-formed and open to votes and whose system calls succeed, ends with a response for every
  -- schedule of failing connections, given more rounds than connections in it; and if that is a
  -- success, then a GET of the key, given more tries than connections left in the schedule, is
  -- answered with the new value.
  pub put-get :
      (fuel : ℕ) (links : List Bool)
      → length links < fuel
      → (res : Response) × (w : World) × (handle_tpc
            (deliver hash os page)
            hash
            fuel
            l
            (some (request_of (put k v)))
            blank
            (record { servers = start; links = links })
          ≡ some (res, w))
        × (res.type ≡ success
            → (tries : ℕ) → length w.links < tries
            → (w' : World) × (Leader.handle_get
                  (deliver hash os page)
                  hash
                  tries
                  l
                  (some (get_request k))
                  blank
                  w
                ≡ some (record { type = getresp; body = some v }, w')))
  put-get fuel links enough = elim (get_primary_cases hash l k is_leader some_there) [
    | inl (room, null) ↦ absurd (omega arith)
    | inr (p, f, primary, at, least) ↦
        let (res, servers, links', run, outcome) =
          two_phases-Outcome hash os page works l (put k v) (allowed.key_text, allowed.value_text)
            can start inv open_to_vote fuel p links (elem_below l.followers p f at) enough in
        (
          res,
          record { servers = servers; links = links' },
          handle_tpc-eq hash os page works l (put k v) (allowed.key_text, allowed.value_text) can
                start inv open_to_vote fuel p _ full primary
              ∙ run,
          λ good tries left. elim outcome [
            | inl (same, done) ↦ get-eq tries p f servers links' primary at done left
            | inr (bad, rest) ↦ absurd (success-ne-error (sym good ∙ bad))
          ],
        )
  ]
