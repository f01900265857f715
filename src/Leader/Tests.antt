-- ===== src/Leader/Tests.antt =====
-- The theorems of the leader at concrete inputs: two followers, both of them replicas of every
-- key. A key is hashed to its length.
use cs162hw.Base.{
  Bool, ℕ, ◌+◌, ◌≡◌, ◌≤◌, ◌<◌, ◌⊎◌, refl, arith, true, false, none, some, List, [], ◌∷◌, length,
  get_elem?,
}
use cs162hw.Base.Text.{Text, codes}
use cs162hw.Consts.{register, success, error, errmsg_follower_capacity}
use cs162hw.Disk.{working}
use cs162hw.Message.{Request, Response, blank}
use cs162hw.Store.Sample.{len_hash}
use cs162hw.Server.Sample.{k, w, idle, working-Works, idle-IsServer, allowed}
use cs162hw.Server.{Server}
use cs162hw.Server.Redo.{put}
use cs162hw.Leader
use cs162hw.Leader.{Follower, Leader, new_follower, register_follower, get_primary, handle_tpc}
use cs162hw.Leader.Ring.{Known, Added, register-IsLeader, get_primary_cases}
use cs162hw.Leader.Insert.{IsLeader, Holds}
use cs162hw.Leader.Cluster.{World, deliver, request_of, Carries}
use cs162hw.Url.{print_url, print_param}
use cs162hw.Wire.{path_for}
use cs162hw.Leader.Node.{Done}
use cs162hw.Leader.Rounds.{Visits}
use cs162hw.Leader.Atomic.{Outcome, handle_tpc-Outcome}
use cs162hw.Leader.Commits.{put-commits}
use cs162hw.Leader.Read.{get_request}
use cs162hw.Leader.ReadBack.{reading, tpc-get}

abbrev small : Follower
small = record { id = 1; host = codes "a"; port = 16201 }

abbrev large : Follower
large = record { id = 9; host = codes "b"; port = 16202 }

abbrev half : Leader
half = record { follower_capacity = 2; follower_count = 1; redundancy = 2; followers = large ∷ [] }

abbrev full : Leader
full = record {
  follower_capacity = 2;
  follower_count = 2;
  redundancy = 2;
  followers = small ∷ large ∷ [];
}

half-IsLeader : IsLeader half
half-IsLeader = record {
  ring = (tt, tt);
  count = refl;
  fits = omega arith;
  redundant = omega arith;
}

full-IsLeader : IsLeader full
full-IsLeader = record {
  ring = ((omega arith, tt), (tt, tt));
  count = refl;
  fits = omega arith;
  redundant = omega arith;
}

abbrev registration : Request
registration = record { type = register; key = some (codes "abc"); val = some (codes "16203") }

register-IsLeader_example :
    (l' : Leader) × (r : Response) × (register_follower len_hash half registration blank
      ≡ some (l', r))
    × IsLeader l'
    × (((half.follower_count ≡ half.follower_capacity)
          × (l' ≡ half)
          × (r ≡ record { type = error; body = some errmsg_follower_capacity }))
        ⊎ ((half.follower_count < half.follower_capacity)
            × (r ≡ record blank { type = success })
            × (((l' ≡ half) × Known half (new_follower len_hash (codes "abc") (codes "16203")))
                ⊎ Added half l' (new_follower len_hash (codes "abc") (codes "16203")))))
register-IsLeader_example =
    register-IsLeader len_hash half registration blank (codes "abc") (codes "16203") half-IsLeader
      refl refl

get_primary_cases_example :
    ((full.follower_count < full.follower_capacity) × (get_primary len_hash full k ≡ some none))
    ⊎ ((p : ℕ) × (f : Follower) × (get_primary len_hash full k ≡ some (some p))
        × (get_elem? full.followers p ≡ some f)
        × (((len_hash k < f.id)
              × ((g : Follower) → Holds g full.followers → len_hash k < g.id → f.id ≤ g.id))
            ⊎ ((g : Follower) → Holds g full.followers → (g.id ≤ len_hash k) × (f.id ≤ g.id))))
get_primary_cases_example = get_primary_cases len_hash full k full-IsLeader (omega arith)

-- The page of the build.
abbrev page : Text
page = codes "<html>"

sent : Carries (request_of (put k w))
unfolding print_url print_param path_for
sent = record {
  answered = tt;
  sendable = (k, w, refl, refl);
  key_passes = record {
    no_and = omega arith;
    no_space = omega arith;
    no_feed = omega arith;
    no_nul = omega arith;
  };
  val_passes = record {
    no_and = omega arith;
    no_space = omega arith;
    no_feed = omega arith;
    no_nul = omega arith;
  };
  fits = omega arith;
}

-- The second connection fails.
handle_tpc-Outcome_example :
    (p : ℕ) × (res : Response) × (servers : ℕ → Server) × (links' : List Bool) × (get_primary
        len_hash full k
      ≡ some (some p))
    × (handle_tpc
          (deliver len_hash working page)
          len_hash
          3
          full
          (some (request_of (put k w)))
          blank
          (record { servers = λ i. idle; links = true ∷ false ∷ [] })
        ≡ some (res, record { servers = servers; links = links' }))
    × Outcome len_hash working page working-Works full
        (put k w)
        (allowed.key_text, allowed.value_text)
        sent
        (λ i. idle)
        (λ i. idle-IsServer)
        (λ i. refl)
        p
        res
        servers
handle_tpc-Outcome_example =
    handle_tpc-Outcome len_hash working page working-Works full (put k w)
      (allowed.key_text, allowed.value_text) sent (λ i. idle) (λ i. idle-IsServer) (λ i. refl) 3
      (true ∷ false ∷ []) full-IsLeader refl (omega arith) (omega arith)

put-commits_example :
    (p : ℕ) × (res : Response) × (after : World) × (get_primary len_hash full k ≡ some (some p))
    × (handle_tpc
          (deliver len_hash working page)
          len_hash
          1
          full
          (some (request_of (put k w)))
          blank
          (record { servers = λ i. idle; links = [] })
        ≡ some (res, after))
    × (res.type ≡ success)
    × ((i : ℕ) → Visits full 2 p i → Done len_hash working (put k w) idle (after.servers i))
put-commits_example =
    put-commits len_hash working page working-Works full k w (λ i. idle) (λ i. idle-IsServer)
      (λ i. refl) allowed sent full-IsLeader 1 refl (omega arith) (omega arith)

tpc-get_example :
    (res : Response) × (after : World) × (handle_tpc
        (deliver len_hash working page)
        len_hash
        3
        full
        (some (request_of (put k w)))
        blank
        (record { servers = λ i. idle; links = true ∷ false ∷ [] })
      ≡ some (res, after))
    × (res.type ≡ success
        → (tries : ℕ) → length after.links + 2 < tries
        → (end : World) × (Leader.handle_get
              (deliver len_hash working page)
              len_hash
              tries
              full
              (some (get_request k))
              blank
              after
            ≡ some (reading (put k w), end)))
tpc-get_example =
    tpc-get len_hash working page working-Works full (λ i. idle) (λ i. idle-IsServer) (λ i. refl)
      full-IsLeader refl (omega arith) (omega arith) (put k w) allowed sent 3 (true ∷ false ∷ [])
      (omega arith)
