-- ===== src/Leader/Ring.antt =====
-- The ring of followers: registration keeps it sorted, and the primary of a key is its successor
-- on the ring.
use cs162hw.Base.{
  ℕ, suc, ◌+◌, ◌≤◌, ◌<◌, ◌≡◌, ◌↔◌, refl, ◌⊎◌, inl, inr, Bool-cases, none, some, List, [], ◌∷◌,
  length, get_elem?, ltb, ◌==◌, arith,
}
use cs162hw.Base.Text.{Text}
use cs162hw.Consts.{success, error, errmsg_follower_capacity}
use cs162hw.Message.{Request, Response}
use cs162hw.Leader.{
  Follower, Leader, first_above, new_follower, add_follower, register_follower, get_primary,
}
use cs162hw.Leader.Insert.{IsRing, Holds, IsLeader, Above-Holds, insert_cases}

-- The two ways a registration succeeds.
abbrev pub Known : Leader → Follower → Type 0
Known l new = (g : Follower) × Holds g l.followers × (g.id ≡ new.id)

abbrev pub Added : Leader → Leader → Follower → Type 0
Added l l' new =
    (l'.follower_count ≡ suc l.follower_count)
    × ((g : Follower) → Holds g l'.followers ↔ ((g ≡ new) ⊎ Holds g l.followers))

module _ (hash : Text → ℕ) where
  add_cases :
      (l : Leader) (res : Response) (host port : Text)
      → IsLeader l
      → l.follower_count < l.follower_capacity
      → IsLeader (add_follower hash l host port res).0
        × (((l.follower_count ≡ l.follower_capacity)
              × ((add_follower hash l host port res).0 ≡ l)
              × ((add_follower hash l host port res).1
                  ≡ record { type = error; body = some errmsg_follower_capacity }))
            ⊎ ((l.follower_count < l.follower_capacity)
                × ((add_follower hash l host port res).1 ≡ record res { type = success })
                × ((((add_follower hash l host port res).0 ≡ l)
                      × Known l (new_follower hash host port))
                    ⊎ Added l (add_follower hash l host port res).0 (new_follower hash host port))))
  unfolding add_follower
  add_cases l res host port inv room =
      elim (insert_cases (new_follower hash host port) l.followers inv.ring) [
        | inl (known, g, there, eq) ↦
            rw (known, add_follower) (inv, inr (room, refl, inl (refl, (g, there, eq))))
        | inr (fs, eq, (ring, len, above, holds)) ↦
            rw (eq, add_follower)
              (
                record {
                  ring = ring;
                  count = omega (arith, len, inv.count);
                  fits = omega arith;
                  redundant = inv.redundant;
                },
                inr (room, refl, inr (refl, holds)),
              )
      ]

  -- For a leader whose ring is sorted and within its limits, and a request with host and port: a
  -- registration at capacity is an error and changes nothing. Otherwise it succeeds; a follower
  -- whose ID is known changes nothing, and another one is added to the ring, and nothing else. The
  -- ring stays sorted without duplicates, its count exact, and the limits are kept.
  pub register-IsLeader :
      (l : Leader) (req : Request) (res : Response) (host port : Text)
      → IsLeader l
      → req.key ≡ some host
      → req.val ≡ some port
      → (l' : Leader) × (r : Response) × (register_follower hash l req res ≡ some (l', r))
        × IsLeader l'
        × (((l.follower_count ≡ l.follower_capacity)
              × (l' ≡ l)
              × (r ≡ record { type = error; body = some errmsg_follower_capacity }))
            ⊎ ((l.follower_count < l.follower_capacity)
                × (r ≡ record res { type = success })
                × (((l' ≡ l) × Known l (new_follower hash host port))
                    ⊎ Added l l' (new_follower hash host port))))
  unfolding register_follower
  register-IsLeader l req res host port inv key val =
      simp (key, val)
        (elim (Bool-cases (l.follower_count == l.follower_capacity)) [
          | inl full ↦ rw full (l, _, refl, inv, inl (ground arith, refl, refl))
          | inr free ↦
              let room : l.follower_count < l.follower_capacity = ground (arith, inv.fits) in
              let (is, cases) = add_cases l res host port inv room in
              rw free (_, _, refl, is, cases)
        ])

-- The first follower above `h`, and that there is none.
first_above_cases :
    (h : ℕ) (fs : List Follower) (i : ℕ)
    → IsRing fs
    → ((n : ℕ) × (f : Follower) × (first_above h fs i ≡ some (n + i))
        × (get_elem? fs n ≡ some f)
        × (h < f.id)
        × ((g : Follower) → Holds g fs → h < g.id → f.id ≤ g.id))
      ⊎ ((first_above h fs i ≡ none) × ((g : Follower) → Holds g fs → g.id ≤ h))
unfolding first_above
first_above_cases h [] i ring = inr (refl, λ g there. elim there [ ])
first_above_cases h (f ∷ fs) i ring = elim (Bool-cases (ltb h f.id)) [
  | inl above ↦ rw above (
      inl (
        0,
        f,
        ground arith,
        refl,
        ground arith,
        λ g there lt. elim there [
          | inl same ↦ rw same (omega arith)
          | inr behind ↦ omega (arith, Above-Holds f.id fs g ring.0 behind)
        ],
      ))
  | inr below ↦ rw below (elim (first_above_cases h fs (suc i) ring.1) [
    | inl (n, e, at, elem, lt, least) ↦ inl (
      suc n,
      e,
      ground (arith, at),
      elem,
      lt,
      λ g there above. elim there [
        | inl same ↦ absurd (ground arith)
        | inr behind ↦ least g behind above
      ],
    )
    | inr (gone, all) ↦ inr (
      gone,
      λ g there. elim there [ inl same ↦ rw same (ground arith) | inr behind ↦ all g behind ],
    )
  ])
]

+-zero : (n : ℕ) → n + 0 ≡ n
+-zero n = omega arith

head_least :
    (fs : List Follower)
    → IsRing fs
    → 0 < length fs
    → (f : Follower) × (get_elem? fs 0 ≡ some f) × ((g : Follower) → Holds g fs → f.id ≤ g.id)
head_least [] ring some_there = absurd (omega arith)
head_least (f ∷ fs) ring some_there = (
  f,
  refl,
  λ g there. elim there [
    | inl same ↦ rw same (omega arith)
    | inr behind ↦ omega (arith, Above-Holds f.id fs g ring.0 behind)
  ],
)

module _ (hash : Text → ℕ) where
  -- On a sorted ring with at least one follower, tpcleader_get_primary returns NULL below
  -- capacity; at capacity it finds the follower with the least ID above the hash of the key, and
  -- the one with the least ID where no ID is above it.
  pub get_primary_cases :
      (l : Leader) (key : Text)
      → IsLeader l
      → 0 < l.follower_count
      → ((l.follower_count < l.follower_capacity) × (get_primary hash l key ≡ some none))
        ⊎ ((p : ℕ) × (f : Follower) × (get_primary hash l key ≡ some (some p))
            × (get_elem? l.followers p ≡ some f)
            × (((hash key < f.id)
                  × ((g : Follower) → Holds g l.followers → hash key < g.id → f.id ≤ g.id))
                ⊎ ((g : Follower) → Holds g l.followers → (g.id ≤ hash key) × (f.id ≤ g.id))))
  unfolding get_primary
  get_primary_cases l key inv some_there =
      let (head, at_head, least_of_all) =
        head_least l.followers inv.ring (omega (arith, inv.count)) in
      elim (Bool-cases (ltb l.follower_count l.follower_capacity)) [
        | inl free ↦ rw free (inl (ground arith, refl))
        | inr full ↦
            rw (full, at_head)
              (elim (first_above_cases (hash key) l.followers 0 inv.ring) [
                | inl (n, f, at, elem, lt, least) ↦
                    rw at (inr (n + 0, f, refl, rw (+-zero n) elem, inl (lt, least)))
                | inr (gone, all) ↦ rw gone (
                    inr (
                      0,
                      head,
                      refl,
                      at_head,
                      inr (λ g there. (all g there, least_of_all g there)),
                    ))
              ])
      ]
