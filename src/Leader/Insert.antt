-- ===== src/Leader/Insert.antt =====
-- The sorted list of followers, and the insertion of tpcleader_register into it.
use cs162hw.Base.{
  ℕ, suc, ◌≤◌, ◌<◌, ◌≡◌, ◌↔◌, refl, ◌⊎◌, inl, inr, Bool-cases, none, some, List, [], ◌∷◌, length,
  ltb, ◌==◌, arith,
}
use cs162hw.Leader.{Follower, Leader, init, insert}

-- Every ID is greater than `n`.
abbrev pub Above : ℕ → List Follower → Type 0
Above n [] = Unit
Above n (f ∷ fs) = (n < f.id) × Above n fs

-- IDs grow strictly.
abbrev pub IsRing : List Follower → Type 0
IsRing [] = Unit
IsRing (f ∷ fs) = Above f.id fs × IsRing fs

abbrev pub Holds : Follower → List Follower → Type 0
Holds g [] = ⊥
Holds g (f ∷ fs) = (g ≡ f) ⊎ Holds g fs

-- The list is a ring of the counted length, and the limits hold.
pub record IsLeader (l : Leader) : Type 0 where
  pub ring : IsRing l.followers
  pub count : l.follower_count ≡ length l.followers
  pub fits : l.follower_count ≤ l.follower_capacity
  pub redundant : l.redundancy ≤ l.follower_capacity

pub init-IsLeader : (capacity redundancy : ℕ) → IsLeader (init capacity redundancy)
unfolding init
init-IsLeader capacity redundancy = record {
  ring = tt;
  count = refl;
  fits = omega arith;
  redundant = ground arith;
}

pub Above-Holds : (n : ℕ) (fs : List Follower) (g : Follower) → Above n fs → Holds g fs → n < g.id
Above-Holds n [] g above there = elim there [ ]
Above-Holds n (f ∷ fs) g above (inl same) = rw same above.0
Above-Holds n (f ∷ fs) g above (inr there) = Above-Holds n fs g above.1 there

pub Above-weaken : (m n : ℕ) (fs : List Follower) → m ≤ n → Above n fs → Above m fs
Above-weaken m n [] le above = tt
Above-weaken m n (f ∷ fs) le above = (omega (arith, above.0), Above-weaken m n fs le above.1)

-- What insertion gives: the new follower in its place, or nothing where its ID is known.
abbrev pub Inserts : Follower → List Follower → List Follower → Type 0
Inserts new fs fs' =
    IsRing fs'
    × (length fs' ≡ suc (length fs))
    × ((n : ℕ) → n < new.id → Above n fs → Above n fs')
    × ((g : Follower) → Holds g fs' ↔ ((g ≡ new) ⊎ Holds g fs))

pub insert_cases :
    (new : Follower) (fs : List Follower)
    → IsRing fs
    → ((insert new fs ≡ none) × (g : Follower) × Holds g fs × (g.id ≡ new.id))
      ⊎ ((fs' : List Follower) × (insert new fs ≡ some fs') × Inserts new fs fs')
unfolding insert
insert_cases new [] ring =
    inr (new ∷ [], refl, ((tt, tt), refl, (λ n lt a. (lt, tt)), λ g. (λ h. h, λ h. h)))
insert_cases new (f ∷ fs) ring = elim (Bool-cases (ltb new.id f.id)) [
  | inl below ↦ rw below (
      inr (
        new ∷ f ∷ fs,
        refl,
        (
          ((ground arith, Above-weaken new.id f.id fs (ground arith) ring.0), ring),
          refl,
          (λ n lt a. (lt, a)),
          λ g. (λ h. h, λ h. h),
        ),
      ))
  | inr past ↦ elim (Bool-cases (f.id == new.id)) [
    | inl same ↦ rw (past, same) (inl (refl, f, inl refl, ground arith))
    | inr other ↦ elim (insert_cases new fs ring.1) [
      | inl (known, g, there, eq) ↦ rw (past, other, known) (inl (refl, g, inr there, eq))
      | inr (fs', eq, (ring', len, above, holds)) ↦
          rw (past, other, eq)
            (inr (
              f ∷ fs',
              refl,
              (
                (above f.id (ground arith) ring.0, ring'),
                omega (arith, len),
                (λ n lt a. (a.0, above n lt a.1)),
                λ g. (
                  λ h. elim h [
                    | inl here ↦ inr (inl here)
                    | inr there ↦ elim ((holds g).0 there) [
                      | inl new ↦ inl new
                      | inr old ↦ inr (inr old)
                    ]
                  ],
                  λ h. elim h [
                    | inl new ↦ inr ((holds g).1 (inl new))
                    | inr old ↦ elim old [
                      | inl here ↦ inl here
                      | inr there ↦ inr ((holds g).1 (inr there))
                    ]
                  ],
                ),
              ),
            ))
    ]
  ]
]
