-- ===== src/Leader/Positions.antt =====
-- The positions on a ring that a loop over the replicas of a key visits.
use cs162hw.Base.{
  ℕ, zero, suc, ◌+◌, ◌≤◌, ◌<◌, ◌≡◌, ◌≢◌, ◌∙◌, refl, ap, ◌⊎◌, inl, inr, some, List, [], ◌∷◌, length,
  get_elem?, arith,
}
use cs162hw.Leader.{Follower, Leader, get_successor}
use cs162hw.Leader.Insert.{Above, IsRing}
use cs162hw.Leader.Rounds.{Visits, successor_below}

Above-elem :
    (n : ℕ) (fs : List Follower) (p : ℕ) (f : Follower)
    → Above n fs
    → get_elem? fs p ≡ some f
    → n < f.id
Above-elem n [] p f above at = cc
Above-elem n (g ∷ fs) zero f above at = ground (arith, above.0)
Above-elem n (g ∷ fs) (suc p) f above at = Above-elem n fs p f above.1 at

-- On a ring, an ID has one position.
ring_position :
    (fs : List Follower) (p q : ℕ) (f g : Follower)
    → IsRing fs
    → get_elem? fs p ≡ some f
    → get_elem? fs q ≡ some g
    → f.id ≡ g.id
    → p ≡ q
ring_position [] p q f g ring at at' same = cc
ring_position (h ∷ fs) zero zero f g ring at at' same = refl
ring_position (h ∷ fs) zero (suc q) f g ring at at' same =
    absurd (ground (arith, Above-elem h.id fs q g ring.0 at'))
ring_position (h ∷ fs) (suc p) zero f g ring at at' same =
    absurd (ground (arith, Above-elem h.id fs p f ring.0 at))
ring_position (h ∷ fs) (suc p) (suc q) f g ring at at' same =
    ap suc (ring_position fs p q f g ring.1 at at' same)

-- Where the visits from a position on come to.
Visits-position :
    (l : Leader) (n q i : ℕ)
    → q < length l.followers
    → n ≤ length l.followers
    → Visits l n q i
    → (r : ℕ) × (k : ℕ) × (f : Follower) × (k < n)
      × ((r ≡ q + k) ⊎ (r + length l.followers ≡ q + k))
      × (get_elem? l.followers r ≡ some f)
      × (f.id ≡ i)
unfolding get_successor
Visits-position l zero q i lt le v = elim v [ ]
Visits-position l (suc n) q i lt le (inl (f, at, same)) =
    (q, 0, f, omega arith, inl (omega arith), at, same)
Visits-position l (suc n) q i lt le (inr v) =
    let (r, k, f, less, place, at, same) =
      Visits-position l n (get_successor l q) i (successor_below l q lt) (omega arith) v in
    (r, suc k, f, omega arith, ground (arith, place), at, same)

-- A follower that has been asked is not asked again.
pub never_again :
    (l : Leader) (n p i : ℕ) (f : Follower)
    → IsRing l.followers
    → p < length l.followers
    → suc n ≤ length l.followers
    → get_elem? l.followers p ≡ some f
    → Visits l n (get_successor l p) i
    → i ≢ f.id
unfolding get_successor
never_again l n p i f ring lt le at v same =
    let (r, k, g, less, place, at', id) =
      Visits-position l n (get_successor l p) i (successor_below l p lt) (omega arith) v in
    let here : r ≡ p = ring_position l.followers r p g f ring at' at (id ∙ same) in
    absurd (ground (arith, place))
