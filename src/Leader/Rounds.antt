-- ===== src/Leader/Rounds.antt =====
-- The loops of the two phases over a network with failing connections: they end, and what they
-- leave behind on the followers.
use cs162hw.Base.{
  ℕ, zero, suc, ◌≤◌, ◌<◌, ◌≡◌, refl, ap, subst, ◌⊎◌, inl, inr, Bool, true, false, ◌&&◌, Bool-cases,
  some, List, [], ◌∷◌, length, ◌>>=◌, get_elem?, arith, ◌==◌,
}
use cs162hw.Base.Text.{Text}
use cs162hw.Consts.{ack}
use cs162hw.Disk.{Os}
use cs162hw.Message.{Request, Response, blank, arrived, body_text}
use cs162hw.Server
use cs162hw.Server.{Server}
use cs162hw.Leader.{Follower, Leader, unreachable, answer, get_successor, ack_round, ack_loop}
use cs162hw.Leader.Cluster.{World, set_server, reach-eq, deliver, Carries, IsShort}

-- The IDs of `n` followers, from position `p` of the ring on.
abbrev pub Visits : Leader → ℕ → ℕ → ℕ → Type 0
Visits l zero p i = ⊥
Visits l (suc n) p i =
    ((f : Follower) × (get_elem? l.followers p ≡ some f) × (f.id ≡ i))
    ⊎ Visits l n (get_successor l p) i

pub elem_at :
    (fs : List Follower) (p : ℕ) → p < length fs → (f : Follower) × (get_elem? fs p ≡ some f)
elem_at [] p lt = absurd (omega arith)
elem_at (f ∷ fs) zero lt = (f, refl)
elem_at (f ∷ fs) (suc p) lt = elem_at fs p (omega arith)

pub successor_below :
    (l : Leader) (p : ℕ) → p < length l.followers → get_successor l p < length l.followers
unfolding get_successor
successor_below l p lt = ground arith

module _ (hash : Text → ℕ) (os : Os) (page : Text) where
  abbrev pub World_of : (ℕ → Server) → List Bool → World
  World_of servers links = record { servers = servers; links = links }

  -- A connection fails, or the follower answers.
  pub deliver_cases :
      (servers : ℕ → Server) (links : List Bool) (f : Follower) (req : Request) (s : Server)
      (r : Response)
      → Carries req
      → IsShort (body_text r.body)
      → Server.handle_tpc hash os (servers f.id) req blank ≡ some (s, r)
      → (links' : List Bool) × (((deliver hash os page (World_of servers links) f req
              ≡ (unreachable, World_of servers links'))
            × (length links' < length links))
          ⊎ ((deliver hash os page (World_of servers links) f req
                ≡ (answer (arrived r), World_of (set_server servers f.id s) links'))
              × (length links' ≤ length links)))
  unfolding deliver
  deliver_cases servers [] f req s r can short eq =
      ([], inr (reach-eq hash os page (World_of servers []) f req s r can short eq, omega arith))
  deliver_cases servers (true ∷ links) f req s r can short eq = (
    links,
    inr (reach-eq hash os page (World_of servers links) f req s r can short eq, omega arith),
  )
  deliver_cases servers (false ∷ links) f req s r can short eq = (links, inl (refl, omega arith))

  -- A request that a follower in `V` acknowledges, which takes it from `P` to `Q`, and `Q` is
  -- within `P`.
  module _ (l : Leader) (req : Request) (can : Carries req) (V : ℕ → Type 0)
      (P Q : ℕ → Server → Type 0)
      (acked : (i : ℕ) (s : Server)
        → P i s
        → (s' : Server) × (Server.handle_tpc hash os s req blank
            ≡ some (s', record blank { type = ack }))
          × Q i s')
      (within : (i : ℕ) (s : Server) → Q i s → P i s) where
    -- One follower has moved.
    moved_P :
        (servers : ℕ → Server) (at : ℕ) (s : Server)
        → ((i : ℕ) → V i → P i (servers i))
        → Q at s
        → (i : ℕ) → V i
        → P i (set_server servers at s i)
    moved_P servers at s all q i v = elim (Bool-cases (i == at)) [
      | inl here ↦ rw here (within i s (subst (λ n. Q n s) (ground arith) q))
      | inr other ↦ rw other (all i v)
    ]

    moved_Q :
        (servers : ℕ → Server) (at : ℕ) (s : Server) (i : ℕ)
        → Q at s
        → (i ≡ at) ⊎ Q i (servers i)
        → Q i (set_server servers at s i)
    moved_Q servers at s i q old = elim (Bool-cases (i == at)) [
      | inl here ↦ rw here (subst (λ n. Q n s) (ground arith) q)
      | inr other ↦ rw other (elim old [ inl same ↦ absurd (ground arith) | inr there ↦ there ])
    ]

    -- What a round leaves behind: either all have acknowledged, or a connection has failed.
    abbrev Round :
        ℕ → ℕ → (ℕ → Server) → List Bool → Bool → Bool → (ℕ → Server) → List Bool → Type 0
    Round n p servers links ok done servers' links' =
        ((i : ℕ) → V i → P i (servers' i))
        × ((i : ℕ) → Q i (servers i) → Q i (servers' i))
        × (((done ≡ ok)
              × (length links' ≤ length links)
              × ((i : ℕ) → Visits l n p i → Q i (servers' i)))
            ⊎ ((done ≡ false) × (length links' < length links)))

    round_lem :
        (n p : ℕ) (servers : ℕ → Server) (links : List Bool) (ok : Bool)
        → p < length l.followers
        → ((i : ℕ) → Visits l n p i → V i)
        → ((i : ℕ) → V i → P i (servers i))
        → (done : Bool) × (servers' : ℕ → Server) × (links' : List Bool) × (ack_round
              (deliver hash os page)
              n
              l
              req
              (World_of servers links)
              p
              ok
            ≡ some (done, World_of servers' links'))
          × Round n p servers links ok done servers' links'
    unfolding ack_round
    round_lem zero p servers links ok lt vis all =
        (ok, servers, links, refl, (all, (λ i q. q), inl (refl, omega arith, λ i v. elim v [ ])))
    round_lem (suc n) p servers links ok lt vis all =
        let (f, at) = elem_at l.followers p lt in
        let (s, eq, q) = acked f.id (servers f.id) (all f.id (vis f.id (inl (f, at, refl)))) in
        let (links1, cases) =
          deliver_cases servers links f req s (record blank { type = ack }) can (tt, omega arith)
            eq in
        elim cases [
          | inl (failed, less) ↦
              rw (at, ◌>>=◌, failed, ap (λ x. x.1) failed)
                (false, servers, links1, refl, (all, (λ i q. q), inr (refl, less)))
          | inr (reached, le) ↦
              let (done, servers', links', run, (allP, keeps, end)) =
                round_lem n (get_successor l p) (set_server servers f.id s) links1 (ok && true)
                  (successor_below l p lt) (λ i v. vis i (inr v)) (moved_P servers f.id s all q) in
              rw (at, ◌>>=◌, reached, ap (λ x. x.1) reached, run)
                (
                  done,
                  servers',
                  links',
                  refl,
                  (
                    allP,
                    (λ i old. keeps i (moved_Q servers f.id s i q (inr old))),
                    elim end [
                      | inl (same, le', visited) ↦ inl (
                        ground (arith, same),
                        omega arith,
                        λ i v. elim v [
                          | inl (g, at', id) ↦
                              keeps i
                                (moved_Q servers f.id s i q (inl (ground (arith, at, at', id))))
                          | inr later ↦ visited i later
                        ],
                      )
                      | inr (bad, less) ↦ inr (bad, omega arith)
                    ],
                  ),
                )
        ]

    -- The second phase ends as soon as there are fewer failing connections left than rounds, and
    -- has reached all.
    pub ack_loop_lem :
        (fuel p : ℕ) (servers : ℕ → Server) (links : List Bool)
        → p < length l.followers
        → length links < fuel
        → ((i : ℕ) → Visits l l.redundancy p i → V i)
        → ((i : ℕ) → V i → P i (servers i))
        → (servers' : ℕ → Server) × (links' : List Bool) × (ack_loop
              (deliver hash os page)
              fuel
              l
              req
              (World_of servers links)
              p
            ≡ some (World_of servers' links'))
          × ((i : ℕ) → V i → P i (servers' i))
          × ((i : ℕ) → Visits l l.redundancy p i → Q i (servers' i))
    unfolding ack_loop
    ack_loop_lem zero p servers links lt enough vis all = absurd (omega arith)
    ack_loop_lem (suc fuel) p servers links lt enough vis all =
        let (done, servers1, links1, run, (allP, keeps, end)) =
          round_lem l.redundancy p servers links true lt vis all in
        elim end [
          | inl (same, le, visited) ↦ rw (run, same) (servers1, links1, refl, allP, visited)
          | inr (bad, less) ↦
              let (servers2, links2, run', all', visited) =
                ack_loop_lem fuel p servers1 links1 lt (omega arith) vis allP in
              rw (run, bad, run') (servers2, links2, refl, all', visited)
        ]
