-- ===== src/Leader/Poll.antt =====
-- The first phase over a network with failing connections: who has voted, and what `is_commit`
-- says about it.
use cs162hw.Base.{
  ℕ, zero, suc, ◌≤◌, ◌<◌, ◌≡◌, ◌∙◌, refl, ap, sym, subst, ◌⊎◌, inl, inr, Bool, true, false, ◌&&◌,
  Bool-cases, some, List, length, ◌>>=◌, arith, ◌==◌,
}
use cs162hw.Base.Text.{Text, str_eq}
use cs162hw.Consts.{msg_commit}
use cs162hw.Disk.{Os}
use cs162hw.Server.{Server, voting}
use cs162hw.Server.Redo.{Action, IsAction}
use cs162hw.Server.Action.{Works}
use cs162hw.Server.Phase.{IsServer}
use cs162hw.Leader.{Leader, get_successor, vote_loop, agrees}
use cs162hw.Leader.Cluster.{set_server, deliver, request_of, Carries, IsShort}
use cs162hw.Message.{body_text}
use cs162hw.Leader.Node.{Pending, Answers, first_answer, ready_answer}
use cs162hw.Leader.Rounds.{Visits, World_of, deliver_cases, elem_at, successor_below}

module _ (hash : Text → ℕ) (os : Os) (page : Text) (works : Works os) (l : Leader) (a : Action)
    (is : IsAction a) (can : Carries (request_of a)) (start : ℕ → Server)
    (inv : (i : ℕ) → IsServer hash (start i))
    (open_to_vote : (i : ℕ) → voting (start i).state ≡ true) where
  -- A follower has not been asked or has refused, or it has voted to commit.
  abbrev pub Asked : ℕ → Server → Type 0
  Asked i s = (s ≡ start i) ⊎ Pending hash os a (start i) s

  Asked-answer :
      (i : ℕ) (s : Server)
      → Asked i s
      → Answers hash os works (start i) (inv i) (open_to_vote i) a s
  Asked-answer i s (inl same) =
      subst (Answers hash os works (start i) (inv i) (open_to_vote i) a) (sym same)
        (first_answer hash os works (start i) (inv i) (open_to_vote i) a is)
  Asked-answer i s (inr p) = ready_answer hash os works (start i) (inv i) (open_to_vote i) a s p

  -- A poll of the follower at `at` has left it as `s`.
  moved_Asked :
      (servers : ℕ → Server) (at : ℕ) (s : Server)
      → ((i : ℕ) → Asked i (servers i))
      → Asked at s
      → (i : ℕ) → Asked i (set_server servers at s i)
  moved_Asked servers at s all q i = elim (Bool-cases (i == at)) [
    | inl here ↦ rw here (subst (λ n. Asked n s) (ground arith) q)
    | inr other ↦ rw other (all i)
  ]

  moved_Pending :
      (servers : ℕ → Server) (at : ℕ) (s : Server) (i : ℕ)
      → (Pending hash os a (start at) s ⊎ (s ≡ servers at))
      → Pending hash os a (start i) (servers i)
      → Pending hash os a (start i) (set_server servers at s i)
  moved_Pending servers at s i q old = elim (Bool-cases (i == at)) [
    | inr other ↦ rw other old
    | inl here ↦
        let same : at ≡ i = ground arith in
        rw here (elim q [
          | inl p ↦ subst (λ n. Pending hash os a (start n) s) same p
          | inr eq ↦ subst (Pending hash os a (start i)) (ap servers (sym same) ∙ sym eq) old
        ])
  ]

  here_Pending :
      (servers : ℕ → Server) (at : ℕ) (s : Server)
      → Pending hash os a (start at) s
      → Pending hash os a (start at) (set_server servers at s at)
  here_Pending servers at s p = rw (self_eq at) p
    where
      self_eq : (n : ℕ) → (n == n) ≡ true
      self_eq n = ground arith

  -- The first phase ends. No store has changed, a follower that has voted keeps its vote, and
  -- `is_commit` holds only if each follower asked has voted to commit.
  pub vote_loop_lem :
      (n p : ℕ) (servers : ℕ → Server) (links : List Bool) (ok : Bool)
      → p < length l.followers
      → ((i : ℕ) → Asked i (servers i))
      → (is_commit : Bool) × (servers' : ℕ → Server) × (links' : List Bool) × (vote_loop
            (deliver hash os page)
            n
            l
            (request_of a)
            (World_of hash os page servers links)
            p
            ok
          ≡ some (is_commit, World_of hash os page servers' links'))
        × ((i : ℕ) → Asked i (servers' i))
        × (length links' ≤ length links)
        × ((i : ℕ)
            → Pending hash os a (start i) (servers i)
            → Pending hash os a (start i) (servers' i))
        × (is_commit ≡ true
            → (ok ≡ true) × ((i : ℕ) → Visits l n p i → Pending hash os a (start i) (servers' i)))
  unfolding vote_loop agrees
  vote_loop_lem zero p servers links ok lt all =
      (ok, servers, links, refl, all, omega arith, (λ i q. q), λ yes'. (yes', λ i v. elim v [ ]))
  vote_loop_lem (suc n) p servers links ok lt all =
      let (f, at) = elem_at l.followers p lt in
      let (s, r, body, eq, has, short, votes) = Asked-answer f.id (servers f.id) (all f.id) in
      let (links1, cases) =
        deliver_cases hash os page servers links f (request_of a) s r can
          (subst (λ o. IsShort (body_text o)) (sym has) short) eq in
      elim cases [
        | inl (failed, less) ↦
            let (c, servers', links', run, all', le, keeps, agree) =
              vote_loop_lem n (get_successor l p) servers links1 (ok && false)
                (successor_below l p lt) all in
            rw (at, ◌>>=◌, failed, run)
              (
                c,
                servers',
                links',
                refl,
                all',
                omega arith,
                keeps,
                λ t. absurd (ground (arith, agree t)),
              )
        | inr (reached, le1) ↦
            let (c, servers', links', run, all', le, keeps, agree) =
              vote_loop_lem n (get_successor l p) (set_server servers f.id s) links1
                (ok && str_eq body msg_commit) (successor_below l p lt)
                (moved_Asked servers f.id s all (elim votes [
                  | inl (y, q) ↦ inr q
                  | inr (n', same) ↦ subst (Asked f.id) (sym same) (all f.id)
                ])) in
            rw (at, ◌>>=◌, reached, has, run)
              (
                c,
                servers',
                links',
                refl,
                all',
                omega arith,
                (λ i old. keeps i (
                    moved_Pending servers f.id s i
                      (elim votes [ inl (y, q) ↦ inl q | inr (n', same) ↦ inr same ]) old)),
                λ t.
                    let (both, later) = agree t in
                    elim votes [
                      | inr (n', same) ↦ absurd (ground arith)
                      | inl (y, q) ↦ (
                        ground arith,
                        λ i v. elim v [
                          | inl (g, at', id) ↦ keeps i (
                              subst (λ m. Pending hash os a (start m) (set_server servers f.id s m))
                                (ground (arith, at, at', id)) (here_Pending servers f.id s q))
                          | inr there ↦ later i there
                        ],
                      )
                    ],
              )
      ]
