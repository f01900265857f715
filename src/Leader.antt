-- ===== src/Leader.antt =====
-- hw4/src/tpcleader.c: the leader. The circular list of followers is the list of its nodes from
-- `followers_head` on, and a pointer to a follower is its position in it. `hash` is strhash64.
--
-- What a follower answers is the network's matter: `send` is connect_to, kvrequest_send and
-- kvresponse_recieve on one follower, and takes the network to its next state. A function returns
-- `none` where the C code reads through NULL, or where its fuel is out (Leader/Rounds proves that
-- there is enough).
pub mod Insert
pub mod Ring
pub mod Cluster
pub mod Node
pub mod Rounds
pub mod Poll
pub mod Atomic
pub mod Positions
pub mod Commits
pub mod Read
pub mod ReadBack
mod Tests
use cs162hw.Base.{
  ℕ, zero, suc, ◌+◌, ◌*◌, ◌-◌, ◌^◌, ◌%◌, Bool, true, false, ◌&&◌, ◌||◌, Option, none, some, List,
  [], ◌∷◌, ◌++◌, length, get_elem?, ltb, leb, ◌==◌, if◌then◌else◌, ◌>>=◌,
}
use cs162hw.Base.Text.{skip_space, Text, codes, str_eq}
use cs162hw.Consts.{
  MsgType, putreq, delreq, commit, abort, getresp, success, error, ack, errmsg_no_key,
  errmsg_not_at_capacity, errmsg_follower_capacity,
}
use cs162hw.Log.{is_type}
use cs162hw.Message.{Request, Response}

-- tpcfollower_t, without the two links.
pub record Follower : Type 0 where
  pub id : ℕ
  pub host : Text
  pub port : ℕ

-- tpcleader_t
pub record Leader : Type 0 where
  pub follower_capacity : ℕ
  pub follower_count : ℕ
  pub redundancy : ℕ
  pub followers : List Follower

-- tpcleader_init
unfoldable pub init : ℕ → ℕ → Leader
init follower_capacity redundancy = record {
  follower_capacity = follower_capacity;
  follower_count = 0;
  redundancy = if ltb follower_capacity redundancy then follower_capacity else redundancy;
  followers = [];
}

-- atoi as it reads a port: white space, a sign, digits.
unfoldable pub digits : ℕ → Text → ℕ
digits n [] = n
digits n (b ∷ s) =
    let rest = digits (n * 10 + (b - 48)) s in if leb 48 b && leb b 57 then rest else n

-- The `unsigned int` that atoi's result becomes.
unfoldable pub read_port : Text → ℕ
read_port [] = 0
read_port (b ∷ s) =
    if b == b'-'
    then (2 ^ 32 - digits 0 s % 2 ^ 32) % 2 ^ 32
    else if b == b'+'
    then digits 0 s % 2 ^ 32
    else digits 0 (b ∷ s) % 2 ^ 32

-- The loop of tpcleader_register: before the first greater ID, or at the end. `none` where the ID
-- is there already.
unfoldable pub insert : Follower → List Follower → Option (List Follower)
insert new [] = some (new ∷ [])
insert new (curr ∷ rest) =
    if ltb new.id curr.id
    then some (new ∷ curr ∷ rest)
    else if curr.id == new.id
    then none
    else insert new rest >>= λ rest'. some (curr ∷ rest')

-- The first follower whose ID is greater, by position.
unfoldable pub first_above : ℕ → List Follower → ℕ → Option ℕ
first_above h [] i = none
first_above h (curr ∷ rest) i = if ltb h curr.id then some i else first_above h rest (suc i)

-- tpcleader_get_successor
unfoldable pub get_successor : Leader → ℕ → ℕ
get_successor l p = if suc p == length l.followers then 0 else suc p

module _ (hash : Text → ℕ) where
  -- The follower that tpcleader_register makes of a host and a port.
  unfoldable pub new_follower : Text → Text → Follower
  new_follower host port = record {
    id = hash (port ++ b':' ∷ host);
    host = host;
    port = read_port (skip_space port);
  }

  -- tpcleader_register behind its first test.
  unfoldable pub add_follower : Leader → Text → Text → Response → Leader × Response
  add_follower l host port res = elim (insert (new_follower host port) l.followers) [
    | none ↦ (l, record res { type = success })
    | some fs ↦ (
      record l { follower_count = suc l.follower_count; followers = fs },
      record res { type = success },
    )
  ]

  -- tpcleader_register
  unfoldable pub register_follower : Leader → Request → Response → Option (Leader × Response)
  register_follower l req res =
      if l.follower_count == l.follower_capacity
      then some (l, record { type = error; body = some errmsg_follower_capacity })
      else req.key >>= λ host. req.val >>= λ port. some (add_follower l host port res)

  -- tpcleader_get_primary; `some none` is NULL.
  unfoldable pub get_primary : Leader → Text → Option (Option ℕ)
  get_primary l key =
      if ltb l.follower_count l.follower_capacity
      then some none
      else elim (get_elem? l.followers 0) [
        | none ↦ none
        | some head ↦ elim (first_above (hash key) l.followers 0) [
          | some i ↦ some (some i)
          | none ↦ some (some 0)
        ]
      ]

-- What comes of sending a request to a follower: there is no connection, or no response that can
-- be read, or the leader writes or reads behind a buffer, or there is a response.
pub data Answer : Type 0 where
  unreachable silent faults : Answer
  answer : Response → Answer

-- `!(restmp != NULL && !strcmp(restmp->body, "commit"))`, and a connection that fails.
unfoldable pub agrees : Answer → Option Bool
agrees unreachable = some false
agrees silent = some false
agrees faults = none
agrees (answer res) = res.body >>= λ body. some (str_eq body (codes "commit"))

module _ {W : Type 0} (send : W → Follower → Request → Answer × W) where
  -- The loop of the first phase over the remaining followers.
  unfoldable pub vote_loop : ℕ → Leader → Request → W → ℕ → Bool → Option (Bool × W)
  vote_loop zero l req w p is_commit = some (is_commit, w)
  vote_loop (suc n) l req w p is_commit = get_elem? l.followers p >>= λ f.
      let (a, w') = send w f req in
      agrees a >>= λ yes. vote_loop n l req w' (get_successor l p) (is_commit && yes)

  -- The inner loop of the second phase: it breaks off at a follower that is not reached.
  unfoldable pub ack_round : ℕ → Leader → Request → W → ℕ → Bool → Option (Bool × W)
  ack_round zero l req w p all_acked = some (all_acked, w)
  ack_round (suc n) l req w p all_acked = get_elem? l.followers p >>= λ f.
      let (a, w') = send w f req in
      elim a [
        | unreachable ↦ some (false, w')
        | silent ↦ ack_round n l req w' (get_successor l p) false
        | faults ↦ none
        | answer res ↦ ack_round n l req w' (get_successor l p) (all_acked && is_type res.type ack)
      ]

  -- The outer loop: until a round in which all have acknowledged.
  unfoldable pub ack_loop : ℕ → Leader → Request → W → ℕ → Option W
  ack_loop zero l req w p = none
  ack_loop (suc fuel) l req w p = ack_round l.redundancy l req w p true >>= λ (all_acked, w').
      let rest = ack_loop fuel l req w' p in if all_acked then some w' else rest

  -- The two phases, from the primary on.
  unfoldable pub two_phases : ℕ → Leader → Request → Response → W → ℕ → Option (Response × W)
  two_phases fuel l req res w p = vote_loop l.redundancy l req w p true >>= λ (is_commit, w').
      if is_commit
      then (ack_loop fuel l (record { type = commit; key = none; val = none }) w' p >>= λ w''.
          some (record res { type = success }, w''))
      else (ack_loop fuel l (record { type = abort; key = none; val = none }) w' p >>= λ w''.
          some (record { type = error; body = some (codes "abort the command") }, w''))

  -- tpcleader_handle_tpc. Without followers to poll both loops are empty.
  unfoldable pub handle_tpc :
      (Text → ℕ) → ℕ → Leader → Option Request → Response → W → Option (Response × W)
  handle_tpc hash fuel l none res w =
      if l.follower_count == l.follower_capacity
      then some (record { type = error; body = some (codes "unknown message type") }, w)
      else some (record { type = error; body = some errmsg_not_at_capacity }, w)
  handle_tpc hash fuel l (some req) res w =
      if l.follower_count == l.follower_capacity
      then (if is_type req.type putreq || is_type req.type delreq
          then (req.key >>= λ key. get_primary hash l key >>= λ pri. elim pri [
            | none ↦ some (record res { type = success }, w)
            | some p ↦ two_phases fuel l req res w p
          ])
          else some (record { type = error; body = some (codes "unknown message type") }, w))
      else some (record { type = error; body = some errmsg_not_at_capacity }, w)

  -- The loop of tpcleader_handle_get: a connection that fails is tried again, without end.
  unfoldable pub get_loop : ℕ → ℕ → Leader → Request → W → ℕ → Option (Option Response × W)
  get_loop zero left l req w p = none
  get_loop (suc fuel) zero l req w p = some (none, w)
  get_loop (suc fuel) (suc left) l req w p = get_elem? l.followers p >>= λ f.
      let (a, w') = send w f req in
      elim a [
        | unreachable ↦ get_loop fuel (suc left) l req w' p
        | silent ↦ none
        | faults ↦ none
        | answer res ↦
            if is_type res.type getresp
            then some (some res, w')
            else get_loop fuel left l req w' (get_successor l p)
      ]

  -- tpcleader_handle_get
  unfoldable pub handle_get :
      (Text → ℕ) → ℕ → Leader → Option Request → Response → W → Option (Response × W)
  handle_get hash fuel l none res w = some (record { type = error; body = some errmsg_no_key }, w)
  handle_get hash fuel l (some req) res w = req.key >>= λ key. get_primary hash l key >>= λ pri.
      elim pri [
        | none ↦ some (record { type = error; body = some errmsg_no_key }, w)
        | some p ↦ get_loop fuel l.redundancy l req w p >>= λ (found, w'). elim found [
          | none ↦ some (record { type = error; body = some errmsg_no_key }, w')
          | some r ↦ some (record { type = getresp; body = r.body }, w')
        ]
      ]
