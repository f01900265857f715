-- ===== src/Leader/Cluster.antt =====
-- A network of followers, each running kvserver_handle of hw4/src/kvserver.c, found by their IDs.
--
-- Which connections fail is a schedule: the outcomes of the next calls of connect_to, and behind
-- its end all of them succeed. Requests and responses are the bytes that are sent and received.
use cs162hw.Base.{
  ℕ, ◌+◌, ◌≤◌, ◌≡◌, refl, arith, length, Bool, none, some, List, [], ◌∷◌, ◌==◌, if◌then◌else◌,
}
use cs162hw.Base.Text.{Text, IsText}
use cs162hw.Consts.{MsgType, putreq, delreq, commit, abort}
use cs162hw.Disk.{Os}
use cs162hw.Message.{Request, Response, blank, arrived, body_text}
use cs162hw.Http.Reply.{got, refused, fault, unfinished}
use cs162hw.Url.{print_url, print_param}
use cs162hw.Wire.{kvrequest_send, kvresponse_recieve, params_of, path_for}
use cs162hw.Wire.Shape.{PassesOpt, Sendable}
use cs162hw.Serve.{kvserver_handle}
use cs162hw.Serve.Exchange.{Answered, exchange}
use cs162hw.Server
use cs162hw.Server.{Server}
use cs162hw.Server.Redo.{Action, put, del}
use cs162hw.Leader.{Follower, Answer, unreachable, silent, faults, answer}

pub record World : Type 0 where
  pub servers : ℕ → Server
  pub links : List Bool

abbrev pub set_server : (ℕ → Server) → ℕ → Server → ℕ → Server
set_server servers i s j = if j == i then s else servers j

-- What the leader makes of the bytes that it reads.
unfoldable pub read_answer : List ℕ → Answer
read_answer bytes = elim (kvresponse_recieve bytes) [
  | got res ↦ answer res
  | refused ↦ silent
  | fault ↦ faults
  | unfinished ↦ faults
]

-- A request that the leader can send, and that a follower reads as it is: its strings pass through,
-- and its URL fits into the buffer of url_encode.
pub record Carries (req : Request) : Type 0 where
  pub answered : Answered req.type
  pub sendable : Sendable req.type req.key req.val
  pub key_passes : PassesOpt req.key
  pub val_passes : PassesOpt req.val
  pub fits : length (print_url (params_of req)) + 1 ≤ 128

-- A body that fits into a response.
abbrev pub IsShort : Text → Type 0
IsShort body = IsText body × (length body ≤ 8132)

module _ (hash : Text → ℕ) (os : Os) (page : Text) where
  -- kvrequest_send to the follower with the ID, its kvserver_handle, and kvresponse_recieve. A
  -- follower that crashes sends no response. `page` is the page of the build.
  unfoldable pub reach : World → Follower → Request → Answer × World
  reach w f req = elim (kvrequest_send req) [
    | none ↦ (faults, w)
    | some bytes ↦ elim (kvserver_handle hash page os (w.servers f.id) bytes) [
      | none ↦ (read_answer [], w)
      | some (s, out) ↦ (read_answer out, record w { servers = set_server w.servers f.id s })
    ]
  ]

  -- For a request that can be sent, that is a call of kvserver_handle_tpc.
  pub reach-eq :
      (w : World) (f : Follower) (req : Request) (s : Server) (r : Response)
      → Carries req
      → IsShort (body_text r.body)
      → Server.handle_tpc hash os (w.servers f.id) req blank ≡ some (s, r)
      → reach w f req ≡ (answer (arrived r), record w { servers = set_server w.servers f.id s })
  unfolding reach read_answer
  reach-eq w f req s r can (text, short) eq =
      let (bytes, out, sent, handled, read) =
        exchange hash os page (w.servers f.id) s req r can.answered can.sendable can.key_passes
          can.val_passes can.fits eq text short in
      rw (sent, handled, reach, read_answer, read) refl

  unfoldable pub deliver : World → Follower → Request → Answer × World
  deliver w f req = elim w.links [
    | [] ↦ reach w f req
    | up ∷ links ↦
        if up
        then reach (record w { links = links }) f req
        else (unreachable, record w { links = links })
  ]

-- The request of a client for an action.
abbrev pub request_of : Action → Request
request_of (put k v) = record { type = putreq; key = some k; val = some v }
request_of (del k) = record { type = delreq; key = some k; val = none }

abbrev pub key_of_action : Action → Text
key_of_action (put k v) = k
key_of_action (del k) = k

-- The request of the leader for a decision.
abbrev pub decide : MsgType → Request
decide t = record { type = t; key = none; val = none }

pub commit-Carries : Carries (decide commit)
unfolding print_url print_param path_for
commit-Carries = record {
  answered = tt;
  sendable = tt;
  key_passes = tt;
  val_passes = tt;
  fits = omega arith;
}

pub abort-Carries : Carries (decide abort)
unfolding print_url print_param path_for
abort-Carries = record {
  answered = tt;
  sendable = tt;
  key_passes = tt;
  val_passes = tt;
  fits = omega arith;
}
