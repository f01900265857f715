-- ===== src/Serve.antt =====
-- hw4/src/kvserver.c and hw4/src/tpcleader.c: the handlers of a connection, from the bytes that a
-- call of read returns to the bytes that are sent; and the registration of a follower. The page
-- `index_payload` is made by the build.
pub mod Exchange
pub mod Register
mod Tests
use cs162hw.Base.{
  ℕ, ℤ, pos, ◌≤◌, Bool, true, false, Option, none, some, List, [], ◌∷◌, ◌++◌, length, leb,
  if◌then◌else◌, ◌>>=◌,
}
use cs162hw.Base.Text.{Text, codes}
use cs162hw.Consts.{MsgType, index, getreq, register, success, error, errmsg_invalid_request}
use cs162hw.Disk.{Os}
use cs162hw.Log.{is_type}
use cs162hw.Message.{Request, Response, blank}
use cs162hw.Http.Number.{decimal}
use cs162hw.Http.Reply.{Parsed, got, refused, fault, unfinished}
use cs162hw.Wire.{kvrequest_send, kvrequest_recieve, kvresponse_send, kvresponse_recieve}
use cs162hw.Server
use cs162hw.Server.{Server}
use cs162hw.Leader
use cs162hw.Leader.{Leader, Follower, Answer}

abbrev pub invalid : Response
invalid = record { type = error; body = some errmsg_invalid_request }

-- index_send, where every write succeeds.
unfoldable pub index_send : Text → Bool → Text
index_send payload true = payload ++ codes "<script>setServerType('leader');</script>"
index_send payload false = payload ++ codes "<script>setServerType('follower');</script>"

-- kvresponse_send at the end of a handler, behind which the state is kept.
abbrev pub reply {ℓ} : {S : Type ℓ} → S → Response → Option (S × Text)
reply s res = kvresponse_send res >>= λ out. some (s, out)

module _ (hash : Text → ℕ) (payload : Text) where
  -- kvserver_handle; `none` where it reads NULL or writes behind a buffer.
  unfoldable pub follower_request : Os → Server → Option Request → Option (Server × Text)
  follower_request os s none = reply s invalid
  follower_request os s (some req) =
      if is_type req.type index
      then some (s, index_send payload false)
      else (Server.handle_tpc hash os s req blank >>= λ (s', res). reply s' res)

  unfoldable pub kvserver_handle : Os → Server → List ℕ → Option (Server × Text)
  kvserver_handle os s bytes = follower_request os s (kvrequest_recieve bytes)

  module _ {W : Type 0} (send : W → Follower → Request → Answer × W) where
    -- tpcleader_handle, which prints the type of the request before it looks for NULL. The fuel is
    -- that of the loops that wait for connections.
    unfoldable pub leader_request : ℕ → Leader → W → Request → Option ((Leader × W) × Text)
    leader_request fuel l w req =
        if is_type req.type index
        then some ((l, w), index_send payload true)
        else if is_type req.type register
        then (Leader.register_follower hash l req blank >>= λ (l', res). reply (l', w) res)
        else if is_type req.type getreq
        then (Leader.handle_get send hash fuel l (some req) blank w >>= λ (res, w').
            reply (l, w') res)
        else (Leader.handle_tpc send hash fuel l (some req) blank w >>= λ (res, w').
            reply (l, w') res)

    unfoldable pub tpcleader_handle : ℕ → Leader → W → List ℕ → Option ((Leader × W) × Text)
    tpcleader_handle fuel l w bytes = kvrequest_recieve bytes >>= leader_request fuel l w

-- The request of kvserver_register_leader; `none` where the port does not fit into port_string.
unfoldable pub register_request : Server → Option Request
register_request s =
    if leb (length (decimal s.port)) 5
    then some (record { type = register; key = some s.hostname; val = some (decimal s.port) })
    else none

-- What kvserver_register_leader returns, given the bytes of the answer.
unfoldable pub register_result : List ℕ → Option ℤ
register_result bytes = elim (kvresponse_recieve bytes) [
  | got res ↦ some (if is_type res.type success then pos 1 else pos 0)
  | refused ↦ some (pos 0)
  | fault ↦ none
  | unfinished ↦ none
]
