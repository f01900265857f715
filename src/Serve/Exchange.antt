-- ===== src/Serve/Exchange.antt =====
-- One exchange of messages with a follower, over the bytes.
use cs162hw.Base.{ℕ, ℤ, pos, negsuc, ◌+◌, ◌≤◌, ◌≡◌, refl, false, some, length, ◌>>=◌, arith, is_neg}
use cs162hw.Base.Text.{Text, IsText}
use cs162hw.Consts.{MsgType, index, getreq, putreq, delreq, register, commit, abort}
use cs162hw.Disk.{Os}
use cs162hw.Log.{is_type}
use cs162hw.Message.{Request, Response, blank, arrived, body_text}
use cs162hw.Http.Reply.{got}
use cs162hw.Url.{print_url}
use cs162hw.Wire.{kvrequest_send, kvresponse_recieve, http_code_for, params_of}
use cs162hw.Wire.Shape.{PassesOpt, Sendable}
use cs162hw.Wire.RoundTrip.{receive-send}
use cs162hw.Wire.Answer.{receive-response}
use cs162hw.Server
use cs162hw.Server.{Server}
use cs162hw.Serve.{follower_request, kvserver_handle}

-- The types of requests that a follower answers.
abbrev pub Answered : MsgType → Type 0
Answered getreq = Unit
Answered putreq = Unit
Answered delreq = Unit
Answered commit = Unit
Answered abort = Unit
Answered _ = ⊥

code_of : (t : MsgType) → is_neg (http_code_for t) ≡ false → (n : ℕ) × (http_code_for t ≡ pos n)
code_of t h = go (http_code_for t) refl h
  where
    go : (z : ℤ) → http_code_for t ≡ z → is_neg z ≡ false → (n : ℕ) × (http_code_for t ≡ pos n)
    go (pos n) e h' = (n, e)
    go (negsuc n) e h' = cc

module _ (hash : Text → ℕ) (os : Os) where
  -- A response of a follower has a status code.
  handle_type-code :
      (s s' : Server) (req : Request) (res : Response) (t : MsgType)
      → Answered t
      → Server.handle_type hash os s req blank t ≡ some (s', res)
      → is_neg (http_code_for res.type) ≡ false
  unfolding Server.handle_type Server.handle_put Server.handle_del Server.handle_commit
      Server.handle_abort Server.handle_get http_code_for
  handle_type-code s s' req res putreq a eq = ground arith
  handle_type-code s s' req res delreq a eq = ground arith
  handle_type-code s s' req res commit a eq = ground arith
  handle_type-code s s' req res abort a eq = ground arith
  handle_type-code s s' req res getreq a eq = ground arith
  handle_type-code s s' req res _ a eq = elim a [ ]

  Answered-other :
      (t : MsgType) → Answered t → (is_type t index ≡ false) × (is_type t register ≡ false)
  Answered-other getreq a = (refl, refl)
  Answered-other putreq a = (refl, refl)
  Answered-other delreq a = (refl, refl)
  Answered-other commit a = (refl, refl)
  Answered-other abort a = (refl, refl)
  Answered-other _ a = elim a [ ]

  -- A client that sends a GET, a PUT, a DELETE, a COMMIT or an ABORT to kvserver_handle, with strings
  -- that pass through and a URL that fits, and reads the answer, has called kvserver_handle_tpc: the
  -- follower is left as that leaves it, and the response that is read is the one that it makes,
  -- where its body is missing or a C string of at most 8132 bytes. A missing body arrives empty.
  pub exchange :
      (payload : Text) (s s' : Server) (req : Request) (res : Response)
      → Answered req.type
      → Sendable req.type req.key req.val
      → PassesOpt req.key
      → PassesOpt req.val
      → length (print_url (params_of req)) + 1 ≤ 128
      → Server.handle_tpc hash os s req blank ≡ some (s', res)
      → IsText (body_text res.body)
      → length (body_text res.body) ≤ 8132
      → (bytes out : Text) × (kvrequest_send req ≡ some bytes)
        × (kvserver_handle hash payload os s bytes ≡ some (s', out))
        × (kvresponse_recieve out ≡ got (arrived res))
  unfolding kvserver_handle follower_request
  exchange payload s s' req res a can pk pv fits eq text short =
      let (bytes, sent, read) = receive-send req can pk pv fits in
      let coded : is_neg (http_code_for res.type) ≡ false =
        unfold Server.handle_tpc in handle_type-code s s' req res req.type a eq in
      let (n, code) = code_of res.type coded in
      let (out, answered, arrives) = receive-response res n code text short in
      (
        bytes,
        out,
        sent,
        rw (read, (Answered-other req.type a).0, eq, ◌>>=◌, answered) refl,
        arrives,
      )
