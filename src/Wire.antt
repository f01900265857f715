-- ===== src/Wire.antt =====
-- hw4/src/kvmessage.c: requests as HTTP requests, and the types of responses as status codes.
pub mod Parse
pub mod Shape
pub mod RoundTrip
pub mod Status
pub mod Message
pub mod Answer
mod Tests
use cs162hw.Base.{
  ℕ, ℤ, pos, negsuc, Bool, true, false, ◌&&◌, Option, none, some, List, [], is_some, length, leb,
  ◌==◌, if◌then◌else◌, ◌>>=◌,
}
use cs162hw.Base.Text.{Text, codes, str_eq}
use cs162hw.Consts.{
  MsgType, index, getreq, putreq, delreq, register, commit, abort, getresp, success, error, vote,
  ack, empty,
}
use cs162hw.Message.{Request, Response}
use cs162hw.Url.{Params, url_decode, url_encode}
use cs162hw.Http.{max_size, http_request_parse, http_start_request, http_end_headers}
use cs162hw.Http.Number.{decimal}
use cs162hw.Http.Reply.{
  Parsed, got, refused, and_then, http_start_response, http_add_header, http_add_string,
  http_response_parse, HttpResponse,
}

-- The type that kvrequest_recieve gives a request; `empty` goes to its error.
unfoldable pub type_of_post : Text → Bool → MsgType
type_of_post path both =
    if str_eq path (codes "register")
    then (if both then register else empty)
    else if str_eq path (codes "commit")
    then commit
    else if str_eq path (codes "abort")
    then abort
    else empty

unfoldable pub type_of_request : Text → Params → MsgType
type_of_request method params =
    if str_eq method (codes "GET")
    then (if is_some params.key then getreq else index)
    else if str_eq method (codes "PUT")
    then (if is_some params.key && is_some params.val then putreq else empty)
    else if str_eq method (codes "DELETE")
    then (if is_some params.key then delreq else empty)
    else if str_eq method (codes "POST")
    then elim params.path [
      | none ↦ empty
      | some path ↦ type_of_post path (is_some params.key && is_some params.val)
    ]
    else empty

abbrev pub unless_empty : MsgType → Params → Option Request
unless_empty empty params = none
unless_empty type params = some (record { type = type; key = params.key; val = params.val })

-- kvrequest_recieve, given what read has returned.
unfoldable pub kvrequest_recieve : List ℕ → Option Request
kvrequest_recieve bytes = http_request_parse bytes >>= λ req.
    let params = url_decode req.path in unless_empty (type_of_request req.method params) params

-- http_method_for_request_type and path_for_request_type
unfoldable pub method_for : MsgType → Option Text
method_for getreq = some (codes "GET")
method_for putreq = some (codes "PUT")
method_for delreq = some (codes "DELETE")
method_for register = some (codes "POST")
method_for commit = some (codes "POST")
method_for abort = some (codes "POST")
method_for _ = none

unfoldable pub path_for : MsgType → Option Text
path_for register = some (codes "register")
path_for commit = some (codes "commit")
path_for abort = some (codes "abort")
path_for _ = none

abbrev pub params_of : Request → Params
params_of req = record { path = path_for req.type; key = req.key; val = req.val }

-- kvrequest_send: the bytes that are sent. `none` where it returns -1, or where url_encode writes
-- behind its buffer.
unfoldable pub kvrequest_send : Request → Option Text
kvrequest_send req = method_for req.type >>= λ method. url_encode (params_of req) >>= λ url.
    http_start_request method url >>= λ msg. some (http_end_headers msg)

-- http_code_for_response_type and kvresponse_get_status_code
unfoldable pub http_code_for : MsgType → ℤ
http_code_for getresp = pos 200
http_code_for success = pos 201
http_code_for error = pos 500
http_code_for vote = pos 202
http_code_for ack = pos 204
http_code_for _ = negsuc 0

unfoldable pub status_type : ℕ → MsgType
status_type status =
    if status == 200
    then getresp
    else if status == 201
    then success
    else if status == 500
    then error
    else if status == 202
    then vote
    else if status == 204
    then ack
    else empty

-- kvresponse_recieve, given what read has returned.
abbrev pub typed : MsgType → Text → Parsed Response
typed empty body = refused
typed type body = got (record { type = type; body = some body })

abbrev pub type_of_status : ℤ → MsgType
type_of_status (pos n) = status_type n
type_of_status (negsuc n) = empty

unfoldable pub kvresponse_recieve : List ℕ → Parsed Response
kvresponse_recieve bytes =
    and_then (http_response_parse bytes) λ res. typed (type_of_status res.status) res.body

-- lenbuf
unfoldable pub length_text : Option Text → Text
length_text none = codes "0"
length_text (some body) = decimal (length body)

-- The whole message of kvresponse_send, behind its first line.
unfoldable pub print_response : Text → Option Text → Text
print_response msg body =
    http_add_string
      (http_end_headers (http_add_header msg (codes "Content-Length") (length_text body))) body

-- The buffers are large enough: `char lenbuf[10]` and the body of the message.
unfoldable pub fits_buffers : Text → Option Text → Bool
fits_buffers msg body =
    leb (length (length_text body)) 9 && leb (length (print_response msg body)) max_size

-- kvresponse_send: the bytes that are sent, which are none where it returns -1. `none` where it
-- writes behind a buffer.
unfoldable pub kvresponse_send : Response → Option Text
kvresponse_send res = elim (http_code_for res.type) [
  | negsuc n ↦ some []
  | pos code ↦ elim (http_start_response code) [
    | none ↦ some []
    | some msg ↦ if fits_buffers msg res.body then some (print_response msg res.body) else none
  ]
]
