-- ===== src/FileServer/Libhttp.antt =====
-- hw2/libhttp.c: requests as they are read, and the bytes of responses.
use cs162hw.Base.{
  ℕ, Bool, not, ◌&&◌, ◌||◌, Option, none, some, List, [], ◌∷◌, ◌++◌, length, take, leb, ◌==◌,
  if◌then◌else◌, ◌>>=◌,
}
use cs162hw.Base.Text.{Text, codes, str_eq, c_str}
use cs162hw.Url.{behind}
use cs162hw.Http.{crlf}
use cs162hw.Http.Number.{decimal}

-- LIBHTTP_REQUEST_MAX_SIZE
abbrev pub request_max : ℕ
request_max = 8192

-- struct http_request
pub record FileRequest : Type 0 where
  pub method : Text
  pub path : Text

abbrev pub is_upper : ℕ → Bool
is_upper b = leb b'A' b && leb b b'Z'

-- The end of the path.
abbrev pub ends_path : ℕ → Bool
ends_path b = b == 32 || b == 10

-- The bytes before the first one that does not pass a test, and those from it on.
unfoldable pub span : (ℕ → Bool) → Text → Text × Text
span passes [] = ([], [])
span passes (b ∷ s) =
    let (before, rest) = span passes s in if passes b then (b ∷ before, rest) else ([], b ∷ s)

-- The path and the rest of the line, which has to end.
unfoldable pub request_path : Text → Text → Option FileRequest
request_path method s =
    let (path, rest) = span (λ b. not (ends_path b)) s in
    if length path == 0
    then none
    else (behind 10 rest >>= λ _. some (record { method = method; path = path }))

unfoldable pub behind_space : Text → Option Text
behind_space [] = none
behind_space (b ∷ s) = if b == 32 then some s else none

-- http_request_parse, given what read has returned.
unfoldable pub request_parse : List ℕ → Option FileRequest
request_parse bytes =
    let (method, rest) = span is_upper (c_str (take request_max bytes)) in
    if length method == 0 then none else (behind_space rest >>= request_path method)

-- http_get_response_message
unfoldable pub get_response_message : ℕ → Text
get_response_message status_code =
    if status_code == 100
    then codes "Continue"
    else if status_code == 200
    then codes "OK"
    else if status_code == 301
    then codes "Moved Permanently"
    else if status_code == 302
    then codes "Found"
    else if status_code == 304
    then codes "Not Modified"
    else if status_code == 400
    then codes "Bad Request"
    else if status_code == 401
    then codes "Unauthorized"
    else if status_code == 403
    then codes "Forbidden"
    else if status_code == 404
    then codes "Not Found"
    else if status_code == 405
    then codes "Method Not Allowed"
    else codes "Internal Server Error"

-- http_start_response, http_send_header, http_end_headers and http_send_string: the bytes they send.
unfoldable pub start_response : ℕ → Text
start_response status_code =
    codes "HTTP/1.0 " ++ (decimal status_code ++ 32 ∷ (get_response_message status_code ++ crlf))

unfoldable pub send_header : Text → Text → Text
send_header key value = key ++ (codes ": " ++ (value ++ crlf))

abbrev pub end_headers : Text
end_headers = crlf

-- strrchr(file_name, '.')
unfoldable pub extension : Text → Option Text
extension [] = none
extension (b ∷ s) = elim (extension s) [
  | some later ↦ some later
  | none ↦ if b == b'.' then some (b ∷ s) else none
]

-- http_get_mime_type
unfoldable pub mime_type : Text → Text
mime_type file_extension =
    if str_eq file_extension (codes ".html") || str_eq file_extension (codes ".htm")
    then codes "text/html"
    else if str_eq file_extension (codes ".jpg") || str_eq file_extension (codes ".jpeg")
    then codes "image/jpeg"
    else if str_eq file_extension (codes ".png")
    then codes "image/png"
    else if str_eq file_extension (codes ".css")
    then codes "text/css"
    else if str_eq file_extension (codes ".js")
    then codes "application/javascript"
    else if str_eq file_extension (codes ".pdf")
    then codes "application/pdf"
    else codes "text/plain"

unfoldable pub get_mime_type : Text → Text
get_mime_type file_name = elim (extension file_name) [
  | none ↦ codes "text/plain"
  | some file_extension ↦ mime_type file_extension
]
