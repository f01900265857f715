-- ===== src/Http.antt =====
-- hw4/src/libhttp.c: requests as bytes. A message is built and parsed as a C string; what one call
-- of read returns is an argument of the parser.
pub mod Number
pub mod Digits
pub mod Reply
pub mod Scan
use cs162hw.Base.{
  ℕ, Bool, ◌||◌, Option, none, some, List, [], ◌∷◌, ◌++◌, take, ◌==◌, if◌then◌else◌, ◌>>=◌,
}
use cs162hw.Base.Text.{Text, codes, str_eq, c_str}
use cs162hw.Url.{until, behind, is_prefix}

-- LIBHTTP_MESSAGE_MAX_SIZE
abbrev pub max_size : ℕ
max_size = 8192

-- struct http_request
pub record HttpRequest : Type 0 where
  pub method : Text
  pub path : Text

-- The comparison goes as far as the method, so any beginning of a method is valid.
unfoldable pub http_is_valid_method : Text → Bool
http_is_valid_method method =
    is_prefix method (codes "GET")
    || is_prefix method (codes "PUT")
    || is_prefix method (codes "DELETE")
    || is_prefix method (codes "POST")

-- The path up to a space or the end of the line, which has to be there.
unfoldable pub scan_path : Text → Option Text
scan_path [] = none
scan_path (b ∷ s) =
    let rest = scan_path s in
    if b == 32 || b == 10 then some [] else rest >>= λ path. some (b ∷ path)

-- The path has to start with a slash.
unfoldable pub parse_path : Text → Text → Option HttpRequest
parse_path method [] = none
parse_path method (b ∷ s) =
    if b == b'/'
    then (scan_path s >>= λ path. some (record { method = method; path = b ∷ path }))
    else none

-- http_request_parse, on the text in its buffer.
unfoldable pub parse_buffer : Text → Option HttpRequest
parse_buffer buf = behind 32 buf >>= λ rest.
    if http_is_valid_method (until 32 buf) then parse_path (until 32 buf) rest else none

-- http_request_parse, given what read has returned.
unfoldable pub http_request_parse : List ℕ → Option HttpRequest
http_request_parse [] = none
http_request_parse (b ∷ bytes) = parse_buffer (c_str (take max_size (b ∷ bytes)))

-- is_valid_method
unfoldable pub is_valid_method : Text → Bool
is_valid_method method =
    str_eq method (codes "GET")
    || str_eq method (codes "PUT")
    || str_eq method (codes "DELETE")
    || str_eq method (codes "POST")

abbrev pub crlf : Text
crlf = 13 ∷ 10 ∷ []

-- http_start_request
unfoldable pub http_start_request : Text → Text → Option Text
http_start_request method url =
    if is_valid_method method
    then some (method ++ 32 ∷ (url ++ (codes " HTTP/1.1" ++ crlf)))
    else none

-- http_end_headers
unfoldable pub http_end_headers : Text → Text
http_end_headers msg = msg ++ crlf
