-- ===== src/Http/Reply.antt =====
-- hw4/src/libhttp.c: responses as bytes, printed and parsed. Pointers into one buffer are the texts
-- that start there, and are compared by the lengths of these.
use cs162hw.Base.{
  ℕ, zero, suc, ◌+◌, ◌^◌, ◌||◌, ◌&&◌, Bool, false, not, Option, none, some, List, [], ◌∷◌, ◌++◌,
  length, take, drop, ℤ, pos, negsuc, ltb, leb, ◌==◌, int_eq, if◌then◌else◌, ◌>>=◌,
}
use cs162hw.Base.Text.{Text, codes, c_str, str_eq}
use cs162hw.Url.{until, behind, is_prefix}
use cs162hw.Http.{max_size, crlf}
use cs162hw.Http.Number.{decimal, strtol, to_int}

-- What a parser of C code comes to: a result, NULL, an access outside of its buffers (or an
-- allocation that ends the program), or no end within the fuel.
pub data Parsed {ℓ} (A : Type ℓ) : Type ℓ where
  got : A → Parsed A
  refused : Parsed A
  fault : Parsed A
  unfinished : Parsed A

abbrev pub and_then {ℓ κ} : {A : Type ℓ} {B : Type κ} → Parsed A → (A → Parsed B) → Parsed B
and_then (got a) f = f a
and_then refused f = refused
and_then fault f = fault
and_then unfinished f = unfinished

abbrev pub or_refuse {ℓ} : {A : Type ℓ} → Option A → Parsed A
or_refuse none = refused
or_refuse (some a) = got a

-- struct http_response
pub record HttpResponse : Type 0 where
  pub status : ℤ
  pub body : Text

-- http_get_response_message; `none` is NULL.
unfoldable pub http_get_response_message : ℕ → Option Text
http_get_response_message code =
    if code == 100
    then some (codes "Continue")
    else if code == 200
    then some (codes "OK")
    else if code == 201
    then some (codes "Created")
    else if code == 202
    then some (codes "Accepted")
    else if code == 204
    then some (codes "No Content")
    else if code == 301
    then some (codes "Moved Permanently")
    else if code == 302
    then some (codes "Found")
    else if code == 304
    then some (codes "Not Modified")
    else if code == 400
    then some (codes "Bad Request")
    else if code == 401
    then some (codes "Unauthorized")
    else if code == 403
    then some (codes "Forbidden")
    else if code == 404
    then some (codes "Not Found")
    else if code == 405
    then some (codes "Method Not Allowed")
    else if code == 500
    then some (codes "Internal Server Error")
    else none

-- http_start_response
unfoldable pub http_start_response : ℕ → Option Text
http_start_response code = http_get_response_message code >>= λ status.
    some (codes "HTTP/1.1 " ++ (decimal code ++ 32 ∷ (status ++ crlf)))

-- http_add_header, http_add_data and http_add_string
unfoldable pub http_add_header : Text → Text → Text → Text
http_add_header msg key value = msg ++ (key ++ (codes ": " ++ (value ++ crlf)))

unfoldable pub http_add_data : Text → Text → Text
http_add_data msg bytes = msg ++ bytes

unfoldable pub http_add_string : Text → Option Text → Text
http_add_string msg none = msg
http_add_string msg (some s) = http_add_data msg s

-- strstr for a text that is not empty: what is before it, and what starts with it.
unfoldable pub strstr : Text → Text → Option (Text × Text)
strstr pat [] = none
strstr pat (b ∷ s) =
    let later = strstr pat s >>= λ (before, from). some (b ∷ before, from) in
    if is_prefix pat (b ∷ s) then some ([], b ∷ s) else later

abbrev pub lf : Text
lf = 10 ∷ []

-- The end of a line: the next CR LF, and the next LF where there is none.
unfoldable pub line_end : Text → Option (Text × Text)
line_end s = elim (strstr crlf s) [ some cut ↦ some cut | none ↦ strstr lf s ]

unfoldable pub skip_blanks : Text → Text
skip_blanks [] = []
skip_blanks (b ∷ s) = if b == 32 then skip_blanks s else b ∷ s

-- One header, which starts at `start`: the end of its line, and content_length.
unfoldable pub read_header : Text → ℤ → Parsed (Text × ℤ)
read_header start content_length = and_then (or_refuse (line_end start)) λ (line, limit).
    and_then (or_refuse (strstr (codes ": ") start)) λ (name, colon).
      let (value, stop) = strtol (drop 2 colon) in
      if ltb (length colon) (length limit)
      then refused
      else if is_prefix name (codes "Content-Length")
      then (if length (skip_blanks stop) == length limit
          then got (limit, to_int value)
          else refused)
      else got (limit, content_length)

-- The loop over the headers, at the end of a line. It takes two bytes for the end of the line,
-- which may lead behind the NUL where the line ends with LF alone.
unfoldable pub read_headers : ℕ → Text → ℤ → Parsed (Text × ℤ)
read_headers zero at content_length = unfinished
read_headers (suc fuel) at content_length =
    let later =
      and_then (read_header (drop 2 at) content_length) λ (limit, n). read_headers fuel limit n in
    if is_prefix (lf ++ lf) at || is_prefix (crlf ++ crlf) at
    then got (at, content_length)
    else if ltb (length at) 2
    then fault
    else later

-- The body, which is copied into content_length + 1 bytes.
unfoldable pub read_body : ℤ → Text → ℤ → Parsed HttpResponse
read_body status at (negsuc n) = fault
read_body status at (pos n) =
    if leb 4 (length at) && leb (length (drop 4 at)) n && ltb (n + 1) (2 ^ 31)
    then got (record { status = status; body = drop 4 at })
    else fault

abbrev pub message_of : ℤ → Option Text
message_of (pos n) = http_get_response_message n
message_of (negsuc n) = none

-- The text of the status, any beginning of which is taken, and what follows. The loop over the
-- headers makes progress, so the length of the rest is fuel enough.
unfoldable pub read_status_text : ℤ → Text → Parsed HttpResponse
read_status_text status start = and_then (or_refuse (line_end start)) λ (text, at).
    elim (message_of status) [
      | none ↦ fault
      | some message ↦
          if is_prefix text message
          then (and_then (read_headers (suc (length at)) at (negsuc 0))
              λ (stop, n). read_body status stop n)
          else refused
    ]

abbrev pub starts_with_space : Text → Bool
starts_with_space [] = false
starts_with_space (b ∷ s) = b == 32

-- The status: three characters that are a number other than 0, and a space.
unfoldable pub read_status : Text → Parsed HttpResponse
read_status start =
    let (status, stop) = strtol start in
    if int_eq status (pos 0)
      || not (length start == length stop + 3)
      || not (starts_with_space stop)
    then refused
    else read_status_text status (drop 1 stop)

-- http_response_parse, on the text in its buffer.
unfoldable pub parse_response : Text → Parsed HttpResponse
parse_response buf = and_then (or_refuse (behind 32 buf)) λ start.
    if str_eq (until 32 buf) (codes "HTTP/1.1") || str_eq (until 32 buf) (codes "HTTP/1.0")
    then read_status start
    else refused

-- http_response_parse, given what read has returned.
unfoldable pub http_response_parse : List ℕ → Parsed HttpResponse
http_response_parse [] = refused
http_response_parse (b ∷ bytes) = parse_response (c_str (take max_size (b ∷ bytes)))
