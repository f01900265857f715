-- ===== src/Wire/Message.antt =====
-- The bytes of a response, and http_response_parse on them.
use cs162hw.Base.{
  ℕ, suc, ◌+◌, ◌≤◌, ◌<◌, ◌^◌, ◌≡◌, refl, some, [], ◌∷◌, ◌++◌, length, length-append, arith, ℤ, pos,
  negsuc,
}
use cs162hw.Base.Text.{Text, codes}
use cs162hw.Url.{until, behind, is_prefix}
use cs162hw.Url.RoundTrip.{Avoids}
use cs162hw.Http.{crlf, max_size}
use cs162hw.Http.Number.{decimal}
use cs162hw.Http.Digits.{IsDigits, decimal-IsDigits, strtol-decimal, to_int-pos, length-decimal}
use cs162hw.Http.Reply.{
  got, http_get_response_message, strstr, line_end, skip_blanks, read_header, read_headers,
  read_body, read_status_text, read_status, parse_response, http_response_parse,
}
use cs162hw.Http.Scan.{strstr-append, line_end-append, is_prefix_refl}
use cs162hw.Wire.Parse.{Avoids-append, take_all, c_str-Avoids}

-- The parts of a message behind the status text: the header, and the empty line with the body.
abbrev pub tail : Text → Text
tail body = crlf ++ (crlf ++ body)

abbrev pub header : Text → Text
header body = codes "Content-Length: " ++ (decimal (length body) ++ tail body)

pub digits-Avoids : (c : ℕ) (s : Text) → c < 48 → IsDigits s → Avoids c s
digits-Avoids c [] lt h = tt
digits-Avoids c (b ∷ s) lt h = (omega arith, digits-Avoids c s lt h.2)

header-Avoids : (body : Text) → Avoids 0 body → Avoids 0 (header body)
header-Avoids body clean =
    Avoids-append 0 (codes "Content-Length: ") (decimal (length body) ++ tail body) (omega arith) (
      Avoids-append 0 (decimal (length body)) (tail body)
        (digits-Avoids 0 (decimal (length body)) (omega arith) (decimal-IsDigits (length body)))
        (Avoids-append 0 crlf (crlf ++ body) (omega arith)
          (Avoids-append 0 crlf body (omega arith) clean)))

line_end-header :
    (body : Text)
    → line_end (header body) ≡ some (codes "Content-Length: " ++ decimal (length body), tail body)
line_end-header body =
    line_end-append (codes "Content-Length: " ++ decimal (length body)) (crlf ++ body) (
      Avoids-append 13 (codes "Content-Length: ") (decimal (length body)) (omega arith)
        (digits-Avoids 13 (decimal (length body)) (omega arith) (decimal-IsDigits (length body))))

colon-header :
    (body : Text)
    → strstr (codes ": ") (header body)
      ≡ some (codes "Content-Length", codes ": " ++ (decimal (length body) ++ tail body))
colon-header body =
    strstr-append 58 (32 ∷ []) (codes "Content-Length") (decimal (length body) ++ tail body)
      (omega arith)

read_header-eq :
    (body : Text) (n : ℤ)
    → length body < 2 ^ 31
    → read_header (header body) n ≡ got (tail body, pos (length body))
unfolding read_header skip_blanks is_prefix
read_header-eq body n small =
    rw
      (
        line_end-header body,
        colon-header body,
        strtol-decimal (length body) 13 (10 ∷ (crlf ++ body)) small refl,
        to_int-pos (length body) small,
      )
      (ground (arith, length-append (decimal (length body)) (tail body)))

read_headers-eq :
    (fuel : ℕ) (body : Text) (n : ℤ)
    → length body < 2 ^ 31
    → read_headers (suc (suc fuel)) (crlf ++ header body) n ≡ got (tail body, pos (length body))
unfolding read_headers is_prefix
read_headers-eq fuel body n small = rw (read_header-eq body n small) (ground arith)

read_body-eq :
    (status : ℤ) (body : Text)
    → length body + 1 < 2 ^ 31
    → read_body status (tail body) (pos (length body))
      ≡ got (record { status = status; body = body })
unfolding read_body
read_body-eq status body small = ground arith

-- The facts about a status that the parser needs.
pub record IsStatus (n : ℕ) (m : Text) : Type 0 where
  pub message : http_get_response_message n ≡ some m
  pub line : Avoids 13 m
  pub text : Avoids 0 m
  pub short : length m ≤ 21
  pub three : length (decimal n) ≡ 3
  pub positive : 0 < n
  pub small : n < 1000

module _ (n : ℕ) (m body : Text) (is : IsStatus n m) (fits : length body ≤ 8132) where
  read_status_text-eq :
      read_status_text (pos n) (m ++ (crlf ++ header body))
      ≡ got (record { status = pos n; body = body })
  unfolding read_status_text
  read_status_text-eq =
      rw
        (
          line_end-append m (header body) is.line,
          is.message,
          is_prefix_refl m,
          read_headers-eq _ body (negsuc 0) (omega arith),
        )
        (read_body-eq (pos n) body (omega arith))

  read_status-eq :
      read_status (decimal n ++ 32 ∷ (m ++ (crlf ++ header body)))
      ≡ got (record { status = pos n; body = body })
  unfolding read_status
  read_status-eq =
      rw (strtol-decimal n 32 (m ++ (crlf ++ header body)) (omega (arith, is.small)) refl) (
        ground (
          arith,
          is.three,
          is.positive,
          read_status_text-eq,
          length-append (decimal n) (32 ∷ (m ++ (crlf ++ header body))),
        ))

  abbrev pub message_bytes : Text
  message_bytes = codes "HTTP/1.1 " ++ (decimal n ++ 32 ∷ (m ++ (crlf ++ header body)))

  parse_response-eq : parse_response message_bytes ≡ got (record { status = pos n; body = body })
  unfolding parse_response until behind
  parse_response-eq = read_status-eq

  pub message_bytes-short : length message_bytes ≤ max_size
  message_bytes-short = omega (
    arith,
    is.short,
    is.three,
    length-decimal 3 (length body) (omega arith),
    length-append (decimal n) (32 ∷ (m ++ (crlf ++ header body))),
    length-append m (crlf ++ header body),
    length-append (decimal (length body)) (tail body),
  )

  message_bytes-Avoids : Avoids 0 body → Avoids 0 message_bytes
  message_bytes-Avoids clean =
      Avoids-append 0 (codes "HTTP/1.1 ") (decimal n ++ 32 ∷ (m ++ (crlf ++ header body)))
        (omega arith)
        (Avoids-append 0 (decimal n) (32 ∷ (m ++ (crlf ++ header body)))
          (digits-Avoids 0 (decimal n) (omega arith) (decimal-IsDigits n))
          (
            omega arith,
            Avoids-append 0 m (crlf ++ header body) is.text
                (Avoids-append 0 crlf (header body) (omega arith) (header-Avoids body clean)),
          ))

  pub http_response_parse-eq :
      Avoids 0 body
      → http_response_parse message_bytes ≡ got (record { status = pos n; body = body })
  unfolding http_response_parse
  http_response_parse-eq clean =
      rw
        (
          take_all max_size message_bytes message_bytes-short,
          c_str-Avoids message_bytes (message_bytes-Avoids clean),
        )
        parse_response-eq
