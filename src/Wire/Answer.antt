-- ===== src/Wire/Answer.antt =====
-- kvresponse_recieve after kvresponse_send.
use cs162hw.Base.{
  ℕ, ◌≤◌, ◌≡◌, ◌∙◌, refl, sym, Option, none, some, [], ◌∷◌, ◌++◌, length, append_assoc, append-nil,
  arith, pos,
}
use cs162hw.Base.Text.{Text, codes, IsText}
use cs162hw.Consts.{MsgType, getresp, success, error, vote, ack}
use cs162hw.Message.{Response, body_text, arrived}
use cs162hw.Url.RoundTrip.{Avoids}
use cs162hw.Http.{crlf, http_end_headers}
use cs162hw.Http.Number.{decimal, print_from}
use cs162hw.Http.Digits.{length-decimal}
use cs162hw.Http.Reply.{
  got, http_get_response_message, http_start_response, http_add_header, http_add_data,
  http_add_string,
}
use cs162hw.Wire.{
  http_code_for, status_type, typed, kvresponse_recieve, length_text, print_response, fits_buffers,
  kvresponse_send,
}
use cs162hw.Wire.Status.{pos_injective}
use cs162hw.Wire.Message.{IsStatus, message_bytes, message_bytes-short, http_response_parse-eq}

-- The bytes are those of http_start_response and what is added to it.
print_response-eq :
    (n : ℕ) (m body : Text) (is : IsStatus n m) (fits : length body ≤ 8132)
    → print_response (codes "HTTP/1.1 " ++ (decimal n ++ 32 ∷ (m ++ crlf))) (some body)
      ≡ message_bytes n m body is fits
unfolding print_response http_add_header http_end_headers http_add_string http_add_data length_text
print_response-eq n m body is fits = simp append_assoc

print_response-body :
    (msg : Text) (body : Option Text)
    → print_response msg body ≡ print_response msg (some (body_text body))
unfolding print_response length_text http_add_string http_add_data decimal print_from
print_response-body msg none = sym (append-nil _)
print_response-body msg (some body) = refl

length_text-body : (body : Option Text) → length_text body ≡ decimal (length (body_text body))
unfolding length_text decimal print_from
length_text-body none = refl
length_text-body (some body) = refl

-- The status that a type of response is sent with.
IsStatus-of :
    (t : MsgType) (n : ℕ)
    → http_code_for t ≡ pos n
    → (m : Text) × IsStatus n m
      × ((body : Text) → typed (status_type n) body ≡ got (record { type = t; body = some body }))
unfolding http_code_for status_type http_get_response_message decimal print_from
IsStatus-of getresp n eq = rw (← pos_injective 200 n eq) (
  codes "OK",
  record {
    message = refl;
    line = omega arith;
    text = omega arith;
    short = omega arith;
    three = refl;
    positive = omega arith;
    small = omega arith;
  },
  λ body. refl,
)
IsStatus-of success n eq = rw (← pos_injective 201 n eq) (
  codes "Created",
  record {
    message = refl;
    line = omega arith;
    text = omega arith;
    short = omega arith;
    three = refl;
    positive = omega arith;
    small = omega arith;
  },
  λ body. refl,
)
IsStatus-of error n eq = rw (← pos_injective 500 n eq) (
  codes "Internal Server Error",
  record {
    message = refl;
    line = omega arith;
    text = omega arith;
    short = omega arith;
    three = refl;
    positive = omega arith;
    small = omega arith;
  },
  λ body. refl,
)
IsStatus-of vote n eq = rw (← pos_injective 202 n eq) (
  codes "Accepted",
  record {
    message = refl;
    line = omega arith;
    text = omega arith;
    short = omega arith;
    three = refl;
    positive = omega arith;
    small = omega arith;
  },
  λ body. refl,
)
IsStatus-of ack n eq = rw (← pos_injective 204 n eq) (
  codes "No Content",
  record {
    message = refl;
    line = omega arith;
    text = omega arith;
    short = omega arith;
    three = refl;
    positive = omega arith;
    small = omega arith;
  },
  λ body. refl,
)
IsStatus-of _ n eq = cc

start-eq :
    (n : ℕ) (m : Text)
    → IsStatus n m
    → http_start_response n ≡ some (codes "HTTP/1.1 " ++ (decimal n ++ 32 ∷ (m ++ crlf)))
unfolding http_start_response
start-eq n m is = rw is.message refl

IsText-Avoids : (s : Text) → IsText s → Avoids 0 s
IsText-Avoids [] h = tt
IsText-Avoids (b ∷ s) h = (h.0, IsText-Avoids s h.1)

-- kvresponse_send of a type that has a code, and of a body that fits, prints the whole message.
send-eq :
    (res : Response) (n : ℕ) (m : Text)
    → http_code_for res.type ≡ pos n
    → (is : IsStatus n m) → (fits : length (body_text res.body) ≤ 8132)
    → kvresponse_send res ≡ some (message_bytes n m (body_text res.body) is fits)
unfolding kvresponse_send fits_buffers
send-eq res n m eq is fits =
    let body = body_text res.body in
    let msg = codes "HTTP/1.1 " ++ (decimal n ++ 32 ∷ (m ++ crlf)) in
    let printed = print_response-body msg res.body ∙ print_response-eq n m body is fits in
    rw (eq, kvresponse_send, start-eq n m is, printed, length_text-body res.body)
      (ground
        (arith, length-decimal 3 (length body) (omega arith), message_bytes-short n m body is fits))

-- A response whose type has a status code, and whose body is a C string of at most 8132 bytes or
-- missing, is sent, and kvresponse_recieve reads it back from its bytes: the same type, and the same
-- body, where a missing one has become empty.
pub receive-response :
    (res : Response) (n : ℕ)
    → http_code_for res.type ≡ pos n
    → IsText (body_text res.body)
    → length (body_text res.body) ≤ 8132
    → (bytes : Text) × (kvresponse_send res ≡ some bytes)
      × (kvresponse_recieve bytes ≡ got (arrived res))
unfolding kvresponse_recieve
receive-response res n eq text fits =
    let (m, is, types) = IsStatus-of res.type n eq in
    let body = body_text res.body in
    (
      message_bytes n m body is fits,
      send-eq res n m eq is fits,
      rw (http_response_parse-eq n m body is fits (IsText-Avoids body text)) (types body),
    )
