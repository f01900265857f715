-- ===== src/Wire/RoundTrip.antt =====
-- kvrequest_recieve after kvrequest_send.
use cs162hw.Base.{
  ◌+◌, ◌≤◌, ◌≡◌, ◌∙◌, refl, ap, sym, Option, some, ◌∷◌, ◌++◌, length, length-append, append_assoc,
  arith, ◌>>=◌, true,
}
use cs162hw.Base.Text.{Text, codes}
use cs162hw.Consts.{MsgType, getreq, putreq, delreq, register, commit, abort}
use cs162hw.Message.{Request}
use cs162hw.Url.{Params, url_decode, url_encode, print_url, drop_last}
use cs162hw.Url.RoundTrip.{decode-print}
use cs162hw.Http.{
  http_request_parse, is_valid_method, crlf, http_start_request, http_end_headers, max_size,
}
use cs162hw.Wire.{
  type_of_request, unless_empty, kvrequest_recieve, method_for, path_for, params_of, kvrequest_send,
}
use cs162hw.Wire.Parse.{length-drop_last, parse-eq}
use cs162hw.Wire.Shape.{PassesOpt, Sendable, url_shape, Passes-Avoids, reads}

-- The bytes of a request.
abbrev wire : Text → Text → Text
wire method u = method ++ 32 ∷ ((b'/' ∷ u) ++ (codes " HTTP/1.1" ++ (crlf ++ crlf)))

wire-eq :
    (method u : Text)
    → http_end_headers (method ++ 32 ∷ ((b'/' ∷ u) ++ (codes " HTTP/1.1" ++ crlf))) ≡ wire method u
unfolding http_end_headers
wire-eq method u =
    append_assoc method (32 ∷ ((b'/' ∷ u) ++ (codes " HTTP/1.1" ++ crlf))) crlf
    ∙ ap (λ x. method ++ 32 ∷ x) (append_assoc (b'/' ∷ u) (codes " HTTP/1.1" ++ crlf) crlf)

url_encode-eq :
    (p : Params) → length (print_url p) + 1 ≤ 128 → url_encode p ≡ some (drop_last (print_url p))
unfolding url_encode
url_encode-eq p fits = ground arith

start-eq :
    (method url : Text)
    → is_valid_method method ≡ true
    → http_start_request method url ≡ some (method ++ 32 ∷ (url ++ (codes " HTTP/1.1" ++ crlf)))
unfolding http_start_request
start-eq method url starts = rw starts refl

unless_empty-eq :
    (t : MsgType) (path k v : Option Text)
    → Sendable t k v
    → unless_empty t (record { path = path; key = k; val = v })
      ≡ some (record { type = t; key = k; val = v })
unless_empty-eq getreq path k v h = refl
unless_empty-eq putreq path k v h = refl
unless_empty-eq delreq path k v h = refl
unless_empty-eq register path k v h = refl
unless_empty-eq commit path k v h = refl
unless_empty-eq abort path k v h = refl
unless_empty-eq _ path k v h = elim h [ ]

module _ (req : Request) (method u : Text)
    (shape : drop_last (print_url (params_of req)) ≡ b'/' ∷ u)
    (fits : length (print_url (params_of req)) + 1 ≤ 128) where
  send-eq :
      method_for req.type ≡ some method
      → is_valid_method method ≡ true
      → kvrequest_send req ≡ some (wire method u)
  unfolding kvrequest_send
  send-eq is starts =
      rw (is, ◌>>=◌, url_encode-eq (params_of req) fits, shape, start-eq method (b'/' ∷ u) starts)
        (ap some (wire-eq method u))

  wire-short : length method ≤ 8 → length (wire method u) ≤ max_size
  wire-short few =
      let tail = codes " HTTP/1.1" ++ (crlf ++ crlf) in
      omega (
        arith,
        few,
        fits,
        ap length shape,
        length-drop_last (print_url (params_of req)),
        length-append method (32 ∷ ((b'/' ∷ u) ++ tail)),
        length-append u tail,
      )

  receive-eq :
      http_request_parse (wire method u) ≡ some (record { method = method; path = b'/' ∷ u })
      → url_decode (b'/' ∷ u) ≡ params_of req
      → type_of_request method (params_of req) ≡ req.type
      → Sendable req.type req.key req.val
      → kvrequest_recieve (wire method u) ≡ some req
  unfolding kvrequest_recieve
  receive-eq parsed decoded type can =
      rw (parsed, ◌>>=◌, decoded, type) (unless_empty-eq req.type _ req.key req.val can)

-- A request that can be sent, whose strings pass through and whose URL fits into the buffer of
-- url_encode, is sent, and kvrequest_recieve reads the same request back from its bytes.
pub receive-send :
    (req : Request)
    → Sendable req.type req.key req.val
    → PassesOpt req.key
    → PassesOpt req.val
    → length (print_url (params_of req)) + 1 ≤ 128
    → (bytes : Text) × (kvrequest_send req ≡ some bytes) × (kvrequest_recieve bytes ≡ some req)
receive-send req can pk pv fits =
    let (method, (is, (starts, valid, few, m32, m0, path, clean), reads_type)) =
      reads req.type req.key req.val can in
    let (u, shape, avoids) = url_shape (path_for req.type) req.key req.val in
    let (k38, k32, k10, k0) = Passes-Avoids req.key pk in
    let (v38, v32, v10, v0) = Passes-Avoids req.val pv in
    (
      wire method u,
      send-eq req method u shape fits is starts,
      receive-eq req method u shape fits
          (parse-eq method u (codes "HTTP/1.1" ++ (crlf ++ crlf))
            (wire-short req method u shape fits few) m32 m0
            (avoids 32 (omega arith) (clean 32 (omega arith)) k32 v32)
            (avoids 10 (omega arith) (clean 10 (omega arith)) k10 v10)
            (avoids 0 (omega arith) (clean 0 (omega arith)) k0 v0) (omega arith) valid)
          (ap url_decode (sym shape)
            ∙ decode-print (path_for req.type) req.key req.val path k38 v38)
          reads_type can,
    )
