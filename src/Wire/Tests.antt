-- ===== src/Wire/Tests.antt =====
-- The theorems of the messages at concrete inputs.
use cs162hw.Base.{◌≡◌, ◌≢◌, refl, some, arith, ◌++◌, ◌∷◌, []}
use cs162hw.Base.Text.{Text, codes}
use cs162hw.Consts.{putreq, getresp}
use cs162hw.Message.{Request, Response, arrived}
use cs162hw.Http.Reply.{got, unfinished, http_response_parse}
use cs162hw.Http.Scan.{parse-ends}
use cs162hw.Wire.Answer.{receive-response}
use cs162hw.Url.{print_url, print_param}
use cs162hw.Wire.{
  path_for, kvrequest_send, kvrequest_recieve, kvresponse_send, kvresponse_recieve, http_code_for,
}
use cs162hw.Wire.RoundTrip.{receive-send}
use cs162hw.Wire.Shape.{Passes}

abbrev put_ab : Request
put_ab = record { type = putreq; key = some (codes "ab"); val = some (codes "1") }

ab-Passes : Passes (codes "ab")
ab-Passes = record {
  no_and = omega arith;
  no_space = omega arith;
  no_feed = omega arith;
  no_nul = omega arith;
}

one-Passes : Passes (codes "1")
one-Passes = record {
  no_and = omega arith;
  no_space = omega arith;
  no_feed = omega arith;
  no_nul = omega arith;
}

receive-send_example :
    (bytes : Text) × (kvrequest_send put_ab ≡ some bytes) × (kvrequest_recieve bytes ≡ some put_ab)
unfolding print_url print_param path_for
receive-send_example =
    receive-send put_ab (codes "ab", codes "1", refl, refl) ab-Passes one-Passes (omega arith)

abbrev got_ab : Response
got_ab = record { type = getresp; body = some (codes "ab") }

receive-response_example :
    (bytes : Text) × (kvresponse_send got_ab ≡ some bytes)
    × (kvresponse_recieve bytes ≡ got (arrived got_ab))
unfolding http_code_for
receive-response_example = receive-response got_ab 200 refl (omega arith) (omega arith)

-- A line that ends with LF alone, and nothing behind it.
parse-ends_example : http_response_parse (codes "HTTP/1.1 200 OK" ++ 10 ∷ []) ≢ unfinished
parse-ends_example = parse-ends (codes "HTTP/1.1 200 OK" ++ 10 ∷ [])
