-- ===== src/Url/Tests.antt =====
-- The theorems of the URL parameters at concrete inputs.
use cs162hw.Base.{ℕ, zero, suc, ◌≡◌, ◌≤◌, ◌<◌, ◌⊎◌, refl, none, some, [], ◌∷◌, arith, length, ◌+◌}
use cs162hw.Base.Text.{Text, codes}
use cs162hw.Url.{Params, url_decode, url_encode, print_url}
use cs162hw.Url.RoundTrip.{IsClean, decode-encode, encode_overflow}

abbrev sample : Params
sample = record { path = none; key = some (codes "ab"); val = some (codes "c=d") }

sample-IsClean : IsClean sample
sample-IsClean = record {
  path = tt;
  key = (omega arith, (omega arith, tt));
  val = (omega arith, (omega arith, (omega arith, tt)));
}

decode-encode_example :
    ((length (print_url sample) + 1 ≤ 128)
      × ((url : Text) × (url_encode sample ≡ some url) × (url_decode url ≡ sample)))
    ⊎ ((128 < length (print_url sample) + 1) × (url_encode sample ≡ none))
decode-encode_example = decode-encode sample sample-IsClean

abbrev repeat : ℕ → Text
repeat zero = []
repeat (suc n) = b'k' ∷ repeat n

abbrev long : Params
long = record { path = none; key = some (repeat 124); val = none }

encode_overflow_example : url_encode long ≡ none
encode_overflow_example = encode_overflow long (repeat 124) refl (omega arith)
