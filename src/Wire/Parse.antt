-- ===== src/Wire/Parse.antt =====
-- http_request_parse on the bytes of a request.
use cs162hw.Base.{
  ℕ, zero, suc, ◌≤◌, ◌<◌, ◌≡◌, ◌∙◌, refl, ap, some, [], ◌∷◌, ◌++◌, length, take, length-append,
  arith, true,
}
use cs162hw.Base.Text.{Text, c_str}
use cs162hw.Url.{drop_last}
use cs162hw.Url.RoundTrip.{Avoids, until-append, behind-append}
use cs162hw.Http.{
  http_is_valid_method, scan_path, parse_path, parse_buffer, http_request_parse, max_size,
}

pub Avoids-append : (c : ℕ) (s t : Text) → Avoids c s → Avoids c t → Avoids c (s ++ t)
Avoids-append c [] t hs ht = ht
Avoids-append c (b ∷ s) t hs ht = (hs.0, Avoids-append c s t hs.1 ht)

pub drop_last-Avoids : (c : ℕ) (s : Text) → Avoids c s → Avoids c (drop_last s)
unfolding drop_last
drop_last-Avoids c [] h = tt
drop_last-Avoids c (b ∷ []) h = tt
drop_last-Avoids c (b ∷ d ∷ s) h = (h.0, drop_last-Avoids c (d ∷ s) h.1)

pub length-drop_last : (s : Text) → length (drop_last s) ≤ length s
unfolding drop_last
length-drop_last [] = omega arith
length-drop_last (b ∷ []) = omega arith
length-drop_last (b ∷ d ∷ s) = omega (arith, length-drop_last (d ∷ s))

pub c_str-Avoids : (s : Text) → Avoids 0 s → c_str s ≡ s
unfolding c_str
c_str-Avoids [] h = refl
c_str-Avoids (b ∷ s) h = ground (arith, c_str-Avoids s h.1)

pub take_all : (n : ℕ) (s : Text) → length s ≤ n → take n s ≡ s
take_all zero [] le = refl
take_all zero (b ∷ s) le = absurd (omega arith)
take_all (suc n) [] le = refl
take_all (suc n) (b ∷ s) le = ap (λ t. b ∷ t) (take_all n s (omega arith))

pub scan_path-append : (s t : Text) → Avoids 32 s → Avoids 10 s → scan_path (s ++ 32 ∷ t) ≡ some s
unfolding scan_path
scan_path-append [] t h h' = refl
scan_path-append (b ∷ s) t h h' = rw (scan_path-append s t h.1 h'.1) (ground arith)

-- A message with a valid method, and a path with no space, line feed or NUL.
module _ (method u t : Text) (short : length (method ++ 32 ∷ ((b'/' ∷ u) ++ 32 ∷ t)) ≤ max_size)
    (m32 : Avoids 32 method) (m0 : Avoids 0 method) (u32 : Avoids 32 u) (u10 : Avoids 10 u)
    (u0 : Avoids 0 u) (t0 : Avoids 0 t) (valid : http_is_valid_method method ≡ true) where
  pub parse_buffer-eq :
      parse_buffer (method ++ 32 ∷ ((b'/' ∷ u) ++ 32 ∷ t))
      ≡ some (record { method = method; path = b'/' ∷ u })
  unfolding parse_buffer parse_path
  parse_buffer-eq =
      rw
        (
          behind-append 32 method _ m32,
          until-append 32 method ((b'/' ∷ u) ++ 32 ∷ t) m32,
          valid,
          scan_path-append u t u32 u10,
        )
        refl

  pub parse-eq :
      http_request_parse (method ++ 32 ∷ ((b'/' ∷ u) ++ 32 ∷ t))
      ≡ some (record { method = method; path = b'/' ∷ u })
  parse-eq =
      nonempty (method ++ 32 ∷ ((b'/' ∷ u) ++ 32 ∷ t)) some_there
      ∙ rw (take_all max_size _ short, c_str-Avoids _ clean) parse_buffer-eq
    where
      clean : Avoids 0 (method ++ 32 ∷ ((b'/' ∷ u) ++ 32 ∷ t))
      clean =
          Avoids-append 0 method _ m0
            (omega arith, Avoids-append 0 (b'/' ∷ u) (32 ∷ t) (omega arith, u0) (omega arith, t0))

      some_there : 0 < length (method ++ 32 ∷ ((b'/' ∷ u) ++ 32 ∷ t))
      some_there = ground (arith, length-append method (32 ∷ ((b'/' ∷ u) ++ 32 ∷ t)))

      nonempty :
          (s : Text) → 0 < length s → http_request_parse s ≡ parse_buffer (c_str (take max_size s))
      nonempty [] lt = absurd (omega arith)
      nonempty (b ∷ s) lt = unfold http_request_parse in refl
