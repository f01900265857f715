-- ===== src/Url/RoundTrip.antt =====
-- url_decode after url_encode.
use cs162hw.Base.{
  ℕ, suc, ◌+◌, ◌≤◌, ◌<◌, ◌≡◌, ◌≢◌, ◌∙◌, ap, refl, ◌⊎◌, inl, inr, Option, none, some, [], ◌∷◌, ◌++◌,
  length, leb, arith, Bool-cases, append_assoc, append-nil, length-append,
}
use cs162hw.Base.Text.{Text, codes}
use cs162hw.Url.{
  Params, no_params, until, behind, is_prefix, set_param, decode_loop, path_of, url_decode,
  print_param, print_url, drop_last, url_encode, print_path,
}

-- `c` is not in the text.
abbrev pub Avoids : ℕ → Text → Type 0
Avoids c [] = Unit
Avoids c (b ∷ s) = (b ≢ c) × Avoids c s

abbrev pub AvoidsOpt : ℕ → Option Text → Type 0
AvoidsOpt c none = Unit
AvoidsOpt c (some s) = Avoids c s

pub until-append : (c : ℕ) (s t : Text) → Avoids c s → until c (s ++ c ∷ t) ≡ s
unfolding until
until-append c [] t h = ground arith
until-append c (b ∷ s) t h = ground (arith, until-append c s t h.1)

pub until-all : (c : ℕ) (s : Text) → Avoids c s → until c s ≡ s
unfolding until
until-all c [] h = refl
until-all c (b ∷ s) h = ground (arith, until-all c s h.1)

pub behind-append : (c : ℕ) (s t : Text) → Avoids c s → behind c (s ++ c ∷ t) ≡ some t
unfolding behind
behind-append c [] t h = ground arith
behind-append c (b ∷ s) t h = ground (arith, behind-append c s t h.1)

pub behind-none : (c : ℕ) (s : Text) → Avoids c s → behind c s ≡ none
unfolding behind
behind-none c [] h = refl
behind-none c (b ∷ s) h = ground (arith, behind-none c s h.1)

drop_last-append : (s : Text) (c : ℕ) → drop_last (s ++ c ∷ []) ≡ s
unfolding drop_last
drop_last-append [] c = refl
drop_last-append (b ∷ []) c = refl
drop_last-append (b ∷ d ∷ s) c = rw (drop_last-append (d ∷ s) c)

-- A path that is not empty and has no `?`.
abbrev pub IsPath : Option Text → Type 0
IsPath none = Unit
IsPath (some s) = (s ≢ []) × Avoids b'?' s

-- What url_decode can read back: such a path, and strings with no `&`.
pub record IsClean (p : Params) : Type 0 where
  pub path : IsPath p.path
  pub key : AvoidsOpt b'&' p.key
  pub val : AvoidsOpt b'&' p.val

drop_last-cons : (s : Text) (b : ℕ) (t : Text) → drop_last (s ++ b ∷ t) ≡ s ++ drop_last (b ∷ t)
unfolding drop_last
drop_last-cons [] b t = refl
drop_last-cons (a ∷ []) b t = refl
drop_last-cons (a ∷ c ∷ s) b t = rw (drop_last-cons (c ∷ s) b t)

-- What stands behind the `?` is the parameters, and what stands before it the path.
behind-base :
    (path : Option Text) (tail : Text)
    → IsPath path
    → behind b'?' (print_path path ++ tail) ≡ some tail
unfolding behind
behind-base none tail h = refl
behind-base (some s) tail (ne, h) =
    rw (append_assoc s (b'?' ∷ []) tail) (behind-append b'?' s tail h)

path_of-cons : (s : Text) → s ≢ [] → path_of (b'/' ∷ s) ≡ some s
unfolding path_of
path_of-cons [] ne = absurd (ne refl)
path_of-cons (b ∷ s) ne = refl

path_of-base :
    (path : Option Text) (tail : Text)
    → IsPath path
    → path_of (until b'?' (print_path path ++ tail)) ≡ path
unfolding until
path_of-base none tail h = unfold path_of in refl
path_of-base (some s) tail (ne, h) =
    rw (append_assoc s (b'?' ∷ []) tail, until-append b'?' s tail h) (path_of-cons s ne)

-- A parameter that another follows, and the last parameter.
module _ (fuel : ℕ) (p : Params) (v : Text) (h : Avoids b'&' v) where
  decode_key : decode_loop (suc fuel) p (codes "key=" ++ v) ≡ record p { key = some v }
  unfolding decode_loop behind until set_param is_prefix
  decode_key = rw (behind-none b'&' v h, until-all b'&' v h)

  decode_val : decode_loop (suc fuel) p (codes "val=" ++ v) ≡ record p { val = some v }
  unfolding decode_loop behind until set_param is_prefix
  decode_val = rw (behind-none b'&' v h, until-all b'&' v h)

  decode_key_more :
      (rest : Text)
      → decode_loop (suc fuel) p (codes "key=" ++ (v ++ b'&' ∷ rest))
        ≡ decode_loop fuel (record p { key = some v }) rest
  unfolding decode_loop behind until set_param is_prefix
  decode_key_more rest = rw (behind-append b'&' v rest h, until-append b'&' v rest h, decode_loop)

decode-base :
    (path : Option Text) (tail : Text)
    → IsPath path
    → url_decode (print_path path ++ tail)
      ≡ decode_loop (suc (length tail)) (record no_params { path = path }) tail
unfolding url_decode
decode-base path tail h = rw (behind-base path tail h, url_decode) (rw (path_of-base path tail h))

decode-print_path :
    (path : Option Text)
    → IsPath path
    → url_decode (drop_last (print_url (record { path = path; key = none; val = none })))
      ≡ record { path = path; key = none; val = none }
unfolding print_url print_param url_decode behind
decode-print_path none h = unfold drop_last behind path_of in refl
decode-print_path (some s) (ne, h) =
    rw
      (
        append-nil (s ++ b'?' ∷ []),
        drop_last-append (b'/' ∷ s) b'?',
        behind-none b'?' (b'/' ∷ s) (omega arith, h),
      )
      (rw (path_of-cons s ne))

-- The cases of the two optional strings.
pub decode-print :
    (path key val : Option Text)
    → IsPath path
    → AvoidsOpt b'&' key
    → AvoidsOpt b'&' val
    → url_decode (drop_last (print_url (record { path = path; key = key; val = val })))
      ≡ record { path = path; key = key; val = val }
unfolding print_url print_param
decode-print path none none h hk hv = decode-print_path path h
decode-print path (some k) none h hk hv =
    let text = print_path path in
    let url : drop_last (text ++ (codes "key=" ++ ((k ++ b'&' ∷ []) ++ [])))
        ≡ text ++ (codes "key=" ++ k) =
      rw append-nil (
        drop_last-cons text _ _
        ∙ ap (λ t. text ++ t) (drop_last-append (codes "key=" ++ k) b'&')) in
    rw url (decode-base path _ h ∙ decode_key _ _ k hk)
decode-print path none (some v) h hk hv =
    let text = print_path path in
    let url : drop_last (text ++ (codes "val=" ++ (v ++ b'&' ∷ []))) ≡ text ++ (codes "val=" ++ v) =
      drop_last-cons text _ _ ∙ ap (λ t. text ++ t) (drop_last-append (codes "val=" ++ v) b'&') in
    rw url (decode-base path _ h ∙ decode_val _ _ v hv)
decode-print path (some k) (some v) h hk hv =
    let text = print_path path in
    let url : drop_last
          (text ++ (codes "key=" ++ ((k ++ b'&' ∷ []) ++ (codes "val=" ++ (v ++ b'&' ∷ [])))))
        ≡ text ++ (codes "key=" ++ (k ++ b'&' ∷ (codes "val=" ++ v))) =
      rw (append_assoc k (b'&' ∷ []) (codes "val=" ++ (v ++ b'&' ∷ []))) (
        drop_last-cons text _ _
        ∙ ap (λ t. text ++ t)
            (drop_last-cons (codes "key=" ++ k) _ _
              ∙ ap (λ t. (codes "key=" ++ k) ++ t)
                  (drop_last-append (b'&' ∷ (codes "val=" ++ v)) b'&'))) in
    rw url
      (decode-base path _ h ∙ decode_key_more _ _ k hk (codes "val=" ++ v) ∙ decode_val _ _ v hv)

-- What url_encode prints, url_decode reads back as the same path, key and value, missing ones
-- included, if the path is missing or not empty and has no `?`, and key and value have no `&`.
-- url_encode stays within its buffer exactly where what it prints, with a NUL, has at most 128
-- bytes.
pub decode-encode :
    (p : Params)
    → IsClean p
    → ((length (print_url p) + 1 ≤ 128)
        × ((url : Text) × (url_encode p ≡ some url) × (url_decode url ≡ p)))
      ⊎ ((128 < length (print_url p) + 1) × (url_encode p ≡ none))
unfolding url_encode
decode-encode p clean = elim (Bool-cases (leb (length (print_url p) + 1) 128)) [
  | inl fits ↦ inl (
    ground arith,
    (
      drop_last (print_url p),
      ground arith,
      decode-print p.path p.key p.val clean.path clean.key clean.val,
    ),
  )
  | inr long ↦ inr (ground arith, ground arith)
]

print_path_long : (path : Option Text) → 2 ≤ length (print_path path)
print_path_long none = omega arith
print_path_long (some s) = ground (arith, length-append s (b'?' ∷ []))

print_long :
    (p : Params) (key : Text) → p.key ≡ some key → 124 ≤ length key → 128 < length (print_url p) + 1
unfolding print_url print_param
print_long p key has long =
    let value = print_param (codes "val") p.val in
    let named = codes "key=" ++ (key ++ b'&' ∷ []) in
    simp has (
      ground (
        arith,
        print_path_long p.path,
        length-append (print_path p.path) (named ++ value),
        length-append named value,
        length-append key (b'&' ∷ []),
      ))

-- A key of 124 bytes or more does not fit into the buffer of url_encode, whatever the path and the
-- value are; the limit on keys is 1024.
pub encode_overflow :
    (p : Params) (key : Text) → p.key ≡ some key → 124 ≤ length key → url_encode p ≡ none
unfolding url_encode
encode_overflow p key has long =
    let over : 128 < length (print_url p) + 1 = print_long p key has long in ground arith
