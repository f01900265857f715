-- ===== src/Url.antt =====
-- hw4/src/liburl.c: the parameters of a URL. A URL is a C string, without its NUL.
--
-- The loop over the parameters goes on behind an `&`, so the length of the URL is fuel enough.
pub mod RoundTrip
mod Tests
use cs162hw.Base.{
  ℕ, zero, suc, ◌+◌, Bool, true, false, ◌&&◌, Option, none, some, List, [], ◌∷◌, ◌++◌, length, ltb,
  leb, ◌==◌, if◌then◌else◌,
}
use cs162hw.Base.Text.{Text, codes}

-- struct url_params
pub record Params : Type 0 where
  pub path : Option Text
  pub key : Option Text
  pub val : Option Text

abbrev pub no_params : Params
no_params = record { path = none; key = none; val = none }

-- The bytes before the first `c`, or all of them; and those behind it, where strchr finds it.
unfoldable pub until : ℕ → Text → Text
until c [] = []
until c (b ∷ s) = if b == c then [] else b ∷ until c s

unfoldable pub behind : ℕ → Text → Option Text
behind c [] = none
behind c (b ∷ s) = if b == c then some s else behind c s

-- `strncmp(s, t, strlen(s)) == 0`
unfoldable pub is_prefix : Text → Text → Bool
is_prefix [] t = true
is_prefix (a ∷ s) [] = false
is_prefix (a ∷ s) (b ∷ t) = a == b && is_prefix s t

-- param_ptr and the store through it: a parameter is taken by any beginning of its name.
unfoldable pub set_param : Params → Text → Text → Params
set_param p name value =
    if is_prefix name (codes "key")
    then record p { key = some value }
    else if is_prefix name (codes "val")
    then record p { val = some value }
    else p

-- The loop of url_decode. It ends where there is no `=`, or behind the last `&`. A name that
-- param_ptr takes has no `&`, so the value lies between the `=` and the next `&`.
unfoldable pub decode_loop : ℕ → Params → Text → Params
decode_loop zero p url = p
decode_loop (suc fuel) p url = elim (behind b'=' url) [
  | none ↦ p
  | some value ↦
      let p' = set_param p (until b'=' url) (until b'&' value) in
      elim (behind b'&' url) [ none ↦ p' | some rest ↦ decode_loop fuel p' rest ]
]

-- The path without its `/`, if there is more than that.
unfoldable pub path_of : Text → Option Text
path_of [] = none
path_of (slash ∷ []) = none
path_of (slash ∷ b ∷ s) = some (b ∷ s)

-- url_decode
unfoldable pub url_decode : Text → Params
url_decode url = elim (behind b'?' url) [
  | none ↦ record no_params { path = path_of url }
  | some rest ↦
      decode_loop (suc (length rest)) (record no_params { path = path_of (until b'?' url) }) rest
]

unfoldable pub print_param : Text → Option Text → Text
print_param name none = []
print_param name (some value) = name ++ b'=' ∷ (value ++ b'&' ∷ [])

abbrev pub print_path : Option Text → Text
print_path none = codes "/?"
print_path (some path) = b'/' ∷ (path ++ b'?' ∷ [])

-- What url_encode prints into `buf`.
unfoldable pub print_url : Params → Text
print_url p =
    print_path p.path ++ (print_param (codes "key") p.key ++ print_param (codes "val") p.val)

-- `buf[end - 1] = '\0'`
unfoldable pub drop_last : Text → Text
drop_last [] = []
drop_last (b ∷ []) = []
drop_last (b ∷ c ∷ s) = b ∷ drop_last (c ∷ s)

-- url_encode; `none` where sprintf writes behind the 128 bytes of `buf`.
unfoldable pub url_encode : Params → Option Text
url_encode p =
    let url = print_url p in if leb (length url + 1) 128 then some (drop_last url) else none
