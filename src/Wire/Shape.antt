-- ===== src/Wire/Shape.antt =====
-- What kvrequest_send puts into a URL, and what kvrequest_recieve makes of the method.
use cs162hw.Base.{
  ℕ, ◌≤◌, ◌<◌, ◌≡◌, refl, Option, none, some, [], ◌∷◌, ◌++◌, length, length-append, arith, true,
}
use cs162hw.Base.Text.{Text, codes}
use cs162hw.Consts.{MsgType, getreq, putreq, delreq, register, commit, abort}
use cs162hw.Url.{print_url, print_param, drop_last, is_prefix}
use cs162hw.Url.RoundTrip.{Avoids, AvoidsOpt, IsPath}
use cs162hw.Http.{http_is_valid_method, is_valid_method}
use cs162hw.Wire.{type_of_post, type_of_request, method_for, path_for}
use cs162hw.Wire.Parse.{Avoids-append, drop_last-Avoids}

-- Strings that pass through: no `&`, space, line feed or NUL.
pub record Passes (s : Text) : Type 0 where
  pub no_and : Avoids b'&' s
  pub no_space : Avoids 32 s
  pub no_feed : Avoids 10 s
  pub no_nul : Avoids 0 s

abbrev pub PassesOpt : Option Text → Type 0
PassesOpt none = Unit
PassesOpt (some s) = Passes s

-- The strings that a request of the type has to have; an INDEX and a response cannot be sent.
abbrev pub Sendable : MsgType → Option Text → Option Text → Type 0
Sendable getreq k v = (key : Text) × (k ≡ some key)
Sendable putreq k v = (key : Text) × (val : Text) × (k ≡ some key) × (v ≡ some val)
Sendable delreq k v = (key : Text) × (k ≡ some key)
Sendable register k v = (key : Text) × (val : Text) × (k ≡ some key) × (v ≡ some val)
Sendable commit k v = Unit
Sendable abort k v = Unit
Sendable _ k v = ⊥

pub print_param-Avoids :
    (c : ℕ) (name : Text) (v : Option Text)
    → c < 33
    → Avoids c name
    → AvoidsOpt c v
    → Avoids c (print_param name v)
unfolding print_param
print_param-Avoids c name none small hn hv = tt
print_param-Avoids c name (some v) small hn hv =
    Avoids-append c name _ hn (omega arith, Avoids-append c v _ hv (omega arith, tt))

pub drop_last-slash : (s : Text) → 0 < length s → drop_last (b'/' ∷ s) ≡ b'/' ∷ drop_last s
unfolding drop_last
drop_last-slash [] lt = absurd (omega arith)
drop_last-slash (b ∷ s) lt = refl

pub params-Avoids :
    (c : ℕ) (k v : Option Text)
    → c < 33
    → AvoidsOpt c k
    → AvoidsOpt c v
    → Avoids c (print_param (codes "key") k ++ print_param (codes "val") v)
params-Avoids c k v small hk hv =
    Avoids-append c (print_param (codes "key") k) (print_param (codes "val") v)
      (print_param-Avoids c (codes "key") k small (omega arith) hk)
      (print_param-Avoids c (codes "val") v small (omega arith) hv)

-- A URL is a slash and bytes that its strings or its punctuation have.
pub url_shape :
    (path k v : Option Text)
    → (u : Text) × (drop_last (print_url (record { path = path; key = k; val = v })) ≡ b'/' ∷ u)
      × ((c : ℕ) → c < 33 → AvoidsOpt c path → AvoidsOpt c k → AvoidsOpt c v → Avoids c u)
unfolding print_url
url_shape none k v =
    let tail = b'?' ∷ (print_param (codes "key") k ++ print_param (codes "val") v) in
    (
      drop_last tail,
      drop_last-slash tail (omega arith),
      λ c small hp hk hv. drop_last-Avoids c tail (omega arith, params-Avoids c k v small hk hv),
    )
url_shape (some path) k v =
    let tail =
      (path ++ b'?' ∷ []) ++ (print_param (codes "key") k ++ print_param (codes "val") v) in
    (
      drop_last tail,
      drop_last-slash tail (
          omega (
            arith,
            length-append path (b'?' ∷ []),
            length-append (path ++ b'?' ∷ [])
                (print_param (codes "key") k ++ print_param (codes "val") v),
          )),
      λ c small hp hk hv. drop_last-Avoids c tail (
          Avoids-append c (path ++ b'?' ∷ []) _ (Avoids-append c path _ hp (omega arith, tt))
            (params-Avoids c k v small hk hv)),
    )

pub Passes-Avoids :
    (v : Option Text)
    → PassesOpt v
    → AvoidsOpt b'&' v × AvoidsOpt 32 v × AvoidsOpt 10 v × AvoidsOpt 0 v
Passes-Avoids none h = (tt, tt, tt, tt)
Passes-Avoids (some s) h = (h.no_and, h.no_space, h.no_feed, h.no_nul)

-- The method of a type that can be sent is valid, and its path is clean.
abbrev pub Sent : MsgType → Text → Type 0
Sent t method =
    (is_valid_method method ≡ true)
    × (http_is_valid_method method ≡ true)
    × (length method ≤ 8)
    × Avoids 32 method
    × Avoids 0 method
    × IsPath (path_for t)
    × ((c : ℕ) → c < 33 → AvoidsOpt c (path_for t))

-- What a method and the strings read back as.
abbrev pub Reads : MsgType → Option Text → Option Text → Text → Type 0
Reads t k v method =
    (method_for t ≡ some method)
    × Sent t method
    × (type_of_request method (record { path = path_for t; key = k; val = v }) ≡ t)

pub reads :
    (t : MsgType) (k v : Option Text) → Sendable t k v → (method : Text) × Reads t k v method
unfolding method_for path_for is_valid_method http_is_valid_method type_of_request type_of_post
    is_prefix
reads getreq k v (key, ek) = (
  codes "GET",
  (refl, (refl, refl, omega arith, omega arith, omega arith, tt, λ c small. tt), rw ek refl),
)
reads putreq k v (key, val, ek, ev) = (
  codes "PUT",
  (refl, (refl, refl, omega arith, omega arith, omega arith, tt, λ c small. tt), rw (ek, ev) refl),
)
reads delreq k v (key, ek) = (
  codes "DELETE",
  (refl, (refl, refl, omega arith, omega arith, omega arith, tt, λ c small. tt), rw ek refl),
)
reads register k v (key, val, ek, ev) = (
  codes "POST",
  (
    refl,
    (refl, refl, omega arith, omega arith, omega arith, (cc, omega arith), λ c small. omega arith),
    rw (ek, ev) refl,
  ),
)
reads commit k v h = (
  codes "POST",
  (
    refl,
    (refl, refl, omega arith, omega arith, omega arith, (cc, omega arith), λ c small. omega arith),
    refl,
  ),
)
reads abort k v h = (
  codes "POST",
  (
    refl,
    (refl, refl, omega arith, omega arith, omega arith, (cc, omega arith), λ c small. omega arith),
    refl,
  ),
)
reads _ k v h = elim h [ ]
