-- ===== src/Base/Text.antt =====
-- C strings: a text is the list of its bytes, none of them NUL. In memory a text ends at the first
-- NUL byte, which `c_str` and `strlen` look for.
use Prim.Native.Nat.{ℕ, ◌+◌}
use Prim.Native.Char.{code}
use Prim.Native.String.{String}
use mathlib.Core.Path.{◌≡◌, refl}
use mathlib.Core.Logic.{◌≢◌, ◌↔◌}
use mathlib.Core.Bool.{Bool, true, false, ◌&&◌, ◌||◌}
use mathlib.Core.List.{List, [], ◌∷◌, ◌++◌}
use native.Mathlib.Omega.{arith}
use cs162hw.Base.Tests.{◌==◌, leb, if◌then◌else◌}
use cs162hw.Base.Lists.{length, drop}

abbrev pub Text : Type 0
Text = List ℕ

-- The bytes of a literal.
abbrev pub codes : String → Text
codes String.[] = []
codes (String.◌∷◌ c s) = code c ∷ codes s

-- `strcmp(s, t) == 0`
abbrev pub str_eq : Text → Text → Bool
str_eq [] [] = true
str_eq (a ∷ s) (b ∷ t) = a == b && str_eq s t
str_eq _ _ = false

-- The string that starts at an address: the bytes up to the first NUL.
unfoldable pub c_str : List ℕ → Text
c_str [] = []
c_str (b ∷ bs) = if b == 0 then [] else b ∷ c_str bs

-- No byte of a C string is NUL.
abbrev pub IsText : Text → Type 0
IsText [] = Unit
IsText (b ∷ s) = (b ≢ 0) × IsText s

-- Behind the white space that atoi and strtol skip.
unfoldable pub skip_space : Text → Text
skip_space [] = []
skip_space (b ∷ s) = if b == 32 || (leb 9 b && leb b 13) then skip_space s else b ∷ s

pub str_eq_sound : (s t : Text) → str_eq s t ≡ true → s ≡ t
str_eq_sound [] [] h = refl
str_eq_sound [] (b ∷ t) h = ground arith
str_eq_sound (a ∷ s) [] h = ground arith
str_eq_sound (a ∷ s) (b ∷ t) h = ground (arith, str_eq_sound s t)

pub str_eq_refl : (s : Text) → str_eq s s ≡ true
str_eq_refl [] = refl
str_eq_refl (a ∷ s) = ground (arith, str_eq_refl s)

pub str_eq_iff : (s t : Text) → (str_eq s t ≡ true) ↔ (s ≡ t)
str_eq_iff s t = (str_eq_sound s t, λ e. ground (arith, str_eq_refl s))

-- A text that is stored with its NUL is read back, whatever follows.
pub c_str-append : (s rest : Text) → IsText s → c_str (s ++ 0 ∷ rest) ≡ s
unfolding c_str
c_str-append [] rest h = refl
c_str-append (b ∷ s) rest h = ground (arith, c_str-append s rest h.1)

-- What stands behind a text and its NUL.
pub drop-nul : (s rest : Text) → drop (length s + 1) (s ++ 0 ∷ rest) ≡ rest
drop-nul s rest = go s
  where
    go : (t : Text) → drop (length t + 1) (t ++ 0 ∷ rest) ≡ rest
    go [] = refl
    go (b ∷ t) = ground (arith, go t)
