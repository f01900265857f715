-- ===== src/Shell/Redirect.antt =====
-- What the redirections of a line do to its tokens.
use cs162hw.Base.{
  ◌≡◌, ◌∙◌, refl, ap, sym, append_assoc, true, false, Option, none, some, List, [], ◌∷◌, ◌++◌,
  get_elem?,
}
use cs162hw.Base.Text.{Text, codes, str_eq, str_eq_refl}
use cs162hw.Shell.{is_there_file_direction, is_back_ground, lookup, read_command}

-- The sign is no token of the list.
abbrev pub Without : Text → List Text → Type 0
Without sign [] = Unit
Without sign (t ∷ ts) = (str_eq t sign ≡ false) × Without sign ts

pub direction-absent :
    (ts : List Text) (sign : Text) (file : Option Text)
    → Without sign ts
    → is_there_file_direction ts sign file ≡ (false, file, ts)
unfolding is_there_file_direction
direction-absent [] sign file h = refl
direction-absent (t ∷ ts) sign file h = rw (direction-absent ts sign file h.1, h.0) refl

pub direction-there :
    (before : List Text) (sign : Text) (after : List Text) (file : Option Text)
    → Without sign before
    → is_there_file_direction (before ++ sign ∷ after) sign file ≡ (true, get_elem? after 0, before)
unfolding is_there_file_direction
direction-there [] sign after file h = rw (str_eq_refl sign) refl
direction-there (t ∷ ts) sign after file h = rw (direction-there ts sign after file h.1, h.0) refl

background-absent : (ts : List Text) → Without (codes "&") ts → is_back_ground ts ≡ (false, ts)
unfolding is_back_ground
background-absent [] h = refl
background-absent (t ∷ ts) h = rw (background-absent ts h.1, h.0) refl

Without-append :
    (sign : Text) (ss ts : List Text) → Without sign ss → Without sign ts → Without sign (ss ++ ts)
Without-append sign [] ts hs ht = ht
Without-append sign (s ∷ ss) ts hs ht = (hs.0, Without-append sign ss ts hs.1 ht)

module _ (cmd : List Text) (f g : Text) (no_out : Without (codes ">") cmd)
    (no_in : Without (codes "<") cmd) (no_back : Without (codes "&") cmd)
    (f_out : str_eq f (codes ">") ≡ false) where
  -- `cmd < f > g` runs the command with both redirections; in `cmd > g < f` the tokens behind the
  -- first sign are dropped, and the input is not redirected.
  pub redirect_order :
      (read_command (cmd ++ codes "<" ∷ f ∷ codes ">" ∷ g ∷ []) ≡ record {
        builtin = lookup (get_elem? (cmd ++ codes "<" ∷ f ∷ codes ">" ∷ g ∷ []) 0);
        change_out = true;
        out_file = some g;
        change_in = true;
        in_file = some f;
        is_back = false;
        tokens = cmd;
      })
      × (read_command (cmd ++ codes ">" ∷ g ∷ codes "<" ∷ f ∷ []) ≡ record {
        builtin = lookup (get_elem? (cmd ++ codes ">" ∷ g ∷ codes "<" ∷ f ∷ []) 0);
        change_out = true;
        out_file = some g;
        change_in = false;
        in_file = some g;
        is_back = false;
        tokens = cmd;
      })
  unfolding read_command
  redirect_order =
      let out1 =
        ap (λ ts. is_there_file_direction ts (codes ">") none)
          (append_assoc cmd (codes "<" ∷ f ∷ []) (codes ">" ∷ g ∷ [])) in
      let first =
        direction-there (cmd ++ codes "<" ∷ f ∷ []) (codes ">") (g ∷ []) none
          (Without-append (codes ">") cmd _ no_out (refl, (f_out, tt))) in
      let second = direction-there cmd (codes "<") (f ∷ []) (some g) no_in in
      (
        rw (sym out1 ∙ first, second, background-absent cmd no_back) refl,
        rw
            (
              direction-there cmd (codes ">") (g ∷ codes "<" ∷ f ∷ []) none no_out,
              direction-absent cmd (codes "<") (some g) no_in,
              background-absent cmd no_back,
            )
            refl,
      )
