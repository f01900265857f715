-- ===== src/Shell/Tokens.antt =====
-- The tokens of a line are its words.
use cs162hw.Base.{
  ℕ, zero, suc, ◌<◌, ◌≡◌, ◌∙◌, refl, ap, Bool, true, false, List, [], ◌∷◌, ◌++◌, length, take, ◌⊎◌,
  arith, append-nil, inl, inr,
}
use cs162hw.Base.Text.{Text}
use cs162hw.Shell.{is_sep, skip_seps, cut_token, toks_loop, get_toks, max_toks}

abbrev pub AreSeps : Text → Type 0
AreSeps [] = Unit
AreSeps (b ∷ s) = (is_sep b ≡ true) × AreSeps s

abbrev pub NoSeps : Text → Type 0
NoSeps [] = Unit
NoSeps (b ∷ s) = (is_sep b ≡ false) × NoSeps s

-- A line as words, each behind the separators before it.
abbrev pub line_of : List (Text × Text) → Text → Text
line_of [] end = end
line_of ((gap, word) ∷ ws) end = gap ++ (word ++ line_of ws end)

abbrev pub words_of : List (Text × Text) → List Text
words_of [] = []
words_of ((gap, word) ∷ ws) = word ∷ words_of ws

-- A gap consists of separators; between two words there is one at least.
abbrev pub IsLine : Bool → List (Text × Text) → Type 0
IsLine first [] = Unit
IsLine first ((gap, word) ∷ ws) =
    AreSeps gap
    × ((first ≡ true) ⊎ (0 < length gap))
    × NoSeps word
    × (0 < length word)
    × IsLine false ws

skip_seps-append : (gap s : Text) → AreSeps gap → skip_seps (gap ++ s) ≡ skip_seps s
unfolding skip_seps
skip_seps-append [] s h = refl
skip_seps-append (b ∷ gap) s h = rw h.0 (skip_seps-append gap s h.1)

skip_seps-word : (b : ℕ) (s : Text) → is_sep b ≡ false → skip_seps (b ∷ s) ≡ b ∷ s
unfolding skip_seps
skip_seps-word b s h = rw h refl

cut_token-end : (word : Text) → NoSeps word → cut_token word ≡ (word, [])
unfolding cut_token
cut_token-end [] h = refl
cut_token-end (b ∷ word) h = rw (cut_token-end word h.1, h.0) refl

cut_token-append :
    (word : Text) (b : ℕ) (s : Text)
    → NoSeps word
    → is_sep b ≡ true
    → cut_token (word ++ b ∷ s) ≡ (word, s)
unfolding cut_token
cut_token-append [] b s h sep = rw sep refl
cut_token-append (c ∷ word) b s h sep = rw (cut_token-append word b s h.1 sep, h.0) refl

skip_seps-all : (s : Text) → AreSeps s → skip_seps s ≡ []
unfolding skip_seps
skip_seps-all [] h = refl
skip_seps-all (b ∷ s) h = rw h.0 (skip_seps-all s h.1)

toks_loop-seps : (n : ℕ) (s : Text) → AreSeps s → toks_loop n s ≡ []
unfolding toks_loop
toks_loop-seps zero s h = refl
toks_loop-seps (suc n) s h = rw (skip_seps-all s h, toks_loop) refl

-- One round of the loop.
module _ (n : ℕ) (gap : Text) (b : ℕ) (word : Text) (hg : AreSeps gap)
    (hw : NoSeps (b ∷ word)) where
  skipped : (s : Text) → skip_seps (gap ++ ((b ∷ word) ++ s)) ≡ (b ∷ word) ++ s
  skipped s = skip_seps-append gap ((b ∷ word) ++ s) hg ∙ skip_seps-word b (word ++ s) hw.0

  toks_loop-last : toks_loop (suc n) (gap ++ ((b ∷ word) ++ [])) ≡ (b ∷ word) ∷ toks_loop n []
  unfolding toks_loop
  toks_loop-last = rw (skipped [], toks_loop, append-nil word, cut_token-end (b ∷ word) hw) refl

  toks_loop-more :
      (c : ℕ) (s : Text)
      → is_sep c ≡ true
      → toks_loop (suc n) (gap ++ ((b ∷ word) ++ c ∷ s)) ≡ (b ∷ word) ∷ toks_loop n s
  unfolding toks_loop
  toks_loop-more c s sep =
      rw (skipped (c ∷ s), toks_loop, cut_token-append (b ∷ word) c s hw sep) refl

toks_loop-line :
    (n : ℕ) (first : Bool) (ws : List (Text × Text)) (end : Text)
    → IsLine first ws
    → AreSeps end
    → toks_loop n (line_of ws end) ≡ take n (words_of ws)
toks_loop-line zero first ws end h he = unfold toks_loop in refl
toks_loop-line (suc n) first [] end h he = toks_loop-seps (suc n) end he
toks_loop-line (suc n) first ((gap, []) ∷ ws) end (hg, some_gap, hw, lt, rest) he =
    absurd (omega arith)
toks_loop-line (suc n) first ((gap, b ∷ word) ∷ []) [] (hg, some_gap, hw, lt, rest) he =
    toks_loop-last n gap b word hg hw ∙ ap (λ t. (b ∷ word) ∷ t) (toks_loop-line n true [] [] tt tt)
toks_loop-line (suc n) first ((gap, b ∷ word) ∷ []) (c ∷ end) (hg, some_gap, hw, lt, rest) he =
    toks_loop-more n gap b word hg hw c end he.0
    ∙ ap (λ t. (b ∷ word) ∷ t) (toks_loop-line n true [] end tt he.1)
toks_loop-line (suc n) first ((gap, b ∷ word) ∷ ([], w) ∷ ws) end (hg, some_gap, hw, lt, rest) he =
    absurd (elim rest.1 [ inl same ↦ cc | inr longer ↦ omega (arith, longer) ])
toks_loop-line (suc n) first ((gap, b ∷ word) ∷ (c ∷ gap', w) ∷ ws) end (hg, some_gap, hw, lt, rest)
      he =
    toks_loop-more n gap b word hg hw c (gap' ++ (w ++ line_of ws end)) rest.0.0
    ∙ ap (λ t. (b ∷ word) ∷ t)
        (toks_loop-line n true ((gap', w) ∷ ws) end (rest.0.1, inl refl, rest.2, rest.3, rest.4) he)

-- The tokens of a line are its words, in order, and the first 100 of them where there are more.
pub get_toks-words :
    (ws : List (Text × Text)) (end : Text)
    → IsLine true ws
    → AreSeps end
    → get_toks (line_of ws end) ≡ take max_toks (words_of ws)
unfolding get_toks
get_toks-words ws end h he = toks_loop-line max_toks true ws end h he
