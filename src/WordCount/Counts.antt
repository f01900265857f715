-- ===== src/WordCount/Counts.antt =====
-- What wc counts.
use cs162hw.Base.{
  ℕ, suc, ◌+◌, ◌≡◌, ◌≢◌, ◌∙◌, refl, ap, Bool, true, false, ◌&&◌, not, List, [], ◌∷◌, ◌++◌, length,
  ◌==◌, if◌then◌else◌, arith, Bool-cases, inl, inr,
}
use cs162hw.Base.Text.{Text}
use cs162hw.WordCount.{Count, start, is_space, stdin_step, file_step, stdin_loop, file_loop}

-- The bytes of a text file: neither NUL nor 255.
abbrev pub IsInput : Text → Type 0
IsInput [] = Unit
IsInput (b ∷ s) = (b ≢ 0) × (b ≢ 255) × IsInput s

abbrev pub ends_of_lines : Text → ℕ
ends_of_lines [] = 0
ends_of_lines (b ∷ s) = if b == 10 then suc (ends_of_lines s) else ends_of_lines s

-- The words of a text, behind the word `cur` that is not yet closed.
abbrev pub words_behind : Text → Text → List Text
words_behind [] [] = []
words_behind (c ∷ cur) [] = (c ∷ cur) ∷ []
words_behind [] (b ∷ s) = if is_space b then words_behind [] s else words_behind (b ∷ []) s
words_behind (c ∷ cur) (b ∷ s) =
    if is_space b then (c ∷ cur) ∷ words_behind [] s else words_behind ((c ∷ cur) ++ b ∷ []) s

-- The two loops agree but for the byte that they have seen last.
abbrev Agree : Count → Count → Type 0
Agree c d =
    (c.lines ≡ d.lines)
    × (c.words ≡ d.words)
    × (c.chars ≡ d.chars)
    × (is_space c.prev ≡ is_space d.prev)

step-Agree : (c d : Count) (b : ℕ) → Agree c d → Agree (stdin_step c b) (file_step d b)
unfolding stdin_step file_step
step-Agree c d b (lines, words, chars, prev) = elim (Bool-cases (b == 0)) [
  | inl nul ↦ rw nul (lines, words, ap suc chars, prev)
  | inr other ↦
      rw (other, lines, words, chars, prev)
        (
          refl,
          refl,
          refl,
          elim (Bool-cases (b == 10)) [
            | inl feed ↦ rw feed (ground arith)
            | inr plain ↦ rw plain refl
          ],
        )
]

loop-Agree : (c d : Count) (s : Text) → Agree c d → Agree (stdin_loop c s) (file_loop d s)
unfolding stdin_loop file_loop
loop-Agree c d [] agree = agree
loop-Agree c d (b ∷ s) agree = elim (Bool-cases (b == 255)) [
  | inl end ↦ rw end agree
  | inr more ↦ rw more (loop-Agree (stdin_step c b) (file_step d b) s (step-Agree c d b agree))
]

-- A word that is not yet closed has been counted.
abbrev is_open : Text → ℕ
is_open [] = 0
is_open (c ∷ cur) = 1

abbrev is_nil : Text → Bool
is_nil [] = true
is_nil (c ∷ cur) = false

stdin_step-prev : (c : Count) (b : ℕ) → b ≢ 0 → (stdin_step c b).prev ≡ b
unfolding stdin_step
stdin_step-prev c b n0 = ground arith

other_byte : (m n : ℕ) → n ≢ m → (n == m) ≡ false
other_byte m n ne = ground arith

-- A byte that starts a word is counted, and no other.
step_starts :
    (c : Count) (b : ℕ)
    → b ≢ 0
    → (is_space c.prev && not (is_space b)) ≡ true
    → (stdin_step c b).words ≡ suc c.words
unfolding stdin_step
step_starts c b n0 starts = rw (other_byte 0 b n0, starts) refl

step_goes_on :
    (c : Count) (b : ℕ)
    → b ≢ 0
    → (is_space c.prev && not (is_space b)) ≡ false
    → (stdin_step c b).words ≡ c.words
unfolding stdin_step
step_goes_on c b n0 goes = rw (other_byte 0 b n0, goes) refl

stdin_loop-cons :
    (c : Count) (b : ℕ) (s : Text) → b ≢ 255 → stdin_loop c (b ∷ s) ≡ stdin_loop (stdin_step c b) s
unfolding stdin_loop
stdin_loop-cons c b s n255 = rw (other_byte 255 b n255) refl

words_lem :
    (s : Text) (cur : Text) (c : Count)
    → IsInput s
    → is_space c.prev ≡ is_nil cur
    → (stdin_loop c s).words + is_open cur ≡ c.words + length (words_behind cur s)
words_lem [] [] c input prev = unfold stdin_loop in refl
words_lem [] (a ∷ cur) c input prev = unfold stdin_loop in refl
words_lem (b ∷ s) [] c (n0, n255, input) prev = elim (Bool-cases (is_space b)) [
  | inl space ↦
      let go_on = step_goes_on c b n0 (rw (prev, space) refl) in
      rw (stdin_loop-cons c b s n255, space)
        (omega (
          arith,
          go_on,
          words_lem s [] (stdin_step c b) input (ap is_space (stdin_step-prev c b n0) ∙ space),
        ))
  | inr letter ↦
      let starts = step_starts c b n0 (rw (prev, letter) refl) in
      rw (stdin_loop-cons c b s n255, letter)
        (omega (
          arith,
          starts,
          words_lem s (b ∷ []) (stdin_step c b) input
              (ap is_space (stdin_step-prev c b n0) ∙ letter),
        ))
]
words_lem (b ∷ s) (a ∷ cur) c (n0, n255, input) prev =
    let go_on = step_goes_on c b n0 (rw prev refl) in
    elim (Bool-cases (is_space b)) [
      | inl space ↦
          rw (stdin_loop-cons c b s n255, space)
            (omega (
              arith,
              go_on,
              words_lem s [] (stdin_step c b) input (ap is_space (stdin_step-prev c b n0) ∙ space),
            ))
      | inr letter ↦
          rw (stdin_loop-cons c b s n255, letter)
            (omega (
              arith,
              go_on,
              words_lem s ((a ∷ cur) ++ b ∷ []) (stdin_step c b) input
                  (ap is_space (stdin_step-prev c b n0) ∙ letter),
            ))
    ]

lines_lem :
    (s : Text) (c : Count)
    → IsInput s
    → ((stdin_loop c s).lines ≡ c.lines + ends_of_lines s)
      × ((stdin_loop c s).chars ≡ c.chars + length s)
unfolding stdin_loop stdin_step
lines_lem [] c input = (omega arith, omega arith)
lines_lem (b ∷ s) c (n0, n255, input) = ground (arith, lines_lem s (stdin_step c b) input)

-- On a text without NUL and 255, wc counts the ends of lines, the words between white space, and
-- the bytes; and the loop over a file counts what the loop over standard input counts.
pub wc-counts :
    (s : Text)
    → IsInput s
    → ((stdin_loop start s).lines ≡ ends_of_lines s)
      × ((stdin_loop start s).words ≡ length (words_behind [] s))
      × ((stdin_loop start s).chars ≡ length s)
      × ((file_loop start s).lines ≡ ends_of_lines s)
      × ((file_loop start s).words ≡ length (words_behind [] s))
      × ((file_loop start s).chars ≡ length s)
wc-counts s input =
    let (lines, chars) = lines_lem s start input in
    let words = words_lem s [] start input refl in
    let (same_lines, same_words, same_chars, prev) =
      loop-Agree start start s (refl, refl, refl, refl) in
    (
      omega (arith, lines),
      omega (arith, words),
      omega (arith, chars),
      omega (arith, lines, same_lines),
      omega (arith, words, same_words),
      omega (arith, chars, same_chars),
    )
