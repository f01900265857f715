-- ===== src/Http/Digits.antt =====
-- Numbers that are printed and read back.
use native.Mathlib.Nat.{pow-succ'}
use cs162hw.Base.{
  ℕ, zero, suc, ◌+◌, ◌*◌, ◌/◌, ◌%◌, ◌^◌, ◌≤◌, ◌<◌, ◌≡◌, ◌∙◌, refl, sym, ap, false, [], ◌∷◌, ◌++◌,
  length, pos, ltb, arith, Bool-cases, inl, inr, ltb→lt, ltb→le,
}
use cs162hw.Base.Text.{Text, skip_space}
use cs162hw.Http.Number.{
  print_from, decimal, is_digit, read_digits, read_number, read_signed, strtol, to_int,
}

abbrev pub IsDigits : Text → Type 0
IsDigits [] = Unit
IsDigits (b ∷ s) = (48 ≤ b) × (b ≤ 57) × IsDigits s

print_from-IsDigits : (f n : ℕ) (out : Text) → IsDigits out → IsDigits (print_from f n out)
unfolding print_from
print_from-IsDigits zero n out h = h
print_from-IsDigits (suc f) n out h = elim (Bool-cases (ltb n 10)) [
  | inl small ↦ rw small (omega arith, ground arith, h)
  | inr more ↦
      rw more (print_from-IsDigits f (n / 10) ((48 + n % 10) ∷ out) (omega arith, omega arith, h))
]

pub decimal-IsDigits : (n : ℕ) → IsDigits (decimal n)
unfolding decimal
decimal-IsDigits n = print_from-IsDigits (suc n) n [] tt

print_from-cons :
    (f n : ℕ) (out : Text) → n < f → (b : ℕ) × (s : Text) × (print_from f n out ≡ b ∷ s)
unfolding print_from
print_from-cons zero n out lt = absurd (omega arith)
print_from-cons (suc f) n out lt = elim (Bool-cases (ltb n 10)) [
  | inl small ↦ rw small (48 + n, out, refl)
  | inr more ↦ rw more (print_from-cons f (n / 10) ((48 + n % 10) ∷ out) (ground arith))
]

pub decimal-cons : (n : ℕ) → (b : ℕ) × (s : Text) × (decimal n ≡ b ∷ s)
unfolding decimal
decimal-cons n = print_from-cons (suc n) n [] (omega arith)

-- Reading what is printed before `out` is reading `out` behind the number.
print_from-append :
    (f n : ℕ) (out rest : Text) → print_from f n (out ++ rest) ≡ print_from f n out ++ rest
unfolding print_from
print_from-append zero n out rest = refl
print_from-append (suc f) n out rest =
    ground (arith, print_from-append f (n / 10) ((48 + n % 10) ∷ out) rest)

read_digits-step :
    (n d : ℕ) (out : Text) → d < 10 → read_digits n ((48 + d) ∷ out) ≡ read_digits (n * 10 + d) out
unfolding read_digits
read_digits-step n d out lt = ground arith

read_digits-print :
    (f n : ℕ) (out : Text) → n < f → read_digits 0 (print_from f n out) ≡ read_digits n out
unfolding print_from
read_digits-print zero n out lt = absurd (omega arith)
read_digits-print (suc f) n out lt = elim (Bool-cases (ltb n 10)) [
  | inl small ↦
      rw small
        (read_digits-step 0 n out (ltb→lt n 10 small) ∙ ap (λ m. read_digits m out) (omega arith))
  | inr more ↦ rw more (
      read_digits-print f (n / 10) ((48 + n % 10) ∷ out) (ground arith)
      ∙ read_digits-step (n / 10) (n % 10) out (omega arith)
      ∙ ap (λ m. read_digits m out) (omega arith))
]

read_digits-stop : (n b : ℕ) (s : Text) → is_digit b ≡ false → read_digits n (b ∷ s) ≡ (n, b ∷ s)
unfolding read_digits
read_digits-stop n b s stop = rw stop refl

read_digits-decimal :
    (n b : ℕ) (s : Text) → is_digit b ≡ false → read_digits 0 (decimal n ++ b ∷ s) ≡ (n, b ∷ s)
unfolding decimal
read_digits-decimal n b s stop =
    ap (read_digits 0) (sym (print_from-append (suc n) n [] (b ∷ s)))
    ∙ read_digits-print (suc n) n (b ∷ s) (omega arith)
    ∙ read_digits-stop n b s stop

-- The same, with nothing behind the number.
pub read_digits-all : (n : ℕ) → read_digits 0 (decimal n) ≡ (n, [])
unfolding decimal read_digits
read_digits-all n = read_digits-print (suc n) n [] (omega arith)

read_signed-digits :
    (start : Text) (b n : ℕ) (s rest : Text)
    → 48 ≤ b
    → b ≤ 57
    → n < 2 ^ 31
    → read_digits 0 (b ∷ s) ≡ (n, rest)
    → read_signed start (skip_space (b ∷ s)) ≡ (pos n, rest)
unfolding skip_space read_signed read_number
read_signed-digits start b n s rest lo hi small eq = ground arith

-- strtol reads a printed number back, up to a byte that is no digit.
pub strtol-decimal :
    (n b : ℕ) (s : Text)
    → n < 2 ^ 31
    → is_digit b ≡ false
    → strtol (decimal n ++ b ∷ s) ≡ (pos n, b ∷ s)
unfolding strtol
strtol-decimal n b s small stop =
    let (c, t, eq) = decimal-cons n in
    let (lo, hi, _) = rw eq at (decimal-IsDigits n) in
    let read = rw eq at (read_digits-decimal n b s stop) in
    rw eq (read_signed-digits _ c n (t ++ b ∷ s) (b ∷ s) lo hi small read)

pub to_int-pos : (n : ℕ) → n < 2 ^ 31 → to_int (pos n) ≡ pos n
unfolding to_int
to_int-pos n small = ground arith

-- A number below 10^(k + 1) has at most k + 1 digits.
length-print_from :
    (k f n : ℕ) (out : Text) → n < 10 ^ suc k → length (print_from f n out) ≤ suc k + length out
unfolding print_from
length-print_from k zero n out lt = omega arith
length-print_from zero (suc f) n out lt = elim (Bool-cases (ltb n 10)) [
  | inl small ↦ rw small (omega arith)
  | inr more ↦ absurd (omega (arith, ltb→le n 10 more, lt))
]
length-print_from (suc k) (suc f) n out lt =
    let shorter : n / 10 < 10 ^ suc k = omega (arith, pow-succ' 10 (suc k)) in
    ground (arith, length-print_from k f (n / 10) ((48 + n % 10) ∷ out) shorter)

pub length-decimal : (k n : ℕ) → n < 10 ^ suc k → length (decimal n) ≤ suc k
unfolding decimal
length-decimal k n lt = omega (arith, length-print_from k (suc n) n [] lt)
