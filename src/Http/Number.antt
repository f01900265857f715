-- ===== src/Http/Number.antt =====
-- Numbers as the C library prints and reads them for hw4/src/libhttp.c and hw4/src/kvmessage.c.
use cs162hw.Base.{
  ℕ, zero, suc, ◌+◌, ◌-◌, ◌*◌, ◌/◌, ◌%◌, ◌^◌, Bool, true, false, ◌&&◌, [], ◌∷◌, ℤ, pos, negsuc, ltb,
  leb, ◌==◌, if◌then◌else◌,
}
use cs162hw.Base.Text.{Text, skip_space}

-- `%d` and `%ld` of a number that is not negative. Each round divides by ten, so the number is fuel
-- enough.
unfoldable pub print_from : ℕ → ℕ → Text → Text
print_from zero n out = out
print_from (suc fuel) n out =
    let rest = print_from fuel (n / 10) ((48 + n % 10) ∷ out) in
    if ltb n 10 then (48 + n) ∷ out else rest

unfoldable pub decimal : ℕ → Text
decimal n = print_from (suc n) n []

abbrev pub is_digit : ℕ → Bool
is_digit b = leb 48 b && leb b 57

-- The number that digits spell behind `n`, and what is behind them.
unfoldable pub read_digits : ℕ → Text → ℕ × Text
read_digits n [] = (n, [])
read_digits n (b ∷ s) =
    let rest = read_digits (n * 10 + (b - 48)) s in if is_digit b then rest else (n, b ∷ s)

-- The `long` for a sign and a number: one out of range is the last in range.
abbrev pub to_long : Bool → ℕ → ℤ
to_long false n = if ltb n (2 ^ 63) then pos n else pos (2 ^ 63 - 1)
to_long true n =
    if n == 0 then pos 0 else if leb n (2 ^ 63) then negsuc (n - 1) else negsuc (2 ^ 63 - 1)

-- The digits behind white space and a sign; without any, the end is where the start was.
unfoldable pub read_number : Text → Bool → Text → ℤ × Text
read_number start minus [] = (pos 0, start)
read_number start minus (b ∷ s) =
    let (n, rest) = read_digits 0 (b ∷ s) in
    if is_digit b then (to_long minus n, rest) else (pos 0, start)

unfoldable pub read_signed : Text → Text → ℤ × Text
read_signed start [] = (pos 0, start)
read_signed start (b ∷ s) =
    if b == b'-'
    then read_number start true s
    else if b == b'+'
    then read_number start false s
    else read_number start false (b ∷ s)

-- `strtol(s, &end, 10)`: the number, and the text at `end`.
unfoldable pub strtol : Text → ℤ × Text
strtol s = read_signed s (skip_space s)

-- A `long` that is stored in an `int`.
abbrev pub from_bits : ℕ → ℤ
from_bits n = if ltb n (2 ^ 31) then pos n else negsuc (2 ^ 32 - 1 - n)

unfoldable pub to_int : ℤ → ℤ
to_int (pos n) = from_bits (n % 2 ^ 32)
to_int (negsuc n) = from_bits (2 ^ 32 - 1 - n % 2 ^ 32)
