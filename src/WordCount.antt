-- ===== src/WordCount.antt =====
-- hw0/wc.c: main, with its two loops, over standard input and over a file. `char` is signed, so the
-- byte 255 reads as EOF and ends the loop.
pub mod Counts
pub mod Prints
mod Tests
use cs162hw.Base.{
  Option, none, some, ◌>>=◌, ◌++◌, ℕ, suc, Bool, ◌&&◌, ◌||◌, not, List, [], ◌∷◌, leb, ◌==◌,
  if◌then◌else◌,
}
use cs162hw.Base.Text.{Text}
use cs162hw.Http.Number.{decimal}

-- The variables of main.
pub record Count : Type 0 where
  pub lines : ℕ
  pub words : ℕ
  pub chars : ℕ
  pub prev : ℕ

abbrev pub start : Count
start = record { lines = 0; words = 0; chars = 0; prev = 32 }

-- isspace
abbrev pub is_space : ℕ → Bool
is_space b = b == 32 || (leb 9 b && leb b 13)

-- One round over standard input. A NUL is a character and nothing else.
unfoldable pub stdin_step : Count → ℕ → Count
stdin_step c ch = if ch == 0 then record c { chars = suc c.chars } else record {
  lines = if ch == 10 then suc c.lines else c.lines;
  words = if is_space c.prev && not (is_space ch) then suc c.words else c.words;
  chars = suc c.chars;
  prev = ch;
}

-- One round over a file: behind the end of a line, the previous character is a space.
unfoldable pub file_step : Count → ℕ → Count
file_step c ch = if ch == 0 then record c { chars = suc c.chars } else record {
  lines = if ch == 10 then suc c.lines else c.lines;
  words = if is_space c.prev && not (is_space ch) then suc c.words else c.words;
  chars = suc c.chars;
  prev = if ch == 10 then 32 else ch;
}

unfoldable pub stdin_loop : Count → Text → Count
stdin_loop c [] = c
stdin_loop c (ch ∷ input) =
    let rest = stdin_loop (stdin_step c ch) input in if ch == 255 then c else rest

unfoldable pub file_loop : Count → Text → Count
file_loop c [] = c
file_loop c (ch ∷ input) =
    let rest = file_loop (file_step c ch) input in if ch == 255 then c else rest

-- The file that main opens, if it does not read standard input.
unfoldable pub file_name : List Text → Option Text
file_name [] = none
file_name (argv1 ∷ []) = some argv1
file_name (argv1 ∷ argv2 ∷ args) = some argv2

-- `%d %d %d` and what is behind it.
unfoldable pub print_counts : Count → Text → Text
print_counts c rest = decimal c.lines ++ 32 ∷ (decimal c.words ++ 32 ∷ (decimal c.chars ++ rest))

-- What is printed for standard input or for a file; `none` where the file cannot be opened, and fgetc
-- reads through NULL.
unfoldable pub print_from : (Text → Option Text) → Text → Option Text → Option Text
print_from files input none = some (print_counts (stdin_loop start input) (10 ∷ []))
print_from files input (some name) =
    files name >>= λ text. some (print_counts (file_loop start text) (32 ∷ (name ++ 10 ∷ [])))

-- main, given the contents of files, the arguments and standard input.
unfoldable pub main : (Text → Option Text) → List Text → Text → Option Text
main files args input = print_from files input (file_name args)
