-- ===== src/Shell.antt =====
-- hw1/parse.c and hw1/shell.c: the tokens of a command line, the built-in commands, redirections
-- and background commands. An array of tokens is the list of those before its NULL.
pub mod Tokens
pub mod Redirect
pub mod Run
pub mod Events
pub mod Wait
pub mod Child
pub mod Descriptors
pub mod Restore
mod Tests
use cs162hw.Base.{
  ℕ, zero, suc, Bool, true, false, ◌||◌, Option, none, some, List, [], ◌∷◌, ◌++◌, ◌==◌,
  if◌then◌else◌, get_elem?, is_some,
}
use cs162hw.Base.Text.{Text, codes, str_eq}

-- MAXTOKS
abbrev pub max_toks : ℕ
max_toks = 100

-- TOKseparator
abbrev pub is_sep : ℕ → Bool
is_sep b = b == 32 || b == 10 || b == b':'

-- strtok: the separators before a token are skipped, and the one behind it is consumed.
unfoldable pub skip_seps : Text → Text
skip_seps [] = []
skip_seps (b ∷ s) = if is_sep b then skip_seps s else b ∷ s

unfoldable pub cut_token : Text → Text × Text
cut_token [] = ([], [])
cut_token (b ∷ s) = let (tok, rest) = cut_token s in if is_sep b then ([], s) else (b ∷ tok, rest)

-- The loop of get_toks, for the places that are left.
unfoldable pub toks_loop : ℕ → Text → List Text
toks_loop zero line = []
toks_loop (suc n) line = elim (skip_seps line) [
  | [] ↦ []
  | b ∷ s ↦ let (tok, rest) = cut_token (b ∷ s) in tok ∷ toks_loop n rest
]

-- get_toks
unfoldable pub get_toks : Text → List Text
get_toks line = toks_loop max_toks line

-- The names in cmd_table.
abbrev pub cmd_table : List Text
cmd_table = codes "?" ∷ codes "quit" ∷ codes "pwd" ∷ codes "cd" ∷ codes "wait" ∷ []

-- lookup; `none` is -1.
unfoldable pub lookup_from : List Text → Text → ℕ → Option ℕ
lookup_from [] cmd i = none
lookup_from (c ∷ cs) cmd i = if str_eq c cmd then some i else lookup_from cs cmd (suc i)

unfoldable pub lookup : Option Text → Option ℕ
lookup none = none
lookup (some cmd) = lookup_from cmd_table cmd 0

-- isThereFileDirection: whether the sign is there, the file, and the tokens that are left.
unfoldable pub is_there_file_direction :
    List Text → Text → Option Text → Bool × Option Text × List Text
is_there_file_direction [] sign file = (false, file, [])
is_there_file_direction (t ∷ ts) sign file =
    let (there, file', rest) = is_there_file_direction ts sign file in
    if str_eq t sign then (true, get_elem? ts 0, []) else (there, file', t ∷ rest)

-- isBackGround
unfoldable pub is_back_ground : List Text → Bool × List Text
is_back_ground [] = (false, [])
is_back_ground (t ∷ ts) =
    let (back, rest) = is_back_ground ts in
    if str_eq t (codes "&") then (true, []) else (back, t ∷ rest)

-- What the loop of shell makes of a line, before it runs the command.
pub record Command : Type 0 where
  pub builtin : Option ℕ
  pub change_out : Bool
  pub out_file : Option Text
  pub change_in : Bool
  pub in_file : Option Text
  pub is_back : Bool
  pub tokens : List Text

-- The file name of the input is that of the output where there is no input sign.
unfoldable pub read_command : List Text → Command
read_command tokens =
    let (change_out, out_file, tokens1) = is_there_file_direction tokens (codes ">") none in
    let (change_in, in_file, tokens2) = is_there_file_direction tokens1 (codes "<") out_file in
    let (is_back, tokens3) = is_back_ground tokens2 in
    record {
      builtin = lookup (get_elem? tokens 0);
      change_out = change_out;
      out_file = out_file;
      change_in = change_in;
      in_file = in_file;
      is_back = is_back;
      tokens = tokens3;
    }
