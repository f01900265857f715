-- ===== src/WordCount/Prints.antt =====
-- What wc prints.
use cs162hw.Base.{◌≡◌, ◌∙◌, refl, ap, Option, none, some, List, [], ◌∷◌, ◌++◌, length, ◌>>=◌}
use cs162hw.Base.Text.{Text}
use cs162hw.Http.Number.{decimal}
use cs162hw.WordCount.{start, stdin_loop, file_loop, file_name, print_counts, print_from, main}
use cs162hw.WordCount.Counts.{IsInput, ends_of_lines, words_behind, wc-counts}

-- The text that is counted: standard input, or the file.
abbrev pub source : (Text → Option Text) → Option Text → Text → Option Text
source files none input = some input
source files (some name) input = files name

-- The end of the line that is printed.
abbrev pub ending : Option Text → Text
ending none = 10 ∷ []
ending (some name) = 32 ∷ (name ++ 10 ∷ [])

abbrev pub report : Text → Text → Text
report s rest =
    decimal (ends_of_lines s)
    ++ 32 ∷ (decimal (length (words_behind [] s)) ++ 32 ∷ (decimal (length s) ++ rest))

stdin-report : (s rest : Text) → IsInput s → print_counts (stdin_loop start s) rest ≡ report s rest
unfolding print_counts
stdin-report s rest input =
    let (lines, words, chars, _, _, _) = wc-counts s input in rw (lines, words, chars) refl

file-report : (s rest : Text) → IsInput s → print_counts (file_loop start s) rest ≡ report s rest
unfolding print_counts
file-report s rest input =
    let (_, _, _, lines, words, chars) = wc-counts s input in rw (lines, words, chars) refl

some-injective : (s t : Text) → ◌≡◌ {A = Option Text} (some s) (some t) → s ≡ t
some-injective s t eq = cc

from-report :
    (files : Text → Option Text) (input s : Text) (name : Option Text)
    → source files name input ≡ some s
    → IsInput s
    → print_from files input name ≡ some (report s (ending name))
unfolding print_from
from-report files input s none reads is =
    ap (λ t. some (print_counts (stdin_loop start t) (10 ∷ []))) (some-injective input s reads)
    ∙ ap some (stdin-report s (10 ∷ []) is)
from-report files input s (some name) reads is =
    rw (reads, ◌>>=◌) (ap some (file-report s (32 ∷ (name ++ 10 ∷ [])) is))

-- wc prints the ends of lines, the words between white space, and the bytes of standard input, or of
-- the file that it is given and its name, if that text has no NUL and no 255 and can be read.
pub main-report :
    (files : Text → Option Text) (args : List Text) (input s : Text)
    → source files (file_name args) input ≡ some s
    → IsInput s
    → main files args input ≡ some (report s (ending (file_name args)))
unfolding main
main-report files args input s reads is = from-report files input s (file_name args) reads is
