-- ===== src/WordCount/Tests.antt =====
-- The theorems of the word count at concrete inputs.
use cs162hw.Base.{◌≡◌, refl, Option, some, List, [], ◌∷◌, arith}
use cs162hw.Base.Text.{Text, codes}
use cs162hw.WordCount.{file_name, main}
use cs162hw.WordCount.Prints.{ending, report, main-report}

abbrev poem : Text
poem = codes "a bc\nd"

-- The file of the second argument.
abbrev files : Text → Option Text
files name = some poem

abbrev args : List Text
args = codes "a" ∷ codes "b" ∷ []

main-report_example : main files args [] ≡ some (report poem (ending (file_name args)))
unfolding file_name
main-report_example = main-report files args [] poem refl (omega arith)
