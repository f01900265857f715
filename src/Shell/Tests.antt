-- ===== src/Shell/Tests.antt =====
-- The theorems of the shell at concrete inputs.
use cs162hw.Base.{
  ℕ, zero, suc, ◌+◌, ◌≤◌, ◌∙◌, sym, Bool-cases, is_some, ltb, if◌then◌else◌, Bool, Option, ◌⊎◌, ◌≡◌,
  refl, inl, inr, true, some, none, ◌<◌, length, List, [], ◌∷◌, take, arith,
}
use cs162hw.Base.Text.{Text, codes, str_eq}
use cs162hw.Shell.Descriptors.{Table, Kernel, set, redirected, restored}
use cs162hw.Shell.Restore.{Room, restored-redirected}
use cs162hw.Shell.{
  get_toks, max_toks, lookup, read_command, toks_loop, skip_seps, cut_token,
  is_there_file_direction, is_back_ground, lookup_from,
}
use cs162hw.Shell.Tokens.{line_of, words_of, get_toks-words}
use cs162hw.Shell.Run.{forked, Session, start, exec_first, child, run_command, parent, shell}
use cs162hw.Shell.Child.{Runs, IsFirst, NoneRuns, child_cases}
use cs162hw.Shell.Wait.{Balanced, wait_line, shell-Waited}
use cs162hw.Shell.Events.{forks, waits}

abbrev words : List (Text × Text)
words = ([], codes "ls") ∷ (codes "  ", codes "-l") ∷ []

get_toks-words_example : get_toks (line_of words (codes " ")) ≡ take max_toks (words_of words)
get_toks-words_example =
    get_toks-words words (codes " ")
      (
        tt,
        inl refl,
        (refl, (refl, tt)),
        omega arith,
        ((refl, (refl, tt)), inr (omega arith), (refl, (refl, tt)), omega arith, tt),
      )
      (refl, tt)

-- A command in the background, and the session behind it.
abbrev back : List (Text × Option ℕ)
back = (codes "sleep 5 &", some 7) ∷ []

abbrev one_back : Session
one_back = record { pid_in_wait_array = 7 ∷ []; events = forked 7 ∷ []; running = true }

back-run : shell start back ≡ some one_back
unfolding shell run_command read_command get_toks toks_loop skip_seps cut_token
    is_there_file_direction is_back_ground lookup lookup_from parent
back-run = refl

shell-Waited_example :
    Balanced one_back
    × (s' : Session) × (shell one_back ((wait_line, none) ∷ []) ≡ some s')
    × (s'.pid_in_wait_array ≡ [])
    × ((p : ℕ) → forks p s'.events ≡ waits p s'.events)
shell-Waited_example = shell-Waited back one_back none back-run refl

-- `ls` is in the second directory.
abbrev is_ls : Text → Bool
is_ls path = str_eq path (codes "/bin/ls")

abbrev runs : Text → Bool
runs path = true

two_dirs : length (get_toks (codes "/usr/bin:/bin")) < max_toks
unfolding get_toks toks_loop skip_seps cut_token
two_dirs = omega arith

child_cases_example :
    (Runs is_ls runs (codes "ls")
      × (child is_ls runs (codes "/usr/bin:/bin") [] (codes "ls" ∷ []) ≡ some (some (codes "ls"))))
    ⊎ ((¬ Runs is_ls runs (codes "ls"))
        × (((path : Text) × IsFirst is_ls runs (get_toks (codes "/usr/bin:/bin")) (codes "ls") path
              × (child is_ls runs (codes "/usr/bin:/bin") [] (codes "ls" ∷ []) ≡ some (some path)))
            ⊎ (NoneRuns is_ls runs (get_toks (codes "/usr/bin:/bin")) (codes "ls")
                × (child is_ls runs (codes "/usr/bin:/bin") [] (codes "ls" ∷ [])
                    ≡ some (exec_first is_ls runs [])))))
child_cases_example = child_cases is_ls runs (codes "/usr/bin:/bin") [] [] (codes "ls") two_dirs

-- A process with at most eight descriptors.
abbrev scan : ℕ → ℕ → Table → Option ℕ
scan zero fd t = none
scan (suc fuel) fd t = if is_some (t fd) then scan fuel (suc fd) t else some fd

scan-free : (fuel at : ℕ) (t : Table) (fd : ℕ) → scan fuel at t ≡ some fd → t fd ≡ none
scan-free zero at t fd eq = cc
scan-free (suc fuel) at t fd eq = elim (Bool-cases (is_some (t at))) [
  | inl taken ↦ scan-free fuel (suc at) t fd (sym (rw taken refl) ∙ eq)
  | inr free ↦ ground (arith, free, eq)
]

scan-finds :
    (fuel at : ℕ) (t : Table) (n : ℕ)
    → at ≤ n
    → n < at + fuel
    → t n ≡ none
    → (fd : ℕ) × (scan fuel at t ≡ some fd)
scan-finds zero at t n le lt free = absurd (omega arith)
scan-finds (suc fuel) at t n le lt free = elim (Bool-cases (is_some (t at))) [
  | inl taken ↦
      let (fd, eq) =
        scan-finds fuel (suc at) t n (ground (arith, taken, free)) (omega arith) free in
      (fd, rw taken eq)
  | inr other ↦ (at, rw other refl)
]

abbrev small_kernel : Kernel
small_kernel = record {
  limit = 8;
  lowest = scan 8 0;
  lowest-free = scan-free 8 0;
  lowest-finds = λ t n lt free. scan-finds 8 0 t n (omega arith) (omega arith) free;
}

-- Standard input, output and error.
abbrev terminal : Table
terminal n = if ltb n 3 then some n else none

terminal-Room : Room 8 3 terminal
unfolding set
terminal-Room = (3, omega arith, refl, (4, omega arith, refl, (5, omega arith, refl, tt)))

restored-redirected_example :
    ((redirected small_kernel true (some 20) true none terminal).2 1 ≡ some 20)
    × ((redirected small_kernel true (some 20) true none terminal).2 0 ≡ some 0)
    × ((n : ℕ)
        → restored true true (redirected small_kernel true (some 20) true none terminal) n
          ≡ terminal n)
restored-redirected_example =
    restored-redirected small_kernel terminal 0 1 refl refl terminal-Room true (some 20) true none
