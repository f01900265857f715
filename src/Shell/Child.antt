-- ===== src/Shell/Child.antt =====
-- hw1/shell.c: which file a command runs.
use cs162hw.Base.{
  ◌≡◌, ◌⊎◌, refl, ap, ◌∙◌, ℕ, zero, suc, ◌<◌, length, lt→ltb, Bool, true, false, subst, get_elem?,
  arith, ◌&&◌, Bool-cases, inl, inr, some, List, [], ◌∷◌, ◌++◌,
}
use cs162hw.Base.Text.{Text}
use cs162hw.Shell.{max_toks, get_toks}
use cs162hw.Shell.Run.{concat, in_each, get_multiple_path, exec_first, child}

module _ (is_executable execv : Text → Bool) where
  abbrev pub Runs : Text → Type 0
  Runs path = (is_executable path && execv path) ≡ true

  -- The file that the command is looked for in a directory of PATH.
  abbrev pub in_dir : Text → Text → Text
  in_dir dir name = dir ++ b'/' ∷ name

  -- `path` is the first that runs of the files of a command in the directories of PATH.
  abbrev pub IsFirst : List Text → Text → Text → Type 0
  IsFirst dirs name path =
      (i : ℕ) × (dir : Text) × (get_elem? dirs i ≡ some dir)
      × (path ≡ in_dir dir name)
      × Runs path
      × ((j : ℕ) (other : Text)
          → j < i
          → get_elem? dirs j ≡ some other
          → ¬ Runs (in_dir other name))

  abbrev pub NoneRuns : List Text → Text → Type 0
  NoneRuns dirs name = (i : ℕ) (dir : Text) → get_elem? dirs i ≡ some dir → ¬ Runs (in_dir dir name)

  in_each_cases :
      (dirs behind : List Text) (name : Text)
      → ((path : Text) × IsFirst dirs name path
          × (exec_first is_executable execv (in_each dirs name ++ behind) ≡ some path))
        ⊎ (NoneRuns dirs name
            × (exec_first is_executable execv (in_each dirs name ++ behind)
                ≡ exec_first is_executable execv behind))
  unfolding exec_first in_each concat
  in_each_cases [] behind name = inr ((λ i dir at. cc), refl)
  in_each_cases (d ∷ dirs) behind name =
      let here = in_dir d name in
      elim (Bool-cases (is_executable here && execv here)) [
        | inl runs ↦
            inl
              (here, (0, d, refl, refl, runs, λ j other lt at. absurd (omega arith)), rw runs refl)
        | inr not_here ↦
            let fails : ¬ Runs here = λ runs. cc in
            elim (in_each_cases dirs behind name) [
              | inl (path, (i, dir, at, is, runs, before), eq) ↦
                  inl (path, (suc i, dir, at, is, runs, before_suc i before fails), rw not_here eq)
              | inr (none_runs, eq) ↦ inr (none_suc none_runs fails, rw not_here eq)
            ]
      ]
    where
      before_suc :
          (i : ℕ)
          → ((j : ℕ) (other : Text)
              → j < i
              → get_elem? dirs j ≡ some other
              → ¬ Runs (in_dir other name))
          → ¬ Runs (in_dir d name)
          → (j : ℕ) (other : Text) → j < suc i
          → get_elem? (d ∷ dirs) j ≡ some other
          → ¬ Runs (in_dir other name)
      before_suc i before fails zero other lt at =
          let same : d ≡ other = cc in subst (λ x. ¬ Runs (in_dir x name)) same fails
      before_suc i before fails (suc j) other lt at = before j other (omega arith) at

      none_suc : NoneRuns dirs name → ¬ Runs (in_dir d name) → NoneRuns (d ∷ dirs) name
      none_suc none_runs fails zero other at =
          let same : d ≡ other = cc in subst (λ x. ¬ Runs (in_dir x name)) same fails
      none_suc none_runs fails (suc i) other at = none_runs i other at

  module _ (env : Text) (behind args : List Text) (name : Text)
      (few : length (get_toks env) < max_toks) where
    child-itself :
        (is_executable name && execv name) ≡ true
        → child is_executable execv env behind (name ∷ args) ≡ some (some name)
    unfolding child get_multiple_path exec_first
    child-itself runs = rw (lt→ltb _ _ few, runs) refl

    child-dirs :
        (is_executable name && execv name) ≡ false
        → child is_executable execv env behind (name ∷ args)
          ≡ some (exec_first is_executable execv (in_each (get_toks env) name ++ behind))
    unfolding child get_multiple_path exec_first
    child-dirs other = rw (lt→ltb _ _ few, other) refl

  -- Where PATH has less than 100 directories, a command is run as the file of its name itself, if it
  -- is executable and execv runs it, and else as the file of that name behind a slash in the first
  -- directory of PATH where that file is executable and execv runs it. Where no directory has such a
  -- file either, what is run depends on the memory behind the array of paths.
  pub child_cases :
      (env : Text) (behind args : List Text) (name : Text)
      → length (get_toks env) < max_toks
      → (Runs name × (child is_executable execv env behind (name ∷ args) ≡ some (some name)))
        ⊎ ((¬ Runs name)
            × (((path : Text) × IsFirst (get_toks env) name path
                  × (child is_executable execv env behind (name ∷ args) ≡ some (some path)))
                ⊎ (NoneRuns (get_toks env) name
                    × (child is_executable execv env behind (name ∷ args)
                        ≡ some (exec_first is_executable execv behind)))))
  child_cases env behind args name few = elim (Bool-cases (is_executable name && execv name)) [
    | inl runs ↦ inl (runs, child-itself env behind args name few runs)
    | inr not_here ↦
        let run = child-dirs env behind args name few not_here in
        inr (
          (λ runs. cc),
          elim (in_each_cases (get_toks env) behind name) [
            | inl (path, first, eq) ↦ inl (path, first, run ∙ ap some eq)
            | inr (none_runs, eq) ↦ inr (none_runs, run ∙ ap some eq)
          ],
        )
  ]
