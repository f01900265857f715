-- ===== src/Shell/Events.antt =====
-- Counting the events of a session of the shell.
use cs162hw.Base.{ℕ, ◌+◌, ◌≡◌, refl, List, [], ◌∷◌, ◌++◌, if◌then◌else◌, ◌==◌, arith}
use cs162hw.Shell.Run.{Event, help, pwd, quit, chdir, forked, waited, wait_all}

-- How often a process was started, was waited for, and stands in the array.
abbrev pub forks : ℕ → List Event → ℕ
forks p [] = 0
forks p (forked q ∷ es) = (if q == p then 1 else 0) + forks p es
forks p (_ ∷ es) = forks p es

abbrev pub waits : ℕ → List Event → ℕ
waits p [] = 0
waits p (waited q ∷ es) = (if q == p then 1 else 0) + waits p es
waits p (_ ∷ es) = waits p es

abbrev pub count : ℕ → List ℕ → ℕ
count p [] = 0
count p (q ∷ qs) = (if q == p then 1 else 0) + count p qs

module _ (p : ℕ) where
  pub forks-append : (es fs : List Event) → forks p (es ++ fs) ≡ forks p es + forks p fs
  forks-append [] fs = omega arith
  forks-append (forked q ∷ es) fs = omega (arith, forks-append es fs)
  forks-append (waited q ∷ es) fs = forks-append es fs
  forks-append (help ∷ es) fs = forks-append es fs
  forks-append (pwd ∷ es) fs = forks-append es fs
  forks-append (quit ∷ es) fs = forks-append es fs
  forks-append (chdir d ∷ es) fs = forks-append es fs

  pub waits-append : (es fs : List Event) → waits p (es ++ fs) ≡ waits p es + waits p fs
  waits-append [] fs = omega arith
  waits-append (waited q ∷ es) fs = omega (arith, waits-append es fs)
  waits-append (forked q ∷ es) fs = waits-append es fs
  waits-append (help ∷ es) fs = waits-append es fs
  waits-append (pwd ∷ es) fs = waits-append es fs
  waits-append (quit ∷ es) fs = waits-append es fs
  waits-append (chdir d ∷ es) fs = waits-append es fs

  pub count-append : (qs rs : List ℕ) → count p (qs ++ rs) ≡ count p qs + count p rs
  count-append [] rs = omega arith
  count-append (q ∷ qs) rs = omega (arith, count-append qs rs)

  pub forks-wait_all : (qs : List ℕ) → forks p (wait_all qs) ≡ 0
  unfolding wait_all
  forks-wait_all [] = refl
  forks-wait_all (q ∷ qs) = forks-wait_all qs

  pub waits-wait_all : (qs : List ℕ) → waits p (wait_all qs) ≡ count p qs
  unfolding wait_all
  waits-wait_all [] = refl
  waits-wait_all (q ∷ qs) = omega (arith, waits-wait_all qs)
