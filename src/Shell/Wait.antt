-- ===== src/Shell/Wait.antt =====
-- hw1/shell.c: processes that are started and waited for.
use cs162hw.Base.{
  ℕ, zero, suc, ◌+◌, ◌≡◌, ◌∙◌, refl, ap, sym, subst, Bool, true, false, Bool-cases, Option-cases,
  inl, inr, Option, none, some, List, [], ◌∷◌, ◌++◌, if◌then◌else◌, get_elem?, ◌>>=◌, arith,
}
use cs162hw.Base.Text.{Text, codes}
use cs162hw.Shell.{
  toks_loop, skip_seps, cut_token, is_there_file_direction, lookup, lookup_from, get_toks, Command,
  read_command,
}
use cs162hw.Shell.Run.{
  help, pwd, quit, chdir, forked, waited, Session, wait_all, cmd_wait, run_builtin, parent,
  run_command, shell, start,
}
use cs162hw.Shell.Events.{
  forks, waits, count, forks-append, waits-append, count-append, forks-wait_all, waits-wait_all,
}

-- Each process has been waited for as often as it was started, or stands in the array.
abbrev pub Balanced : Session → Type 0
Balanced s = (p : ℕ) → forks p s.events ≡ waits p s.events + count p s.pid_in_wait_array

cmd_wait-Balanced : (s : Session) → Balanced s → Balanced (cmd_wait s)
unfolding cmd_wait
cmd_wait-Balanced s inv p = omega (
  arith,
  inv p,
  forks-append p s.events (wait_all s.pid_in_wait_array),
  waits-append p s.events (wait_all s.pid_in_wait_array),
  forks-wait_all p s.pid_in_wait_array,
  waits-wait_all p s.pid_in_wait_array,
)

run_builtin-Balanced :
    (s : Session) (i : ℕ) (arg : Option Text) → Balanced s → Balanced (run_builtin s i arg)
unfolding run_builtin
run_builtin-Balanced s zero arg inv p =
    omega (arith, inv p, forks-append p s.events (help ∷ []), waits-append p s.events (help ∷ []))
run_builtin-Balanced s (suc zero) arg inv p =
    omega (arith, inv p, forks-append p s.events (quit ∷ []), waits-append p s.events (quit ∷ []))
run_builtin-Balanced s (suc (suc zero)) arg inv p =
    omega (arith, inv p, forks-append p s.events (pwd ∷ []), waits-append p s.events (pwd ∷ []))
run_builtin-Balanced s (suc (suc (suc zero))) arg inv p = omega (
  arith,
  inv p,
  forks-append p s.events (chdir arg ∷ []),
  waits-append p s.events (chdir arg ∷ []),
)
run_builtin-Balanced s (suc (suc (suc (suc i)))) arg inv p = cmd_wait-Balanced s inv p

parent-Balanced :
    (s s' : Session) (is_back : Bool) (pid : ℕ)
    → Balanced s
    → parent s is_back pid ≡ some s'
    → Balanced s'
unfolding parent
parent-Balanced s s' false pid inv run p = ground (
  arith,
  inv p,
  forks-append p s.events (forked pid ∷ []),
  forks-append p (s.events ++ forked pid ∷ []) (waited pid ∷ []),
  waits-append p s.events (forked pid ∷ []),
  waits-append p (s.events ++ forked pid ∷ []) (waited pid ∷ []),
)
parent-Balanced s s' true pid inv run p = ground (
  arith,
  inv p,
  forks-append p s.events (forked pid ∷ []),
  waits-append p s.events (forked pid ∷ []),
  count-append p s.pid_in_wait_array (pid ∷ []),
)

builtin-eq :
    (s : Session) (c : Command) (pid : Option ℕ) (i : ℕ)
    → c.builtin ≡ some i
    → run_command s c pid ≡ some (run_builtin s i (get_elem? c.tokens 1))
unfolding run_command
builtin-eq s c pid i e = rw (e, run_command) refl

fork-eq :
    (s : Session) (c : Command) (p : ℕ)
    → c.builtin ≡ none
    → run_command s c (some p) ≡ parent s c.is_back p
unfolding run_command
fork-eq s c p e = rw (e, run_command) refl

no_fork-eq :
    (s : Session) (c : Command)
    → c.builtin ≡ none
    → run_command s c none ≡ some (record s { running = false })
unfolding run_command
no_fork-eq s c e = rw (e, run_command) refl

same_session : (s s' : Session) → ◌≡◌ {A = Option Session} (some s) (some s') → s ≡ s'
same_session s s' eq = cc

run_command-Balanced :
    (s s' : Session) (c : Command) (pid : Option ℕ)
    → Balanced s
    → run_command s c pid ≡ some s'
    → Balanced s'
run_command-Balanced s s' c pid inv run = elim (Option-cases c.builtin) [
  | inr (i, e) ↦
      subst Balanced (same_session _ s' (sym (builtin-eq s c pid i e) ∙ run))
        (run_builtin-Balanced s i (get_elem? c.tokens 1) inv)
  | inl e ↦ elim (Option-cases pid) [
    | inr (p, there) ↦
        parent-Balanced s s' c.is_back p inv (sym (fork-eq s c p e) ∙ rw there at run)
    | inl fails ↦ subst Balanced (same_session _ s' (sym (no_fork-eq s c e) ∙ rw fails at run)) inv
  ]
]

stop-eq :
    (s : Session) (line : Text) (pid : Option ℕ) (lines : List (Text × Option ℕ))
    → s.running ≡ false
    → shell s ((line, pid) ∷ lines) ≡ some s
unfolding shell
stop-eq s line pid lines over =
    ap
      (λ b.
        if b
        then (run_command s (read_command (get_toks line)) pid >>= λ s'. shell s' lines)
        else some s)
      over

shell-Balanced :
    (lines : List (Text × Option ℕ)) (s s' : Session)
    → Balanced s
    → shell s lines ≡ some s'
    → Balanced s'
unfolding shell
shell-Balanced [] s s' inv run = subst Balanced (same_session s s' run) inv
shell-Balanced ((line, pid) ∷ lines) s s' inv run = elim (Bool-cases s.running) [
  | inr over ↦ subst Balanced (same_session s s' (sym (stop-eq s line pid lines over) ∙ run)) inv
  | inl goes_on ↦ elim (Option-cases (run_command s (read_command (get_toks line)) pid)) [
    | inl fault ↦ absurd (cc (rw (fault, ◌>>=◌, goes_on) at run))
    | inr (s1, eq) ↦
        shell-Balanced lines s1 s'
          (run_command-Balanced s s1 (read_command (get_toks line)) pid inv eq)
          (rw (eq, ◌>>=◌, goes_on) at run)
  ]
]

-- The line `wait`.
abbrev pub wait_line : Text
wait_line = codes "wait" ++ 10 ∷ []

wait-builtin : (read_command (get_toks wait_line)).builtin ≡ some 4
unfolding read_command get_toks toks_loop skip_seps cut_token is_there_file_direction lookup
    lookup_from
wait-builtin = refl

wait-eq :
    (s : Session) (pid : Option ℕ)
    → s.running ≡ true
    → shell s ((wait_line, pid) ∷ []) ≡ some (cmd_wait s)
unfolding shell run_builtin
wait-eq s pid goes_on =
    rw (builtin-eq s (read_command (get_toks wait_line)) pid 4 wait-builtin, ◌>>=◌, goes_on) refl

cmd_wait-empty : (s : Session) → (cmd_wait s).pid_in_wait_array ≡ []
unfolding cmd_wait
cmd_wait-empty s = refl

-- In every session of the shell that stays within its array and goes on, each process was waited
-- for as often as it was started, but for those in the array of background processes, which stand
-- there as often. Then the line `wait` empties the array, and each process was waited for exactly as
-- often as it was started.
pub shell-Waited :
    (lines : List (Text × Option ℕ)) (s : Session) (pid : Option ℕ)
    → shell start lines ≡ some s
    → s.running ≡ true
    → Balanced s
      × (s' : Session) × (shell s ((wait_line, pid) ∷ []) ≡ some s')
      × (s'.pid_in_wait_array ≡ [])
      × ((p : ℕ) → forks p s'.events ≡ waits p s'.events)
shell-Waited lines s pid run goes_on =
    let inv = shell-Balanced lines start s (λ p. refl) run in
    (
      inv,
      cmd_wait s,
      wait-eq s pid goes_on,
      cmd_wait-empty s,
      λ p. omega (arith, cmd_wait-Balanced s inv p, ap (count p) (cmd_wait-empty s)),
    )
