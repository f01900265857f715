-- ===== src/Shell/Restore.antt =====
-- The descriptors of the shell behind a command that was redirected.
use cs162hw.Base.{
  ℕ, zero, suc, ◌<◌, inl, inr, ◌≡◌, ◌≢◌, ◌∙◌, refl, sym, ap, Bool, true, false, Bool-cases, Option,
  none, some, ◌==◌, if◌then◌else◌, arith,
}
use cs162hw.Shell.Descriptors.{
  Table, Kernel, set, place, open_file, dup, dup2, dup2_file, close, redirect_to, restore,
  redirected, restored, file_or,
}

none-ne-some : {n : ℕ} → ◌≢◌ {A = Option ℕ} none (some n)
none-ne-some eq = cc

-- That many descriptors are free below the limit.
abbrev pub Room : ℕ → ℕ → Table → Type 0
Room limit zero t = Unit
Room limit (suc m) t = (x : ℕ) × (x < limit) × (t x ≡ none) × Room limit m (set t x (some 0))

Room-more :
    (limit m : ℕ) (t u : Table)
    → ((n : ℕ) → t n ≡ none → u n ≡ none)
    → Room limit m t
    → Room limit m u
Room-more limit zero t u more room = room
Room-more limit (suc m) t u more (x, lt, free, room) = (
  x,
  lt,
  more x free,
  Room-more limit m (set t x (some 0)) (set u x (some 0))
      (λ n. unfold set in ground (arith, more n)) room,
)

Room-set :
    (limit m : ℕ) (t : Table) (a file : ℕ)
    → Room limit (suc m) t
    → Room limit m (set t a (some file))
Room-set limit zero t a file room = tt
Room-set limit (suc m) t a file (x, lt, free, room) = elim (Bool-cases (x == a)) [
  | inl same ↦
      Room-more limit (suc m) (set t x (some 0)) (set t a (some file))
        (λ n. unfold set in ground arith) room
  | inr other ↦ (
    x,
    lt,
    unfold set in ground arith,
    Room-more limit m (set (set t x (some 0)) a (some file)) (set (set t a (some file)) x (some 0))
        (λ n. unfold set in ground arith) (Room-set limit m (set t x (some 0)) a file room),
  )
]

-- A table with one descriptor saved in `save` and its place taken.
pub record Redirects (t u : Table) (target save : ℕ) (opened : Option ℕ) : Type 0 where
  pub was_free : t save ≡ none
  pub here : u target ≡ file_or opened (t target)
  pub saved : u save ≡ t target
  pub others : (n : ℕ) → n ≢ save → n ≢ target → u n ≡ t n

module _ (k : Kernel) (target old : ℕ) (t : Table) (is_open : t target ≡ some old) where
  some_free : (u : Table) (fd : ℕ) → k.lowest u ≡ some fd → u target ≡ some old → target ≢ fd
  some_free u fd low there same =
      none-ne-some (sym (k.lowest-free u fd low) ∙ ap u (sym same) ∙ there)

  finds_one : (u : Table) (m : ℕ) → Room k.limit (suc m) u → (fd : ℕ) × (k.lowest u ≡ some fd)
  finds_one u m (x, lt, free, room) = k.lowest-finds u x lt free

  unopened :
      Room k.limit 2 t
      → (save : ℕ) × (u : Table) × (redirect_to k target none t ≡ (some save, u))
        × Redirects t u target save none
  unfolding redirect_to open_file place dup dup2 close
  unopened room =
      let (b, low) = finds_one t 1 room in
      let apart = some_free t b low is_open in
      (
        b,
        set t b (some old),
        rw (is_open, low) refl,
        record {
          was_free = k.lowest-free t b low;
          here = unfold set in ground (arith, apart);
          saved = unfold set in ground (arith, is_open);
          others = λ n off away. unfold set in ground (arith, off);
        },
      )

  opened :
      (file : ℕ)
      → Room k.limit 2 t
      → (save : ℕ) × (u : Table) × (redirect_to k target (some file) t ≡ (some save, u))
        × Redirects t u target save (some file)
  unfolding redirect_to open_file place dup dup2 dup2_file close
  opened file room =
      let (a, low) = finds_one t 1 room in
      let t1 = set t a (some file) in
      let apart = some_free t a low is_open in
      let there : t1 target ≡ some old = unfold set in ground (arith, apart, is_open) in
      let (b, low1) = finds_one t1 0 (Room-set k.limit 1 t a file room) in
      let apart1 = some_free t1 b low1 there in
      let free1 : t1 b ≡ none = k.lowest-free t1 b low1 in
      let at : t1 a ≡ some file = unfold set in ground arith in
      let other : a ≢ b = λ same. none-ne-some (sym free1 ∙ ap t1 (sym same) ∙ at) in
      let taken : set t1 b (some old) a ≡ some file = unfold set in ground (arith, other) in
      let free : t b ≡ none = unfold set in ground (arith, other, free1) in
      (
        b,
        set (set (set t1 b (some old)) target (some file)) a none,
        rw (low, there, low1, taken) refl,
        record {
          was_free = free;
          here = unfold set in ground (arith, apart);
          saved = unfold set in ground (arith, apart1, other, is_open);
          others = λ n off away. unfold set in ground (arith, off, away, k.lowest-free t a low);
        },
      )

  pub redirect_lem :
      (found : Option ℕ)
      → Room k.limit 2 t
      → (save : ℕ) × (u : Table) × (redirect_to k target found t ≡ (some save, u))
        × Redirects t u target save found
  redirect_lem none room = unopened room
  redirect_lem (some file) room = opened file room

restore_lem :
    (target save : ℕ) (u : Table) (x : ℕ)
    → u save ≡ some x
    → (n : ℕ)
    → restore target (some save) u n
      ≡ (if n == save then none else if n == target then some x else u n)
unfolding restore dup2 dup2_file close set
restore_lem target save u x is n = rw is refl

module _ (k : Kernel) (t : Table) (i o : ℕ) (stdin_open : t 0 ≡ some i) (stdout_open : t 1 ≡ some o)
    (room : Room k.limit 3 t) where
  enough-Room : Room k.limit 2 t
  enough-Room =
      let (x, lt, free, more) = room in
      Room-more k.limit 2 (set t x (some 0)) t (λ n. unfold set in ground arith) more

  -- The descriptors while the command runs, and behind it.
  abbrev RoundTrip : Bool → Option ℕ → Bool → Option ℕ → Type 0
  RoundTrip change_out out change_in in_file =
      let r = redirected k change_out out change_in in_file t in
      (r.2 1 ≡ (if change_out then file_or out (t 1) else t 1))
      × (r.2 0 ≡ (if change_in then file_or in_file (t 0) else t 0))
      × ((n : ℕ) → restored change_out change_in r n ≡ t n)

  only_out : (out in_file : Option ℕ) → RoundTrip true out false in_file
  unfolding redirected restored
  only_out out in_file =
      let (save, u, eq, r) = redirect_lem k 1 o t stdout_open out enough-Room in
      let off : 0 ≢ save = λ same. none-ne-some (sym r.was_free ∙ ap t (sym same) ∙ stdin_open) in
      rw eq (
        r.here,
        r.others 0 off (omega arith),
        λ n.
            restore_lem 1 save u o (r.saved ∙ stdout_open) n
            ∙ ground (arith, r.was_free, stdout_open, r.others n),
      )

  only_in : (out in_file : Option ℕ) → RoundTrip false out true in_file
  unfolding redirected restored
  only_in out in_file =
      let (save, u, eq, r) = redirect_lem k 0 i t stdin_open in_file enough-Room in
      let off : 1 ≢ save = λ same. none-ne-some (sym r.was_free ∙ ap t (sym same) ∙ stdout_open) in
      rw eq (
        r.others 1 off (omega arith),
        r.here,
        λ n.
            restore_lem 0 save u i (r.saved ∙ stdin_open) n
            ∙ ground (arith, r.was_free, stdin_open, r.others n),
      )

  file_or-some : (found : Option ℕ) → (file : ℕ) × (file_or found (some o) ≡ some file)
  file_or-some none = (o, refl)
  file_or-some (some file) = (file, refl)

  out_and_in : (out in_file : Option ℕ) → RoundTrip true out true in_file
  unfolding redirected restored
  out_and_in out in_file =
      let (a, u, eq, r) = redirect_lem k 1 o t stdout_open out enough-Room in
      let off : 0 ≢ a = λ same. none-ne-some (sym r.was_free ∙ ap t (sym same) ∙ stdin_open) in
      let in_open : u 0 ≡ some i = r.others 0 off (omega arith) ∙ stdin_open in
      let room' : Room k.limit 2 u =
        Room-more k.limit 2 (set t a (some o)) u
          (λ n. unfold set in ground (arith, stdout_open, r.others n))
          (Room-set k.limit 2 t a o room) in
      let (b, w, eq', q) = redirect_lem k 0 i u in_open in_file room' in
      let (file, is) = file_or-some out in
      let out_open : u 1 ≡ some file = r.here ∙ ap (file_or out) stdout_open ∙ is in
      let off_out : 1 ≢ b = λ same. none-ne-some (sym q.was_free ∙ ap u (sym same) ∙ out_open) in
      let kept : u a ≡ some o = r.saved ∙ stdout_open in
      let apart : a ≢ b = λ same. none-ne-some (sym q.was_free ∙ ap u (sym same) ∙ kept) in
      let out_saved : w a ≡ some o = q.others a apart (λ same. off (sym same)) ∙ kept in
      let v = restore 1 (some a) w in
      let v_is = restore_lem 1 a w o out_saved in
      let in_saved : v b ≡ some i = v_is b ∙ ground (arith, apart, off_out, q.saved, in_open) in
      let unused : t b ≡ none =
        sym (r.others b (λ same. apart (sym same)) (λ same. off_out (sym same))) ∙ q.was_free in
      rw (eq, eq')
        (
          q.others 1 off_out (omega arith) ∙ r.here,
          q.here ∙ ap (file_or in_file) (r.others 0 off (omega arith)),
          λ n.
              restore_lem 0 b v i in_saved n
              ∙ ground (
                arith,
                unused,
                r.was_free,
                stdin_open,
                stdout_open,
                v_is n,
                q.others n,
                r.others n,
              ),
        )

  -- Where standard input and output are open, and three descriptors are free below the limit, a command that is redirected runs with the files on descriptors 1 and 0, or with the old ones
  -- where a file could not be opened; and behind it every descriptor of the shell stands for what
  -- it stood for before: both are set back, and none is left open.
  pub restored-redirected :
      (change_out : Bool) (out : Option ℕ) (change_in : Bool) (in_file : Option ℕ)
      → ((redirected k change_out out change_in in_file t).2 1
          ≡ (if change_out then file_or out (t 1) else t 1))
        × ((redirected k change_out out change_in in_file t).2 0
            ≡ (if change_in then file_or in_file (t 0) else t 0))
        × ((n : ℕ)
            → restored change_out change_in (redirected k change_out out change_in in_file t) n
              ≡ t n)
  unfolding redirected restored
  restored-redirected false out false in_file = (refl, refl, λ n. refl)
  restored-redirected true out false in_file = only_out out in_file
  restored-redirected false out true in_file = only_in out in_file
  restored-redirected true out true in_file = out_and_in out in_file
