-- ===== src/Log/Scan.antt =====
-- The loops over the log files: the search for the next number, and the clearing of the log.
use cs162hw.Base.{
  ℕ, zero, suc, ◌+◌, ◌≤◌, ◌<◌, ◌≡◌, ◌∙◌, refl, inl, inr, pos, true, ◌&&◌, none, length, arith,
  Bool-cases, Option-cases, is_some, ltb, leb, if◌then◌else◌,
}
use cs162hw.Disk.{Disk, Os, log_at, remove_log, log_at-remove_log, logs-le-length}
use cs162hw.Log.{TpcLog, next_id, clear_loop, clear_log, init}

-- The log files are exactly those with numbers below `n`.
abbrev pub IsLog : Disk → ℕ → Type 0
IsLog d n = (i : ℕ) → is_some (log_at d i) ≡ ltb i n

abbrev pub Full : Disk → ℕ → Type 0
Full d n = (i : ℕ) → i < n → is_some (log_at d i) ≡ true

pub next_id_lem :
    (fuel : ℕ) (d : Disk) (i : ℕ)
    → Full d i
    → length d.logs < fuel + i
    → (i ≤ next_id fuel d i) × (log_at d (next_id fuel d i) ≡ none) × Full d (next_id fuel d i)
unfolding next_id
next_id_lem zero d i all enough = absurd (omega (arith, logs-le-length d i all))
next_id_lem (suc fuel) d i all enough = elim (Option-cases (log_at d i)) [
  | inl gone ↦ rw gone (omega arith, gone, all)
  | inr (e, here) ↦
      let (le, end, full) =
        next_id_lem fuel d (suc i) (λ j lt. ground (arith, all j)) (omega arith) in
      rw here (omega arith, end, full)
]

-- The files that are removed are those from `i` on up to the first gap.
pub clear_loop_lem :
    (fuel n : ℕ) (os : Os) (d : Disk) (i : ℕ)
    → ((j : ℕ) → os.removes_log j ≡ true)
    → ((j : ℕ) → i ≤ j → is_some (log_at d j) ≡ ltb j n)
    → n < fuel + i
    → ((clear_loop fuel os d i).0 ≡ true)
      × ((clear_loop fuel os d i).1.entries ≡ d.entries)
      × ((clear_loop fuel os d i).1.present ≡ d.present)
      × ((j : ℕ)
          → log_at (clear_loop fuel os d i).1 j ≡ (if leb i j && ltb j n then none else log_at d j))
unfolding clear_loop
clear_loop_lem zero n os d i removes all enough = (refl, refl, refl, λ j. ground arith)
clear_loop_lem (suc fuel) n os d i removes all enough = elim (Bool-cases (is_some (log_at d i))) [
  | inl here ↦
      let (done, entries, there, files) =
        clear_loop_lem fuel n os (remove_log d i) (suc i) removes
          (λ j le. rw log_at-remove_log (ground (arith, all j))) (omega arith) in
      rw (here, removes i)
        (done, entries, there, λ j. files j ∙ rw log_at-remove_log (ground (arith, all i)))
  | inr gone ↦ rw gone (refl, refl, refl, λ j. ground (arith, all i, all j))
]

-- Where the first `n` files are there and the next is not, tpclog_init finds `n`.
pub next_id-eq :
    (d : Disk) (n : ℕ) → Full d n → log_at d n ≡ none → next_id (length d.logs + 1) d 0 ≡ n
next_id-eq d n all gone =
    let (le, end, full) =
      next_id_lem (length d.logs + 1) d 0 (λ i lt. absurd (omega arith)) (omega arith) in
    let m = next_id (length d.logs + 1) d 0 in
    elim (Bool-cases (ltb m n)) [
      | inl below ↦ absurd (ground (arith, all m))
      | inr above ↦ elim (Bool-cases (ltb n m)) [
        | inl past ↦ absurd (ground (arith, full n))
        | inr same ↦ ground arith
      ]
    ]

-- Where the directory can be made, tpclog_init gives the log the number behind the last file of
-- its unbroken beginning, and creates the directory if need be.
pub init-Full :
    (os : Os) (log : TpcLog) (d : Disk) (n : ℕ)
    → os.makes_dir ≡ true
    → Full d n
    → log_at d n ≡ none
    → init os log d ≡ (pos 0, record log { nextid = n }, record d { present = true })
unfolding init
init-Full os log d n makes all gone = ground (arith, next_id-eq d n all gone)

-- Where the log files can be removed and have no gaps in their numbers, tpclog_clear_log removes
-- every one of them and nothing else, and the numbers start from 0 again.
pub clear_log-IsLog :
    (os : Os) (log : TpcLog) (d : Disk) (n : ℕ)
    → ((i : ℕ) → os.removes_log i ≡ true)
    → IsLog d n
    → ((clear_log os log d).0 ≡ pos 0)
      × ((clear_log os log d).1.nextid ≡ 0)
      × ((clear_log os log d).2.entries ≡ d.entries)
      × ((clear_log os log d).2.present ≡ d.present)
      × ((i : ℕ) → log_at (clear_log os log d).2 i ≡ none)
unfolding clear_log
clear_log-IsLog os log d n removes is =
    let short : n ≤ length d.logs = logs-le-length d n (λ i lt. ground (arith, is i)) in
    let (done, entries, there, files) =
      clear_loop_lem (length d.logs + 1) n os d 0 removes (λ j le. is j) (omega arith) in
    rw done (refl, refl, entries, there, λ i. files i ∙ ground (arith, is i))
