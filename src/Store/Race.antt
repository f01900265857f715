-- ===== src/Store/Race.antt =====
-- Two threads in kvstore_put. find_entry gives its read lock back before kvstore_put takes the
-- write lock, so a second put may search between the search and the write of the first.
use cs162hw.Base.{
  sym, subst, ℕ, suc, ◌+◌, ◌≤◌, ◌≡◌, refl, ap, ℤ, inl, inr, pos, none, Bool-cases, ltb, length,
  arith,
}
use cs162hw.Base.Text.{Text, IsText}
use cs162hw.Consts.{max_keylen, max_vallen, err_no_key}
use cs162hw.Disk.{Disk, Os, entry_at, put_entry, entry_at-put_entry}
use cs162hw.Store.{
  found_code, make_entry, chain_end, put_at, put_check, put_find, put_write, put_searched,
  put_ended, put,
}
use cs162hw.Store.Find.{Opens, Filled, IsStore, At, Lacks, find_miss}
use cs162hw.Store.Put.{make_entry_fields, chain_end_lem}

-- The end of a chain is where its files stop.
chain_end-eq :
    (d : Disk) (h n : ℕ)
    → Filled d h n
    → entry_at d h n ≡ none
    → chain_end (length d.entries + 1) d h 0 ≡ n
chain_end-eq d h n full gone =
    let (le, end, full') =
      chain_end_lem (length d.entries + 1) d h 0 (λ i lt. absurd (omega arith)) (omega arith) in
    elim (Bool-cases (ltb n (chain_end (length d.entries + 1) d h 0))) [
      | inl before ↦ absurd (ground (arith, full' n))
      | inr past ↦ elim (Bool-cases (ltb (chain_end (length d.entries + 1) d h 0) n)) [
        | inl before ↦ absurd (ground (arith, full (chain_end (length d.entries + 1) d h 0)))
        | inr same ↦ ground arith
      ]
    ]

-- The two parts of kvstore_put, one right after the other.
pub put-ended :
    (hash : Text → ℕ) (os : Os) (d : Disk) (key value : Text)
    → put_ended hash os d key value (put_searched hash os d key value) ≡ put hash os d key value
unfolding put_ended put_searched put
put-ended hash os d key value = refl

-- Both puts have searched the directory `d` before the first writes; then the second writes.
abbrev pub first : (Text → ℕ) → Os → Disk → Text → Text → ℤ × Disk
first hash os d key v = put_ended hash os d key v (put_searched hash os d key v)

abbrev pub second : (Text → ℕ) → Os → Disk → Text → Text → Text → ℤ × Disk
second hash os d key v w =
    put_ended hash os (first hash os d key v).1 key w (put_searched hash os d key w)

module _ (hash : Text → ℕ) (os : Os) (opens : Opens os) where
  put_write-append :
      (d : Disk) (key v : Text) (n : ℕ)
      → Filled d (hash key) n
      → entry_at d (hash key) n ≡ none
      → put_write hash os d key v err_no_key ≡ (pos 0, put_entry d (hash key) n (make_entry key v))
  unfolding put_write put_at
  put_write-append d key v n full gone =
      rw (chain_end-eq d (hash key) n full gone, opens (hash key) n)

  module _ (d : Disk) (inv : IsStore hash d) (key v w : Text) where
    -- What the search has found, and the check of each put.
    searched :
        Lacks hash d key
        → length key ≤ max_keylen
        → (value : Text) → length value ≤ max_vallen
        → put_searched hash os d key value ≡ (pos 0, err_no_key)
    unfolding put_searched put_check put_find found_code
    searched lacks short value fits =
        rw (find_miss hash os d key opens inv short lacks) (ground (arith, inv.there))

    -- From a well-formed store without the key, whose files can be opened, two puts of C strings
    -- that kvstore_put_check allows, where the second searches before the first writes, both
    -- return 0 and leave two entries for the key, side by side in its chain, and so break the store
    -- invariant.
    pub put_race :
        IsText key
        → IsText v
        → IsText w
        → length key ≤ max_keylen
        → length v ≤ max_vallen
        → length w ≤ max_vallen
        → Lacks hash d key
        → ((first hash os d key v).0 ≡ pos 0)
          × ((second hash os d key v w).0 ≡ pos 0)
          × ((n : ℕ) × At hash (second hash os d key v w).1 key n (make_entry key v)
              × At hash (second hash os d key v w).1 key (suc n) (make_entry key w)
              × (¬ IsStore hash (second hash os d key v w).1))
    unfolding put_ended
    put_race tk tv tw short fits fits' lacks =
        let n = chain_end (length d.entries + 1) d (hash key) 0 in
        let (le, end, full) =
          chain_end_lem (length d.entries + 1) d (hash key) 0 (λ i lt. absurd (omega arith))
            (omega arith) in
        let d1 = put_entry d (hash key) n (make_entry key v) in
        let d2 = put_entry d1 (hash key) (suc n) (make_entry key w) in
        let full' : Filled d1 (hash key) (suc n) =
          λ i lt. rw entry_at-put_entry (ground (arith, full i)) in
        let end' : entry_at d1 (hash key) (suc n) ≡ none =
          rw entry_at-put_entry (ground (arith, inv.complete (hash key) n (suc n))) in
        let is1 : first hash os d key v ≡ (pos 0, d1) =
          rw (searched lacks short v fits, put_write-append d key v n full end) in
        let is2 : second hash os d key v w ≡ (pos 0, d2) =
          rw (is1, searched lacks short w fits', put_write-append d1 key w (suc n) full' end') in
        let at : At hash d2 key n (make_entry key v) = (
          rw (entry_at-put_entry, entry_at-put_entry) (ground arith),
          (make_entry_fields key v tk tv).0,
        ) in
        let at' : At hash d2 key (suc n) (make_entry key w) =
          (rw entry_at-put_entry (ground arith), (make_entry_fields key w tk tw).0) in
        let bad : ¬ IsStore hash d2 = λ bad. ground (
          arith,
          bad.unique (hash key) n (suc n) (make_entry key v) (make_entry key w) at.0 at'.0,
        ) in
        (
          ap (λ (r : ℤ × Disk). r.0) is1,
          ap (λ (r : ℤ × Disk). r.0) is2,
          subst
              (λ (r : ℤ × Disk).
                (n : ℕ) × At hash r.1 key n (make_entry key v)
                × At hash r.1 key (suc n) (make_entry key w)
                × (¬ IsStore hash r.1))
              (sym is2) (n, at, at', bad),
        )
