-- ===== src/Store/Find.antt =====
-- What find_entry finds: the walk over a chain, and the store invariant that makes it a lookup.
use cs162hw.Base.{
  ℕ, zero, suc, ◌+◌, ◌≤◌, ◌<◌, ◌≡◌, ◌≢◌, refl, inl, inr, ℤ, true, false, none, some, length, arith,
  Bool-cases, Option-cases, is_some, ltb, le→ltb, ltb→lt, ◌==◌,
}
use cs162hw.Base.Text.{Text, str_eq, str_eq_sound, str_eq_refl}
use cs162hw.Consts.{max_keylen, err_no_key}
use cs162hw.Disk.{Disk, Entry, Os, entry_at, chain-le-length}
use cs162hw.Store.{Found, found, failed, key_of, value_of, find_loop, find_entry}

-- Every entry file can be opened.
abbrev pub Opens : Os → Type 0
Opens os = (h i : ℕ) → os.opens_entry h i ≡ true

-- Below position `n` no file of the chain is missing.
abbrev pub Filled : Disk → ℕ → ℕ → Type 0
Filled d h n = (i : ℕ) → i < n → is_some (entry_at d h i) ≡ true

find_loop_hit :
    (fuel : ℕ) (os : Os) (d : Disk) (key : Text) (h i j : ℕ) (v : Text)
    → find_loop fuel os d key h i ≡ found j v
    → (e : Entry) × (entry_at d h j ≡ some e) × (key_of e ≡ key) × (v ≡ value_of e)
unfolding find_loop
find_loop_hit zero os d key h i j v eq = cc
find_loop_hit (suc fuel) os d key h i j v eq = elim (Option-cases (entry_at d h i)) [
  | inl gone ↦ ground arith
  | inr (e, here) ↦ elim (Bool-cases (str_eq key (key_of e))) [
    | inl same ↦ (e, ground arith, ground (arith, str_eq_sound key (key_of e)), ground arith)
    | inr other ↦ find_loop_hit fuel os d key h (suc i) j v (ground arith)
  ]
]

-- A failed search has walked over the whole chain, and met only other keys.
pub Missed : Disk → Text → ℕ → ℕ → ℤ → Type 0
Missed d key h i c =
    (n : ℕ) × (entry_at d h n ≡ none)
    × (c ≡ err_no_key)
    × ((j : ℕ) (e : Entry) → i ≤ j → j < n → entry_at d h j ≡ some e → key_of e ≢ key)

find_loop_miss :
    (fuel : ℕ) (os : Os) (d : Disk) (key : Text) (h i : ℕ) (c : ℤ)
    → Opens os
    → Filled d h i
    → length d.entries < fuel + i
    → find_loop fuel os d key h i ≡ failed c
    → Missed d key h i c
unfolding find_loop Missed
find_loop_miss zero os d key h i c opens all fuel eq =
    absurd (omega (arith, chain-le-length d h i all))
find_loop_miss (suc fuel) os d key h i c opens all enough eq =
    elim (Option-cases (entry_at d h i)) [
      | inl gone ↦ (i, gone, ground arith, λ j e le lt here. absurd (omega arith))
      | inr (e, here) ↦
          let other : str_eq key (key_of e) ≡ false = ground (arith, opens h i) in
          let (n, end, code, rest) =
            find_loop_miss fuel os d key h (suc i) c opens (λ j lt. ground (arith, all j))
              (omega arith) (ground (arith, opens h i)) in
          (n, end, code, λ j f le lt at. ground (arith, rest j f, str_eq_refl key))
    ]

module _ (hash : Text → ℕ) where
  -- What kvstore.h asks of the directory: chains have no gaps, an entry lies in the chain of its
  -- key, and no key has two entries.
  pub record IsStore (d : Disk) : Type 0 where
    pub there : d.present ≡ true
    pub complete :
        (h i j : ℕ) → i < j → is_some (entry_at d h j) ≡ true → is_some (entry_at d h i) ≡ true
    pub chained : (h i : ℕ) (e : Entry) → entry_at d h i ≡ some e → hash (key_of e) ≡ h
    pub unique :
        (h i j : ℕ) (e f : Entry)
        → entry_at d h i ≡ some e
        → entry_at d h j ≡ some f
        → key_of e ≡ key_of f
        → i ≡ j

  -- `d` has an entry for `key` at position `i`.
  abbrev pub At : Disk → Text → ℕ → Entry → Type 0
  At d key i e = (entry_at d (hash key) i ≡ some e) × (key_of e ≡ key)

  -- `d` has no entry for `key`.
  abbrev pub Lacks : Disk → Text → Type 0
  Lacks d key = (i : ℕ) (e : Entry) → entry_at d (hash key) i ≡ some e → key_of e ≢ key

  module _ (os : Os) (d : Disk) (key : Text) where
    pub found_At :
        (j : ℕ) (v : Text)
        → find_entry hash os d key ≡ found j v
        → (e : Entry) × At d key j e × (v ≡ value_of e)
    unfolding find_entry
    found_At j v eq =
        let (e, here, same, got) =
          find_loop_hit (length d.entries + 1) os d key (hash key) 0 j v (ground arith) in
        (e, (here, same), got)

    module _ (opens : Opens os) (inv : IsStore d) (short : length key ≤ max_keylen) where
      failed_Missed : (c : ℤ) → find_entry hash os d key ≡ failed c → Missed d key (hash key) 0 c
      unfolding find_entry
      failed_Missed c eq =
          find_loop_miss (length d.entries + 1) os d key (hash key) 0 c opens
            (λ i lt. absurd (omega arith)) (omega arith)
            (ground (arith, inv.there, le→ltb max_keylen (length key)))

      -- The search fails exactly with ERRNOKEY, and only where the store has no such key.
      pub failed_Lacks :
          (c : ℤ) → find_entry hash os d key ≡ failed c → (c ≡ err_no_key) × Lacks d key
      unfolding Missed
      failed_Lacks c eq =
          let (n, end, code, rest) = failed_Missed c eq in
          (
            code,
            λ j e here. elim (Bool-cases (ltb j n)) [
              | inl lt ↦ rest j e (omega arith) (ltb→lt j n lt) here
              | inr ge ↦ elim (Bool-cases (j == n)) [
                | inl at ↦ λ same. ground arith
                | inr off ↦ λ same. ground (arith, inv.complete (hash key) n j)
              ]
            ],
          )

      pub find_hit :
          (i : ℕ) (e : Entry) → At d key i e → find_entry hash os d key ≡ found i (value_of e)
      find_hit i e at = go (find_entry hash os d key) refl
        where
          go :
              (r : Found)
              → find_entry hash os d key ≡ r
              → find_entry hash os d key ≡ found i (value_of e)
          go (found j v) eq =
              let (f, there, got) = found_At j v eq in ground (arith, inv.unique (hash key) i j e f)
          go (failed c) eq = absurd ((failed_Lacks c eq).1 i e at.0 at.1)

      pub find_miss : Lacks d key → find_entry hash os d key ≡ failed err_no_key
      find_miss lacks = go (find_entry hash os d key) refl
        where
          go :
              (r : Found)
              → find_entry hash os d key ≡ r
              → find_entry hash os d key ≡ failed err_no_key
          go (found j v) eq =
              let (f, there, got) = found_At j v eq in absurd (lacks j f there.0 there.1)
          go (failed c) eq = ground (arith, failed_Lacks c eq)
