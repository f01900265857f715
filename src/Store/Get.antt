-- ===== src/Store/Get.antt =====
-- kvstore_get as a lookup by key.
use cs162hw.Base.{
  ℕ, ◌≤◌, ◌≡◌, refl, ◌⊎◌, inl, inr, pos, none, some, length, arith, Bool-cases, true, ltb, ltb→le,
  sym, ◌∙◌,
}
use cs162hw.Base.Text.{Text}
use cs162hw.Consts.{max_keylen, err_no_key, err_key_len}
use cs162hw.Disk.{Disk, Entry, Os}
use cs162hw.Store.{Found, found, failed, value_of, find_entry, get}
use cs162hw.Store.Find.{Opens, IsStore, At, Lacks, found_At, failed_Lacks, find_hit, find_miss}

module _ (hash : Text → ℕ) (os : Os) (d : Disk) (key : Text) where
  pub get_long : ltb max_keylen (length key) ≡ true → get hash os d key ≡ (err_key_len, none)
  unfolding get find_entry
  get_long long = ground arith

  module _ (opens : Opens os) (inv : IsStore hash d) (short : length key ≤ max_keylen) where
    pub get_hit :
        (i : ℕ) (e : Entry) → At hash d key i e → get hash os d key ≡ (pos 0, some (value_of e))
    unfolding get
    get_hit i e at = rw (find_hit hash os d key opens inv short i e at, get)

    pub get_miss : Lacks hash d key → get hash os d key ≡ (err_no_key, none)
    unfolding get
    get_miss lacks = rw (find_miss hash os d key opens inv short lacks, get)

    pub At-cases : ((i : ℕ) × (e : Entry) × At hash d key i e) ⊎ Lacks hash d key
    At-cases = go (find_entry hash os d key) refl
      where
        go :
            (r : Found)
            → find_entry hash os d key ≡ r
            → ((i : ℕ) × (e : Entry) × At hash d key i e) ⊎ Lacks hash d key
        go (found i v) eq = let (e, at, got) = found_At hash os d key i v eq in inl (i, e, at)
        go (failed c) eq = inr (failed_Lacks hash os d key opens inv short c eq).1

-- Two directories that hold the same entry for a key, or neither, answer alike.
pub get_same :
    (hash : Text → ℕ) (os : Os) (d d' : Disk) (key : Text)
    → Opens os
    → IsStore hash d
    → IsStore hash d'
    → ((i : ℕ) (e : Entry) → At hash d key i e → (j : ℕ) × At hash d' key j e)
    → (Lacks hash d key → Lacks hash d' key)
    → get hash os d' key ≡ get hash os d key
get_same hash os d d' key opens inv inv' keeps lacks =
    elim (Bool-cases (ltb max_keylen (length key))) [
      | inl long ↦ rw (get_long hash os d key long, get_long hash os d' key long)
      | inr fits ↦
          let short = ltb→le max_keylen (length key) fits in
          elim (At-cases hash os d key opens inv short) [
            | inl (i, e, at) ↦
                let (j, at') = keeps i e at in
                rw (
                  get_hit hash os d key opens inv short i e at,
                  get_hit hash os d' key opens inv' short j e at',
                )
            | inr none_there ↦ rw (
              get_miss hash os d key opens inv short none_there,
              get_miss hash os d' key opens inv' short (lacks none_there),
            )
          ]
    ]

-- kvstore_get, of a key within the limit, on a well-formed store whose files can be opened, is a
-- lookup by key: it returns 0 and the value of the one entry of the key, or ERRNOKEY and no value,
-- where no file of the chain has that key.
pub get_cases :
    (hash : Text → ℕ) (os : Os) (d : Disk) (key : Text)
    → Opens os
    → IsStore hash d
    → length key ≤ max_keylen
    → ((i : ℕ) × (e : Entry) × At hash d key i e
        × (get hash os d key ≡ (pos 0, some (value_of e)))
        × ((j : ℕ) (f : Entry) → At hash d key j f → j ≡ i))
      ⊎ (Lacks hash d key × (get hash os d key ≡ (err_no_key, none)))
get_cases hash os d key opens inv short = elim (At-cases hash os d key opens inv short) [
  | inl (i, e, at) ↦ inl (
    i,
    e,
    at,
    get_hit hash os d key opens inv short i e at,
    λ j f at'. inv.unique (hash key) j i f e at'.0 at.0 (at'.1 ∙ sym at.1),
  )
  | inr lacks ↦ inr (lacks, get_miss hash os d key opens inv short lacks)
]
