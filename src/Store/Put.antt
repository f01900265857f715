-- ===== src/Store/Put.antt =====
-- kvstore_put: the slot that it writes to, and what it does to the store.
use cs162hw.Base.{
  ℕ, zero, suc, ◌+◌, ◌≤◌, ◌<◌, ◌≡◌, ◌≢◌, inl, inr, refl, pos, none, some, [], ◌∷◌, ◌++◌, length,
  arith, Bool-cases, Option-cases, ltb, le→ltb, ltb→le, if◌then◌else◌,
}
use cs162hw.Base.Text.{Text, IsText, c_str-append, drop-nul, str_eq, str_eq_sound, str_eq_iff}
use cs162hw.Consts.{max_keylen, max_vallen}
use cs162hw.Disk.{Disk, Entry, Os, entry_at, put_entry, entry_at-put_entry, chain-le-length}
use cs162hw.Store.{
  Found, found, failed, key_of, value_of, make_entry, find_entry, found_code, chain_end, put_at,
  put_find, put_write, put_check, put, get,
}
use cs162hw.Store.Get.{get_hit, get_same}
use cs162hw.Store.Find.{Opens, Filled, IsStore, At, Lacks, found_At, failed_Lacks}

-- What kvstore_put stores is read back as the key and the value.
pub make_entry_fields :
    (k v : Text)
    → IsText k
    → IsText v
    → (key_of (make_entry k v) ≡ k) × (value_of (make_entry k v) ≡ v)
unfolding key_of value_of make_entry
make_entry_fields k v hk hv =
    let key = c_str-append k (v ++ 0 ∷ []) hk in
    let tail = drop-nul k (v ++ 0 ∷ []) in (key, rw (key, tail) (c_str-append v [] hv))

-- The search for the end of a chain stops at its first missing file, with the fuel it is given.
pub chain_end_lem :
    (fuel : ℕ) (d : Disk) (h i : ℕ)
    → Filled d h i
    → length d.entries < fuel + i
    → (i ≤ chain_end fuel d h i)
      × (entry_at d h (chain_end fuel d h i) ≡ none)
      × Filled d h (chain_end fuel d h i)
unfolding chain_end
chain_end_lem zero d h i all enough = absurd (omega (arith, chain-le-length d h i all))
chain_end_lem (suc fuel) d h i all enough = elim (Option-cases (entry_at d h i)) [
  | inl gone ↦ rw gone (omega arith, gone, all)
  | inr (e, here) ↦
      let (le, end, full) =
        chain_end_lem fuel d h (suc i) (λ j lt. ground (arith, all j)) (omega arith) in
      rw here (omega arith, end, full)
]

module _ (hash : Text → ℕ) where
  -- The position that a key has, or may be given.
  pub record IsSlot (d : Disk) (key : Text) (at : ℕ) : Type 0 where
    pub filled : Filled d (hash key) at
    pub only : (j : ℕ) (e : Entry) → At hash d key j e → j ≡ at
    pub free : (e : Entry) → entry_at d (hash key) at ≡ some e → key_of e ≡ key

  pub put_at-IsSlot :
      (os : Os) (d : Disk) (key : Text)
      → Opens os
      → IsStore hash d
      → length key ≤ max_keylen
      → IsSlot d key (put_at d (hash key) (put_find hash os d key))
  unfolding put_find found_code put_at
  put_at-IsSlot os d key opens inv short = go (find_entry hash os d key) refl
    where
      go :
          (r : Found)
          → find_entry hash os d key ≡ r
          → IsSlot d key (put_at d (hash key) (put_find hash os d key))
      go (found i v) eq =
          let (e, here, got) = found_At hash os d key i v eq in
          rw eq (record {
            filled = λ j lt. inv.complete (hash key) j i lt (ground arith);
            only = λ j f at. inv.unique (hash key) j i f e at.0 here.0 (ground arith);
            free = λ f at. ground arith;
          })
      go (failed c) eq =
          let (code, lacks) = failed_Lacks hash os d key opens inv short c eq in
          let (le, end, full) =
            chain_end_lem (length d.entries + 1) d (hash key) 0 (λ i lt. absurd (omega arith))
              (omega arith) in
          rw (eq, code)
            (record {
              filled = full;
              only = λ j f at. absurd (lacks j f at.0 at.1);
              free = λ f at. ground arith;
            })

  module _ (d : Disk) (key value : Text) (at : ℕ) (slot : IsSlot d key at) (hk : IsText key)
      (hv : IsText value) where
    fields : (key_of (make_entry key value) ≡ key) × (value_of (make_entry key value) ≡ value)
    fields = make_entry_fields key value hk hv

    -- Writing to a slot keeps the store invariant.
    pub put_entry-IsStore :
        IsStore hash d → IsStore hash (put_entry d (hash key) at (make_entry key value))
    put_entry-IsStore inv = record {
      there = inv.there;
      complete = λ h i j lt.
          rw (entry_at-put_entry d (hash key) at h i, entry_at-put_entry d (hash key) at h j)
            λ is. ground (arith, inv.complete h i j, slot.filled i);
      chained = λ h i e. rw entry_at-put_entry λ is. ground (arith, inv.chained h i e, fields);
      unique = λ h i j e f.
          rw (entry_at-put_entry d (hash key) at h i, entry_at-put_entry d (hash key) at h j)
            λ ei fj same.
              ground (arith, inv.unique h i j e f, fields, slot.only i e, slot.only j f);
    }

    -- Afterwards the key has the new entry, and every other key what it had.
    pub At-put_entry_self :
        At hash (put_entry d (hash key) at (make_entry key value)) key at (make_entry key value)
    At-put_entry_self = (rw entry_at-put_entry (ground arith), fields.0)

    pub At-put_entry_ne :
        (j : Text) (i : ℕ) (e : Entry)
        → key ≢ j
        → At hash d j i e
        → At hash (put_entry d (hash key) at (make_entry key value)) j i e
    At-put_entry_ne j i e ne here = (rw entry_at-put_entry (ground (arith, slot.free e)), here.1)

    pub Lacks-put_entry_ne :
        (j : Text)
        → key ≢ j
        → Lacks hash d j
        → Lacks hash (put_entry d (hash key) at (make_entry key value)) j
    Lacks-put_entry_ne j ne lacks i e =
        rw entry_at-put_entry λ is. λ same. ground (arith, lacks i e, fields)

  module _ (os : Os) (opens : Opens os) (d : Disk) (inv : IsStore hash d) (key value : Text) where
    slot_of : ℕ
    slot_of = put_at d (hash key) (put_find hash os d key)

    put-eq :
        length key ≤ max_keylen
        → length value ≤ max_vallen
        → put hash os d key value ≡ (pos 0, put_entry d (hash key) slot_of (make_entry key value))
    unfolding put put_check put_write slot_of
    put-eq hk hv = ground (
      arith,
      le→ltb max_keylen (length key),
      le→ltb max_vallen (length value),
      inv.there,
      opens (hash key) (put_at d (hash key) (put_find hash os d key)),
    )

    -- Where the files can be opened, a put of C strings keeps the chains of a well-formed store
    -- complete, in the right chain and free of duplicates, whatever the lengths of the key and of
    -- the value.
    pub put-IsStore : IsText key → IsText value → IsStore hash (put hash os d key value).1
    put-IsStore tk tv = elim (Bool-cases (ltb max_keylen (length key))) [
      | inl long ↦ unfold put put_check in rw long inv
      | inr short ↦ elim (Bool-cases (ltb max_vallen (length value))) [
        | inl long ↦ unfold put put_check in rw (short, long) inv
        | inr fits ↦ rw (put-eq (ltb→le _ _ short) (ltb→le _ _ fits)) (
            unfold slot_of in
            put_entry-IsStore d key value slot_of
              (put_at-IsSlot os d key opens inv (ltb→le _ _ short)) tk tv inv)
      ]
    ]

    -- On a well-formed store whose files can be opened, after a put of a key and a value, C
    -- strings within the limits, a get of any key returns the new value if it is the same key, and
    -- otherwise what it returned before.
    pub get-put :
        (j : Text)
        → IsText key
        → IsText value
        → length key ≤ max_keylen
        → length value ≤ max_vallen
        → get hash os (put hash os d key value).1 j
          ≡ (if str_eq key j then (pos 0, some value) else get hash os d j)
    get-put j tk tv hk hv =
        let slot = put_at-IsSlot os d key opens inv hk in
        let inv' = put_entry-IsStore d key value slot_of (unfold slot_of in slot) tk tv inv in
        rw (put-eq hk hv) (elim (Bool-cases (str_eq key j)) [
          | inl same ↦
              let e = str_eq_sound key j same in
              rw
                (
                  same,
                  ← e,
                  get_hit hash os _ key opens inv' hk slot_of _
                      (At-put_entry_self d key value slot_of (unfold slot_of in slot) tk tv),
                )
                (rw (make_entry_fields key value tk tv).1)
          | inr other ↦
              let ne : key ≢ j = λ e. ground (arith, str_eq_iff key j) in
              rw other (
                get_same hash os _ _ j opens inv inv'
                  (λ i e here. (
                    i,
                    At-put_entry_ne d key value slot_of (unfold slot_of in slot) tk tv j i e ne
                        here,
                  ))
                  (Lacks-put_entry_ne d key value slot_of (unfold slot_of in slot) tk tv j ne))
        ])
