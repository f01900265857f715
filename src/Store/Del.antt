-- ===== src/Store/Del.antt =====
-- kvstore_del: the hole that a deletion leaves is filled by the last entry of the chain.
use cs162hw.Base.{
  ℕ, zero, suc, ◌+◌, ◌-◌, ◌≤◌, ◌<◌, ◌≡◌, ◌≢◌, inl, inr, refl, ap, ◌∙◌, pos, true, ◌&&◌, none, some,
  length, arith, Bool-cases, Option-cases, ◌==◌, if◌then◌else◌,
}
use cs162hw.Base.Text.{Text, str_eq, str_eq_sound, str_eq_iff}
use cs162hw.Consts.{max_keylen, err_no_key}
use cs162hw.Disk.{
  Disk, Entry, Os, entry_at, put_entry, remove_entry, entry_at-put_entry, entry_at-remove_entry,
}
use cs162hw.Store.{chain_end, del, del_write, get}
use cs162hw.Store.Find.{Opens, Filled, IsStore, At, Lacks, find_hit, find_miss}
use cs162hw.Store.Get.{get_miss, get_same, At-cases}
use cs162hw.Store.Put.{chain_end_lem}

-- Files can be removed and renamed.
pub record Deletes (os : Os) : Type 0 where
  pub removes : os.removes_entry ≡ true
  pub renames : os.renames_entry ≡ true

-- `d'` is `d` with the last entry of the chain `h`, at `last`, moved to position `i`.
pub record Moved (d d' : Disk) (h i last : ℕ) (e : Entry) : Type 0 where
  pub there : d'.present ≡ d.present
  pub logs : d'.logs ≡ d.logs
  pub ordered : i ≤ last
  pub moved : entry_at d h last ≡ some e
  pub ends : entry_at d h (suc last) ≡ none
  pub files :
      (g j : ℕ)
      → entry_at d' g j ≡ (
          if h == g && last == j then none else if h == g && i == j then some e else entry_at d g j)

module _ (d : Disk) (h i : ℕ) where
  remove-Moved :
      (e : Entry)
      → entry_at d h i ≡ some e
      → entry_at d h (suc i) ≡ none
      → Moved d (remove_entry d h i) h i i e
  remove-Moved e here end = record {
    there = refl;
    logs = refl;
    ordered = omega arith;
    moved = here;
    ends = end;
    files = λ g j. rw entry_at-remove_entry (ground arith);
  }

  rename-Moved :
      (last : ℕ) (f : Entry)
      → i < last
      → entry_at d h last ≡ some f
      → entry_at d h (suc last) ≡ none
      → Moved d (put_entry (remove_entry d h last) h i f) h i last f
  rename-Moved last f lt at end = record {
    there = refl;
    logs = refl;
    ordered = omega arith;
    moved = at;
    ends = end;
    files = λ g j. rw (entry_at-put_entry, entry_at-remove_entry) (ground arith);
  }

module _ (hash : Text → ℕ) (os : Os) (deletes : Deletes os) (d : Disk) (key : Text) (i : ℕ) where
  abbrev end_of : ℕ
  end_of = chain_end (length d.entries + 1) d (hash key) (suc i)

  del_write_last : end_of ≡ suc i → del_write hash os d key i ≡ (pos 0, remove_entry d (hash key) i)
  unfolding del_write
  del_write_last eq = ground (arith, deletes.removes)

  del_write_inner :
      (last : ℕ) (f : Entry)
      → end_of ≡ suc last
      → i < last
      → entry_at d (hash key) last ≡ some f
      → del_write hash os d key i
        ≡ (pos 0, put_entry (remove_entry d (hash key) last) (hash key) i f)
  unfolding del_write
  del_write_inner last f eq lt there =
      let same : end_of - 1 ≡ last = omega arith in rw (deletes.renames, same, there) (ground arith)

  -- What the locked part of a deletion does to an entry that is there.
  pub del_write-Moved :
      (e : Entry)
      → IsStore hash d
      → entry_at d (hash key) i ≡ some e
      → (last : ℕ) × (f : Entry) × ((del_write hash os d key i).0 ≡ pos 0)
        × Moved d (del_write hash os d key i).1 (hash key) i last f
  del_write-Moved e inv here =
      go end_of refl
        (chain_end_lem (length d.entries + 1) d (hash key) (suc i) filled (omega arith))
    where
      filled : Filled d (hash key) (suc i)
      filled j lt = elim (Bool-cases (j == i)) [
        | inl at ↦ ground arith
        | inr below ↦ inv.complete (hash key) j i (ground arith) (ground arith)
      ]

      go :
          (n : ℕ)
          → end_of ≡ n
          → (suc i ≤ end_of) × (entry_at d (hash key) end_of ≡ none) × Filled d (hash key) end_of
          → (last : ℕ) × (f : Entry) × ((del_write hash os d key i).0 ≡ pos 0)
            × Moved d (del_write hash os d key i).1 (hash key) i last f
      go zero eq (le, end, full) = absurd (omega arith)
      go (suc last) eq (le, end, full) =
          let gone : entry_at d (hash key) (suc last) ≡ none = ground arith in
          elim (Bool-cases (last == i)) [
            | inl at ↦
                let same : last ≡ i = ground arith in
                rw (del_write_last (eq ∙ ap suc same))
                  (i, e, refl, remove-Moved d (hash key) i e here (rw (← same) gone))
            | inr further ↦ elim (Option-cases (entry_at d (hash key) last)) [
              | inl missing ↦ absurd (ground (arith, full last))
              | inr (f, there) ↦
                  let lt : i < last = ground arith in
                  rw (del_write_inner last f eq lt there)
                    (last, f, refl, rename-Moved d (hash key) i last f lt there gone)
            ]
          ]

module _ (hash : Text → ℕ) (d d' : Disk) (key : Text) (i last : ℕ) (e f : Entry)
    (inv : IsStore hash d) (here : At hash d key i e) (mv : Moved d d' (hash key) i last f) where
  Moved-IsStore : IsStore hash d'
  Moved-IsStore = record {
    there = ground (arith, inv.there, mv.there);
    complete = λ h j k lt.
        rw (mv.files h j, mv.files h k)
          λ is. ground (arith, mv.ends, inv.complete h j k, inv.complete (hash key) (suc last) k);
    chained = λ h j g.
        rw mv.files
          λ at. ground (arith, inv.chained h j g, inv.chained (hash key) last f, mv.moved);
    unique = λ h j k g g'.
        rw (mv.files h j, mv.files h k)
          λ a b same. ground (
            arith,
            mv.moved,
            inv.unique h j k g g',
            inv.unique (hash key) last k f g',
            inv.unique (hash key) j last g f,
          );
  }

  -- The deleted key is gone.
  Lacks-Moved_self : Lacks hash d' key
  Lacks-Moved_self j g = rw mv.files λ at same.
      ground
        (arith, mv.moved, here, inv.unique (hash key) last i f e, inv.unique (hash key) j i g e)

  At-Moved_ne :
      (k : Text) (j : ℕ) (g : Entry) → key ≢ k → At hash d k j g → (n : ℕ) × At hash d' k n g
  At-Moved_ne k j g ne there = elim (Bool-cases (hash key == hash k && last == j)) [
    | inl tail ↦ (i, (rw mv.files (ground (arith, mv.moved, here)), there.1))
    | inr other ↦ (j, (rw mv.files (ground (arith, mv.moved, here)), there.1))
  ]

  Lacks-Moved_ne : (k : Text) → key ≢ k → Lacks hash d k → Lacks hash d' k
  Lacks-Moved_ne k ne lacks j g =
      rw mv.files λ at same. ground (arith, mv.moved, lacks j g, lacks last f)

module _ (hash : Text → ℕ) (os : Os) (opens : Opens os) (deletes : Deletes os) (d : Disk)
    (inv : IsStore hash d) (key : Text) (short : length key ≤ max_keylen) where
  -- A deletion of a missing key reports ERRNOKEY and changes nothing.
  pub del_miss : Lacks hash d key → del hash os d key ≡ (err_no_key, d)
  unfolding del
  del_miss lacks = rw (find_miss hash os d key opens inv short lacks, del)

  -- A deletion of a stored key succeeds and moves the last entry of the chain into its place.
  pub del-Moved :
      (i : ℕ) (e : Entry)
      → At hash d key i e
      → (last : ℕ) × (f : Entry) × ((del hash os d key).0 ≡ pos 0)
        × Moved d (del hash os d key).1 (hash key) i last f
  unfolding del
  del-Moved i e at =
      rw (find_hit hash os d key opens inv short i e at, del)
        (del_write-Moved hash os deletes d key i e inv at.0)

  -- Where files can be opened, removed and renamed, the deletion of a key within the limit keeps
  -- the chains of a well-formed store complete, in the right chain and free of duplicates.
  pub del-IsStore : IsStore hash (del hash os d key).1
  del-IsStore = elim (At-cases hash os d key opens inv short) [
    | inl (i, e, at) ↦
        let (last, f, code, mv) = del-Moved i e at in
        Moved-IsStore hash d _ key i last e f inv at mv
    | inr lacks ↦ rw (del_miss lacks) inv
  ]

  -- Where files can be opened, removed and renamed, after the deletion of a stored key within the
  -- limit from a well-formed store, which returns 0, a get of that key fails with ERRNOKEY, and a
  -- get of any other key returns what it returned before.
  pub get-del :
      (j : Text)
      → ((get hash os d key).0 ≡ pos 0)
      → ((del hash os d key).0 ≡ pos 0)
        × (get hash os (del hash os d key).1 j
            ≡ (if str_eq key j then (err_no_key, none) else get hash os d j))
  get-del j stored = elim (At-cases hash os d key opens inv short) [
    | inr lacks ↦ absurd (ground (arith, get_miss hash os d key opens inv short lacks))
    | inl (i, e, at) ↦
        let (last, f, code, mv) = del-Moved i e at in
        let inv' = Moved-IsStore hash d (del hash os d key).1 key i last e f inv at mv in
        (
          code,
          elim (Bool-cases (str_eq key j)) [
            | inl same ↦
                rw (same, ← str_eq_sound key j same)
                  (get_miss hash os _ key opens inv' short
                    (Lacks-Moved_self hash d _ key i last e f inv at mv))
            | inr other ↦
                let ne : key ≢ j = λ eq. ground (arith, str_eq_iff key j) in
                rw other (
                  get_same hash os d _ j opens inv inv'
                    (λ k g. At-Moved_ne hash d _ key i last e f inv at mv j k g ne)
                    (Lacks-Moved_ne hash d _ key i last e f inv at mv j ne))
          ],
        )
  ]
