-- ===== src/Store.antt =====
-- hw4/src/kvstore.c: the persistent store. Every function takes the answers of the operating
-- system and the directory, and returns the new directory. `hash` is strhash64, whose MD5 is a
-- third party's. The locks only order whole calls; kvstore_put takes two of them one after the
-- other, and is cut between them in `put_searched` and `put_ended`.
--
-- A chain is walked with as much fuel as the directory has entries, and one more: each round sees
-- another file, so the walk ends at a missing file before the fuel does (Store/Find).
pub mod Find
pub mod Get
pub mod Put
pub mod Del
pub mod Race
pub mod Sample
mod Tests
use cs162hw.Base.{
  ℕ, zero, suc, ◌+◌, ◌-◌, ℤ, pos, negsuc, is_neg, Bool, true, false, Option, none, some, [], ◌∷◌,
  ◌++◌, length, drop, ltb, ◌==◌, if◌then◌else◌, not, is_some,
}
use cs162hw.Base.Text.{Text, c_str, str_eq}
use cs162hw.Consts.{max_keylen, max_vallen, err_key_len, err_val_len, err_no_key, err_fil_access}
use cs162hw.Disk.{Disk, Entry, Os, entry_at, put_entry, remove_entry}

-- entry->data and the string behind it.
unfoldable pub key_of : Entry → Text
key_of e = c_str e.bytes

unfoldable pub value_of : Entry → Text
value_of e = c_str (drop (length (c_str e.bytes) + 1) e.bytes)

-- The entry that kvstore_put writes: key, NUL, value, NUL.
unfoldable pub make_entry : Text → Text → Entry
make_entry key value = record {
  length = length key + length value + 2;
  bytes = key ++ 0 ∷ (value ++ 0 ∷ []);
}

-- What find_entry returns: the position or an error code, and the value if there is one.
pub data Found : Type 0 where
  found : ℕ → Text → Found
  failed : ℤ → Found

unfoldable pub found_code : Found → ℤ
found_code (found i v) = pos i
found_code (failed e) = e

-- kvstore_init
unfoldable pub init : Os → Disk → ℤ × Disk
init os d =
    if d.present
    then (pos 0, d)
    else if os.makes_dir
    then (pos 0, record d { present = true })
    else (pos os.errno, d)

-- The loop of find_entry over the chain `h`, from position `i` on.
unfoldable pub find_loop : ℕ → Os → Disk → Text → ℕ → ℕ → Found
find_loop zero os d key h i = failed err_no_key
find_loop (suc fuel) os d key h i =
    let rest = find_loop fuel os d key h (suc i) in
    elim (entry_at d h i) [
      | none ↦ failed err_no_key
      | some e ↦
          if os.opens_entry h i
          then (if str_eq key (key_of e) then found i (value_of e) else rest)
          else failed err_fil_access
    ]

-- kvstore_put_check
unfoldable pub put_check : Disk → Text → Text → ℤ
put_check d key value =
    if ltb max_keylen (length key)
    then err_key_len
    else if ltb max_vallen (length value)
    then err_val_len
    else if d.present
    then pos 0
    else err_fil_access

-- The search of kvstore_put for the end of the chain: the position of the first missing file.
unfoldable pub chain_end : ℕ → Disk → ℕ → ℕ → ℕ
chain_end zero d h i = i
chain_end (suc fuel) d h i =
    let rest = chain_end fuel d h (suc i) in if is_some (entry_at d h i) then rest else i

-- The chain position that kvstore_put writes to, given what `put_find` returned.
unfoldable pub put_at : Disk → ℕ → ℤ → ℕ
put_at d h (pos i) = i
put_at d h (negsuc n) = chain_end (length d.entries + 1) d h 0

module _ (hash : Text → ℕ) where
  unfoldable pub find_entry : Os → Disk → Text → Found
  find_entry os d key =
      if ltb max_keylen (length key)
      then failed err_key_len
      else if d.present
      then find_loop (length d.entries + 1) os d key (hash key) 0
      else failed err_fil_access

  -- kvstore_haskey
  unfoldable pub haskey : Os → Disk → Text → Bool
  haskey os d key = not (is_neg (found_code (find_entry os d key)))

  -- kvstore_get: the code, and the value if the code is 0.
  unfoldable pub get : Os → Disk → Text → ℤ × Option Text
  get os d key = elim (find_entry os d key) [ found i v ↦ (pos 0, some v) | failed e ↦ (e, none) ]

  -- The call of find_entry in kvstore_put, behind the check: the position of the key, if it is there.
  unfoldable pub put_find : Os → Disk → Text → ℤ
  put_find os d key = found_code (find_entry os d key)

  -- kvstore_put from the write lock on.
  unfoldable pub put_write : Os → Disk → Text → Text → ℤ → ℤ × Disk
  put_write os d key value counter =
      let at = put_at d (hash key) counter in
      if os.opens_entry (hash key) at
      then (pos 0, put_entry d (hash key) at (make_entry key value))
      else (err_fil_access, d)

  -- kvstore_put
  unfoldable pub put : Os → Disk → Text → Text → ℤ × Disk
  put os d key value =
      let check = put_check d key value in
      if is_neg check then (check, d) else put_write os d key value (put_find os d key)

  -- kvstore_put cut where find_entry has given its read lock back: up to there, the check and the
  -- search, which has no effect where the check has failed; and from there on.
  unfoldable pub put_searched : Os → Disk → Text → Text → ℤ × ℤ
  put_searched os d key value = (put_check d key value, put_find os d key)

  unfoldable pub put_ended : Os → Disk → Text → Text → ℤ × ℤ → ℤ × Disk
  put_ended os d key value (check, counter) =
      if is_neg check then (check, d) else put_write os d key value counter

  -- kvstore_del_check
  unfoldable pub del_check : Os → Disk → Text → ℤ
  del_check os d key =
      if ltb max_keylen (length key)
      then err_key_len
      else if d.present
      then (if haskey os d key then pos 0 else err_no_key)
      else err_fil_access

  -- kvstore_del from the write lock on: the last file of the chain takes the place of the deleted.
  unfoldable pub del_write : Os → Disk → Text → ℕ → ℤ × Disk
  del_write os d key chainpos =
      let h = hash key in
      let counter = chain_end (length d.entries + 1) d h (suc chainpos) in
      if counter == suc chainpos
      then (if os.removes_entry then (pos 0, remove_entry d h chainpos) else (pos os.errno, d))
      else if os.renames_entry
      then elim (entry_at d h (counter - 1)) [
        | none ↦ (pos os.errno, d)
        | some e ↦ (pos 0, put_entry (remove_entry d h (counter - 1)) h chainpos e)
      ]
      else (pos os.errno, d)

  -- kvstore_del
  unfoldable pub del : Os → Disk → Text → ℤ × Disk
  del os d key = elim (find_entry os d key) [ found i v ↦ del_write os d key i | failed e ↦ (e, d) ]

-- kvstore_clean, where every file can be removed: the logs lie in the same directory.
unfoldable pub clean : Disk → ℤ × Disk
clean d =
    if d.present then (pos 0, record d { present = false; entries = []; logs = [] }) else (pos 0, d)
