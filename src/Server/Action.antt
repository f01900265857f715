-- ===== src/Server/Action.antt =====
-- What an action does to the store, seen by kvstore_get.
use cs162hw.Base.{
  ℕ, ◌≤◌, ◌<◌, ◌≡◌, inl, inr, ℤ, pos, true, Option, none, some, length, arith, Bool-cases,
  if◌then◌else◌,
}
use cs162hw.Base.Text.{Text, IsText, str_eq, str_eq_sound}
use cs162hw.Consts.{max_keylen, max_vallen, err_no_key}
use cs162hw.Disk.{whole, Disk, Entry, Os}
use cs162hw.Store
use cs162hw.Store.{found_code}
use cs162hw.Store.Find.{Opens, IsStore, At, Lacks, find_hit, find_miss}
use cs162hw.Store.Get.{At-cases, get_hit, get_miss}
use cs162hw.Store.Put.{put-IsStore, get-put}
use cs162hw.Store.Del.{Deletes, del-IsStore, get-del}
use cs162hw.Server.{server_put, server_put_check, server_del, server_del_check}
use cs162hw.Server.Redo.{Action, put, del, IsAction, perform}

-- All system calls succeed.
pub record Works (os : Os) : Type 0 where
  pub opens : Opens os
  pub deletes : Deletes os
  pub opens_log : (i : ℕ) → os.opens_log i ≡ true
  pub writes_log : os.writes_log ≡ whole
  pub removes_log : (i : ℕ) → os.removes_log i ≡ true
  pub makes_dir : os.makes_dir ≡ true

-- All system calls succeed, those that remove log files and make directories perhaps not.
pub record Acts (os : Os) : Type 0 where
  pub opens : Opens os
  pub deletes : Deletes os
  pub opens_log : (i : ℕ) → os.opens_log i ≡ true
  pub writes_log : os.writes_log ≡ whole

pub acts : {os : Os} → Works os → Acts os
acts works = record {
  opens = works.opens;
  deletes = works.deletes;
  opens_log = works.opens_log;
  writes_log = works.writes_log;
}

-- The actions that a follower votes for: the lengths are within the limits.
pub record IsAllowedPut (k v : Text) : Type 0 where
  pub key_text : IsText k
  pub value_text : IsText v
  pub nonempty : 0 < length k
  pub key_fits : length k ≤ max_keylen
  pub value_fits : length v ≤ max_vallen

pub record IsAllowedDel (k : Text) : Type 0 where
  pub key_text : IsText k
  pub nonempty : 0 < length k
  pub key_fits : length k ≤ max_keylen

abbrev pub IsAllowed : Action → Type 0
IsAllowed (put k v) = IsAllowedPut k v
IsAllowed (del k) = IsAllowedDel k

pub IsAllowed-IsAction : (a : Action) → IsAllowed a → IsAction a
IsAllowed-IsAction (put k v) ok = (ok.key_text, ok.value_text)
IsAllowed-IsAction (del k) ok = ok.key_text

-- What a get returns after an action, given what it returned before.
abbrev pub after : Action → Text → ℤ × Option Text → ℤ × Option Text
after (put k v) j r = if str_eq k j then (pos 0, some v) else r
after (del k) j r = if str_eq k j then (err_no_key, none) else r

module _ (hash : Text → ℕ) (os : Os) (d : Disk) (inv : IsStore hash d) where
  pub server_put-eq :
      (k v : Text) → IsAllowedPut k v → server_put hash os d k v ≡ Store.put hash os d k v
  unfolding server_put server_put_check Store.put_check
  server_put-eq k v ok = ground (arith, ok.nonempty, ok.key_fits, ok.value_fits, inv.there)

  module _ (opens : Opens os) (deletes : Deletes os) (k : Text) (ok : IsAllowedDel k) where
    server_del-hit :
        (i : ℕ) (e : Entry) → At hash d k i e → server_del hash os d k ≡ Store.del hash os d k
    unfolding server_del server_del_check Store.del_check Store.haskey found_code
    server_del-hit i e at = ground (
      arith,
      ok.nonempty,
      ok.key_fits,
      inv.there,
      find_hit hash os d k opens inv ok.key_fits i e at,
    )

    server_del-miss : Lacks hash d k → (server_del hash os d k).1 ≡ d
    unfolding server_del server_del_check Store.del_check Store.haskey found_code
    server_del-miss lacks = ground (
      arith,
      ok.nonempty,
      ok.key_fits,
      inv.there,
      find_miss hash os d k opens inv ok.key_fits lacks,
    )

  perform_del :
      Opens os
      → Deletes os
      → (k j : Text) → IsAllowedDel k
      → IsStore hash (server_del hash os d k).1
        × (Store.get hash os (server_del hash os d k).1 j
            ≡ (if str_eq k j then (err_no_key, none) else Store.get hash os d j))
  perform_del opens deletes k j ok = elim (At-cases hash os d k opens inv ok.key_fits) [
    | inl (i, e, at) ↦
        let got : (Store.get hash os d k).0 ≡ pos 0 =
          rw (get_hit hash os d k opens inv ok.key_fits i e at) in
        rw (server_del-hit opens deletes k ok i e at) (
          del-IsStore hash os opens deletes d inv k ok.key_fits,
          (get-del hash os opens deletes d inv k ok.key_fits j got).1,
        )
    | inr lacks ↦ rw (server_del-miss opens deletes k ok lacks) (
      inv,
      elim (Bool-cases (str_eq k j)) [
        | inl same ↦
            rw (same, ← str_eq_sound k j same) (get_miss hash os d k opens inv ok.key_fits lacks)
        | inr other ↦ rw other
      ],
    )
  ]

  -- Doing an action that the follower voted for keeps the store well-formed, and a get afterwards
  -- sees the action and nothing else.
  pub perform-after :
      Acts os
      → (a : Action) (j : Text) → IsAllowed a
      → IsStore hash (perform hash os a d)
        × (Store.get hash os (perform hash os a d) j ≡ after a j (Store.get hash os d j))
  unfolding perform
  perform-after able (put k v) j ok =
      rw (server_put-eq k v ok, perform)
        (
          put-IsStore hash os able.opens d inv k v ok.key_text ok.value_text,
          get-put hash os able.opens d inv k v j ok.key_text ok.value_text ok.key_fits
              ok.value_fits,
        )
  perform-after able (del k) j ok = perform_del able.opens able.deletes k j ok
