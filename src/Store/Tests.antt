-- ===== src/Store/Tests.antt =====
-- The theorems of the store at concrete inputs.
use cs162hw.Base.{ℕ, ◌≡◌, refl, ◌⊎◌, suc, ℤ, Option, none, some, pos, arith, ap, ◌∙◌}
use cs162hw.Base.Text.{Text, codes}
use cs162hw.Base.Dict
use cs162hw.Consts.{err_no_key}
use cs162hw.Disk.{Entry, working}
use cs162hw.Store.{make_entry, value_of, get, del}
use cs162hw.Store.Race.{first, second, put_race}
use cs162hw.Store.Find.{IsStore, At, Lacks}
use cs162hw.Store.Get.{get_cases}
use cs162hw.Store.Put.{get-put}
use cs162hw.Store.Del.{get-del}
use cs162hw.Store.Sample.{len_hash, start, one, two, start-IsStore, one-IsStore, two-IsStore}

get-put_example : get len_hash working two (codes "cd") ≡ (pos 0, some (codes "2"))
get-put_example =
    get-put len_hash working (λ h i. refl) one one-IsStore (codes "cd") (codes "2") (codes "cd")
      (omega arith) (omega arith) (omega arith) (omega arith)

stored : (get len_hash working two (codes "ab")).0 ≡ pos 0
stored =
    ap (λ (r : ℤ × Option Text). r.0)
      (get-put len_hash working (λ h i. refl) one one-IsStore (codes "cd") (codes "2") (codes "ab")
          (omega arith) (omega arith) (omega arith) (omega arith)
        ∙ get-put len_hash working (λ h i. refl) start start-IsStore (codes "ab") (codes "1")
            (codes "ab") (omega arith) (omega arith) (omega arith) (omega arith))

get-del_example :
    ((del len_hash working two (codes "ab")).0 ≡ pos 0)
    × (get len_hash working (del len_hash working two (codes "ab")).1 (codes "cd")
        ≡ get len_hash working two (codes "cd"))
get-del_example =
    get-del len_hash working (λ h i. refl) (record { removes = refl; renames = refl }) two
      two-IsStore (codes "ab") (omega arith) (codes "cd") stored

put_race_example :
    ((first len_hash working start (codes "k") (codes "1")).0 ≡ pos 0)
    × ((second len_hash working start (codes "k") (codes "1") (codes "2")).0 ≡ pos 0)
    × ((n : ℕ) × At len_hash
          (second len_hash working start (codes "k") (codes "1") (codes "2")).1
          (codes "k")
          n
          (make_entry (codes "k") (codes "1"))
        × At len_hash
            (second len_hash working start (codes "k") (codes "1") (codes "2")).1
            (codes "k")
            (suc n)
            (make_entry (codes "k") (codes "2"))
        × (¬ IsStore len_hash
            (second len_hash working start (codes "k") (codes "1") (codes "2")).1))
unfolding Dict.get
put_race_example =
    put_race len_hash working (λ h i. refl) start start-IsStore (codes "k") (codes "1") (codes "2")
      (omega arith) (omega arith) (omega arith) (omega arith) (omega arith) (omega arith)
      (λ i e at. cc)

get_cases_example :
    ((i : ℕ) × (e : Entry) × At len_hash one (codes "ab") i e
      × (get len_hash working one (codes "ab") ≡ (pos 0, some (value_of e)))
      × ((j : ℕ) (f : Entry) → At len_hash one (codes "ab") j f → j ≡ i))
    ⊎ (Lacks len_hash one (codes "ab")
        × (get len_hash working one (codes "ab") ≡ (err_no_key, none)))
get_cases_example =
    get_cases len_hash working one (codes "ab") (λ h i. refl) one-IsStore (omega arith)
