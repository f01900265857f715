-- ===== src/Store/Sample.antt =====
-- A small store for the tests. Keys are hashed to their length, so that keys of one length share
-- a chain.
use cs162hw.Base.{ℕ, refl, true, [], length, arith}
use cs162hw.Base.Text.{Text, codes}
use cs162hw.Base.Dict
use cs162hw.Disk.{Disk, working}
use cs162hw.Store.{put}
use cs162hw.Store.Find.{IsStore}
use cs162hw.Store.Put.{put-IsStore}

abbrev pub len_hash : Text → ℕ
len_hash s = length s

abbrev pub start : Disk
start = record { present = true; entries = []; logs = [] }

pub start-IsStore : IsStore len_hash start
unfolding Dict.get
start-IsStore = record {
  there = refl;
  complete = λ h i j lt is. is;
  chained = λ h i e at. cc;
  unique = λ h i j e f at. cc;
}

abbrev pub one : Disk
one = (put len_hash working start (codes "ab") (codes "1")).1

abbrev pub two : Disk
two = (put len_hash working one (codes "cd") (codes "2")).1

pub one-IsStore : IsStore len_hash one
one-IsStore =
    put-IsStore len_hash working (λ h i. refl) start start-IsStore (codes "ab") (codes "1")
      (omega arith) (omega arith)

pub two-IsStore : IsStore len_hash two
two-IsStore =
    put-IsStore len_hash working (λ h i. refl) one one-IsStore (codes "cd") (codes "2")
      (omega arith) (omega arith)
