-- ===== src/Server/Sample.antt =====
-- A follower with an empty store for the tests.
use cs162hw.Base.{refl, arith}
use cs162hw.Base.Text.{Text, codes}
use cs162hw.Base.Dict
use cs162hw.Consts.{tpc_init}
use cs162hw.Disk.{working}
use cs162hw.Store.Sample.{len_hash, start, start-IsStore}
use cs162hw.Server.{Server}
use cs162hw.Server.Action.{Works, IsAllowedPut}
use cs162hw.Server.Phase.{IsServer}

abbrev pub k : Text
k = codes "ab"

abbrev pub w : Text
w = codes "1"

abbrev pub idle : Server
idle = record {
  disk = start;
  log = record { nextid = 0; iterpos = 0 };
  state = tpc_init;
  hostname = codes "127.0.0.1";
  port = 16201;
  max_threads = 2;
}

pub working-Works : Works working
working-Works = record {
  opens = λ h i. refl;
  deletes = record { removes = refl; renames = refl };
  opens_log = λ i. refl;
  writes_log = refl;
  removes_log = λ i. refl;
  makes_dir = refl;
}

pub idle-IsServer : IsServer len_hash idle
unfolding Dict.get
idle-IsServer = record { store = start-IsStore; files = λ i. ground arith; phase = refl }

pub allowed : IsAllowedPut k w
allowed = record {
  key_text = omega arith;
  value_text = omega arith;
  nonempty = omega arith;
  key_fits = omega arith;
  value_fits = omega arith;
}
