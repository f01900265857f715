-- ===== src/Serve/Tests.antt =====
-- The theorems of the handlers at concrete inputs.
use cs162hw.Base.{ℕ, ◌≡◌, ◌<◌, ◌⊎◌, refl, arith, some, pos, []}
use cs162hw.Base.Text.{Text, codes}
use cs162hw.Consts.{putreq, vote, msg_commit}
use cs162hw.Disk.{working}
use cs162hw.Message.{Request, Response, blank, arrived}
use cs162hw.Store
use cs162hw.Store.Sample.{len_hash}
use cs162hw.Server.Sample.{k, w, idle}
use cs162hw.Server
use cs162hw.Server.{Server, handle_put, server_put_check, handle_type}
use cs162hw.Http.Reply.{got}
use cs162hw.Http.Number.{decimal, print_from}
use cs162hw.Url.{print_url, print_param}
use cs162hw.Wire.{kvrequest_send, kvresponse_recieve, path_for}
use cs162hw.Wire.Shape.{Passes}
use cs162hw.Leader.{Leader, Follower, Answer, silent}
use cs162hw.Leader.Insert.{IsLeader}
use cs162hw.Leader.Ring.{Known, Added}
use cs162hw.Serve.{kvserver_handle, tpcleader_handle, register_request, register_result}
use cs162hw.Serve.Exchange.{exchange}
use cs162hw.Serve.Register.{registration, joined, register_exchange}

abbrev put_ab : Request
put_ab = record { type = putreq; key = some k; val = some w }

k-Passes : Passes k
k-Passes = record {
  no_and = omega arith;
  no_space = omega arith;
  no_feed = omega arith;
  no_nul = omega arith;
}

w-Passes : Passes w
w-Passes = record {
  no_and = omega arith;
  no_space = omega arith;
  no_feed = omega arith;
  no_nul = omega arith;
}

host-Passes : Passes idle.hostname
host-Passes = record {
  no_and = omega arith;
  no_space = omega arith;
  no_feed = omega arith;
  no_nul = omega arith;
}

abbrev agreed : Response
agreed = record { type = vote; body = some msg_commit }

handled :
    Server.handle_tpc len_hash working idle put_ab blank
    ≡ some ((handle_put working idle k w).0, agreed)
unfolding Server.handle_tpc handle_type handle_put server_put_check Store.put_check
handled = refl

exchange_example :
    (bytes out : Text) × (kvrequest_send put_ab ≡ some bytes)
    × (kvserver_handle len_hash (codes "page") working idle bytes
        ≡ some ((handle_put working idle k w).0, out))
    × (kvresponse_recieve out ≡ got (arrived agreed))
unfolding print_url print_param path_for
exchange_example =
    exchange len_hash working (codes "page") idle (handle_put working idle k w).0 put_ab agreed tt
      (k, w, refl, refl) k-Passes w-Passes (omega arith) handled (omega arith) (omega arith)

abbrev alone : Leader
alone = record { follower_capacity = 2; follower_count = 0; redundancy = 2; followers = [] }

alone-IsLeader : IsLeader alone
alone-IsLeader = record { ring = tt; count = refl; fits = omega arith; redundant = omega arith }

-- A network that is not used.
abbrev nowhere : ℕ → Follower → Request → Answer × ℕ
nowhere w f req = (silent, w)

register_exchange_example :
    (bytes out : Text) × (l' : Leader) × (register_request idle ≡ some (registration idle))
    × (kvrequest_send (registration idle) ≡ some bytes)
    × (tpcleader_handle len_hash (codes "page") nowhere 5 alone 0 bytes ≡ some ((l', 0), out))
    × (((alone.follower_count ≡ alone.follower_capacity)
          × (l' ≡ alone)
          × (register_result out ≡ some (pos 0)))
        ⊎ ((alone.follower_count < alone.follower_capacity)
            × (register_result out ≡ some (pos 1))
            × (((l' ≡ alone) × Known alone (joined len_hash idle))
                ⊎ Added alone l' (joined len_hash idle))))
    × ((joined len_hash idle).host ≡ idle.hostname)
    × ((joined len_hash idle).port ≡ idle.port)
unfolding print_url print_param path_for decimal print_from
register_exchange_example =
    register_exchange len_hash (codes "page") nowhere 5 alone 0 idle alone-IsLeader host-Passes
      (omega arith) (omega arith)
