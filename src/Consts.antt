-- ===== src/Consts.antt =====
-- hw4/src/kvconstants.h: limits, message types, states, error codes and messages.
use cs162hw.Base.{ℕ, ℤ, negsuc, int_eq, if◌then◌else◌}
use cs162hw.Base.Text.{Text, codes}

abbrev pub max_keylen : ℕ
max_keylen = 1024

abbrev pub max_vallen : ℕ
max_vallen = 1024

-- Message types: requests, responses, and the internal error `empty`.
pub data MsgType : Type 0 where
  index getreq putreq delreq register commit abort : MsgType
  getresp success error vote ack : MsgType
  empty : MsgType

pub data TpcState : Type 0 where
  tpc_init tpc_wait tpc_ready tpc_abort tpc_commit : TpcState

-- -11 to -17.
abbrev pub err_key_len : ℤ
err_key_len = negsuc 10

abbrev pub err_val_len : ℤ
err_val_len = negsuc 11

abbrev pub err_no_key : ℤ
err_no_key = negsuc 12

abbrev pub err_invld_msg : ℤ
err_invld_msg = negsuc 13

abbrev pub err_fil_access : ℤ
err_fil_access = negsuc 16

abbrev pub msg_commit : Text
msg_commit = codes "commit"

abbrev pub errmsg_no_key : Text
errmsg_no_key = codes "error: no key"

abbrev pub errmsg_key_len : Text
errmsg_key_len = codes "error: improper key length"

abbrev pub errmsg_val_len : Text
errmsg_val_len = codes "error: value too long"

abbrev pub errmsg_invalid_request : Text
errmsg_invalid_request = codes "error: invalid request"

abbrev pub errmsg_not_at_capacity : Text
errmsg_not_at_capacity = codes "error: follower_capacity not yet full"

abbrev pub errmsg_follower_capacity : Text
errmsg_follower_capacity = codes "error: follower capacity already full"

abbrev pub errmsg_generic_error : Text
errmsg_generic_error = codes "error: unable to process request"

-- GETMSG
unfoldable pub get_msg : ℤ → Text
get_msg code =
    if int_eq code err_key_len
    then errmsg_key_len
    else if int_eq code err_val_len
    then errmsg_val_len
    else if int_eq code err_no_key
    then errmsg_no_key
    else errmsg_generic_error

-- `type == other` on the enum.
abbrev pub number : MsgType → ℕ
number index = 0
number getreq = 1
number putreq = 2
number delreq = 3
number register = 4
number commit = 5
number abort = 6
number getresp = 7
number success = 8
number error = 9
number vote = 10
number ack = 11
number empty = 12
