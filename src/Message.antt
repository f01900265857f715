-- ===== src/Message.antt =====
-- hw4/src/kvmessage.h: requests and responses; `none` is a NULL string.
use cs162hw.Base.{Option, none, some, []}
use cs162hw.Base.Text.{Text}
use cs162hw.Consts.{MsgType, index}

-- kvrequest_t
pub record Request : Type 0 where
  pub type : MsgType
  pub key : Option Text
  pub val : Option Text

-- kvresponse_t
pub record Response : Type 0 where
  pub type : MsgType
  pub body : Option Text

-- calloc: type 0 is INDEX.
abbrev pub blank : Response
blank = record { type = index; body = none }

-- A body that is missing is sent like an empty one.
abbrev pub body_text : Option Text → Text
body_text none = []
body_text (some body) = body

-- The response that kvresponse_recieve makes of a response.
abbrev pub arrived : Response → Response
arrived res = record res { body = some (body_text res.body) }
