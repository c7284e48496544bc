-- ===== src/Transport.antt =====
-- internal/tunnel/protocol.go: `ControlMessage`. internal/tunnel/transport.go: messages, and
-- publishing. The payload of a message is the bytes of a data frame, or the control message of which
-- it is the JSON text (package encoding/json is not modelled: its `Marshal` does not fail on this
-- struct, and `Unmarshal` gives back the message). The MQTT client accepts or refuses a message, as
-- the function `accepts` of the messages accepted before tells.
pub mod MessageType
pub mod SessionMode
use mqtt_forward.Prelude.{
  if◌then◌else◌, Text, codes, ℤ, pos, ℕ, Bool, true, false, Option, none, List, [], ◌∷◌, ◌++◌,
}

pub record ControlMessage : Type 0 where
  pub type : Text
  pub session_id : Text
  pub mode : Text
  pub target : Text
  pub command : Text
  pub cols : ℕ
  pub rows : ℕ
  pub success : Bool
  pub error : Text
  pub exit_code : Option ℤ
  pub ack_bytes : ℕ
  pub timestamp : ℤ
  pub timeout : ℤ
  pub version : Text
  pub arch : Text

-- A message in which every field but the type and the session has its zero value.
abbrev pub control_message : Text → Text → ControlMessage
control_message type session_id = record {
  type = type;
  session_id = session_id;
  mode = [];
  target = [];
  command = [];
  cols = 0;
  rows = 0;
  success = false;
  error = [];
  exit_code = none;
  ack_bytes = 0;
  timestamp = pos 0;
  timeout = pos 0;
  version = [];
  arch = [];
}

pub data Payload : Type 0 where
  bytes : Text → Payload
  json : ControlMessage → Payload

pub record PubMessage : Type 0 where
  pub topic : Text
  pub payload : Payload
  pub qos : ℕ
  pub content_type : Text
  pub response_topic : Text

pub record Transport : Type 0 where
  pub published : List PubMessage
  pub accepts : List PubMessage → PubMessage → Bool

-- `Publish`: the error, if there is one, is the client's.
unfoldable pub publish : PubMessage → Transport → Transport × Bool
publish m t =
    if t.accepts t.published m
    then (record t { published = t.published ++ m ∷ [] }, true)
    else (t, false)

abbrev pub application_json : Text
application_json = codes "application/json"

-- A control message, marshalled and published with no response topic.
abbrev pub json_message : Text → ControlMessage → ℕ → PubMessage
json_message topic msg qos = record {
  topic = topic;
  payload = json msg;
  qos = qos;
  content_type = application_json;
  response_topic = [];
}
