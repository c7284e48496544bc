-- ===== src/Shadow.antt =====
-- internal/shadow/shadow.go: the report of the device to its AWS IoT shadow. JSON text is written and
-- read by package encoding/json, which is a parameter.
pub mod Compare
pub mod Sets
pub mod Interfaces
pub mod Drift
pub mod Network
pub mod Addresses
pub mod Reported
pub mod Trigger
pub mod Tests
use mqtt_forward.Prelude.{if◌then◌else◌, Text, codes, Dict, Option, none, some, List, [], ◌++◌}
use mqtt_forward.Transport.{bytes, PubMessage, Transport, publish, application_json}
use mqtt_forward.Shadow.Compare.{ReportedState, equal}

-- `Marshal` of an update, of the map of interfaces, and `Unmarshal` of the answer to a request for
-- the shadow.
pub record Json : Type 0 where
  pub marshal_interfaces : Dict (List Text) → Option Text
  pub unmarshal_interfaces : Text → Option (Dict (List Text))
  pub marshal_update : ReportedState → Option Text
  pub unmarshal_response : Text → Option ReportedState

abbrev pub shadow_topic : Text → Text → Text
shadow_topic device_id suffix = codes "$aws/things/" ++ device_id ++ suffix

unfoldable pub get_accepted_topic : Text → Text
get_accepted_topic device_id = shadow_topic device_id (codes "/shadow/get/accepted")

-- A message to the shadow.
abbrev pub shadow_message : Text → Text → PubMessage
shadow_message topic text = record {
  topic = topic;
  payload = bytes text;
  qos = 1;
  content_type = application_json;
  response_topic = [];
}

unfoldable pub request_shadow : Text → Transport → Transport
unfolding publish
request_shadow device_id t =
    (publish (shadow_message (shadow_topic device_id (codes "/shadow/get")) (codes "{}")) t).0

-- What `currentState` reads from the system: the addresses, and the interfaces.
unfoldable pub current_state : Json → Text → List Text → Dict (List Text) → ReportedState
current_state js version public_ips interfaces = record {
  version = version;
  public_ip = public_ips;
  interfaces = elim (js.marshal_interfaces interfaces) [ none ↦ codes "{}" | some text ↦ text ];
}

unfoldable pub publish_update : Json → Text → ReportedState → Transport → Transport
unfolding publish
publish_update js device_id state t = elim (js.marshal_update state) [
  | none ↦ t
  | some text ↦
      (publish (shadow_message (shadow_topic device_id (codes "/shadow/update")) text) t).0
]

-- The answer of the broker: an update is published if the report differs.
unfoldable pub handle_get_accepted : Json → Text → ReportedState → Text → Transport → Transport
unfolding equal publish_update
handle_get_accepted js device_id current payload t = elim (js.unmarshal_response payload) [
  | none ↦ t
  | some reported ↦
      if equal js.unmarshal_interfaces current reported
      then t
      else publish_update js device_id current t
]
