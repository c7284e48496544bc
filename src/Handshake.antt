-- ===== src/Handshake.antt =====
-- internal/client/client.go and internal/device/device.go together: a connection that a client
-- accepts, with the request that it publishes, what the device does with it, and the answer that comes
-- back between the other control messages.
pub mod Agreement
pub mod Tests
use mqtt_forward.Transport.SessionMode
use mqtt_forward.Prelude.{
  if◌then◌else◌, Text, text_eq, pos, ℕ, Bool, true, Option, none, some, List, [], ◌++◌, ◌∷◌,
}
use mqtt_forward.Transport.{ControlMessage, Payload, bytes, json, PubMessage}
use mqtt_forward.Client.{Client}
use mqtt_forward.Client.Connecting.{OpenRequest, open_message, OpenError, handle_tcp_conn}
use mqtt_forward.Device.{Device, Environment}
use mqtt_forward.Device.Events.{handle_control}
use mqtt_forward.Topic.{in_control_topic, out_control_topic}

-- What a subscriber of a control topic takes from a message.
abbrev pub content : Payload → Option ControlMessage
content (bytes _) = none
content (json msg) = some msg

abbrev pub delivered : Text → PubMessage → Option ControlMessage
delivered topic m = if text_eq topic m.topic then content m.payload else none

-- The messages as the subscriber handles them, all at one time.
unfoldable pub arrivals : Text → ℕ → List PubMessage → List (ℕ × Option ControlMessage)
arrivals topic at [] = []
arrivals topic at (m ∷ out) = (at, delivered topic m) ∷ arrivals topic at out

-- When the parties act, what the device finds outside, whether the answer comes before the client's wait
-- ends, and what else the client
-- handles before the answer, or the end of the wait, and after it.
pub record Exchange : Type 0 where
  pub accepted_at : ℕ
  pub env : Environment
  pub answered_at : ℕ
  pub in_time : Bool
  pub before : List (ℕ × Option ControlMessage)
  pub after : List (ℕ × Option ControlMessage)
  pub end : OpenError

abbrev pub tcp_request : Text → Text → OpenRequest
tcp_request session_id target = record {
  session_id = session_id;
  mode = SessionMode.tcp;
  target = target;
  command = [];
  cols = 0;
  rows = 0;
  timeout = pos 0;
}

-- The device handles the request, and the client takes what the device publishes, if it comes in time:
-- both afterwards, and whether the client serves the connection.
unfoldable pub open_connection : Exchange → Text → Text → Client → Device → Client × Device × Bool
open_connection x session_id target c d =
    let request = open_message (tcp_request session_id target) c.device_id in
    let (d', out) = handle_control x.env (delivered (in_control_topic d.device_id) request) d in
    let replies = arrivals (out_control_topic c.device_id) x.answered_at out in
    let (c', _, served) =
      handle_tcp_conn x.accepted_at session_id target true
        (if x.in_time then x.before ++ (replies ++ x.after) else x.before) x.end c in
    (c', d', served)
