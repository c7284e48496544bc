-- ===== src/Client.antt =====
-- internal/client/client.go: the messages that a client takes from a device, and the opening of a
-- session. A channel of capacity one is what it holds. A handler returns the client and the messages
-- that it publishes.
pub mod Connecting
pub mod Opening
pub mod AckCount
pub mod Keepalive
pub mod Exec
pub mod Listeners
pub mod Loops
pub mod Deliveries
pub mod Exits
pub mod Reports
pub mod Ping
pub mod PingBounds
pub mod Status
pub mod SocksConn
pub mod Tests
pub mod Invariant
pub mod Events
pub mod Course
use mqtt_forward.Prelude.{
  ltb, leb, if◌then◌else◌, Text, codes, text_eq, Dict, lookup, insert, delete, Result, err, ok, ℤ,
  pos, ℕ, ◌+◌, ◌-◌, ◌/◌, ◌%◌, ◌^◌, Bool, true, false, ◌||◌, Option, none, some, List, [], ◌∷◌, ◌++◌,
}
use mqtt_forward.Flow.{flow_control_window, ack}
use mqtt_forward.Topic.{in_control_topic, in_data_topic, out_control_topic, parse_topic}
use mqtt_forward.Transport.{ControlMessage, control_message, PubMessage, json_message}
use mqtt_forward.Transport.MessageType
use mqtt_forward.Transport.SessionMode
use mqtt_forward.Reorder.{Select}
use mqtt_forward.Session.{
  tcp, Session, new_tcp_session, set_on_close, start, update_flow_control, close,
}
use mqtt_forward.Manager.{
  Manager, stale_timeout, new_manager, add, get, remove_session, touch, put, close_all,
  cleanup_stale, closing_messages,
}
use mqtt_forward.Device.{deliver_data}

-- `sessionAckState`
pub record AckState : Type 0 where
  pub total : ℕ
  pub last : ℕ
  pub interval : ℕ

unfoldable pub new_session_ack_state : AckState
new_session_ack_state = record { total = 0; last = 0; interval = flow_control_window / 4 }

-- `record`: the count to acknowledge, if it is time.
unfoldable pub record_ack : ℕ → AckState → AckState × Option ℕ
record_ack n s =
    let total = (s.total + n) % 2 ^ 64 in
    if ltb ((total + 2 ^ 64 - s.last) % 2 ^ 64) s.interval
    then (record s { total = total }, none)
    else (record s { total = total; last = total }, some total)

pub record Client : Type 0 where
  pub device_id : Text
  pub manager : Manager
  pub ack_chans : Dict (Option ControlMessage)
  pub close_chs : Dict (Option ControlMessage)

unfoldable pub new_client : Text → Client
unfolding new_manager
new_client device_id = record {
  device_id = device_id;
  manager = new_manager;
  ack_chans = [];
  close_chs = [];
}

-- A send that does not wait: where the channel is full the message is dropped.
abbrev pub offer : ControlMessage → Option ControlMessage → Option ControlMessage
offer msg none = some msg
offer msg (some held) = some held

-- The message is offered to the channel of its session, if there is one.
unfoldable pub post : ControlMessage → Dict (Option ControlMessage) → Dict (Option ControlMessage)
post msg chans = elim (lookup msg.session_id chans) [
  | none ↦ chans
  | some chan ↦ insert msg.session_id (offer msg chan) chans
]

-- The session that the device has closed is closed and taken out.
unfoldable pub close_session : ControlMessage → Client → Client × List PubMessage
unfolding remove_session
close_session msg c = elim (get msg.session_id c.manager) [
  | err _ ↦ (c, [])
  | ok s ↦
      let closing = close s in
      let m = if closing.calls_hook then remove_session s.id c.manager else c.manager in
      (record c { manager = remove_session msg.session_id m }, closing.messages)
]

-- A close goes to the one that waits for it, or closes the session.
unfoldable pub handle_close : ControlMessage → Client → Client × List PubMessage
unfolding post close_session
handle_close msg c = elim (lookup msg.session_id c.close_chs) [
  | some _ ↦ (record c { close_chs = post msg c.close_chs }, [])
  | none ↦ close_session msg c
]

unfoldable pub handle_ack : ℕ → ControlMessage → Client → Client
handle_ack now msg c = elim (get msg.session_id c.manager) [
  | err _ ↦ c
  | ok s ↦ record c {
    manager = put (update_flow_control msg.ack_bytes s) (touch now msg.session_id c.manager);
  }
]

-- The cases of the switch on the type of a control message.
pub data Notice : Type 0 where
  answers closings acknowledgements others : Notice

unfoldable pub notice_of : Text → Notice
notice_of type =
    if text_eq type MessageType.open_ack || text_eq type MessageType.pong
    then answers
    else if text_eq type MessageType.close
    then closings
    else if text_eq type MessageType.ack
    then acknowledgements
    else others

unfoldable pub dispatch : Notice → ℕ → ControlMessage → Client → Client × List PubMessage
unfolding post
dispatch answers now msg c = (record c { ack_chans = post msg c.ack_chans }, [])
dispatch closings now msg c = handle_close msg c
dispatch acknowledgements now msg c = (handle_ack now msg c, [])
dispatch others now msg c = (c, [])

-- `none` is a payload that does not unmarshal.
unfoldable pub handle_control : ℕ → Option ControlMessage → Client → Client × List PubMessage
unfolding notice_of dispatch
handle_control now none c = (c, [])
handle_control now (some msg) c = dispatch (notice_of msg.type) now msg c

unfoldable pub handle_data : ℕ → Select → Text → Text → Client → Client
handle_data now sel topic payload c = elim (parse_topic topic) [
  | err _ ↦ c
  | ok parsed ↦ elim (get parsed.session_id c.manager) [
    | err _ ↦ c
    | ok s ↦ record c { manager = deliver_data now sel parsed.session_id payload s c.manager }
  ]
]

abbrev pub session_keepalive_max_misses : ℕ
session_keepalive_max_misses = 3

-- `runSessionKeepalive` on the results of the pings, one for each tick: whether it closes the session.
unfoldable pub keepalive : ℕ → List Bool → Bool
keepalive misses [] = false
keepalive misses (true ∷ results) = keepalive 0 results
keepalive misses (false ∷ results) =
    let rest = keepalive (misses + 1) results in
    if leb session_keepalive_max_misses (misses + 1) then true else rest

-- `execCloseResult`: the exit code, with an error where the device could not run the command.
unfoldable pub exec_close_result : ControlMessage → ℤ × Option Text
exec_close_result msg = elim (msg.exit_code) [
  | some code ↦ (code, none)
  | none ↦ elim (msg.error) [
    | [] ↦ (pos 0, none)
    | c ∷ e ↦ (pos 1, some (codes "remote error: " ++ c ∷ e))
  ]
]

-- `CloseAllSessions`
unfoldable pub close_all_sessions : Client → Client × List PubMessage
close_all_sessions c =
    let r = close_all c.manager in (record c { manager = r.0 }, closing_messages r.1)

-- One turn of the stale cleanup of the client's manager; `none` is a panic.
unfoldable pub run_stale_cleanup : ℕ → Client → Option (Client × List PubMessage)
run_stale_cleanup now c = elim (cleanup_stale now stale_timeout c.manager) [
  | none ↦ none
  | some r ↦ some (record c { manager = r.0 }, closing_messages r.1)
]
