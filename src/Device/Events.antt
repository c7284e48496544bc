-- ===== src/Device/Events.antt =====
-- internal/device/device.go: which handler a control message goes to, data messages, and what may happen
-- to a device in the course of `Run`.
use mqtt_forward.Prelude.{
  if◌then◌else◌, Text, text_eq, ok, err, ℕ, Option, none, some, List, [], ◌∷◌, ◌++◌,
}
use mqtt_forward.Manager.{
  stale_timeout, get, put, remove_session, close_all, cleanup_stale, closing_messages,
}
use mqtt_forward.Transport.MessageType
use mqtt_forward.Reorder.{Select}
use mqtt_forward.Transport.{ControlMessage, PubMessage}
use mqtt_forward.Topic.{parse_topic}
use mqtt_forward.Session.{tcp, shell, exec, exec_client, Session, Closing, close}
use mqtt_forward.Session.Exec.{WaitResult, close_of_result, wait_for_exit}
use mqtt_forward.Device.{
  Device, Environment, deliver_data, handle_ack, handle_close, handle_open, handle_ping,
  handle_resize, send_unknown_session_reject,
}

-- The cases of the switch on the type of a control message.
pub data Request : Type 0 where
  opens closes resizes pings acks unknown : Request

unfoldable pub request_of : Text → Request
request_of type =
    if text_eq type MessageType.open_request
    then opens
    else if text_eq type MessageType.close
    then closes
    else if text_eq type MessageType.resize
    then resizes
    else if text_eq type MessageType.ping
    then pings
    else if text_eq type MessageType.ack
    then acks
    else unknown

unfoldable pub dispatch : Request → Environment → ControlMessage → Device → Device × List PubMessage
dispatch opens env msg d = handle_open env msg d
dispatch closes env msg d = handle_close msg d
dispatch resizes env msg d = handle_resize msg d
dispatch pings env msg d = handle_ping msg d
dispatch acks env msg d = handle_ack env.now msg d
dispatch unknown env msg d = (d, [])

unfoldable pub handle_control :
    Environment → Option ControlMessage → Device → Device × List PubMessage
unfolding request_of dispatch
handle_control env none d = (d, [])
handle_control env (some msg) d = dispatch (request_of msg.type) env msg d

unfoldable pub handle_data_message : ℕ → Select → Text → Text → Device → Device × List PubMessage
unfolding deliver_data
handle_data_message now sel topic payload d = elim (parse_topic topic) [
  | err _ ↦ (d, [])
  | ok parsed ↦ elim (get parsed.session_id d.manager) [
    | err _ ↦ send_unknown_session_reject now parsed.session_id d
    | ok s ↦ (record d { manager = deliver_data now sel parsed.session_id payload s d.manager }, [])
  ]
]

-- `CloseAllSessions`, which the command calls when the connection to the broker is lost.
unfoldable pub close_all_sessions : Device → Device × List PubMessage
close_all_sessions d =
    let r = close_all d.manager in (record d { manager = r.0 }, closing_messages r.1)

-- One turn of `RunStaleCleanup`, with the timeout that `Run` gives it; `none` is a panic.
unfoldable pub run_stale_cleanup : ℕ → Device → Option (Device × List PubMessage)
run_stale_cleanup now d = elim (cleanup_stale now stale_timeout d.manager) [
  | none ↦ none
  | some r ↦ some (record d { manager = r.0 }, closing_messages r.1)
]

-- A session that ends by itself: the connection has been read to its end or has failed, or the process
-- has ended with a result. The session reports that, and closes.
unfoldable pub end_of : WaitResult → Session → Closing
unfolding close_of_result wait_for_exit close
end_of result s = elim (s.kind) [
  | tcp ↦ close s
  | shell ↦ wait_for_exit result s
  | exec ↦ let c = close s in record c { messages = close_of_result result s ∷ c.messages }
  | exec_client ↦ close s
]

-- The hook of the session is `Remove`.
unfoldable pub end_session : Text → WaitResult → Device → Device × List PubMessage
unfolding end_of remove_session
end_session session_id result d = elim (get session_id d.manager) [
  | err _ ↦ (d, [])
  | ok s ↦
      let c = end_of result s in
      (
        record d {
          manager = if c.calls_hook then remove_session s.id d.manager else put c.session d.manager;
        },
        c.messages,
      )
]

-- What may happen to a device, in any order.
pub data DeviceEvent : Type 0 where
  control_arrives : Environment → Option ControlMessage → DeviceEvent
  data_arrives : ℕ → Select → Text → Text → DeviceEvent
  connection_lost : DeviceEvent
  cleanup_ticks : ℕ → DeviceEvent
  session_ends : Text → WaitResult → DeviceEvent

unfoldable pub device_step : DeviceEvent → Device → Option (Device × List PubMessage)
device_step (control_arrives env msg) d = some (handle_control env msg d)
device_step (data_arrives now sel topic payload) d =
    some (handle_data_message now sel topic payload d)
device_step connection_lost d = some (close_all_sessions d)
device_step (cleanup_ticks now) d = run_stale_cleanup now d
device_step (session_ends session_id result) d = some (end_session session_id result d)

-- The device after a list of events, with all that it published.
unfoldable pub device_run : List DeviceEvent → Device → Option (Device × List PubMessage)
unfolding device_step
device_run [] d = some (d, [])
device_run (e ∷ es) d = elim (device_step e d) [
  | none ↦ none
  | some (d', out) ↦ elim (device_run es d') [
    | none ↦ none
    | some (d'', rest) ↦ some (d'', out ++ rest)
  ]
]
