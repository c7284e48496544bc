-- ===== src/Device.antt =====
-- internal/device/device.go and device_shell.go: the device, which serves the sessions. A handler
-- returns the device and the messages that it passes to `Publish`, in order; an error of `Publish`
-- is only logged. A control message that does not unmarshal is `none`.
pub mod Events
pub mod Reject
pub mod Open
pub mod Handlers
pub mod Invariant
pub mod Life
pub mod ExecAck
pub mod Tests
use mqtt_forward.Prelude.{
  ltb, leb, if◌then◌else◌, length, Text, codes, text_eq, Dict, lookup, insert, Result, ok, err, pos,
  negsuc, is_positive, ℕ, ◌+◌, ◌-◌, ◌*◌, Bool, true, false, ◌&&◌, Option, none, some, List, [], ◌∷◌,
  ◌++◌,
}
use mqtt_forward.Session.{
  tcp, shell, exec, Session, new_tcp_session, new_exec_session, new_shell_session, mode,
  set_on_close, start, is_shell, resize, handle_data, update_flow_control, close,
}
use mqtt_forward.Manager.{
  Manager, second, stale_timeout, new_manager, add, get, remove_session, touch, put, close_all,
  cleanup_stale, closing_messages,
}
use mqtt_forward.Transport.MessageType
use mqtt_forward.Transport.SessionMode
use mqtt_forward.Reorder.{Select}
use mqtt_forward.Transport.{ControlMessage, control_message, PubMessage, json_message}
use mqtt_forward.Frame.{decode_data_frame}
use mqtt_forward.Topic.{out_control_topic, out_data_topic, parse_topic}

pub record Device : Type 0 where
  pub device_id : Text
  pub manager : Manager
  pub version : Text
  pub arch : Text
  pub last_rejected_at : Dict ℕ

-- What the device finds outside when a message comes: the time, the error of dialling a target, if
-- there is one, and that of starting a shell.
pub record Environment : Type 0 where
  pub now : ℕ
  pub dial : Text → Option Text
  pub pty : Option Text

abbrev pub unknown_session_reject_throttle : ℕ
unknown_session_reject_throttle = 5 * second

-- The size above which old throttle entries are cleared.
abbrev pub reject_map_limit : ℕ
reject_map_limit = 256

unfoldable pub new_device : Text → Text → Text → Device
unfolding new_manager
new_device device_id version arch = record {
  device_id = device_id;
  manager = new_manager;
  version = version;
  arch = arch;
  last_rejected_at = [];
}

-- The range loop of `gcRejectMapLocked`.
unfoldable pub drop_old : ℕ → Dict ℕ → Dict ℕ
drop_old now [] = []
drop_old now ((id, t) ∷ d) =
    let rest = drop_old now d in
    if ltb unknown_session_reject_throttle (now - t) then rest else (id, t) ∷ rest

unfoldable pub gc_reject_map : ℕ → Dict ℕ → Dict ℕ
unfolding drop_old
gc_reject_map now d = if leb (length d) reject_map_limit then d else drop_old now d

-- Whether a reject for the session is held back.
unfoldable pub is_throttled : ℕ → Text → Dict ℕ → Bool
is_throttled now session_id d = elim (lookup session_id d) [
  | none ↦ false
  | some last ↦ ltb (now - last) unknown_session_reject_throttle
]

abbrev pub unknown_session : Text
unknown_session = codes "unknown session"

abbrev pub reject_message : Text → Text → PubMessage
reject_message device_id session_id =
    json_message (out_control_topic device_id)
      (record (control_message MessageType.close session_id) { error = unknown_session }) 1

unfoldable pub send_unknown_session_reject : ℕ → Text → Device → Device × List PubMessage
unfolding is_throttled gc_reject_map
send_unknown_session_reject now session_id d =
    if is_throttled now session_id d.last_rejected_at then (d, []) else (
      record d { last_rejected_at = gc_reject_map now (insert session_id now d.last_rejected_at) },
      reject_message d.device_id session_id ∷ [],
    )

abbrev pub open_ack_message : Text → Text → Bool → Text → PubMessage
open_ack_message device_id session_id success err_msg =
    json_message (out_control_topic device_id)
      (record (control_message MessageType.open_ack session_id) {
        success = success;
        error = err_msg;
      })
      1

abbrev pub session_exists_text : Text
session_exists_text = codes "session already exists"

-- The session that an open request asks for, or the error that it is answered with.
unfoldable pub make_session : Environment → ControlMessage → Device → Result Text Session
make_session env msg d =
    let control_topic = out_control_topic d.device_id in
    let data_topic = out_data_topic d.device_id msg.session_id in
    if text_eq msg.mode SessionMode.tcp
    then elim (env.dial msg.target) [
      | some e ↦ err e
      | none ↦ ok (new_tcp_session msg.session_id control_topic data_topic)
    ]
    else if text_eq msg.mode SessionMode.exec
    then ok (new_exec_session msg.session_id control_topic data_topic)
    else if text_eq msg.mode SessionMode.shell
    then ok (new_shell_session msg.session_id control_topic data_topic)
    else err (codes "unsupported mode: " ++ msg.mode)

unfoldable pub resize_shell : Text → ℕ → ℕ → Device → Device
resize_shell session_id cols rows d = elim (get session_id d.manager) [
  | err _ ↦ d
  | ok s ↦ if is_shell s.kind then record d { manager = put (resize cols rows s) d.manager } else d
]

-- The context of a session with a timeout ends that many seconds from now.
abbrev pub deadline_of : ℕ → ControlMessage → Option ℕ
deadline_of now msg = elim (msg.timeout) [
  | pos seconds ↦ if is_positive (pos seconds) then some (now + seconds * second) else none
  | negsuc _ ↦ none
]

-- `handleOpen` from `sess.Start` on, for a session that the manager holds.
unfoldable pub start_session :
    Environment → ControlMessage → Session → Device → Device × List PubMessage
start_session env msg s d =
    let (started, failed) = start env.pty (deadline_of env.now msg) (set_on_close s) in
    elim failed [
      | some e ↦ (
        record d { manager = remove_session msg.session_id d.manager },
        open_ack_message d.device_id msg.session_id false e ∷ [],
      )
      | none ↦
          let d' = record d { manager = put started d.manager } in
          (
            if text_eq msg.mode SessionMode.shell && ltb 0 msg.cols && ltb 0 msg.rows
                then resize_shell msg.session_id msg.cols msg.rows d'
                else d',
            open_ack_message d.device_id msg.session_id true [] ∷ [],
          )
    ]

unfoldable pub handle_open : Environment → ControlMessage → Device → Device × List PubMessage
handle_open env msg d = elim (make_session env msg d) [
  | err e ↦ (d, open_ack_message d.device_id msg.session_id false e ∷ [])
  | ok s ↦ elim (add env.now s d.manager) [
    | err _ ↦ (d, open_ack_message d.device_id msg.session_id false session_exists_text ∷ [])
    | ok m ↦ start_session env msg s (record d { manager = m })
  ]
]

-- `sess.Close()` with its hook, and `Remove`.
unfoldable pub handle_close : ControlMessage → Device → Device × List PubMessage
unfolding remove_session
handle_close msg d = elim (get msg.session_id d.manager) [
  | err _ ↦ (d, [])
  | ok s ↦
      let c = close s in
      let m = if c.calls_hook then remove_session s.id d.manager else d.manager in
      (record d { manager = remove_session msg.session_id m }, c.messages)
]

unfoldable pub handle_resize : ControlMessage → Device → Device × List PubMessage
handle_resize msg d = (resize_shell msg.session_id msg.cols msg.rows d, [])

abbrev pub pong_message : ControlMessage → Device → PubMessage
pong_message msg d =
    json_message (out_control_topic d.device_id)
      (record (control_message MessageType.pong msg.session_id) {
        timestamp = msg.timestamp;
        version = d.version;
        arch = d.arch;
      })
      0

unfoldable pub handle_ping : ControlMessage → Device → Device × List PubMessage
handle_ping msg d = (d, pong_message msg d ∷ [])

unfoldable pub handle_ack : ℕ → ControlMessage → Device → Device × List PubMessage
handle_ack now msg d = elim (get msg.session_id d.manager) [
  | err _ ↦ send_unknown_session_reject now msg.session_id d
  | ok s ↦ (
    record d {
      manager = put (update_flow_control msg.ack_bytes s) (touch now msg.session_id d.manager);
    },
    [],
  )
]

-- The data of a frame for a session that the manager holds; a frame that is too short is logged.
unfoldable pub deliver_data : ℕ → Select → Text → Text → Session → Manager → Manager
deliver_data now sel session_id payload s m =
    let m' = touch now session_id m in
    elim (decode_data_frame payload) [
      | err _ ↦ m'
      | ok (seq, data_bytes) ↦ put (handle_data sel seq data_bytes s) m'
    ]
