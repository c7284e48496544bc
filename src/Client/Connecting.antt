-- ===== src/Client/Connecting.antt =====
-- internal/client/client.go: the opening of a session, with the answer of the device, and a connection
-- that is served by one.
use mqtt_forward.Prelude.{
  if◌then◌else◌, Text, lookup, insert, delete, Result, err, ok, ℤ, pos, ℕ, Bool, true, false,
  Option, none, some, List, [], ◌∷◌, ◌++◌,
}
use mqtt_forward.Topic.{in_control_topic, in_data_topic, out_control_topic}
use mqtt_forward.Transport.{ControlMessage, control_message, PubMessage, json_message}
use mqtt_forward.Transport.MessageType
use mqtt_forward.Transport.SessionMode
use mqtt_forward.Session.{Session, new_tcp_session, set_on_close, start}
use mqtt_forward.Manager.{add, get, remove_session, put}
use mqtt_forward.Client.{Client, handle_control}

pub record OpenRequest : Type 0 where
  pub session_id : Text
  pub mode : Text
  pub target : Text
  pub command : Text
  pub cols : ℕ
  pub rows : ℕ
  pub timeout : ℤ

-- The message of `sendOpen`, with the topic that the device is to answer on.
abbrev pub open_message : OpenRequest → Text → PubMessage
open_message req device_id =
    record (json_message (in_control_topic device_id)
      (record (control_message MessageType.open_request req.session_id) {
        mode = req.mode;
        target = req.target;
        command = req.command;
        cols = req.cols;
        rows = req.rows;
        timeout = req.timeout;
      })
      1) { response_topic = out_control_topic device_id }

pub data OpenError : Type 0 where
  not_published timed_out context_done : OpenError

-- What a channel holds, if it is there.
abbrev pub received : Option (Option ControlMessage) → Option ControlMessage
received none = none
received (some chan) = chan

-- The wait for the answer: control messages are handled, each at its time, until the channel holds
-- one or the wait ends by itself.
unfoldable pub wait_reply :
    Text
    → List (ℕ × Option ControlMessage)
    → OpenError
    → Client
    → Client × List PubMessage × Result OpenError ControlMessage
wait_reply id [] end c = (c, [], err end)
wait_reply id ((now, msg) ∷ msgs) end c =
    let (c', out) = handle_control now msg c in
    let rest = wait_reply id msgs end c' in
    elim (received (lookup id c'.ack_chans)) [
      | some answer ↦ (c', out, ok answer)
      | none ↦ (rest.0, out ++ rest.1, rest.2)
    ]

-- `sendOpen`: the channel is there for as long as the call lasts. `accepted` tells whether the
-- transport takes the message.
unfoldable pub send_open :
    OpenRequest
    → Bool
    → List (ℕ × Option ControlMessage)
    → OpenError
    → Client
    → Client × List PubMessage × Result OpenError ControlMessage
send_open req accepted msgs end c =
    let waiting = record c { ack_chans = insert req.session_id none c.ack_chans } in
    let open_msg = open_message req c.device_id in
    if accepted
    then (let (c', out, answer) = wait_reply req.session_id msgs end waiting in
        (record c' { ack_chans = delete req.session_id c'.ack_chans }, open_msg ∷ out, answer))
    else (
      record waiting { ack_chans = delete req.session_id waiting.ack_chans },
      open_msg ∷ [],
      err not_published,
    )

-- A new session is added, unless its id is taken, and is then opened.
unfoldable pub add_session : ℕ → Session → Client → Client × Bool
add_session now s c = elim (add now s c.manager) [
  | err _ ↦ (c, false)
  | ok m ↦ (record c { manager = m }, true)
]

-- `Start` of a session, which for a TCP session does not fail; the manager may have lost it meanwhile.
unfoldable pub start_held : Text → Client → Client
start_held session_id c = elim (get session_id c.manager) [
  | err _ ↦ c
  | ok s ↦ record c { manager = put (start none none s).0 c.manager }
]

-- The session is started if the device has agreed, and taken out otherwise.
unfoldable pub finish_open :
    Text
    → Client
    → List PubMessage
    → Result OpenError ControlMessage
    → Client × List PubMessage × Bool
unfolding start_held
finish_open session_id c out (err _) =
    (record c { manager = remove_session session_id c.manager }, out, false)
finish_open session_id c out (ok answer) =
    if answer.success
    then (start_held session_id c, out, true)
    else (record c { manager = remove_session session_id c.manager }, out, false)

-- `handleTCPConn` for a connection with a new session id: whether a session is served afterwards. Where
-- it is not, the connection is closed.
unfoldable pub handle_tcp_conn :
    ℕ
    → Text
    → Text
    → Bool
    → List (ℕ × Option ControlMessage)
    → OpenError
    → Client
    → Client × List PubMessage × Bool
handle_tcp_conn now session_id target accepted msgs end c =
    let s = set_on_close (
      new_tcp_session session_id (in_control_topic c.device_id)
        (in_data_topic c.device_id session_id)) in
    let (added, fresh) = add_session now s c in
    let req : OpenRequest = record {
      session_id = session_id;
      mode = SessionMode.tcp;
      target = target;
      command = [];
      cols = 0;
      rows = 0;
      timeout = pos 0;
    } in
    let (c', out, answer) = send_open req accepted msgs end added in
    if fresh then finish_open session_id c' out answer else (c, [], false)
