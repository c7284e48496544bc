-- ===== src/Session.antt =====
-- internal/tunnel/session_tcp.go, session_exec.go, session_shell.go: the sessions behind the interface
-- `Session`. Of a connection, a process or a terminal the model keeps whether it is open.
pub mod Close
pub mod Exec
pub mod ExitCode
pub mod Tests
use mqtt_forward.Prelude.{
  ◌==◌, if◌then◌else◌, Text, ℤ, ℕ, Bool, true, false, ◌&&◌, ◌||◌, Option, none, some, List, [], ◌∷◌,
}
use mqtt_forward.Transport.{control_message, PubMessage, json_message}
use mqtt_forward.Reorder.{
  ReorderBuffer, reorder_buf_size, new_reorder_buffer, Select, insert_frame, close_reorder,
}
use mqtt_forward.Flow.{FlowControl, flow_control_window, new_flow_control, update_ack, ack}
use mqtt_forward.Transport.MessageType
use mqtt_forward.Transport.SessionMode

-- `TCPSession`, `ShellSession`, `ExecSession`, `ExecClientSession`.
pub data Kind : Type 0 where
  tcp shell exec exec_client : Kind

pub record Session : Type 0 where
  pub id : Text
  pub kind : Kind
  pub control_topic : Text
  pub data_topic : Text
  pub reorder : ReorderBuffer
  pub fc : FlowControl
  -- `conn` or `ptmx` is there and open
  pub is_open : Bool
  -- `cancel` is set, that is, the session was started
  pub started : Bool
  -- the session's context is cancelled
  pub cancelled : Bool
  -- the time at which the context of the session ends by itself
  pub deadline : Option ℕ
  -- the size of the terminal
  pub cols : ℕ
  pub rows : ℕ
  -- the process group of the command, or 0
  pub pgid : ℕ
  -- `closeOnce` has run
  pub closed : Bool
  -- `onClose` is set
  pub has_hook : Bool

module _ (id control_topic data_topic : Text) where
  new_session : Kind → Bool → Session
  new_session kind is_open = record {
    id = id;
    kind = kind;
    control_topic = control_topic;
    data_topic = data_topic;
    reorder = new_reorder_buffer reorder_buf_size;
    fc = new_flow_control flow_control_window;
    is_open = is_open;
    started = false;
    cancelled = false;
    deadline = none;
    cols = 0;
    rows = 0;
    pgid = 0;
    closed = false;
    has_hook = false;
  }

  unfoldable pub new_tcp_session : Session
  unfolding new_session new_reorder_buffer new_flow_control
  new_tcp_session = new_session tcp true

  unfoldable pub new_exec_session : Session
  unfolding new_session new_reorder_buffer new_flow_control
  new_exec_session = new_session exec false

  unfoldable pub new_shell_session : Session
  unfolding new_session new_reorder_buffer new_flow_control
  new_shell_session = new_session shell false

-- A client's exec session has no topics of its own.
unfoldable pub new_exec_client_session : Text → Session
unfolding new_session new_reorder_buffer new_flow_control
new_exec_client_session id = new_session id [] [] exec_client false

unfoldable pub mode : Session → Text
mode s = elim (s.kind) [
  | tcp ↦ SessionMode.tcp
  | shell ↦ SessionMode.shell
  | exec ↦ SessionMode.exec
  | exec_client ↦ SessionMode.exec
]

-- `SetOnClose`, which every session has.
unfoldable pub set_on_close : Session → Session
set_on_close s = record s { has_hook = true }

-- `Start`. Only a shell may fail to start: `pty` is the error of opening its terminal, or of starting
-- the shell in it. The `cancel` of its context is set before that.
unfoldable pub start : Option Text → Option ℕ → Session → Session × Option Text
start pty deadline s = elim (s.kind) [
  | tcp ↦ (record s { started = true; deadline = deadline }, none)
  | exec ↦ (record s { started = true; deadline = deadline }, none)
  | exec_client ↦ (record s { started = true; deadline = deadline }, none)
  | shell ↦ elim pty [
    | some e ↦ (record s { started = true; deadline = deadline }, some e)
    | none ↦ (record s { started = true; deadline = deadline; is_open = true }, none)
  ]
]

-- The type test `sess.(*tunnel.ShellSession)`.
abbrev pub is_shell : Kind → Bool
is_shell shell = true
is_shell _ = false

-- `Resize`: nothing without a terminal.
unfoldable pub resize : ℕ → ℕ → Session → Session
resize cols rows s = if s.is_open then record s { cols = cols; rows = rows } else s

-- `HandleData`, the same in every session; an error of the reorder buffer is only logged.
unfoldable pub handle_data : Select → ℕ → Text → Session → Session
handle_data sel seq payload s = record s { reorder = (insert_frame sel seq payload s.reorder).0 }

-- The sessions that have a method `UpdateFlowControl`: the exec session of the device has none.
unfoldable pub has_flow_control_update : Kind → Bool
has_flow_control_update tcp = true
has_flow_control_update shell = true
has_flow_control_update exec = false
has_flow_control_update exec_client = true

-- `UpdateFlowControl`, where the session has it.
unfoldable pub update_flow_control : ℕ → Session → Session
unfolding has_flow_control_update
update_flow_control acked s =
    if has_flow_control_update s.kind then record s { fc = update_ack acked s.fc } else s

-- `sendCloseMsg`, and `sendClose` of the other sessions.
unfoldable pub close_message : Option ℤ → Text → Session → PubMessage
close_message exit_code err_msg s =
    json_message s.control_topic
      (record (control_message MessageType.close s.id) { exit_code = exit_code; error = err_msg }) 1

-- `sendAck`
unfoldable pub ack_message : ℕ → Session → PubMessage
ack_message count s =
    json_message s.control_topic
      (record (control_message MessageType.ack s.id) { ack_bytes = count }) 1

-- What one call of `Close` does: the session afterwards, the messages that it publishes, and whether
-- it calls the hook. Only the first call does anything.
pub record Closing : Type 0 where
  pub session : Session
  pub messages : List PubMessage
  pub calls_hook : Bool

close_once : Session → Closing
unfolding close_reorder close_message
close_once s = elim (s.kind) [
  | tcp ↦ (record {
    session = record s {
      cancelled = s.cancelled || s.started;
      reorder = close_reorder s.reorder;
      is_open = false;
      closed = true;
    };
    messages = close_message none [] s ∷ [];
    calls_hook = s.has_hook;
  })
  | shell ↦ (record {
    session = record s {
      cancelled = s.cancelled || s.started;
      reorder = close_reorder s.reorder;
      is_open = false;
      closed = true;
    };
    messages = [];
    calls_hook = s.has_hook;
  })
  -- A running command is sent a signal; only without one is the context cancelled.
  | exec ↦ (record {
    session = record s {
      cancelled = s.cancelled || (s.started && (s.pgid == 0));
      reorder = close_reorder s.reorder;
      closed = true;
    };
    messages = [];
    calls_hook = s.has_hook;
  })
  | exec_client ↦ (record {
    session = record s {
      cancelled = s.cancelled || s.started;
      reorder = close_reorder s.reorder;
      closed = true;
    };
    messages = [];
    calls_hook = s.has_hook;
  })
]

unfoldable pub close : Session → Closing
unfolding close_once
close s =
    if s.closed then (record { session = s; messages = []; calls_hook = false }) else close_once s
