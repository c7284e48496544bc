-- ===== src/Device/Tests.antt =====
-- Examples for internal/device/device.go.
use mqtt_forward.Session.Exec.{succeeded}
use mqtt_forward.Flow.{flow_control_window, can_send}
use mqtt_forward.Prelude.{
  Text, codes, text_eq, lookup, insert, ℕ, ◌+◌, ◌*◌, ◌^◌, ◌<◌, ◌≡◌, refl, true, false, Option, none,
  some, List, [], ◌∷◌, arith,
}
use mqtt_forward.Device.Life.{Life, run_device, IsLife, run_device_lem}
use mqtt_forward.Device.{Device, Environment, new_device, handle_open}
use mqtt_forward.Device.Events.{
  DeviceEvent, control_arrives, data_arrives, connection_lost, cleanup_ticks, session_ends,
  device_run,
}
use mqtt_forward.Transport.MessageType
use mqtt_forward.Transport.SessionMode
use mqtt_forward.Transport.{ControlMessage, control_message, PubMessage}
use mqtt_forward.Manager.Tests.{two_sessions, two_sessions-IsWellFormed}
use mqtt_forward.Device.Invariant.{device_run-IsSound}
use mqtt_forward.Device.Handlers.{IsSound}
use mqtt_forward.Device.Open.{IsAnswered, handle_open-IsAnswered}
use mqtt_forward.Device.Reject.{rejects, IsSpaced, rejects-IsSpaced}
use mqtt_forward.Manager.{second, new_manager}
use mqtt_forward.Session.{new_tcp_session, new_exec_session}
use mqtt_forward.Device.ExecAck.{handle_acks, exec_acks_ignored}
use mqtt_forward.Session.Tests.{exec_b2}

abbrev amd64 : Text
amd64 = codes "amd64"

abbrev device_7 : Device
device_7 = new_device (codes "device-7") (codes "1.0") amd64

-- A device that serves two sessions.
abbrev busy_device : Device
busy_device = record device_7 { manager = two_sessions }

abbrev quiet : Environment
quiet = record { now = 5 * second; dial = λ target. none; pty = none }

-- A shell that is to be opened with a terminal of 80 columns and 24 rows.
abbrev open_shell : ControlMessage
open_shell = record (control_message MessageType.open_request (codes "c3")) {
  mode = SessionMode.shell;
  cols = 80;
  rows = 24;
}

handle_open-IsAnswered_example :
    IsAnswered open_shell busy_device (handle_open quiet open_shell busy_device)
handle_open-IsAnswered_example = handle_open-IsAnswered quiet open_shell busy_device

abbrev events : List DeviceEvent
events =
    control_arrives quiet (some open_shell)
    ∷ data_arrives (6 * second) (λ s. false) (codes "tunnel/device-7/in/data/c3")
        (0 ∷ 0 ∷ 0 ∷ 0 ∷ 9 ∷ [])
    ∷ data_arrives (7 * second) (λ s. false) (codes "tunnel/device-7/in/data/zz") []
    ∷ session_ends (codes "c3") succeeded
    ∷ cleanup_ticks (100 * second)
    ∷ connection_lost
    ∷ []

device_run-IsSound_example :
    (r : Device × List PubMessage) × (device_run events
        (new_device (codes "device-7") (codes "1.0") amd64)
      ≡ some r)
    × IsSound r.0
device_run-IsSound_example = device_run-IsSound events (codes "device-7") (codes "1.0") amd64

abbrev requests : List (ℕ × Text)
requests =
    (3 * second, codes "zz")
    ∷ (4 * second, codes "zz")
    ∷ (9 * second, codes "zz")
    ∷ (9 * second, codes "yy")
    ∷ []

rejects-IsSpaced_example : IsSpaced (rejects requests device_7)
unfolding new_device
rejects-IsSpaced_example = rejects-IsSpaced 0 requests device_7 tt (ground arith)

abbrev exec_ack : ControlMessage
exec_ack = record (control_message MessageType.ack (codes "b2")) { ack_bytes = 65_536 }

exec_acks_ignored_example :
    (lookup (codes "b2") (handle_acks ((5, exec_ack) ∷ []) busy_device).manager.sessions
      ≡ some exec_b2)
    × ((n : ℕ)
        → flow_control_window < exec_b2.fc.sent_bytes + n
        → exec_b2.fc.sent_bytes + n < 2 ^ 64
        → can_send exec_b2.fc n ≡ false)
unfolding lookup insert text_eq new_exec_session new_tcp_session new_manager
exec_acks_ignored_example =
    exec_acks_ignored ((5, exec_ack) ∷ []) (codes "b2") exec_b2 busy_device
      two_sessions-IsWellFormed refl refl refl refl

-- Every filter can be subscribed.
abbrev welcome : Text → Option Text
welcome filter = none

run_device_lem_example :
    (l : Life) × (run_device welcome true events events busy_device ≡ some l)
    × IsLife welcome true events events busy_device l
run_device_lem_example =
    run_device_lem welcome true events events busy_device two_sessions-IsWellFormed
