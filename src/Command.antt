-- ===== src/Command.antt =====
-- internal/cmd/cmd.go: the events of the MQTT connection, the defaults of the device, and the exit status
-- of the exec command. The host's name and the presence of a file are arguments; names are ASCII.
pub mod Defaults
pub mod Tests
use mqtt_forward.Prelude.{
  leb, ◌==◌, if◌then◌else◌, Text, codes, pos, negsuc, ℕ, ◌+◌, Bool, ◌&&◌, Option, none, some, List,
  [], ◌∷◌, ◌++◌,
}
use mqtt_forward.Config.{Config}
use mqtt_forward.Device.{Device}
use mqtt_forward.Device.Events.{close_all_sessions}
use mqtt_forward.Shadow.Trigger.{Reporter, report_now}
use mqtt_forward.Client.Loops.{LoopResult, exits, sink_failed}
use mqtt_forward.Transport.{PubMessage}

-- The errors that the MQTT client reports, as far as they are told apart.
pub data MqttEvent : Type 0 where
  err_connection_lost err_reconnecting err_connected err_reconnect_failed other_event : MqttEvent

pub data Callback : Type 0 where
  on_connection_lost on_connected : Callback

-- `newEventHandler`, with whether each callback is there: the one that is called.
unfoldable pub event_callback : Bool → Bool → MqttEvent → Option Callback
event_callback has_lost has_connected err_connection_lost =
    if has_lost then some on_connection_lost else none
event_callback has_lost has_connected err_reconnecting = none
event_callback has_lost has_connected err_connected =
    if has_connected then some on_connected else none
event_callback has_lost has_connected err_reconnect_failed = none
event_callback has_lost has_connected other_event = none

-- The device's callbacks: its sessions are closed, or a report is asked for. The messages are those
-- that closing the sessions publishes.
unfoldable pub device_callback :
    Option Callback → Device × Reporter → (Device × Reporter) × List PubMessage
unfolding report_now
device_callback none (d, r) = ((d, r), [])
device_callback (some on_connection_lost) (d, r) =
    let closed = close_all_sessions d in ((closed.0, r), closed.1)
device_callback (some on_connected) (d, r) = ((d, report_now r), [])

unfoldable pub default_path : (Text → Bool) → Text → Text → Text
default_path exists path [] = if exists path then path else []
default_path exists path (c ∷ field) = c ∷ field

unfoldable pub apply_device_tls_defaults : (Text → Bool) → Config → Config
unfolding default_path
apply_device_tls_defaults exists c = record c {
  tls_cert = default_path exists (codes "/etc/mqtt-forward/device.pem") c.tls_cert;
  tls_key = default_path exists (codes "/etc/mqtt-forward/device.key") c.tls_key;
  tls_ca = default_path exists (codes "/etc/mqtt-forward/AmazonRootCA1.pem") c.tls_ca;
}

-- `strings.ToLower`
abbrev pub lower : ℕ → ℕ
lower c = if leb 65 c && leb c 90 then c + 32 else c

unfoldable pub to_lower : Text → Text
to_lower [] = []
to_lower (c ∷ t) = lower c ∷ to_lower t

-- What is before the first separator, all of it if there is none: `strings.Cut`.
unfoldable pub before : ℕ → Text → Text
before sep [] = []
before sep (c ∷ t) = let rest = before sep t in if c == sep then [] else c ∷ rest

unfoldable pub default_device_id : Option Text → Text
unfolding to_lower before
default_device_id none = []
default_device_id (some hostname) = codes "tunnel-device-" ++ before b'.' (to_lower hostname)

unfoldable pub default_client_id : Option Text → Text
unfolding to_lower
default_client_id none = codes "unknown"
default_client_id (some hostname) = to_lower hostname

unfoldable pub resolve_client_id : Option Text → Config → Config
unfolding default_client_id
resolve_client_id hostname c = elim (c.client_id) [
  | [] ↦ record c { client_id = default_client_id hostname }
  | ◌∷◌ b id ↦ c
]

-- The exit status of the exec command: that of an error is 1, which `main` gives.
unfoldable pub exit_status : LoopResult → ℕ
exit_status (sink_failed e) = 1
exit_status (exits code (some text)) = 1
exit_status (exits (pos code) none) = code
exit_status (exits (negsuc code) none) = 0
