-- ===== src/Handshake/Tests.antt =====
-- Examples of a connection that a client and a device open together.
use mqtt_forward.Client.{Client, new_client}
use mqtt_forward.Client.Connecting.{timed_out}
use mqtt_forward.Device.{Device, new_device}
use mqtt_forward.Handshake.{Exchange}
use mqtt_forward.Transport.{control_message}
use mqtt_forward.Transport.MessageType
use mqtt_forward.Prelude.{if◌then◌else◌, Text, codes, text_eq, true, Option, none, some, [], ◌∷◌}

abbrev alice : Client
alice = new_client (codes "device-7")

abbrev bob : Device
bob = new_device (codes "device-7") (codes "1.0") (codes "amd64")

-- Only the database can be dialled.
abbrev only_db : Text → Option Text
only_db target = if text_eq target (codes "db:22") then none else some (codes "no route")

abbrev exchange : Exchange
exchange = record {
  accepted_at = 1;
  env = record { now = 2; dial = only_db; pty = none };
  answered_at = 3;
  in_time = true;
  before = (2, some (control_message MessageType.pong (codes "other"))) ∷ [];
  after = [];
  end = timed_out;
}
