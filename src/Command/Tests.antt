-- ===== src/Command/Tests.antt =====
-- Examples for internal/cmd/cmd.go.
use mqtt_forward.Prelude.{Text, codes, ◌≡◌, refl, some}
use mqtt_forward.Command.{to_lower, before, default_device_id}

abbrev host : Text
host = codes "Edge-7.example.com"

device_id_of_host : default_device_id (some host) ≡ codes "tunnel-device-edge-7"
unfolding default_device_id to_lower before
device_id_of_host = refl
