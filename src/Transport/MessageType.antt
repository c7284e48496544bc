-- ===== src/Transport/MessageType.antt =====
-- internal/tunnel/protocol.go: the types of control messages.
use mqtt_forward.Prelude.{Text, codes}

abbrev pub open_request : Text
open_request = codes "open"

abbrev pub open_ack : Text
open_ack = codes "open_ack"

abbrev pub close : Text
close = codes "close"

abbrev pub resize : Text
resize = codes "resize"

abbrev pub ping : Text
ping = codes "ping"

abbrev pub pong : Text
pong = codes "pong"

-- The literal "ack" of session_tcp.go, device.go and client.go.
abbrev pub ack : Text
ack = codes "ack"
