-- ===== src/Handshake/Agreement.antt =====
-- What the client and the device hold of a session after the request for it: internal/client/client.go
-- and internal/device/device.go.
use mqtt_forward.Transport.SessionMode
use mqtt_forward.Transport.MessageType
use mqtt_forward.Client.{Client}
use mqtt_forward.Client.Connecting.{OpenError}
use mqtt_forward.Prelude.{
  Text, lookup, Result, err, ok, ◌≡◌, ◌≢◌, ◌⊎◌, Bool, true, false, none, some,
}
use mqtt_forward.Device.{Device}
use mqtt_forward.Session.{Session}
use mqtt_forward.Transport.{ControlMessage, control_message}
use mqtt_forward.Device.Open.{IsServing}

-- The request as the device reads it.
abbrev pub request_message : Text → Text → ControlMessage
request_message id target = record (control_message MessageType.open_request id) {
  mode = SessionMode.tcp;
  target = target;
}

-- The answer of a device, as the client reads it.
abbrev pub answer_message : Text → Bool → Text → ControlMessage
answer_message id success e = record (control_message MessageType.open_ack id) {
  success = success;
  error = e;
}

-- The device serves the session, under an id that was free, and its others are as before.
abbrev pub IsServed : Text → Text → Device → Device → Type 0
IsServed id target d d' =
    (lookup id d.manager.sessions ≡ none)
    × ((s : Session) × (lookup id d'.manager.sessions ≡ some s)
        × IsServing (request_message id target) s)
    × ((k : Text) → k ≢ id → lookup k d'.manager.sessions ≡ lookup k d.manager.sessions)

abbrev pub IsUnchanged : Device → Device → Type 0
IsUnchanged d d' = (k : Text) → lookup k d'.manager.sessions ≡ lookup k d.manager.sessions

-- The session is served on both sides; or on neither, and all of the device's sessions are as before.
abbrev pub IsAgreed : Text → Text → Device → Client × Device × Bool → Type 0
IsAgreed id target d (c', d', served) =
    ((served ≡ true) × IsServed id target d d')
    ⊎ ((served ≡ false) × (lookup id c'.manager.sessions ≡ none) × IsUnchanged d d')

-- Whether an answer lets the session start.
abbrev agrees : Result OpenError ControlMessage → Bool
agrees (err _) = false
agrees (ok msg) = msg.success

-- After an answer that came in time, or after one that did not: the client has given up, and the device
-- has a session of its own, or none.
abbrev pub IsSettled : Bool → Text → Text → Device → Client × Device × Bool → Type 0
IsSettled true id target d r = IsAgreed id target d r
IsSettled false id target d (c', d', served) =
    (served ≡ false)
    × (lookup id c'.manager.sessions ≡ none)
    × (IsServed id target d d' ⊎ IsUnchanged d d')
