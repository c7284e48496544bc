-- ===== src/Client/Exec.antt =====
-- internal/client/client.go: what the exec and shell clients send, and how an exec session's data are
-- written out.
use mqtt_forward.Prelude.{
  ltb, if◌then◌else◌, length, Text, insert, delete, Result, err, ok, ℕ, Bool, Option, none, some,
  List, [], ◌∷◌,
}
use mqtt_forward.Client.{AckState, record_ack, Client}
use mqtt_forward.Transport.{control_message, PubMessage, json_message}
use mqtt_forward.Transport.MessageType
use mqtt_forward.Topic.{in_control_topic}

unfoldable pub register_close_ch : Text → Client → Client
register_close_ch session_id c = record c { close_chs = insert session_id none c.close_chs }

unfoldable pub unregister_close_ch : Text → Client → Client
unregister_close_ch session_id c = record c { close_chs = delete session_id c.close_chs }

abbrev pub resize_message : Text → Text → ℕ → ℕ → PubMessage
resize_message device_id session_id cols rows =
    json_message (in_control_topic device_id)
      (record (control_message MessageType.resize session_id) { cols = cols; rows = rows }) 1

abbrev pub close_message : Text → Text → PubMessage
close_message device_id session_id =
    json_message (in_control_topic device_id) (control_message MessageType.close session_id) 1

abbrev pub ack_message : Text → Text → ℕ → PubMessage
ack_message device_id session_id count =
    json_message (in_control_topic device_id)
      (record (control_message MessageType.ack session_id) { ack_bytes = count }) 1

pub data SinkError : Type 0 where
  write_error short_write ack_not_published : SinkError

-- `writeSessionData`: the writer's answer is an error, or the number of bytes that it took. Where an
-- acknowledgement is due, `sent` tells whether the transport takes it; its error is returned.
unfoldable pub write_session_data :
    Client
    → Text
    → Option ℕ
    → Bool
    → Text
    → AckState
    → Result SinkError (AckState × List PubMessage)
unfolding record_ack
write_session_data c session_id taken sent [] s = ok (s, [])
write_session_data c session_id none sent (b ∷ bs) s = err write_error
write_session_data c session_id (some n) sent (b ∷ bs) s =
    let recorded = record_ack (length (b ∷ bs)) s in
    if ltb n (length (b ∷ bs)) then err short_write else elim (recorded.1) [
      | none ↦ ok (recorded.0, [])
      | some count ↦
          if sent
          then ok (recorded.0, ack_message c.device_id session_id count ∷ [])
          else err ack_not_published
    ]
