-- ===== src/Writer.antt =====
-- internal/tunnel/session.go: `SequenceWriter`, which cuts data into frames, waits for the window of
-- the flow control, and publishes. What happens during the waits is a list of events.
pub mod Frames
pub mod Ends
pub mod Tests
use mqtt_forward.Prelude.{
  ltb, if◌then◌else◌, length, take, drop, Text, ℕ, zero, suc, ◌+◌, ◌%◌, ◌^◌, Bool, List, [], ◌∷◌,
}
use mqtt_forward.Frame.{max_payload_size, encode_data_frame}
use mqtt_forward.Flow.{FlowControl, add_sent, Event, granted, cancelled, blocked, wait_for_window}
use mqtt_forward.Transport.{bytes, PubMessage, Transport, publish}

pub record SequenceWriter : Type 0 where
  pub seq : ℕ
  pub topic : Text
  pub fc : FlowControl

unfoldable pub new_sequence_writer : Text → FlowControl → SequenceWriter
new_sequence_writer topic fc = record { seq = 0; topic = topic; fc = fc }

-- `nil`, the context's error, the transport's error; or the writer still waits for the window.
pub data WriteOutcome : Type 0 where
  written context_done publish_failed waiting : WriteOutcome

-- A write works on the writer, the transport and the events that have not happened yet.
pub record Writing : Type 0 where
  pub writer : SequenceWriter
  pub transport : Transport
  pub events : List Event

abbrev pub data_message : Text → ℕ → Text → PubMessage
data_message topic seq chunk = record {
  topic = topic;
  payload = bytes (encode_data_frame seq chunk);
  qos = 1;
  content_type = [];
  response_topic = [];
}

-- The next piece of the data: all of it, or as much as a payload holds.
unfoldable pub chunk_of : ℕ → Text → Text
chunk_of limit rest = if ltb limit (length rest) then take limit rest else rest

-- A piece that the window has room for is numbered, counted and published.
unfoldable pub send_chunk : Text → FlowControl → List Event → Writing → Writing × Bool
unfolding publish
send_chunk chunk fc events w =
    let sent = publish (data_message w.writer.topic w.writer.seq chunk) w.transport in
    (
      record {
        writer = record {
          seq = (w.writer.seq + 1) % 2 ^ 32;
          topic = w.writer.topic;
          fc = add_sent (length chunk) fc;
        };
        transport = sent.0;
        events = events;
      },
      sent.1,
    )

-- A write that ends while it waits.
abbrev pub stopped : FlowControl → Writing → Writing
stopped fc w = record {
  writer = record { seq = w.writer.seq; topic = w.writer.topic; fc = fc };
  transport = w.transport;
  events = [];
}

-- The loop; every round takes a byte at least, so the length of the data bounds the rounds.
unfoldable pub write_loop : ℕ → Text → Writing → Writing × WriteOutcome
unfolding send_chunk
write_loop fuel [] w = (w, written)
write_loop zero (b ∷ bs) w = (w, waiting)
write_loop (suc fuel) (b ∷ bs) w =
    let chunk = chunk_of max_payload_size (b ∷ bs) in
    elim (wait_for_window (length chunk) w.events w.writer.fc) [
      | blocked fc ↦ (stopped fc w, waiting)
      | cancelled fc ↦ (stopped fc w, context_done)
      | granted fc events ↦
          let sent = send_chunk chunk fc events w in
          let rest = write_loop fuel (drop (length chunk) (b ∷ bs)) sent.0 in
          if sent.1 then rest else (sent.0, publish_failed)
    ]

unfoldable pub write : Text → Writing → Writing × WriteOutcome
unfolding write_loop
write payload w = write_loop (length payload) payload w
