-- ===== src/Tunnel.antt =====
-- One direction of a session, from end to end: `SequenceWriter.Write` and `UpdateFlowControl` on the
-- side that sends, `HandleData`, `ReorderBuffer.Insert` and `writeToConn` on the side that receives
-- (internal/tunnel/session.go, session_tcp.go). The broker between them may deliver any message that
-- was published, any time and any number of times, or never.
pub mod Streams
pub mod Invariant
pub mod Growth
pub mod Moves
pub mod Handled
pub mod Pipe
pub mod Drain
pub mod Tests
use mqtt_forward.Prelude.{
  length, get_elem?, Text, ℕ, suc, ◌+◌, ◌^◌, ◌<◌, ◌≡◌, Bool, true, some, List, [], ◌++◌,
}
use mqtt_forward.Flow.{flow_control_window, new_flow_control, can_send, update_ack}
use mqtt_forward.Pump.{Receipt, new_receipt, count_received}
use mqtt_forward.Transfer.{receive_payload}
use mqtt_forward.Transport.{PubMessage, Transport}
use mqtt_forward.Writer.{SequenceWriter, new_sequence_writer, send_chunk}
use mqtt_forward.Reorder.{ReorderBuffer, reorder_buf_size, new_reorder_buffer, Select}

-- Both ends and the broker: what the sender holds and has published, the receiver's buffer, how many
-- payloads its loop has taken from the channel, its counters, the acknowledgements it has published,
-- and the bytes written to the connection.
pub record Tunnel : Type 0 where
  pub writer : SequenceWriter
  pub transport : Transport
  pub rb : ReorderBuffer
  pub taken : ℕ
  pub receipt : Receipt
  pub acks : List ℕ
  pub output : Text

unfoldable pub new_tunnel : Text → (List PubMessage → PubMessage → Bool) → Tunnel
new_tunnel topic accepts = record {
  writer = new_sequence_writer topic (new_flow_control flow_control_window);
  transport = record { published = []; accepts = accepts };
  rb = new_reorder_buffer reorder_buf_size;
  taken = 0;
  receipt = new_receipt;
  acks = [];
  output = [];
}

-- The sender publishes one piece.
unfoldable pub send_piece : Text → Tunnel → Tunnel
unfolding send_chunk
send_piece piece t =
    let w =
      (send_chunk piece t.writer.fc []
        (record { writer = t.writer; transport = t.transport; events = [] })).0 in
    record t { writer = w.writer; transport = w.transport }

-- The receiver handles a data message.
unfoldable pub handle_message : Select → PubMessage → Tunnel → Tunnel
unfolding receive_payload
handle_message sel m t = record t { rb = (receive_payload sel m.payload t.rb).0 }

-- The receiver's loop writes the next payload to the connection, and acknowledges if it is time to.
unfoldable pub take_payload : Text → Tunnel → Tunnel
unfolding count_received
take_payload p t =
    let one = count_received (length p) t.receipt in
    record t {
      taken = suc t.taken;
      receipt = one.0;
      acks = t.acks ++ one.1;
      output = t.output ++ p;
    }

-- The sender handles an acknowledgement.
unfoldable pub handle_ack : ℕ → Tunnel → Tunnel
unfolding update_ack
handle_ack n t = record t {
  writer = record { seq = t.writer.seq; topic = t.writer.topic; fc = update_ack n t.writer.fc };
}

-- What may happen next, where `stream` has the pieces that the sender writes: a piece for which the
-- window has room is sent; a published message arrives; a payload is taken; an acknowledgement arrives.
pub data Step (stream : ℕ → Text) (t t' : Tunnel) : Type 0 where
  sends :
      can_send t.writer.fc (length (stream t.writer.seq)) ≡ true
      → t' ≡ send_piece (stream t.writer.seq) t
      → Step stream t t'
  delivers :
      (sel : Select) (i : ℕ) (m : PubMessage)
      → get_elem? t.transport.published i ≡ some m
      → t' ≡ handle_message sel m t
      → Step stream t t'
  takes :
      (p : Text)
      → get_elem? t.rb.data_ch t.taken ≡ some p
      → t' ≡ take_payload p t
      → Step stream t t'
  acked : (i n : ℕ) → get_elem? t.acks i ≡ some n → t' ≡ handle_ack n t → Step stream t t'

-- What comes of a tunnel by steps.
pub data Reach (stream : ℕ → Text) (t : Tunnel) : Tunnel → Type 0 where
  here : Reach stream t t
  then : {u v : Tunnel} → Reach stream t u → Step stream u v → Reach stream t v

-- How many pieces were sent on the way.
abbrev pub pieces : {stream : ℕ → Text} {t u : Tunnel} → Reach stream t u → ℕ
pieces here = 0
pieces (then r (sends _ _)) = suc (pieces r)
pieces (then r (delivers _ _ _ _ _)) = pieces r
pieces (then r (takes _ _ _)) = pieces r
pieces (then r (acked _ _ _ _)) = pieces r
