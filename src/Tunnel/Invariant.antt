-- ===== src/Tunnel/Invariant.antt =====
-- What holds of a tunnel at all times.
use mqtt_forward.Prelude.{
  All, get_elem?, Text, ℕ, ◌^◌, ◌≤◌, ◌<◌, ◌≡◌, refl, ◌⊎◌, inl, Bool, none, some, List, arith,
}
use mqtt_forward.Flow.{flow_control_window, new_flow_control}
use mqtt_forward.Tunnel.{Tunnel, new_tunnel}
use mqtt_forward.Tunnel.Streams.{bytes_from, total_to, total_to_mono}
use mqtt_forward.Flow.Window.{IsWithin}
use mqtt_forward.Reorder.{reorder_buf_size, new_reorder_buffer, find}
use mqtt_forward.Transport.{PubMessage}
use mqtt_forward.Writer.{new_sequence_writer, data_message}
use mqtt_forward.Reorder.Order.{IsOrdered}
use mqtt_forward.Pump.Acks.{IsCounted}
use mqtt_forward.Pump.{Receipt}

-- A message that the sender has published: one of the first pieces, under its number.
abbrev pub IsSent : (ℕ → Text) → Text → ℕ → PubMessage → Type 0
IsSent stream topic limit m = (i : ℕ) × (i < limit) × (m ≡ data_message topic i (stream i))

-- The last count that was acknowledged is among the acknowledgements.
abbrev pub IsPosted : Receipt → List ℕ → Type 0
IsPosted r acks = (r.last_ack ≡ 0) ⊎ ((i : ℕ) × (get_elem? acks i ≡ some r.last_ack))

-- So many pieces have numbers and a count of bytes that do not wrap.
abbrev pub Fits : (ℕ → Text) → ℕ → Type 0
Fits stream n = (n < 2 ^ 32) × (total_to stream n < 2 ^ 64)

-- The parts agree: the messages, the buffer and the counts are those of the first pieces of the
-- stream, the window is kept, and nothing is acknowledged that was not written to the connection.
pub record IsTunnel (stream : ℕ → Text) (t : Tunnel) : Type 0 where
  pub published : All (IsSent stream t.writer.topic t.writer.seq) t.transport.published
  pub short : t.writer.seq < 2 ^ 32
  pub sent : t.writer.fc.sent_bytes ≡ total_to stream t.writer.seq
  pub small : t.writer.fc.sent_bytes < 2 ^ 64
  pub window : IsWithin t.writer.fc
  pub window_size : t.writer.fc.window_size ≡ flow_control_window
  pub ordered : IsOrdered stream t.writer.seq t.rb
  pub sized : t.rb.size ≡ reorder_buf_size
  pub gap : find t.rb.next_seq t.rb.buf ≡ none
  pub behind : t.taken ≤ t.rb.next_seq
  pub received : t.receipt.total_received ≡ total_to stream t.taken
  pub counted : IsCounted t.receipt
  pub claims : All (λ n. n ≤ t.receipt.total_received) t.acks
  pub acked_le : t.writer.fc.acked_bytes ≤ t.receipt.total_received
  pub posted : IsPosted t.receipt t.acks
  pub spelled : t.output ≡ bytes_from stream 0 t.taken

-- No more is received than sent.
pub IsTunnel-le :
    (stream : ℕ → Text) (t : Tunnel)
    → IsTunnel stream t
    → t.receipt.total_received ≤ t.writer.fc.sent_bytes
IsTunnel-le stream t v = omega (
  arith,
  v.received,
  v.sent,
  v.behind,
  v.ordered.within,
  total_to_mono stream t.taken t.writer.seq (omega (arith, v.behind, v.ordered.within)),
)

pub new_tunnel-IsTunnel :
    (stream : ℕ → Text) (topic : Text) (accepts : List PubMessage → PubMessage → Bool)
    → IsTunnel stream (new_tunnel topic accepts)
unfolding new_tunnel new_sequence_writer new_flow_control new_reorder_buffer find
new_tunnel-IsTunnel stream topic accepts = record {
  published = tt;
  short = omega arith;
  sent = refl;
  small = omega arith;
  window = record { acked_le = omega arith; window = omega arith; small = omega arith };
  window_size = refl;
  ordered = record { in_order = refl; held = tt; within = omega arith; is_open = refl };
  sized = refl;
  gap = refl;
  behind = omega arith;
  received = refl;
  counted = (omega arith, omega arith);
  claims = tt;
  acked_le = omega arith;
  posted = inl refl;
  spelled = refl;
}
