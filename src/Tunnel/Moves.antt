-- ===== src/Tunnel/Moves.antt =====
-- The moves of a tunnel, each of which keeps its invariant: internal/tunnel/session.go, session_tcp.go.
use mqtt_forward.Tunnel.Invariant.{IsSent, Fits, IsTunnel, new_tunnel-IsTunnel}
use mqtt_forward.Tunnel.Growth.{
  IsOrdered-grows, can_send-short, update_ack-le, Inserted-grows, Inserted-size,
  count_received-IsPosted,
}
use mqtt_forward.Prelude.{
  Bool-cases, length, All, All-append, All-map, get_elem?, get_elem?-All, Text, ℕ, suc, ◌+◌, ◌%◌,
  ◌^◌, ◌≤◌, ◌<◌, ◌≡◌, refl, sym, ap, ◌∙◌, subst, inl, inr, Bool, true, some, List, [], ◌++◌, arith,
}
use mqtt_forward.Flow.{can_send, add_sent}
use mqtt_forward.Tunnel.{
  Tunnel, new_tunnel, pieces, send_piece, handle_message, take_payload, handle_ack, sends, delivers,
  takes, acked, Reach, here, then,
}
use mqtt_forward.Tunnel.Streams.{bytes_from, total_to, total_to_mono, get_elem?-first}
use mqtt_forward.Flow.Window.{update_ack-IsWithin, update_ack_lem, add_sent-IsWithin}
use mqtt_forward.Reorder.{Select, insert_frame}
use mqtt_forward.Transport.{PubMessage}
use mqtt_forward.Writer.{new_sequence_writer, Writing, send_chunk}
use mqtt_forward.Reorder.Order.{insert_frame-IsOrdered}
use mqtt_forward.Writer.Frames.{send_chunk-published, send_chunk-refused}
use mqtt_forward.Transfer.{receive_payload, receive_payload-frame}

module _ (stream : ℕ → Text) (t : Tunnel) (v : IsTunnel stream t) where
  module _ (short : t.writer.seq + 1 < 2 ^ 32) where
    IsSent-grows :
        (n : ℕ) (ms : List PubMessage)
        → All (IsSent stream t.writer.topic n) ms
        → All (IsSent stream t.writer.topic (suc n)) ms
    IsSent-grows n ms h =
        All-map (IsSent stream t.writer.topic n) (IsSent stream t.writer.topic (suc n))
          (λ m (i, lt, e). (i, omega (arith, lt), e)) ms h

    -- Whether or not the client takes the message, what was published are pieces that were written.
    send_piece-published :
        let t' = send_piece (stream t.writer.seq) t in
        All (IsSent stream t.writer.topic (suc t.writer.seq)) t'.transport.published
    unfolding send_piece
    send_piece-published =
        let w : Writing = record { writer = t.writer; transport = t.transport; events = [] } in
        let old = IsSent-grows t.writer.seq t.transport.published v.published in
        let piece = stream t.writer.seq in
        elim (Bool-cases (send_chunk piece t.writer.fc [] w).1) [
          | inl e ↦ rw (send_chunk-published piece t.writer.fc [] w e) (
              All-append (IsSent stream t.writer.topic (suc t.writer.seq)) t.transport.published _
                old ((t.writer.seq, omega arith, refl), tt))
          | inr e ↦ rw (send_chunk-refused piece t.writer.fc [] w e) old
        ]

    send_piece-IsTunnel :
        can_send t.writer.fc (length (stream t.writer.seq)) ≡ true
        → t.writer.fc.sent_bytes + length (stream t.writer.seq) < 2 ^ 64
        → IsTunnel stream (send_piece (stream t.writer.seq) t)
    unfolding send_piece
    send_piece-IsTunnel room small =
        let n = length (stream t.writer.seq) in
        let step : (t.writer.seq + 1) % 2 ^ 32 ≡ suc t.writer.seq = omega arith in
        let count : (add_sent n t.writer.fc).sent_bytes ≡ t.writer.fc.sent_bytes + n =
          unfold add_sent in omega arith in
        record {
          published = rw step (send_piece-published);
          short = omega (arith, step);
          sent = rw step (omega (arith, count, v.sent));
          small = omega (arith, count);
          window =
              add_sent-IsWithin n t.writer.fc v.window
                (can_send-short t.writer.fc n v.window room small) small room;
          window_size = unfold add_sent in v.window_size;
          ordered = rw step (IsOrdered-grows stream t.writer.seq _ t.rb (omega arith) v.ordered);
          sized = v.sized;
          gap = v.gap;
          behind = v.behind;
          received = v.received;
          counted = v.counted;
          claims = v.claims;
          acked_le = unfold add_sent in v.acked_le;
          posted = v.posted;
          spelled = v.spelled;
        }

  -- A delivery changes the buffer only, as an insertion of its frame.
  pub handle_message-IsTunnel :
      (sel : Select) (i : ℕ) (m : PubMessage)
      → get_elem? t.transport.published i ≡ some m
      → IsTunnel stream (handle_message sel m t)
  unfolding handle_message
  handle_message-IsTunnel sel i m e =
      let (s, lt, same) =
        get_elem?-All (IsSent stream t.writer.topic t.writer.seq) t.transport.published i m
          v.published e in
      let frame : receive_payload sel m.payload t.rb ≡ insert_frame sel s (stream s) t.rb =
        ap (λ m. receive_payload sel m.payload t.rb) same
        ∙ receive_payload-frame sel t.writer.topic s (stream s) t.rb (omega (arith, v.short)) in
      let (ordered, gap, ins) =
        insert_frame-IsOrdered stream t.writer.seq v.short sel s t.rb lt v.ordered v.gap in
      record {
        published = v.published;
        short = v.short;
        sent = v.sent;
        small = v.small;
        window = v.window;
        window_size = v.window_size;
        ordered = rw frame ordered;
        sized = rw frame (Inserted-size stream s t.rb _ ins ∙ v.sized);
        gap = rw frame gap;
        behind = rw frame (omega (arith, v.behind, Inserted-grows stream s t.rb _ ins));
        received = v.received;
        counted = v.counted;
        claims = v.claims;
        acked_le = v.acked_le;
        posted = v.posted;
        spelled = v.spelled;
      }

  -- A payload that is taken is the next piece.
  pub taken-piece :
      (p : Text)
      → get_elem? t.rb.data_ch t.taken ≡ some p
      → (t.taken < t.rb.next_seq) × (p ≡ stream t.taken)
  taken-piece p e =
      get_elem?-first t.rb.next_seq stream t.taken p
        (ap (λ l. get_elem? l t.taken) (sym v.ordered.in_order) ∙ e)

  pub take_payload-IsTunnel :
      (p : Text) → get_elem? t.rb.data_ch t.taken ≡ some p → IsTunnel stream (take_payload p t)
  unfolding take_payload
  take_payload-IsTunnel p e =
      let (lt, same) = taken-piece p e in
      let n : length p ≡ length (stream t.taken) = ap length same in
      let below : total_to stream (suc t.taken) ≤ total_to stream t.writer.seq =
        total_to_mono stream (suc t.taken) t.writer.seq (omega (arith, lt, v.ordered.within)) in
      let total : t.receipt.total_received + length p ≡ total_to stream (suc t.taken) =
        omega (arith, n, v.received) in
      let (counts, counted, claims, posted) =
        count_received-IsPosted (length p) t.receipt t.acks v.counted
          (omega (arith, v.small, v.sent)) v.claims v.posted in
      record {
        published = v.published;
        short = v.short;
        sent = v.sent;
        small = v.small;
        window = v.window;
        window_size = v.window_size;
        ordered = v.ordered;
        sized = v.sized;
        gap = v.gap;
        behind = omega (arith, lt);
        received = counts ∙ total;
        counted = counted;
        claims = rw counts claims;
        acked_le = omega (arith, counts, v.acked_le);
        posted = posted;
        spelled =
            ap (λ o. o ++ p) v.spelled
            ∙ ap (◌++◌ (bytes_from stream 0 t.taken)) (same ∙ ap stream (omega arith));
      }

  pub handle_ack-IsTunnel :
      (i n : ℕ) → get_elem? t.acks i ≡ some n → IsTunnel stream (handle_ack n t)
  unfolding handle_ack
  handle_ack-IsTunnel i n e =
      let fc = t.writer.fc in
      let (_, _, same_sent, same_window, _, _) = update_ack_lem n fc v.window.acked_le in
      let le : n ≤ t.receipt.total_received =
        get_elem?-All (λ n. n ≤ t.receipt.total_received) t.acks i n v.claims e in
      record {
        published = v.published;
        short = v.short;
        sent = same_sent ∙ v.sent;
        small = omega (arith, same_sent, v.small);
        window = update_ack-IsWithin n fc v.window;
        window_size = same_window ∙ v.window_size;
        ordered = v.ordered;
        sized = v.sized;
        gap = v.gap;
        behind = v.behind;
        received = v.received;
        counted = v.counted;
        claims = v.claims;
        acked_le = update_ack-le n t.receipt.total_received fc le v.acked_le;
        posted = v.posted;
        spelled = v.spelled;
      }

-- A piece that is sent, where it is not the last that fits.
sends-IsTunnel :
    (stream : ℕ → Text) (t : Tunnel)
    → IsTunnel stream t
    → can_send t.writer.fc (length (stream t.writer.seq)) ≡ true
    → Fits stream (suc t.writer.seq)
    → let t' = send_piece (stream t.writer.seq) t in
      IsTunnel stream t' × (t'.writer.seq ≡ suc t.writer.seq)
unfolding send_piece
sends-IsTunnel stream t v room (short, small) = (
  send_piece-IsTunnel stream t v (omega (arith, short)) room (omega (arith, small, v.sent)),
  omega (arith, short),
)

pub Fits-mono : (stream : ℕ → Text) (n : ℕ) → Fits stream (suc n) → Fits stream n
Fits-mono stream n (short, small) =
    (omega (arith, short), omega (arith, small, total_to_mono stream n (suc n) (omega arith)))

-- Every step keeps it, as long as the pieces that are sent fit, and their number is the writer's.
pub Reach-IsTunnel :
    (stream : ℕ → Text) (topic : Text) (accepts : List PubMessage → PubMessage → Bool) {t : Tunnel}
    (r : Reach stream (new_tunnel topic accepts) t)
    → Fits stream (pieces r)
    → IsTunnel stream t × (t.writer.seq ≡ pieces r)
unfolding handle_message take_payload handle_ack
Reach-IsTunnel stream topic accepts here fits =
    (new_tunnel-IsTunnel stream topic accepts, unfold new_tunnel new_sequence_writer in refl)
Reach-IsTunnel stream topic accepts (then {u} r (sends room e)) fits =
    let (v, count) = Reach-IsTunnel stream topic accepts r (Fits-mono stream (pieces r) fits) in
    let next : suc u.writer.seq ≡ suc (pieces r) = ap suc count in
    let (v', seq) = sends-IsTunnel stream u v room (subst (Fits stream) (sym next) fits) in
    rw e (v', seq ∙ next)
Reach-IsTunnel stream topic accepts (then {u} r (delivers sel i m h e)) fits =
    let (v, count) = Reach-IsTunnel stream topic accepts r fits in
    rw e (handle_message-IsTunnel stream u v sel i m h, count)
Reach-IsTunnel stream topic accepts (then {u} r (takes p h e)) fits =
    let (v, count) = Reach-IsTunnel stream topic accepts r fits in
    rw e (take_payload-IsTunnel stream u v p h, count)
Reach-IsTunnel stream topic accepts (then {u} r (acked i n h e)) fits =
    let (v, count) = Reach-IsTunnel stream topic accepts r fits in
    rw e (handle_ack-IsTunnel stream u v i n h, count)
