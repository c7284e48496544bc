-- ===== src/Tunnel/Pipe.antt =====
-- A direction of a session as a pipe of bytes: a queue of what was written and has not come out.
use mqtt_forward.Prelude.{
  length, length-append, get_elem?, Text, ℕ, suc, ◌+◌, ◌-◌, ◌%◌, ◌^◌, ◌≤◌, ◌<◌, ◌≡◌, sym, ap, ◌∙◌,
  Bool, some, List, ◌++◌, arith,
}
use mqtt_forward.Tunnel.{
  Tunnel, new_tunnel, pieces, send_piece, handle_message, take_payload, handle_ack, Step, sends,
  delivers, takes, acked, Reach,
}
use mqtt_forward.Transport.{PubMessage}
use mqtt_forward.Tunnel.Invariant.{IsTunnel}
use mqtt_forward.Tunnel.Moves.{taken-piece, Reach-IsTunnel}
use mqtt_forward.Tunnel.Streams.{
  bytes_from, total_to, length-bytes_from, bytes_from-suc, bytes_from-append,
}
use mqtt_forward.Flow.{flow_control_window}

pub record Pipe : Type 0 where
  pub queue : Text
  pub out : Text

abbrev pub put : Text → Pipe → Pipe
put t p = record p { queue = p.queue ++ t }

-- Bytes at the front of the queue come out.
abbrev pub Gets : Text → Pipe → Pipe → Type 0
Gets t p p' =
    (rest : Text) × (p.queue ≡ t ++ rest) × (p' ≡ record { queue = rest; out = p.out ++ t })

-- The pipe that a tunnel is.
abbrev pub pipe_of : (ℕ → Text) → Tunnel → Pipe
pipe_of stream t = record {
  queue = bytes_from stream t.taken (t.writer.seq - t.taken);
  out = t.output;
}

-- What each step is for the pipe: a piece that is sent goes in, a payload that is taken comes out, and
-- a delivery and an acknowledgement change nothing.
abbrev pub Does : (stream : ℕ → Text) {t t' : Tunnel} → Step stream t t' → Pipe → Pipe → Type 0
Does stream {t} (sends _ _) p p' = p' ≡ put (stream t.writer.seq) p
Does stream (delivers _ _ _ _ _) p p' = p' ≡ p
Does stream (takes payload _ _) p p' = Gets payload p p'
Does stream (acked _ _ _ _) p p' = p' ≡ p

bytes_from-more :
    (stream : ℕ → Text) (i n : ℕ)
    → i ≤ n
    → bytes_from stream i (suc n - i) ≡ bytes_from stream i (n - i) ++ stream n
bytes_from-more stream i n h =
    let next : suc n - i ≡ suc (n - i) = omega arith in
    let place : i + (n - i) ≡ n = omega arith in
    rw next (ap (λ k. bytes_from stream i (n - i) ++ stream k) place)

bytes_from-fewer :
    (stream : ℕ → Text) (i n : ℕ)
    → i < n
    → bytes_from stream i (n - i) ≡ stream i ++ bytes_from stream (suc i) (n - suc i)
bytes_from-fewer stream i n h =
    let next : n - i ≡ suc (n - suc i) = omega arith in
    rw next (bytes_from-suc stream i (n - suc i))

module _ (stream : ℕ → Text) {t t' : Tunnel} (v : IsTunnel stream t) where
  sends-Does :
      (r : t.writer.seq + 1 < 2 ^ 32)
      → t' ≡ send_piece (stream t.writer.seq) t
      → pipe_of stream t' ≡ put (stream t.writer.seq) (pipe_of stream t)
  unfolding send_piece
  sends-Does short e =
      let step : (t.writer.seq + 1) % 2 ^ 32 ≡ suc t.writer.seq = omega arith in
      ap (pipe_of stream) e
      ∙ rw step (
          ap (λ q. record { queue = q; out = t.output })
            (bytes_from-more stream t.taken t.writer.seq
              (omega (arith, v.behind, v.ordered.within))))

  takes-Does :
      (p : Text)
      → get_elem? t.rb.data_ch t.taken ≡ some p
      → t' ≡ take_payload p t
      → Gets p (pipe_of stream t) (pipe_of stream t')
  unfolding take_payload
  takes-Does p h e =
      let (lt, same) = taken-piece stream t v p h in
      (
        bytes_from stream (suc t.taken) (t.writer.seq - suc t.taken),
        rw same
            (bytes_from-fewer stream t.taken t.writer.seq (omega (arith, lt, v.ordered.within))),
        ap (pipe_of stream) e,
      )

  Step-Does :
      (s : Step stream t t')
      → (t.writer.seq + 1 < 2 ^ 32)
      → Does stream s (pipe_of stream t) (pipe_of stream t')
  Step-Does (sends room e) short = sends-Does short e
  Step-Does (delivers sel i m h e) short = unfold handle_message in ap (pipe_of stream) e
  Step-Does (takes p h e) short = takes-Does p h e
  Step-Does (acked i n h e) short = unfold handle_ack in ap (pipe_of stream) e

-- A direction of a session refines a pipe of bytes, as long as fewer than 2^32 - 1 pieces, of fewer than
-- 2^64 bytes, have been sent before. Whatever else happened, a piece that the sender writes is added to
-- the queue, a payload that the receiver writes to the connection is at the front of the queue, and any
-- delivery of any published message, and any acknowledgement, leaves the pipe as it is.
pub tunnel_refines :
    (stream : ℕ → Text) (topic : Text) (accepts : List PubMessage → PubMessage → Bool)
    {t t' : Tunnel} (r : Reach stream (new_tunnel topic accepts) t)
    → pieces r + 1 < 2 ^ 32
    → total_to stream (pieces r) < 2 ^ 64
    → (s : Step stream t t') → Does stream s (pipe_of stream t) (pipe_of stream t')
tunnel_refines stream topic accepts r short small s =
    let (v, count) = Reach-IsTunnel stream topic accepts r (omega (arith, short), small) in
    Step-Does stream v s (omega (arith, short, count))

-- As long as fewer than 2^32 pieces, of fewer than 2^64 bytes, have been sent: whatever the broker delivers, how often and in which order, and whenever acknowledgements arrive,
-- what the receiver has written to the connection is a beginning of what the sender was given to
-- write, and the rest of that, which is on its way, is never more than the window of 256 KiB.
pub tunnel_window :
    (stream : ℕ → Text) (topic : Text) (accepts : List PubMessage → PubMessage → Bool) {t : Tunnel}
    (r : Reach stream (new_tunnel topic accepts) t)
    → pieces r < 2 ^ 32
    → total_to stream (pieces r) < 2 ^ 64
    → (t.output ++ (pipe_of stream t).queue ≡ bytes_from stream 0 t.writer.seq)
      × (length (pipe_of stream t).queue ≤ flow_control_window)
tunnel_window stream topic accepts {t} r short small =
    let (v, _) = Reach-IsTunnel stream topic accepts r (short, small) in
    let queue = bytes_from stream t.taken (t.writer.seq - t.taken) in
    let place : t.taken + (t.writer.seq - t.taken) ≡ t.writer.seq =
      omega (arith, v.behind, v.ordered.within) in
    let all : bytes_from stream 0 t.taken ++ queue ≡ bytes_from stream 0 t.writer.seq =
      bytes_from-append stream t.taken (t.writer.seq - t.taken) ∙ ap (bytes_from stream 0) place in
    let count : total_to stream t.taken + length queue ≡ total_to stream t.writer.seq =
      ap (λ k. k + length queue) (sym (length-bytes_from stream t.taken))
      ∙ sym (length-append (bytes_from stream 0 t.taken) queue)
      ∙ ap length all
      ∙ length-bytes_from stream t.writer.seq in
    (
      ap (λ o. o ++ queue) v.spelled ∙ all,
      omega (arith, count, v.sent, v.received, v.acked_le, v.window.window, v.window_size),
    )
