-- ===== src/Writer/Frames.antt =====
-- What a write publishes: the data, cut into numbered frames.
use mqtt_forward.Prelude.{
  ltb, ltb→lt, Bool-cases, length, take, drop, length-append, take-append-drop, length-take, All,
  Text, ℕ, zero, suc, ◌+◌, ◌%◌, ◌^◌, ◌≤◌, ◌<◌, ◌≡◌, refl, sym, ap, ◌∙◌, subst, ◌≢◌, ◌⊎◌, inl, inr,
  true, false, List, [], ◌∷◌, ◌++◌, append_assoc, append-nil, arith,
}
use mqtt_forward.Frame.{max_payload_size}
use mqtt_forward.Flow.Window.{IsWithin, add_sent-IsWithin, WaitFor, wait_for_window-WaitFor}
use mqtt_forward.Transport.{PubMessage, publish}
use mqtt_forward.Writer.{
  WriteOutcome, written, publish_failed, waiting, Writing, data_message, chunk_of, send_chunk,
  stopped, write_loop, write,
}
use mqtt_forward.Flow.{
  FlowControl, can_send, add_sent, Event, Wait, granted, cancelled, blocked, wait_for_window,
}

-- Pieces of a text put together.
abbrev pub concat : List Text → Text
concat [] = []
concat (c ∷ cs) = c ++ concat cs

-- The messages for pieces of data, numbered from `seq` on, modulo 2^32.
abbrev pub frames : Text → ℕ → List Text → List PubMessage
frames topic seq [] = []
frames topic seq (c ∷ cs) = data_message topic seq c ∷ frames topic ((seq + 1) % 2 ^ 32) cs

abbrev pub IsChunk : Text → Type 0
IsChunk c = (0 < length c) × (length c ≤ max_payload_size)

-- The outcome of writing `whole`: what was published is the beginning of the data in frames, the
-- whole of it if the write succeeds, and the flow control still keeps its window.
abbrev pub Written : Text → Writing → Writing × WriteOutcome → Type 0
Written whole w r =
    (cs : List Text) × (rest : Text) × (concat cs ++ rest ≡ whole)
    × All IsChunk cs
    × (r.0.transport.published ≡ w.transport.published ++ frames w.writer.topic w.writer.seq cs)
    × IsWithin r.0.writer.fc
    × (r.1 ≡ written → rest ≡ [])

pub Wait-cases :
    (w : Wait)
    → ((fc : FlowControl) × (events : List Event) × (w ≡ granted fc events))
      ⊎ ((fc : FlowControl) × ((w ≡ cancelled fc) ⊎ (w ≡ blocked fc)))
Wait-cases (granted fc events) = inl (fc, events, refl)
Wait-cases (cancelled fc) = inr (fc, inl refl)
Wait-cases (blocked fc) = inr (fc, inr refl)

WaitFor-stopped :
    (n : ℕ) (fc : FlowControl) (r : Wait) (fc' : FlowControl)
    → (r ≡ cancelled fc') ⊎ (r ≡ blocked fc')
    → WaitFor n fc r
    → IsWithin fc'
WaitFor-stopped n fc r fc' (inl e) h = (subst (WaitFor n fc) e h).0
WaitFor-stopped n fc r fc' (inr e) h = (subst (WaitFor n fc) e h).0

-- A chunk is a beginning of the data, not empty unless the data are, and within the limit.
pub chunk_of_lem :
    (limit : ℕ) (whole : Text)
    → 0 < limit
    → let c = chunk_of limit whole in
      (0 < length whole → 0 < length c)
      × (length c ≤ limit)
      × (length c ≤ length whole)
      × (c ++ drop (length c) whole ≡ whole)
unfolding chunk_of
chunk_of_lem limit whole h = elim (Bool-cases (ltb limit (length whole))) [
  | inl e ↦
      let long = ltb→lt limit (length whole) e in
      let n : length (take limit whole) ≡ limit = omega (arith, length-take limit whole) in
      rw (e, n) (λ p. h, omega arith, omega arith, take-append-drop limit whole)
  | inr e ↦ rw e (λ p. p, ground arith, omega arith, append-drop_all whole)
]
  where
    append-drop_all : (t : Text) → t ++ drop (length t) t ≡ t
    append-drop_all [] = refl
    append-drop_all (x ∷ t) = ap (◌∷◌ x) (append-drop_all t)

module _ (c : Text) (fc : FlowControl) (events : List Event) (w : Writing) where
  pub send_chunk-published :
      (send_chunk c fc events w).1 ≡ true
      → (send_chunk c fc events w).0.transport.published
        ≡ w.transport.published ++ data_message w.writer.topic w.writer.seq c ∷ []
  unfolding send_chunk publish
  send_chunk-published h = ground arith

  pub send_chunk-refused :
      (send_chunk c fc events w).1 ≡ false
      → (send_chunk c fc events w).0.transport.published ≡ w.transport.published
  unfolding send_chunk publish
  send_chunk-refused h = ground arith

  send_chunk-frames :
      (cs : List Text)
      → (send_chunk c fc events w).1 ≡ true
      → let w' = (send_chunk c fc events w).0 in
        w'.transport.published ++ frames w'.writer.topic w'.writer.seq cs
        ≡ w.transport.published ++ frames w.writer.topic w.writer.seq (c ∷ cs)
  unfolding send_chunk
  send_chunk-frames cs h =
      ap (λ l. l ++ frames w.writer.topic ((w.writer.seq + 1) % 2 ^ 32) cs) (send_chunk-published h)
      ∙ append_assoc w.transport.published _ _

  -- The flow control after a piece that was granted, with room for the rest of the data.
  pub send_chunk-IsWithin :
      (rest : ℕ)
      → IsWithin fc
      → length c < 2 ^ 63
      → can_send fc (length c) ≡ true
      → fc.sent_bytes + length c + rest < 2 ^ 64
      → IsWithin (send_chunk c fc events w).0.writer.fc
        × ((send_chunk c fc events w).0.writer.fc.sent_bytes + rest < 2 ^ 64)
  unfolding send_chunk
  send_chunk-IsWithin rest v short room small =
      (add_sent-IsWithin (length c) fc v short (omega arith) room, unfold add_sent in omega arith)

module _ (fuel b : ℕ) (bs : Text) (w : Writing) where
  -- The piece that the next round sends.
  abbrev pub chunk : Text
  chunk = chunk_of max_payload_size (b ∷ bs)

  write_loop-stopped :
      (fc : FlowControl)
      → (wait_for_window (length chunk) w.events w.writer.fc ≡ cancelled fc)
        ⊎ (wait_for_window (length chunk) w.events w.writer.fc ≡ blocked fc)
      → ((write_loop (suc fuel) (b ∷ bs) w).0 ≡ stopped fc w)
        × ((write_loop (suc fuel) (b ∷ bs) w).1 ≢ written)
  unfolding write_loop
  write_loop-stopped fc (inl e) = rw (e, write_loop) (refl, λ h. cc)
  write_loop-stopped fc (inr e) = rw (e, write_loop) (refl, λ h. cc)

  pub write_loop-refused :
      (fc : FlowControl) (events : List Event)
      → wait_for_window (length chunk) w.events w.writer.fc ≡ granted fc events
      → (send_chunk chunk fc events w).1 ≡ false
      → write_loop (suc fuel) (b ∷ bs) w ≡ ((send_chunk chunk fc events w).0, publish_failed)
  unfolding write_loop
  write_loop-refused fc events e h = rw (e, write_loop) (rw h)

  pub write_loop-sent :
      (fc : FlowControl) (events : List Event)
      → wait_for_window (length chunk) w.events w.writer.fc ≡ granted fc events
      → (send_chunk chunk fc events w).1 ≡ true
      → write_loop (suc fuel) (b ∷ bs) w
        ≡ write_loop fuel (drop (length chunk) (b ∷ bs)) (send_chunk chunk fc events w).0
  unfolding write_loop
  write_loop-sent fc events e h = rw (e, write_loop) (rw h)

-- A write that publishes nothing more.
nothing_more :
    (whole : Text) (w : Writing) (r : Writing × WriteOutcome)
    → r.0.transport.published ≡ w.transport.published
    → IsWithin r.0.writer.fc
    → r.1 ≢ written
    → Written whole w r
nothing_more whole w r same v h =
    ([], whole, refl, tt, same ∙ sym (append-nil w.transport.published), v, λ e. absurd (h e))

write_loop-Written :
    (fuel : ℕ) (whole : Text) (w : Writing)
    → IsWithin w.writer.fc
    → w.writer.fc.sent_bytes + length whole < 2 ^ 64
    → Written whole w (write_loop fuel whole w)
write_loop-Written fuel [] w v small =
    unfold write_loop in ([], [], refl, tt, sym (append-nil w.transport.published), v, λ e. refl)
write_loop-Written zero (b ∷ bs) w v small =
    unfold write_loop in nothing_more (b ∷ bs) w (w, waiting) refl v (λ e. cc)
write_loop-Written (suc fuel) (b ∷ bs) w v small =
    let c = chunk_of max_payload_size (b ∷ bs) in
    let n = length c in
    let left = drop n (b ∷ bs) in
    let r = write_loop (suc fuel) (b ∷ bs) w in
    let (some_byte, fits, shorter, whole) = chunk_of_lem max_payload_size (b ∷ bs) (omega arith) in
    let waited = wait_for_window-WaitFor n w.events w.writer.fc v in
    elim (Wait-cases (wait_for_window n w.events w.writer.fc)) [
      | inr (fc, e) ↦
          let (state, unwritten) = write_loop-stopped fuel b bs w fc e in
          nothing_more (b ∷ bs) w r (rw state)
            (rw state (WaitFor-stopped n w.writer.fc _ fc e waited)) unwritten
      | inl (fc, events, e) ↦
          let (v', room, same, _) = subst (WaitFor n w.writer.fc) e waited in
          let total : n + length left ≡ length (b ∷ bs) =
            sym (length-append c left) ∙ ap length whole in
          let (v2, small') =
            send_chunk-IsWithin c fc events w (length left) v' (omega arith) room (omega arith) in
          elim (Bool-cases (send_chunk c fc events w).1) [
            | inr refused ↦
                let state = write_loop-refused fuel b bs w fc events e refused in
                nothing_more (b ∷ bs) w r (rw state (send_chunk-refused c fc events w refused))
                  (rw state v2) (rw state (λ h. cc))
            | inl sent ↦
                let (cs, rest, spelled, chunks, published, v3, all) =
                  write_loop-Written fuel left (send_chunk c fc events w).0 v2 small' in
                rw (write_loop-sent fuel b bs w fc events e sent) (
                  c ∷ cs,
                  rest,
                  append_assoc c (concat cs) rest ∙ ap (◌++◌ c) spelled ∙ whole,
                  ((some_byte (omega arith), fits), chunks),
                  published ∙ send_chunk-frames c fc events w cs sent,
                  v3,
                  all,
                )
          ]
    ]

-- A write by a sender that keeps its window, whatever happens while it waits, publishes a beginning
-- of the data as frames with consecutive numbers, each of one byte at least and 64 KiB at most, and
-- nothing else; a write that succeeds publishes all of the data; and the window is kept. (The bytes
-- sent, with the data, stay below 2^64.)
pub write-Written :
    (whole : Text) (w : Writing)
    → IsWithin w.writer.fc
    → w.writer.fc.sent_bytes + length whole < 2 ^ 64
    → Written whole w (write whole w)
unfolding write
write-Written whole w v small = write_loop-Written (length whole) whole w v small
