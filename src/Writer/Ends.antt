-- ===== src/Writer/Ends.antt =====
-- The loop of a write ends.
use mqtt_forward.Prelude.{
  Bool-cases, length, drop, length-append, Text, ℕ, zero, suc, ◌+◌, ◌^◌, ◌≤◌, ◌<◌, ◌≡◌, refl, sym,
  ap, ◌∙◌, subst, inl, inr, false, [], ◌∷◌, arith,
}
use mqtt_forward.Writer.{
  WriteOutcome, context_done, waiting, Writing, chunk_of, send_chunk, stopped, write_loop, write,
}
use mqtt_forward.Flow.Window.{IsWithin, WaitFor, wait_for_window-WaitFor}
use mqtt_forward.Frame.{max_payload_size}
use mqtt_forward.Flow.{FlowControl, can_send, cancelled, blocked, wait_for_window}
use mqtt_forward.Writer.Frames.{
  Wait-cases, chunk_of_lem, send_chunk-IsWithin, write_loop-refused, write_loop-sent,
}

-- Why a write has ended, or has not: one that has not waits for room for a next piece, the room is
-- not there, and nothing more happens.
abbrev pub IsEnded : Writing × WriteOutcome → Type 0
IsEnded r =
    r.1 ≡ waiting
    → (r.0.events ≡ [])
      × (n : ℕ) × (0 < n)
      × (n ≤ max_payload_size)
      × (can_send r.0.writer.fc n ≡ false)

module _ (fuel b : ℕ) (bs : Text) (w : Writing) (fc : FlowControl) where
  write_loop-cancelled :
      wait_for_window (length (chunk_of max_payload_size (b ∷ bs))) w.events w.writer.fc
        ≡ cancelled fc
      → write_loop (suc fuel) (b ∷ bs) w ≡ (stopped fc w, context_done)
  unfolding write_loop
  write_loop-cancelled e = rw (e, write_loop) refl

  write_loop-blocked :
      wait_for_window (length (chunk_of max_payload_size (b ∷ bs))) w.events w.writer.fc
        ≡ blocked fc
      → write_loop (suc fuel) (b ∷ bs) w ≡ (stopped fc w, waiting)
  unfolding write_loop
  write_loop-blocked e = rw (e, write_loop) refl

write_loop_ends :
    (fuel more : ℕ) (whole : Text) (w : Writing)
    → length whole ≤ fuel
    → IsWithin w.writer.fc
    → w.writer.fc.sent_bytes + length whole < 2 ^ 64
    → (write_loop (fuel + more) whole w ≡ write_loop fuel whole w)
      × IsEnded (write_loop fuel whole w)
write_loop_ends fuel more [] w le v small = unfold write_loop in (refl, λ h. cc)
write_loop_ends zero more (b ∷ bs) w le v small = absurd (omega arith)
write_loop_ends (suc fuel) more (b ∷ bs) w le v small =
    let next : suc fuel + more ≡ suc (fuel + more) = omega arith in
    let c = chunk_of max_payload_size (b ∷ bs) in
    let left = drop (length c) (b ∷ bs) in
    let (some_byte, fits, shorter, whole) = chunk_of_lem max_payload_size (b ∷ bs) (omega arith) in
    let waited = wait_for_window-WaitFor (length c) w.events w.writer.fc v in
    elim (Wait-cases (wait_for_window (length c) w.events w.writer.fc)) [
      | inr (fc, inl e) ↦
          rw
            (
              next,
              write_loop-cancelled fuel b bs w fc e,
              write_loop-cancelled (fuel + more) b bs w fc e,
            )
            (refl, λ h. cc)
      | inr (fc, inr e) ↦
          let (_, full, _, _) = subst (WaitFor (length c) w.writer.fc) e waited in
          rw
            (
              next,
              write_loop-blocked fuel b bs w fc e,
              write_loop-blocked (fuel + more) b bs w fc e,
            )
            (refl, λ h. (refl, length c, some_byte (omega arith), fits, full))
      | inl (fc, events, e) ↦
          let (v', room, same, _) = subst (WaitFor (length c) w.writer.fc) e waited in
          let total : length c + length left ≡ length (b ∷ bs) =
            sym (length-append c left) ∙ ap length whole in
          let (v2, small') =
            send_chunk-IsWithin c fc events w (length left) v' (omega arith) room (omega arith) in
          elim (Bool-cases (send_chunk c fc events w).1) [
            | inr refused ↦
                rw
                  (
                    next,
                    write_loop-refused fuel b bs w fc events e refused,
                    write_loop-refused (fuel + more) b bs w fc events e refused,
                  )
                  (refl, λ h. cc)
            | inl sent ↦
                let rest =
                  write_loop_ends fuel more left (send_chunk c fc events w).0
                    (omega (arith, some_byte (omega arith))) v2 small' in
                rw
                  (
                    next,
                    write_loop-sent fuel b bs w fc events e sent,
                    write_loop-sent (fuel + more) b bs w fc events e sent,
                  )
                  rest
          ]
    ]

-- A write by a sender that keeps its window ends after at most as many rounds as there are bytes: with
-- any more fuel the result is the same. If it has not returned, then because the window has no room for
-- a next piece of 64 KiB at most, and no event is left. (The bytes sent, with the data, stay below 2^64.)
pub write_ends :
    (more : ℕ) (whole : Text) (w : Writing)
    → IsWithin w.writer.fc
    → w.writer.fc.sent_bytes + length whole < 2 ^ 64
    → (write_loop (length whole + more) whole w ≡ write whole w) × IsEnded (write whole w)
unfolding write
write_ends more whole w v small = write_loop_ends (length whole) more whole w (omega arith) v small
