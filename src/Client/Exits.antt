-- ===== src/Client/Exits.antt =====
-- How a command that was run through the tunnel ends on the client's side.
use mqtt_forward.Prelude.{
  Text, pos, ◌≡◌, refl, ap, ◌∙◌, true, none, List, [], ◌∷◌, ◌++◌, append_assoc,
}
use mqtt_forward.Client.Loops.{
  LoopEvent, close_comes, context_ends, timer_fires, LoopResult, exits, Phase, going, draining,
  cancelling, cancel_draining, finished, LoopState, new_loop_state, finish_loop, close_result,
  cancel_result, exec_event, loop_events, exec_loop,
}
use mqtt_forward.Writer.Frames.{concat}
use mqtt_forward.Client.Exec.{close_message}
use mqtt_forward.Client.{Client}
use mqtt_forward.Transport.{ControlMessage}
use mqtt_forward.Client.Deliveries.{
  deliveries, takes_data, loop_events-append, exec_finished, deliveries-HasWritten,
}

module _ (c : Client) (id : Text) where
  -- The loop after some data, and the loop after an event that comes next.
  after_data : List Text → LoopState → LoopState
  after_data ps r = loop_events (exec_event c id) (deliveries ps) r

  exec_next :
      (ps : List Text) (e : LoopEvent) (es : List LoopEvent) (r : LoopState) (phase : Phase)
      → r.phase ≡ phase
      → takes_data phase ≡ true
      → loop_events (exec_event c id) (deliveries ps ++ e ∷ es) r
        ≡ loop_events (exec_event c id) es (exec_event c id phase e (after_data ps r))
  unfolding loop_events after_data
  exec_next ps e es r phase h k =
      let v = deliveries-HasWritten c id ps r (ap takes_data h ∙ k) in
      loop_events-append (exec_event c id) (deliveries ps) (e ∷ es) r
      ∙ ap (λ p. loop_events (exec_event c id) es (exec_event c id p e (after_data ps r)))
          (v.same_phase ∙ h)

  after_data-output :
      (ps : List Text) (r : LoopState)
      → takes_data r.phase ≡ true
      → ((after_data ps r).output ≡ r.output ++ concat ps) × ((after_data ps r).phase ≡ r.phase)
  unfolding after_data
  after_data-output ps r k = let v = deliveries-HasWritten c id ps r k in (v.output, v.same_phase)

  -- A loop that takes data, and then the timer of a wait with a result.
  drains :
      (qs : List Text) (rest : List LoopEvent) (r : LoopState) (phase : Phase) (result : LoopResult)
      → r.phase ≡ phase
      → takes_data phase ≡ true
      → ((r : LoopState) → exec_event c id phase timer_fires r ≡ finish_loop result r)
      → let r' = loop_events (exec_event c id) (deliveries qs ++ timer_fires ∷ rest) r in
        (r'.phase ≡ finished result) × (r'.output ≡ r.output ++ concat qs)
  drains qs rest r phase result h k ends =
      let end = finish_loop result (after_data qs r) in
      let e : loop_events (exec_event c id) (deliveries qs ++ timer_fires ∷ rest) r ≡ end =
        exec_next qs timer_fires rest r phase h k
        ∙ ap (loop_events (exec_event c id) rest) (ends (after_data qs r))
        ∙ exec_finished c id result rest end refl in
      (ap (λ r. r.phase) e, ap (λ r. r.output) e ∙ (after_data-output qs r (ap takes_data h ∙ k)).0)

  -- The data before an event that changes the phase, and what the loop does after that.
  exec_then :
      (ps : List Text) (e : LoopEvent) (es : List LoopEvent) (r : LoopState) (phase : Phase)
      → r.phase ≡ phase
      → takes_data phase ≡ true
      → (result : LoopResult) (more : Text)
      → (let r' = loop_events (exec_event c id) es (exec_event c id phase e (after_data ps r)) in
          (r'.phase ≡ finished result)
          × (r'.output ≡ (exec_event c id phase e (after_data ps r)).output ++ more))
      → (exec_event c id phase e (after_data ps r)).output ≡ (after_data ps r).output
      → let r' = loop_events (exec_event c id) (deliveries ps ++ e ∷ es) r in
        (r'.phase ≡ finished result) × (r'.output ≡ (r.output ++ concat ps) ++ more)
  exec_then ps e es r phase h k result more (ended, output) kept =
      let next = exec_next ps e es r phase h k in
      (
        ap (λ r. r.phase) next ∙ ended,
        ap (λ r. r.output) next
            ∙ output
            ∙ ap (λ o. o ++ more) (kept ∙ (after_data-output ps r (ap takes_data h ∙ k)).0),
      )

  exec_closed :
      (ps qs : List Text) (m : ControlMessage) (rest : List LoopEvent) (r : LoopState)
      → r.phase ≡ going
      → let r' =
          loop_events
            (exec_event c id)
            (deliveries ps ++ (close_comes m ∷ (deliveries qs ++ (timer_fires ∷ rest))))
            r in
        (r'.phase ≡ finished (close_result m)) × (r'.output ≡ (r.output ++ concat ps) ++ concat qs)
  unfolding exec_event
  exec_closed ps qs m rest r h =
      exec_then ps (close_comes m) _ r going h refl (close_result m) (concat qs)
        (drains qs rest (record (after_data ps r) { phase = draining m }) (draining m)
          (close_result m) refl refl (λ r. refl))
        refl

  exec_cut_off :
      (ps qs : List Text) (rest : List LoopEvent) (r : LoopState)
      → r.phase ≡ going
      → let r' =
          loop_events
            (exec_event c id)
            (deliveries ps ++ (context_ends ∷ (deliveries qs ++ (timer_fires ∷ rest))))
            r in
        (r'.phase ≡ finished (exits (pos 130) none))
        × (r'.output ≡ (r.output ++ concat ps) ++ concat qs)
  unfolding exec_event
  exec_cut_off ps qs rest r h =
      exec_then ps context_ends _ r going h refl (exits (pos 130) none) (concat qs)
        (drains qs rest _ cancelling (exits (pos 130) none) refl refl (λ r. refl)) refl

  exec_cancelled :
      (ps qs rs : List Text) (m : ControlMessage) (rest : List LoopEvent) (r : LoopState)
      → r.phase ≡ going
      → let r' =
          loop_events
            (exec_event c id)
            (deliveries ps
              ++ (context_ends
                  ∷ (deliveries qs ++ (close_comes m ∷ (deliveries rs ++ (timer_fires ∷ rest))))))
            r in
        (r'.phase ≡ finished (cancel_result m))
        × (r'.output ≡ (r.output ++ concat ps) ++ (concat qs ++ concat rs))
  unfolding exec_event
  exec_cancelled ps qs rs m rest r h =
      let w = record (after_data ps r) {
        phase = cancelling;
        messages = (after_data ps r).messages ++ close_message c.device_id id ∷ [];
      } in
      let (ended, output) =
        exec_then qs (close_comes m) (deliveries rs ++ (timer_fires ∷ rest)) w cancelling refl refl
          (cancel_result m) (concat rs)
          (drains rs rest (record (after_data qs w) { phase = cancel_draining m })
            (cancel_draining m) (cancel_result m) refl refl (λ r. refl))
          refl in
      exec_then ps context_ends _ r going h refl (cancel_result m) (concat qs ++ concat rs)
        (ended, output ∙ append_assoc w.output (concat qs) (concat rs)) refl

-- How a command ends for its client, when each piece of data is written out as a whole and each
-- acknowledgement that is due is published. A close
-- message decides the exit code and the error, and all data that come before the wait for more is over are
-- written out in order. After a cancellation a close message decides by its exit code alone, and without
-- one the exit code is 130.
pub exec_loop_lem :
    (c : Client) (id : Text) (ps qs rs : List Text) (m : ControlMessage) (rest : List LoopEvent)
    → let last = timer_fires ∷ rest in
      let closed = exec_loop c id (deliveries ps ++ (close_comes m ∷ (deliveries qs ++ last))) in
      let cut_off = exec_loop c id (deliveries ps ++ (context_ends ∷ (deliveries qs ++ last))) in
      let cancelled = exec_loop c id (
        deliveries ps
        ++ (context_ends ∷ (deliveries qs ++ (close_comes m ∷ (deliveries rs ++ last))))) in
      (closed.phase ≡ finished (close_result m))
      × (closed.output ≡ concat ps ++ concat qs)
      × (cut_off.phase ≡ finished (exits (pos 130) none))
      × (cut_off.output ≡ concat ps ++ concat qs)
      × (cancelled.phase ≡ finished (cancel_result m))
      × (cancelled.output ≡ concat ps ++ (concat qs ++ concat rs))
unfolding exec_loop new_loop_state
exec_loop_lem c id ps qs rs m rest =
    let (a, a') = exec_closed c id ps qs m rest new_loop_state refl in
    let (b, b') = exec_cut_off c id ps qs rest new_loop_state refl in
    let (d, d') = exec_cancelled c id ps qs rs m rest new_loop_state refl in (a, a', b, b', d, d')
