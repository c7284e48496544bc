-- ===== src/Device/ExecAck.antt =====
-- Acknowledgements for the output of a command: the exec session of the device has no method
-- `UpdateFlowControl`, so they are dropped.
use mqtt_forward.Device.{Device, handle_ack}
use mqtt_forward.Prelude.{
  if◌then◌else◌, Bool-cases, Text, text_eq, text_eq→eq, lookup, lookup-insert, ℕ, ◌+◌, ◌^◌, ◌<◌,
  ◌≡◌, sym, ap, ◌∙◌, inl, inr, true, false, Option, some, List, [], ◌∷◌, arith,
}
use mqtt_forward.Session.{exec, Session, has_flow_control_update, update_flow_control}
use mqtt_forward.Manager.{Manager, put}
use mqtt_forward.Manager.Invariant.{get_cases}
use mqtt_forward.Transport.{ControlMessage}
use mqtt_forward.Device.Handlers.{
  IsSound, send_unknown_session_reject-manager, touch-sessions, update_flow_control-id,
  handle_ack-IsSound,
}
use mqtt_forward.Flow.{flow_control_window, can_send}

-- Acknowledgements that arrive one after another, each with its time.
unfoldable pub handle_acks : List (ℕ × ControlMessage) → Device → Device
handle_acks [] d = d
handle_acks ((now, msg) ∷ msgs) d = handle_acks msgs (handle_ack now msg d).0

update_flow_control-exec :
    (acked : ℕ) (s : Session) → s.kind ≡ exec → update_flow_control acked s ≡ s
unfolding update_flow_control has_flow_control_update
update_flow_control-exec acked s h = rw h

lookup-put :
    (t : Session) (k : Text) (m : Manager)
    → lookup k (put t m).sessions ≡ (if text_eq t.id k then some t else lookup k m.sessions)
unfolding put
lookup-put t k m = lookup-insert t.id k t m.sessions

-- A session put under an id that is another's, or that is put as it was.
if_same :
    {t s : Session} {o : Option Session} (j k : Text)
    → (text_eq j k ≡ true → t ≡ s)
    → o ≡ some s
    → (if text_eq j k then some t else o) ≡ some s
if_same j k same e = elim (Bool-cases (text_eq j k)) [
  | inl b ↦ rw b (ap some (same b))
  | inr b ↦ rw b e
]

-- One acknowledgement, for this session or for another one.
handle_ack-exec :
    (now : ℕ) (msg : ControlMessage) (id : Text) (s : Session) (d : Device)
    → IsSound d
    → lookup id d.manager.sessions ≡ some s
    → s.kind ≡ exec
    → lookup id (handle_ack now msg d).0.manager.sessions ≡ some s
unfolding handle_ack
handle_ack-exec now msg id s d v held h = elim (get_cases msg.session_id d.manager) [
  | inl e ↦
      rw (e, handle_ack)
        (ap (λ (m : Manager). lookup id m.sessions)
            (send_unknown_session_reject-manager now msg.session_id d)
          ∙ held)
  | inr (t, e, g) ↦
      let t' = update_flow_control msg.ack_bytes t in
      let named : t'.id ≡ msg.session_id =
        update_flow_control-id msg.ack_bytes t ∙ v.own_id msg.session_id t e in
      let same : text_eq t'.id id ≡ true → t' ≡ s = λ b.
        let id_is : msg.session_id ≡ id = sym named ∙ text_eq→eq t'.id id b in
        let t_is : t ≡ s =
          let p : some t ≡ some s = sym e ∙ ap (λ k. lookup k d.manager.sessions) id_is ∙ held in
          cc in
        ap (update_flow_control msg.ack_bytes) t_is ∙ update_flow_control-exec msg.ack_bytes s h in
      rw (g, handle_ack)
        (lookup-put t' id _
          ∙ if_same t'.id id same (touch-sessions now msg.session_id d.manager id ∙ held))
]

handle_acks-exec :
    (msgs : List (ℕ × ControlMessage)) (id : Text) (s : Session) (d : Device)
    → IsSound d
    → lookup id d.manager.sessions ≡ some s
    → s.kind ≡ exec
    → lookup id (handle_acks msgs d).manager.sessions ≡ some s
unfolding handle_acks
handle_acks-exec [] id s d v held h = held
handle_acks-exec ((now, msg) ∷ msgs) id s d v held h =
    handle_acks-exec msgs id s (handle_ack now msg d).0 (handle_ack-IsSound now msg d v)
      (handle_ack-exec now msg id s d v held h) h

-- The exec session that a device holds is the same after any acknowledgements, whatever they say and
-- for whatever sessions; so, of a command's output that was never acknowledged before, nothing beyond
-- the 256 KiB of the window can be sent, although the client acknowledges what it gets. (The device's
-- session manager is well formed, and the bytes stay below 2^64.)
pub exec_acks_ignored :
    (msgs : List (ℕ × ControlMessage)) (id : Text) (s : Session) (d : Device)
    → IsSound d
    → lookup id d.manager.sessions ≡ some s
    → s.kind ≡ exec
    → s.fc.window_size ≡ flow_control_window
    → s.fc.acked_bytes ≡ 0
    → (lookup id (handle_acks msgs d).manager.sessions ≡ some s)
      × ((n : ℕ)
          → flow_control_window < s.fc.sent_bytes + n
          → s.fc.sent_bytes + n < 2 ^ 64
          → can_send s.fc n ≡ false)
unfolding can_send
exec_acks_ignored msgs id s d v held h w a =
    (handle_acks-exec msgs id s d v held h, λ n over small. ground arith)
