-- ===== src/Device/Handlers.antt =====
-- What each handler of a device leaves of its session manager: internal/device/device.go.
use mqtt_forward.Transport.SessionMode
use mqtt_forward.Prelude.{
  ltb, Bool-cases, Text, text_eq, text_eq_self, lookup, lookup-insert, ok, ℕ, ◌≡◌, sym, ◌∙◌, subst,
  inl, inr, ◌&&◌, Option, some, arith,
}
use mqtt_forward.Session.{
  Session, new_tcp_session, new_exec_session, new_shell_session, set_on_close, start, is_shell,
  resize, update_flow_control, close,
}
use mqtt_forward.Manager.{Manager, touch, put}
use mqtt_forward.Manager.Invariant.{
  IsWellFormed, added-IsWellFormed, remove_session-IsWellFormed, touch-IsWellFormed,
  put-IsWellFormed, get_cases,
}
use mqtt_forward.Device.{
  Device, Environment, send_unknown_session_reject, make_session, resize_shell, deadline_of,
  start_session, handle_open, handle_close, handle_ack,
}
use mqtt_forward.Transport.{ControlMessage}
use mqtt_forward.Device.Open.{
  starting, start_session_cases, refused, taken, starts, handle_open_cases,
}

abbrev pub IsSound : Device → Type 0
IsSound d = IsWellFormed d.manager

pub send_unknown_session_reject-manager :
    (now : ℕ) (id : Text) (d : Device)
    → (send_unknown_session_reject now id d).0.manager ≡ d.manager
unfolding send_unknown_session_reject
send_unknown_session_reject-manager now id d = ground arith

pub touch-sessions :
    (now : ℕ) (id : Text) (m : Manager)
    → (k : Text) → lookup k (touch now id m).sessions ≡ lookup k m.sessions
unfolding touch
touch-sessions now id m k = ground arith

-- A session changed in place, under the id under which it is held.
pub put-IsWellFormed_of_id :
    (s t : Session) (m : Manager)
    → IsWellFormed m
    → lookup t.id m.sessions ≡ some t
    → s.id ≡ t.id
    → IsWellFormed (put s m)
put-IsWellFormed_of_id s t m v e same =
    put-IsWellFormed s t m (subst (λ k. lookup k m.sessions ≡ some t) (sym same) e) v

pub resize-id : (cols rows : ℕ) (s : Session) → (resize cols rows s).id ≡ s.id
unfolding resize
resize-id cols rows s = ground arith

pub resize_shell-IsSound :
    (id : Text) (cols rows : ℕ) (d : Device) → IsSound d → IsSound (resize_shell id cols rows d)
unfolding resize_shell
resize_shell-IsSound id cols rows d v = elim (get_cases id d.manager) [
  | inl e ↦ rw (e, resize_shell) v
  | inr (s, e, g) ↦
      let own = v.own_id id s e in
      let held : lookup s.id d.manager.sessions ≡ some s =
        subst (λ k. lookup k d.manager.sessions ≡ some s) (sym own) e in
      let sized =
        put-IsWellFormed_of_id (resize cols rows s) s d.manager v held (resize-id cols rows s) in
      elim (Bool-cases (is_shell s.kind)) [
        | inl k ↦ rw (g, resize_shell) (rw k sized)
        | inr k ↦ rw (g, resize_shell) (rw k v)
      ]
]

pub start-id :
    (pty : Option Text) (deadline : Option ℕ) (s : Session)
    → (start pty deadline (set_on_close s)).0.id ≡ s.id
unfolding start set_on_close
start-id pty deadline s = ground arith

pub make_session-id :
    (env : Environment) (msg : ControlMessage) (d : Device) (s : Session)
    → make_session env msg d ≡ ok s
    → s.id ≡ msg.session_id
unfolding make_session new_tcp_session new_exec_session new_shell_session
make_session-id env msg d s h = ground arith

pub start_session-IsSound :
    (env : Environment) (msg : ControlMessage) (s : Session) (d : Device)
    → IsSound d
    → lookup s.id d.manager.sessions ≡ some s
    → IsSound (start_session env msg s d).0
start_session-IsSound env msg s d v held = elim (start_session_cases env msg s d) [
  | inl (e, _, r) ↦ rw r (remove_session-IsWellFormed msg.session_id d.manager v)
  | inr (_, r) ↦
      let v' : IsSound (record d { manager = put (starting env msg s).0 d.manager }) =
        put-IsWellFormed_of_id (starting env msg s).0 s d.manager v held
          (start-id env.pty (deadline_of env.now msg) s) in
      rw r
        (elim (Bool-cases
          (text_eq msg.mode SessionMode.shell && ltb 0 msg.cols && ltb 0 msg.rows)) [
            | inl b ↦ rw b (resize_shell-IsSound msg.session_id msg.cols msg.rows _ v')
            | inr b ↦ rw b v'
          ])
]

pub handle_open-IsSound :
    (env : Environment) (msg : ControlMessage) (d : Device)
    → IsSound d
    → IsSound (handle_open env msg d).0
handle_open-IsSound env msg d v = elim (handle_open_cases env msg d) [
  | refused e _ r ↦ rw r v
  | taken s t _ _ r ↦ rw r v
  | starts s _ free r ↦ rw r (
      start_session-IsSound env msg s _ (added-IsWellFormed env.now s d.manager v)
        (ground (arith, lookup-insert s.id s.id s d.manager.sessions, text_eq_self s.id)))
]

pub handle_close-IsSound :
    (msg : ControlMessage) (d : Device) → IsSound d → IsSound (handle_close msg d).0
unfolding handle_close
handle_close-IsSound msg d v = elim (get_cases msg.session_id d.manager) [
  | inl e ↦ rw (e, handle_close) v
  | inr (s, e, g) ↦
      rw (g, handle_close)
        (elim (Bool-cases (close s).calls_hook) [
          | inl b ↦ rw b (
              remove_session-IsWellFormed msg.session_id _
                (remove_session-IsWellFormed s.id d.manager v))
          | inr b ↦ rw b (remove_session-IsWellFormed msg.session_id d.manager v)
        ])
]

pub update_flow_control-id : (acked : ℕ) (s : Session) → (update_flow_control acked s).id ≡ s.id
unfolding update_flow_control
update_flow_control-id acked s = ground arith

-- A session that is held is touched, and changed in place.
pub touch-put-IsWellFormed :
    (now : ℕ) (id : Text) (s t : Session) (m : Manager)
    → IsWellFormed m
    → lookup id m.sessions ≡ some s
    → t.id ≡ s.id
    → IsWellFormed (put t (touch now id m))
touch-put-IsWellFormed now id s t m v e same =
    put-IsWellFormed_of_id t s _ (touch-IsWellFormed now id m v)
      (touch-sessions now id m s.id
        ∙ subst (λ k. lookup k m.sessions ≡ some s) (sym (v.own_id id s e)) e)
      same

pub handle_ack-IsSound :
    (now : ℕ) (msg : ControlMessage) (d : Device) → IsSound d → IsSound (handle_ack now msg d).0
unfolding handle_ack
handle_ack-IsSound now msg d v = elim (get_cases msg.session_id d.manager) [
  | inl e ↦
      rw (e, handle_ack)
        (subst IsWellFormed (sym (send_unknown_session_reject-manager now msg.session_id d)) v)
  | inr (s, e, g) ↦
      rw (g, handle_ack)
        (touch-put-IsWellFormed now msg.session_id s _ d.manager v e
          (update_flow_control-id msg.ack_bytes s))
]
