-- ===== src/Client/Invariant.antt =====
-- The client's session manager stays well formed.
use mqtt_forward.Prelude.{
  Bool-cases, Option-cases, Text, text_eq_self, lookup, lookup-delete, Result, err, ok,
  Result-cases, ℕ, ◌≡◌, sym, ◌∙◌, subst, inl, inr, Bool, true, false, Option, none, some, List, [],
  ◌∷◌, arith,
}
use mqtt_forward.Client.{
  Client, close_session, handle_close, handle_ack, Notice, answers, closings, acknowledgements,
  others, notice_of, dispatch, handle_control, handle_data,
}
use mqtt_forward.Client.Connecting.{
  OpenRequest, OpenError, received, wait_reply, send_open, add_session, start_held, finish_open,
  handle_tcp_conn,
}
use mqtt_forward.Session.{Session, new_tcp_session, set_on_close, start, close}
use mqtt_forward.Manager.Invariant.{
  IsWellFormed, added-IsWellFormed, add_cases, remove_session-IsWellFormed, put-IsWellFormed,
  get_cases,
}
use mqtt_forward.Device.Invariant.{deliver_data-IsWellFormed}
use mqtt_forward.Device.Handlers.{update_flow_control-id, touch-put-IsWellFormed}
use mqtt_forward.Reorder.{Select}
use mqtt_forward.Transport.{ControlMessage, PubMessage}
use mqtt_forward.Topic.{in_control_topic, in_data_topic, parse_topic}
use mqtt_forward.Manager.{Manager, remove_session}

abbrev pub IsSound : Client → Type 0
IsSound c = IsWellFormed c.manager

close_session-IsSound :
    (msg : ControlMessage) (c : Client) → IsSound c → IsSound (close_session msg c).0
unfolding close_session
close_session-IsSound msg c v = elim (get_cases msg.session_id c.manager) [
  | inl e ↦ rw (e, close_session) v
  | inr (s, e, g) ↦ elim (Bool-cases (close s).calls_hook) [
    | inl b ↦
        rw (g, close_session)
          (rw b (
            remove_session-IsWellFormed msg.session_id _
              (remove_session-IsWellFormed s.id c.manager v)))
    | inr b ↦ rw (g, close_session) (rw b (remove_session-IsWellFormed msg.session_id c.manager v))
  ]
]

handle_close-IsSound :
    (msg : ControlMessage) (c : Client) → IsSound c → IsSound (handle_close msg c).0
unfolding handle_close
handle_close-IsSound msg c v = elim (Option-cases (lookup msg.session_id c.close_chs)) [
  | inl e ↦ rw (e, handle_close) (close_session-IsSound msg c v)
  | inr (chan, e) ↦ rw (e, handle_close) v
]

handle_ack-IsSound :
    (now : ℕ) (msg : ControlMessage) (c : Client) → IsSound c → IsSound (handle_ack now msg c)
unfolding handle_ack
handle_ack-IsSound now msg c v = elim (get_cases msg.session_id c.manager) [
  | inl e ↦ rw (e, handle_ack) v
  | inr (s, e, g) ↦
      rw (g, handle_ack)
        (touch-put-IsWellFormed now msg.session_id s _ c.manager v e
          (update_flow_control-id msg.ack_bytes s))
]

dispatch-IsSound :
    (n : Notice) (now : ℕ) (msg : ControlMessage) (c : Client)
    → IsSound c
    → IsSound (dispatch n now msg c).0
unfolding dispatch
dispatch-IsSound answers now msg c v = v
dispatch-IsSound closings now msg c v = handle_close-IsSound msg c v
dispatch-IsSound acknowledgements now msg c v = handle_ack-IsSound now msg c v
dispatch-IsSound others now msg c v = v

pub handle_control-IsSound :
    (now : ℕ) (msg : Option ControlMessage) (c : Client)
    → IsSound c
    → IsSound (handle_control now msg c).0
unfolding handle_control
handle_control-IsSound now none c v = v
handle_control-IsSound now (some msg) c v = dispatch-IsSound (notice_of msg.type) now msg c v

pub handle_data-IsSound :
    (now : ℕ) (sel : Select) (topic payload : Text) (c : Client)
    → IsSound c
    → IsSound (handle_data now sel topic payload c)
unfolding handle_data
handle_data-IsSound now sel topic payload c v = elim (Result-cases (parse_topic topic)) [
  | inl (e, f) ↦ rw (f, handle_data) v
  | inr (p, f) ↦ elim (get_cases p.session_id c.manager) [
    | inl e ↦ rw (f, handle_data) (rw (e, handle_data) v)
    | inr (s, e, g) ↦
        rw (f, handle_data)
          (rw (g, handle_data)
            (deliver_data-IsWellFormed now sel p.session_id payload s c.manager v e))
  ]
]

wait_reply-IsSound :
    (id : Text) (msgs : List (ℕ × Option ControlMessage)) (end : OpenError) (c : Client)
    → IsSound c
    → IsSound (wait_reply id msgs end c).0
unfolding wait_reply
wait_reply-IsSound id [] end c v = v
wait_reply-IsSound id ((now, msg) ∷ msgs) end c v =
    let next = handle_control-IsSound now msg c v in
    let c' = (handle_control now msg c).0 in
    elim (Option-cases (received (lookup id c'.ack_chans))) [
      | inl e ↦ rw (e, wait_reply) (wait_reply-IsSound id msgs end c' next)
      | inr (m, e) ↦ rw (e, wait_reply) next
    ]

pub send_open-IsSound :
    (req : OpenRequest) (accepted : Bool) (msgs : List (ℕ × Option ControlMessage))
    (end : OpenError) (c : Client)
    → IsSound c
    → IsSound (send_open req accepted msgs end c).0
unfolding send_open
send_open-IsSound req true msgs end c v = wait_reply-IsSound req.session_id msgs end _ v
send_open-IsSound req false msgs end c v = v

pub add_session-IsSound :
    (now : ℕ) (s : Session) (c : Client) → IsSound c → IsSound (add_session now s c).0
unfolding add_session
add_session-IsSound now s c v = elim (add_cases now s c.manager) [
  | inl (t, _, e) ↦ rw (e, add_session) v
  | inr (_, e) ↦ rw (e, add_session) (added-IsWellFormed now s c.manager v)
]

start-id : (s : Session) → (start none none s).0.id ≡ s.id
unfolding start
start-id s = ground arith

pub start_held-IsSound : (id : Text) (c : Client) → IsSound c → IsSound (start_held id c)
unfolding start_held
start_held-IsSound id c v = elim (get_cases id c.manager) [
  | inl e ↦ rw (e, start_held) v
  | inr (s, e, g) ↦ rw (g, start_held) (put-IsWellFormed _ s c.manager (held id s e) v)
]
  where
    held :
        (id : Text) (s : Session)
        → lookup id c.manager.sessions ≡ some s
        → lookup (start none none s).0.id c.manager.sessions ≡ some s
    held id s e =
        subst (λ k. lookup k c.manager.sessions ≡ some s) (sym (start-id s ∙ v.own_id id s e)) e

pub removed-gone : (id : Text) (m : Manager) → lookup id (remove_session id m).sessions ≡ none
unfolding remove_session
removed-gone id m = ground (arith, lookup-delete id id m.sessions, text_eq_self id)

finish_open-IsSound :
    (id : Text) (c : Client) (out : List PubMessage) (answer : Result OpenError ControlMessage)
    → IsSound c
    → let r = finish_open id c out answer in
      IsSound r.0 × (r.2 ≡ false → lookup id r.0.manager.sessions ≡ none)
unfolding finish_open
finish_open-IsSound id c out (err e) v =
    (remove_session-IsWellFormed id c.manager v, λ h. removed-gone id c.manager)
finish_open-IsSound id c out (ok answer) v = elim (Bool-cases answer.success) [
  | inl agreed ↦ rw agreed (start_held-IsSound id c v, λ h. cc)
  | inr refused ↦
      rw refused (remove_session-IsWellFormed id c.manager v, λ h. removed-gone id c.manager)
]

-- A connection that is not served in the end leaves no session behind, and in any case the manager stays
-- well formed, whatever control messages are handled while the device is waited for. (The session id
-- is new: no session of the manager has it.)
pub handle_tcp_conn_lem :
    (now : ℕ) (id target : Text) (accepted : Bool) (msgs : List (ℕ × Option ControlMessage))
    (end : OpenError) (c : Client)
    → IsSound c
    → lookup id c.manager.sessions ≡ none
    → let r = handle_tcp_conn now id target accepted msgs end c in
      IsSound r.0 × (r.2 ≡ false → lookup id r.0.manager.sessions ≡ none)
unfolding handle_tcp_conn
handle_tcp_conn_lem now id target accepted msgs end c v new =
    let s =
      set_on_close
        (new_tcp_session id (in_control_topic c.device_id) (in_data_topic c.device_id id)) in
    elim (Bool-cases (add_session now s c).1) [
      | inr taken ↦ rw (taken, handle_tcp_conn) (v, λ h. new)
      | inl fresh ↦
          rw (fresh, handle_tcp_conn)
            (finish_open-IsSound id _ _ _
              (send_open-IsSound _ accepted msgs end _ (add_session-IsSound now s c v)))
    ]
