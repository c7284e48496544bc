-- ===== src/Device/Invariant.antt =====
-- Every handler of the device keeps its session manager well formed.
use mqtt_forward.Prelude.{
  Bool-cases, Text, lookup, Result, err, ok, ℕ, ◌≡◌, refl, sym, subst, inl, inr, Option, none, some,
  List, [], ◌∷◌, ◌++◌, arith,
}
use mqtt_forward.Session.{Session, close, handle_data}
use mqtt_forward.Session.Exec.{WaitResult, wait_for_exit}
use mqtt_forward.Manager.{Manager, stale_timeout, new_manager, close_all, closing_messages}
use mqtt_forward.Manager.Invariant.{
  IsWellFormed, new_manager-IsWellFormed, touch-IsWellFormed, remove_session-IsWellFormed,
  get_cases,
}
use mqtt_forward.Device.{Device, Environment, new_device, handle_resize, handle_ping, deliver_data}
use mqtt_forward.Device.Events.{
  Request, opens, closes, resizes, pings, acks, unknown, request_of, dispatch, handle_control,
  handle_data_message, close_all_sessions, run_stale_cleanup, DeviceEvent, control_arrives,
  data_arrives, connection_lost, cleanup_ticks, session_ends, end_of, end_session, device_step,
  device_run,
}
use mqtt_forward.Transport.{ControlMessage, PubMessage}
use mqtt_forward.Manager.Cleanup.{cleanup_stale-IsCleaned}
use mqtt_forward.Reorder.{Select}
use mqtt_forward.Frame.{FrameError, decode_data_frame}
use mqtt_forward.Topic.{ParsedTopic, TopicError, parse_topic}
use mqtt_forward.Device.Handlers.{
  IsSound, send_unknown_session_reject-manager, resize_shell-IsSound, handle_open-IsSound,
  handle_close-IsSound, put-IsWellFormed_of_id, touch-put-IsWellFormed, handle_ack-IsSound,
}

dispatch-IsSound :
    (r : Request) (env : Environment) (msg : ControlMessage) (d : Device)
    → IsSound d
    → IsSound (dispatch r env msg d).0
unfolding dispatch handle_resize handle_ping
dispatch-IsSound opens env msg d v = handle_open-IsSound env msg d v
dispatch-IsSound closes env msg d v = handle_close-IsSound msg d v
dispatch-IsSound resizes env msg d v = resize_shell-IsSound msg.session_id msg.cols msg.rows d v
dispatch-IsSound pings env msg d v = v
dispatch-IsSound acks env msg d v = handle_ack-IsSound env.now msg d v
dispatch-IsSound unknown env msg d v = v

handle_control-IsSound :
    (env : Environment) (msg : Option ControlMessage) (d : Device)
    → IsSound d
    → IsSound (handle_control env msg d).0
unfolding handle_control
handle_control-IsSound env none d v = v
handle_control-IsSound env (some msg) d v = dispatch-IsSound (request_of msg.type) env msg d v

handle_data-id :
    (sel : Select) (seq : ℕ) (p : Text) (s : Session) → (handle_data sel seq p s).id ≡ s.id
unfolding handle_data
handle_data-id sel seq p s = refl

pub deliver_data-IsWellFormed :
    (now : ℕ) (sel : Select) (id payload : Text) (s : Session) (m : Manager)
    → IsWellFormed m
    → lookup id m.sessions ≡ some s
    → IsWellFormed (deliver_data now sel id payload s m)
unfolding deliver_data
deliver_data-IsWellFormed now sel id payload s m v e = go (decode_data_frame payload) refl
  where
    go :
        (r : Result FrameError (ℕ × Text))
        → decode_data_frame payload ≡ r
        → IsWellFormed (deliver_data now sel id payload s m)
    go (err x) h = rw (h, deliver_data) (touch-IsWellFormed now id m v)
    go (ok (seq, p)) h =
        rw (h, deliver_data) (touch-put-IsWellFormed now id s _ m v e (handle_data-id sel seq p s))

handle_data_message-IsSound :
    (now : ℕ) (sel : Select) (topic payload : Text) (d : Device)
    → IsSound d
    → IsSound (handle_data_message now sel topic payload d).0
unfolding handle_data_message
handle_data_message-IsSound now sel topic payload d v = go (parse_topic topic) refl
  where
    go :
        (r : Result TopicError ParsedTopic)
        → parse_topic topic ≡ r
        → IsSound (handle_data_message now sel topic payload d).0
    go (err x) h = rw (h, handle_data_message) v
    go (ok p) h = elim (get_cases p.session_id d.manager) [
      | inl e ↦
          rw (h, handle_data_message)
            (rw (e, handle_data_message)
              (subst IsWellFormed (sym (send_unknown_session_reject-manager now p.session_id d)) v))
      | inr (s, e, g) ↦
          rw (h, handle_data_message)
            (rw (g, handle_data_message)
              (deliver_data-IsWellFormed now sel p.session_id payload s d.manager v e))
    ]

end_of-id : (result : WaitResult) (s : Session) → (end_of result s).session.id ≡ s.id
unfolding end_of close wait_for_exit
end_of-id result s = ground arith

end_session-IsSound :
    (id : Text) (result : WaitResult) (d : Device) → IsSound d → IsSound (end_session id result d).0
unfolding end_session
end_session-IsSound id result d v = elim (get_cases id d.manager) [
  | inl e ↦ rw (e, end_session) v
  | inr (s, e, g) ↦
      let own = v.own_id id s e in
      let held : lookup s.id d.manager.sessions ≡ some s =
        subst (λ k. lookup k d.manager.sessions ≡ some s) (sym own) e in
      elim (Bool-cases (end_of result s).calls_hook) [
        | inl b ↦ rw (g, end_session) (rw b (remove_session-IsWellFormed s.id d.manager v))
        | inr b ↦
            rw (g, end_session)
              (rw b (
                put-IsWellFormed_of_id (end_of result s).session s d.manager v held
                  (end_of-id result s)))
      ]
]

-- A step of a device whose session manager is well formed has a result, and its manager stays well formed.
pub device_step-IsSound :
    (e : DeviceEvent) (d : Device)
    → IsSound d
    → (r : Device × List PubMessage) × (device_step e d ≡ some r) × IsSound r.0
unfolding device_step
device_step-IsSound (control_arrives env msg) d v =
    (handle_control env msg d, refl, handle_control-IsSound env msg d v)
device_step-IsSound (data_arrives now sel topic payload) d v = (
  handle_data_message now sel topic payload d,
  refl,
  handle_data_message-IsSound now sel topic payload d v,
)
device_step-IsSound connection_lost d v = (
  close_all_sessions d,
  refl,
  unfold close_all_sessions close_all new_manager in new_manager-IsWellFormed,
)
device_step-IsSound (cleanup_ticks now) d v =
    let (r, e, c) = cleanup_stale-IsCleaned now stale_timeout d.manager v in
    (
      (record d { manager = r.0 }, closing_messages r.1),
      unfold run_stale_cleanup in rw (e, run_stale_cleanup),
      c.well_formed,
    )
device_step-IsSound (session_ends id result) d v =
    (end_session id result d, refl, end_session-IsSound id result d v)

pub run-IsSound :
    (es : List DeviceEvent) (d : Device)
    → IsSound d
    → (r : Device × List PubMessage) × (device_run es d ≡ some r) × IsSound r.0
unfolding device_run
run-IsSound [] d v = ((d, []), refl, v)
run-IsSound (e ∷ es) d v =
    let (r, step, v') = device_step-IsSound e d v in
    let (q, rest, v'') = run-IsSound es r.0 v' in
    ((q.0, r.1 ++ q.1), rw (step, device_run) (rw (rest, device_run)), v'')

-- A device that has just been made, and to which control and data messages come, sessions end by
-- themselves, the connection is lost and the cleanup has its turns, in any order: the cleanup finds a
-- session for every stale id (it would call a nil session otherwise, the one panic that is modelled), and
-- the session manager is well formed after all of it.
pub device_run-IsSound :
    (es : List DeviceEvent) (device_id version arch : Text)
    → (r : Device × List PubMessage) × (device_run es (new_device device_id version arch) ≡ some r)
      × IsSound r.0
unfolding new_device
device_run-IsSound es device_id version arch =
    run-IsSound es (new_device device_id version arch) new_manager-IsWellFormed
