-- ===== src/Device/Open.antt =====
-- The outcomes of an open request.
use mqtt_forward.Prelude.{
  ltb, if◌then◌else◌, Bool-cases, Option-cases, Text, text_eq, text_eq_iff, lookup, insert,
  lookup-insert, lookup-delete, Result, ok, err, ℕ, ◌≡◌, refl, ◌∙◌, subst, ◌≢◌, ◌⊎◌, inl, inr, true,
  false, ◌&&◌, Option, none, some, List, [], ◌∷◌, arith,
}
use mqtt_forward.Session.{
  Session, new_tcp_session, new_exec_session, new_shell_session, mode, set_on_close, start,
  is_shell, resize,
}
use mqtt_forward.Manager.{Manager, get, remove_session, put}
use mqtt_forward.Manager.Invariant.{added, add_cases}
use mqtt_forward.Device.{
  Device, Environment, open_ack_message, session_exists_text, make_session, resize_shell,
  deadline_of, start_session, handle_open,
}
use mqtt_forward.Transport.SessionMode
use mqtt_forward.Transport.{ControlMessage, PubMessage}

-- What `Start` gives for the session, with its hook set.
abbrev pub starting : Environment → ControlMessage → Session → Session × Option Text
starting env msg s = start env.pty (deadline_of env.now msg) (set_on_close s)

-- The device with the started session, of the size that the request gives to a shell.
abbrev pub opened : Environment → ControlMessage → Session → Device → Device
opened env msg s d =
    let d' = record d { manager = put (starting env msg s).0 d.manager } in
    if text_eq msg.mode SessionMode.shell && ltb 0 msg.cols && ltb 0 msg.rows
    then resize_shell msg.session_id msg.cols msg.rows d'
    else d'

pub start_session_cases :
    (env : Environment) (msg : ControlMessage) (s : Session) (d : Device)
    → ((e : Text) × ((starting env msg s).1 ≡ some e)
        × (start_session env msg s d ≡ (
          record d { manager = remove_session msg.session_id d.manager },
          open_ack_message d.device_id msg.session_id false e ∷ [],
        )))
      ⊎ (((starting env msg s).1 ≡ none)
          × (start_session env msg s d
              ≡ (opened env msg s d, open_ack_message d.device_id msg.session_id true [] ∷ [])))
unfolding start_session
start_session_cases env msg s d = elim (Option-cases (starting env msg s).1) [
  | inl h ↦ inr (h, rw (h, start_session))
  | inr (e, h) ↦ inl (e, h, rw (h, start_session))
]

-- The ways in which an open request ends.
pub data Opening (env : Environment) (msg : ControlMessage) (d : Device) : Type 0 where
  -- No session is made: the mode is unknown, or the target cannot be dialled.
  refused :
      (e : Text)
      → make_session env msg d ≡ err e
      → handle_open env msg d ≡ (d, open_ack_message d.device_id msg.session_id false e ∷ [])
      → Opening env msg d
  -- The id is taken.
  taken :
      (s t : Session)
      → make_session env msg d ≡ ok s
      → lookup s.id d.manager.sessions ≡ some t
      → handle_open env msg d
        ≡ (d, open_ack_message d.device_id msg.session_id false session_exists_text ∷ [])
      → Opening env msg d
  -- The session goes on to be started.
  starts :
      (s : Session)
      → make_session env msg d ≡ ok s
      → lookup s.id d.manager.sessions ≡ none
      → handle_open env msg d
        ≡ start_session env msg s (record d { manager = added env.now s d.manager })
      → Opening env msg d

pub handle_open_cases : (env : Environment) (msg : ControlMessage) (d : Device) → Opening env msg d
unfolding handle_open
handle_open_cases env msg d = go (make_session env msg d) refl
  where
    go : (r : Result Text Session) → make_session env msg d ≡ r → Opening env msg d
    go (err e) h = refused e h (rw (h, handle_open))
    go (ok s) h = elim (add_cases env.now s d.manager) [
      | inl (t, e, f) ↦ taken s t h e (rw (h, handle_open) (rw (f, handle_open)))
      | inr (e, f) ↦ starts s h e (rw (h, handle_open) (rw (f, handle_open)))
    ]

-- The session that a successful open request leaves: under the id that was asked for, of the mode
-- that was asked for, started, not closed, and with the hook that takes it out when it closes.
abbrev pub IsServing : ControlMessage → Session → Type 0
IsServing msg s =
    (s.id ≡ msg.session_id)
    × (mode s ≡ msg.mode)
    × (s.started ≡ true)
    × (s.closed ≡ false)
    × (s.has_hook ≡ true)

-- The sessions of the device but for one id.
abbrev SameOthers : Text → Device → Device → Type 0
SameOthers id d d' =
    (k : Text) → k ≢ id → lookup k d'.manager.sessions ≡ lookup k d.manager.sessions

-- What an open request does. It is answered by one message: a refusal, with the sessions as they were,
-- or an acknowledgement, with one more session, which is served, under an id that was free.
abbrev pub IsAnswered : ControlMessage → Device → Device × List PubMessage → Type 0
IsAnswered msg d (d', out) =
    ((e : Text) × (out ≡ open_ack_message d.device_id msg.session_id false e ∷ [])
      × ((k : Text) → lookup k d'.manager.sessions ≡ lookup k d.manager.sessions))
    ⊎ ((s : Session) × (out ≡ open_ack_message d.device_id msg.session_id true [] ∷ [])
        × (lookup msg.session_id d.manager.sessions ≡ none)
        × (lookup msg.session_id d'.manager.sessions ≡ some s)
        × IsServing msg s
        × SameOthers msg.session_id d d')

make_session_lem :
    (env : Environment) (msg : ControlMessage) (d : Device) (s : Session)
    → make_session env msg d ≡ ok s
    → (s.id ≡ msg.session_id) × (mode s ≡ msg.mode) × (s.closed ≡ false)
unfolding make_session new_tcp_session new_exec_session new_shell_session mode
make_session_lem env msg d s h = ground (
  arith,
  text_eq_iff msg.mode SessionMode.tcp,
  text_eq_iff msg.mode SessionMode.exec,
  text_eq_iff msg.mode SessionMode.shell,
)

starting_lem :
    (env : Environment) (msg : ControlMessage) (s : Session)
    → let t = (starting env msg s).0 in
      (t.id ≡ s.id)
      × (mode t ≡ mode s)
      × (t.started ≡ true)
      × (t.closed ≡ s.closed)
      × (t.has_hook ≡ true)
unfolding start set_on_close mode
starting_lem env msg s = ground arith

resize-IsServing :
    (cols rows : ℕ) (msg : ControlMessage) (s : Session)
    → IsServing msg s
    → IsServing msg (resize cols rows s)
unfolding resize mode
resize-IsServing cols rows msg s v = ground arith

-- The id has a session that is served, and the other sessions are as before.
abbrev Serves : ControlMessage → Device → Device → Type 0
Serves msg d d' =
    ((s : Session) × (lookup msg.session_id d'.manager.sessions ≡ some s) × IsServing msg s)
    × SameOthers msg.session_id d d'

-- A session put in the place of the one that is held.
put-Serves :
    (msg : ControlMessage) (s : Session) (d : Device)
    → IsServing msg s
    → Serves msg d (record d { manager = put s d.manager })
unfolding put
put-Serves msg s d v = (
  (
    s,
    ground (
      arith,
      lookup-insert s.id msg.session_id s d.manager.sessions,
      text_eq_iff s.id msg.session_id,
    ),
    v,
  ),
  λ k other. ground (arith, lookup-insert s.id k s d.manager.sessions, text_eq_iff s.id k),
)

resize_shell-Serves :
    (msg : ControlMessage) (d d' : Device)
    → Serves msg d d'
    → Serves msg d (resize_shell msg.session_id msg.cols msg.rows d')
unfolding resize_shell
resize_shell-Serves msg d d' ((s, held, v), same) =
    let found : get msg.session_id d'.manager ≡ ok s = unfold get in rw (held, get) in
    rw (found, resize_shell)
      (elim (Bool-cases (is_shell s.kind)) [
        | inr b ↦ rw b ((s, held, v), same)
        | inl b ↦
            let (t, others) =
              put-Serves msg (resize msg.cols msg.rows s) d'
                (resize-IsServing msg.cols msg.rows msg s v) in
            rw b (t, λ k other. others k other ∙ same k other)
      ])

opened-Serves :
    (env : Environment) (msg : ControlMessage) (s : Session) (d : Device)
    → IsServing msg (starting env msg s).0
    → Serves msg d (opened env msg s d)
opened-Serves env msg s d v =
    elim (Bool-cases (text_eq msg.mode SessionMode.shell && ltb 0 msg.cols && ltb 0 msg.rows)) [
      | inl b ↦ rw b (resize_shell-Serves msg d _ (put-Serves msg (starting env msg s).0 d v))
      | inr b ↦ rw b (put-Serves msg (starting env msg s).0 d v)
    ]

-- A session that was added and taken out again.
undone-sessions :
    (now : ℕ) (id : Text) (s : Session) (m : Manager) (k : Text)
    → s.id ≡ id
    → lookup s.id m.sessions ≡ none
    → lookup k (remove_session id (added now s m)).sessions ≡ lookup k m.sessions
unfolding remove_session
undone-sessions now id s m k named free = ground (
  arith,
  lookup-delete id k (insert s.id s m.sessions),
  lookup-insert s.id k s m.sessions,
  text_eq_iff id k,
  text_eq_iff s.id k,
)

added-other :
    (id : Text) (s : Session) (m : Manager) (k : Text)
    → s.id ≡ id
    → k ≢ id
    → lookup k (insert s.id s m.sessions) ≡ lookup k m.sessions
added-other id s m k named other =
    ground (arith, lookup-insert s.id k s m.sessions, text_eq_iff s.id k)

-- Every open request is answered by exactly one acknowledgement, which tells what happened: a
-- refusal leaves the sessions as they were, also when the session was added and failed to start; a
-- success leaves one more session, served under an id that was free, and no other changed.
pub handle_open-IsAnswered :
    (env : Environment) (msg : ControlMessage) (d : Device)
    → IsAnswered msg d (handle_open env msg d)
handle_open-IsAnswered env msg d = elim (handle_open_cases env msg d) [
  | refused e _ r ↦ rw r (inl (e, refl, λ k. refl))
  | taken s t _ _ r ↦ rw r (inl (session_exists_text, refl, λ k. refl))
  | starts s made free r ↦
      let (id, mode_of, closed) = make_session_lem env msg d s made in
      let (id', mode', started, closed', hook) = starting_lem env msg s in
      let d' = record d { manager = added env.now s d.manager } in
      elim (start_session_cases env msg s d') [
        | inl (e, _, f) ↦
            rw (r ∙ f)
              (inl (e, refl, λ k. undone-sessions env.now msg.session_id s d.manager k id free))
        | inr (_, f) ↦
            let v : IsServing msg (starting env msg s).0 =
              (id' ∙ id, mode' ∙ mode_of, started, closed' ∙ closed, hook) in
            let ((t, held, w), same) = opened-Serves env msg s d' v in
            rw (r ∙ f) (
              inr (
                t,
                refl,
                subst (λ k. lookup k d.manager.sessions ≡ none) id free,
                held,
                w,
                λ k other. same k other ∙ added-other msg.session_id s d.manager k id other,
              ))
      ]
]
