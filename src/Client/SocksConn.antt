-- ===== src/Client/SocksConn.antt =====
-- internal/client/client.go: `handleSOCKS5Conn`, a SOCKS5 connection that is served by a device.
use mqtt_forward.Prelude.{
  if◌then◌else◌, Bool-cases, Text, lookup, Result, err, ok, Result-cases, pos, ℕ, ◌≡◌, refl, ap,
  ◌∙◌, inl, inr, Bool, true, false, Option, none, List, [], ◌∷◌, ◌++◌, arith,
}
use mqtt_forward.Client.{Client}
use mqtt_forward.Client.Connecting.{
  OpenRequest, OpenError, not_published, send_open, add_session, start_held,
}
use mqtt_forward.Client.Invariant.{
  IsSound, send_open-IsSound, add_session-IsSound, start_held-IsSound, removed-gone,
}
use mqtt_forward.Socks.{
  version_5, auth_none, reply_general_failure, reply_connection_refused, send_failure, send_success,
  handshake,
}
use mqtt_forward.Manager.Invariant.{added, add_cases, remove_session-IsWellFormed}
use mqtt_forward.Transport.SessionMode
use mqtt_forward.Transport.{ControlMessage, PubMessage}
use mqtt_forward.Manager.{remove_session}
use mqtt_forward.Session.{Session, new_tcp_session, set_on_close}
use mqtt_forward.Topic.{in_control_topic, in_data_topic}
use mqtt_forward.Client.Opening.{first_answer, answer_or, send_open_lem}
use mqtt_forward.Socks.Accepts.{handshake_sound}

-- What the client asks a device for.
abbrev pub tcp_request : Text → Text → OpenRequest
tcp_request session_id target = record {
  session_id = session_id;
  mode = SessionMode.tcp;
  target = target;
  command = [];
  cols = 0;
  rows = 0;
  timeout = pos 0;
}

-- The reply that stands for the device's answer.
abbrev pub reply_for : Result OpenError ControlMessage → Text
reply_for (err _) = send_failure reply_general_failure
reply_for (ok answer) =
    if answer.success then send_success else send_failure reply_connection_refused

-- The client, the messages that it publishes, what is written to the connection, and whether a session
-- is served.
abbrev pub Served : Type 0
Served = Client × List PubMessage × Text × Bool

-- From the answer on. `replies` tells whether the connection takes the success; the error of writing a
-- failure is not looked at.
unfoldable pub answer_conn :
    Text → Bool → Text → Client → List PubMessage → Result OpenError ControlMessage → Served
answer_conn session_id replies said c out (err e) = (
  record c { manager = remove_session session_id c.manager },
  out,
  said ++ reply_for (err e),
  false,
)
answer_conn session_id replies said c out (ok answer) =
    if answer.success
    then (if replies
        then (start_held session_id c, out, said ++ send_success, true)
        else (record c { manager = remove_session session_id c.manager }, out, said, false))
    else (
      record c { manager = remove_session session_id c.manager },
      out,
      said ++ reply_for (ok answer),
      false,
    )

-- After the handshake, for its target.
unfoldable pub serve_target :
    ℕ
    → Text
    → Text
    → Bool
    → Bool
    → List (ℕ × Option ControlMessage)
    → OpenError
    → Text
    → Client
    → Served
unfolding answer_conn
serve_target now session_id target accepted replies msgs end said c =
    let s = set_on_close (
      new_tcp_session session_id (in_control_topic c.device_id)
        (in_data_topic c.device_id session_id)) in
    let (added, fresh) = add_session now s c in
    let (c', out, answer) = send_open (tcp_request session_id target) accepted msgs end added in
    if fresh
    then answer_conn session_id replies said c' out answer
    else (c, [], said ++ send_failure reply_general_failure, false)

unfoldable pub handle_socks5_conn :
    ℕ
    → Text
    → Bool
    → Text
    → Bool
    → Bool
    → List (ℕ × Option ControlMessage)
    → OpenError
    → Client
    → Served
unfolding serve_target
handle_socks5_conn now session_id writes input accepted replies msgs end c =
    let (said, result) = handshake writes input in
    elim result [
      | err _ ↦ (c, [], said, false)
      | ok (target, _) ↦ serve_target now session_id target accepted replies msgs end said c
    ]

answer_conn-IsSound :
    (id : Text) (replies : Bool) (said : Text) (c : Client) (out : List PubMessage)
    (answer : Result OpenError ControlMessage)
    → IsSound c
    → let r = answer_conn id replies said c out answer in
      IsSound r.0 × (r.3 ≡ false → lookup id r.0.manager.sessions ≡ none)
unfolding answer_conn
answer_conn-IsSound id replies said c out (err e) v =
    (remove_session-IsWellFormed id c.manager v, λ h. removed-gone id c.manager)
answer_conn-IsSound id true said c out (ok answer) v = elim (Bool-cases answer.success) [
  | inl agreed ↦ rw agreed (start_held-IsSound id c v, λ h. cc)
  | inr refused ↦
      rw refused (remove_session-IsWellFormed id c.manager v, λ h. removed-gone id c.manager)
]
answer_conn-IsSound id false said c out (ok answer) v = elim (Bool-cases answer.success) [
  | inl agreed ↦
      rw agreed (remove_session-IsWellFormed id c.manager v, λ h. removed-gone id c.manager)
  | inr refused ↦
      rw refused (remove_session-IsWellFormed id c.manager v, λ h. removed-gone id c.manager)
]

answer_conn-reply :
    (id said : Text) (c : Client) (out : List PubMessage) (answer : Result OpenError ControlMessage)
    → ((answer_conn id true said c out answer).2 ≡ said ++ reply_for answer)
unfolding answer_conn
answer_conn-reply id said c out (err e) = refl
answer_conn-reply id said c out (ok answer) = ground arith

add_session-fresh :
    (now : ℕ) (s : Session) (c : Client)
    → lookup s.id c.manager.sessions ≡ none
    → (add_session now s c).1 ≡ true
unfolding add_session
add_session-fresh now s c new = elim (add_cases now s c.manager) [
  | inl (t, held, _) ↦ absurd cc
  | inr (_, e) ↦ rw (e, add_session)
]

-- The answer of a device, among the messages that are handled while it is waited for.
abbrev pub device_answer :
    Text → Bool → List (ℕ × Option ControlMessage) → OpenError → Result OpenError ControlMessage
device_answer id accepted msgs end =
    if accepted then answer_or end (first_answer id msgs) else err not_published

module _ (now : ℕ) (id target said : Text) (accepted : Bool)
    (msgs : List (ℕ × Option ControlMessage)) (end : OpenError) (c : Client) (v : IsSound c)
    (new : lookup id c.manager.sessions ≡ none) where
  abbrev session : Session
  session =
      set_on_close
        (new_tcp_session id (in_control_topic c.device_id) (in_data_topic c.device_id id))

  abbrev asked : Client × List PubMessage × Result OpenError ControlMessage
  asked = send_open (tcp_request id target) accepted msgs end (add_session now session c).0

  serve_target-answer_conn :
      (replies : Bool)
      → serve_target now id target accepted replies msgs end said c
        ≡ answer_conn id replies said asked.0 asked.1 asked.2
  unfolding serve_target set_on_close new_tcp_session
  serve_target-answer_conn replies = rw (add_session-fresh now session c new, serve_target)

  serve_target-IsSound :
      (replies : Bool)
      → let r = serve_target now id target accepted replies msgs end said c in
        IsSound r.0 × (r.3 ≡ false → lookup id r.0.manager.sessions ≡ none)
  serve_target-IsSound replies = rw (serve_target-answer_conn replies) (
      answer_conn-IsSound id replies said asked.0 asked.1 asked.2 (
        send_open-IsSound (tcp_request id target) accepted msgs end _
          (add_session-IsSound now session c v)))

  serve_target-reply :
      (serve_target now id target accepted true msgs end said c).2
      ≡ said ++ reply_for (device_answer id accepted msgs end)
  serve_target-reply =
      ap (λ r. r.2) (serve_target-answer_conn true)
      ∙ answer_conn-reply id said asked.0 asked.1 asked.2
      ∙ ap (λ a. said ++ reply_for a)
          (send_open_lem (tcp_request id target) accepted msgs end (add_session now session c).0).0

-- A SOCKS5 connection, whatever it sends and whatever control messages are handled meanwhile: the
-- session manager stays well formed, and a connection that is not served in the end leaves no session
-- behind. Where the handshake gives a target, the connection is told what the device answered: a
-- success, a refusal, or a general failure when no answer came. (The session id is new, and the
-- connection takes what is written to it.)
pub handle_socks5_conn_lem :
    (now : ℕ) (id : Text) (input : Text) (accepted : Bool) (msgs : List (ℕ × Option ControlMessage))
    (end : OpenError) (c : Client)
    → IsSound c
    → lookup id c.manager.sessions ≡ none
    → let r = handle_socks5_conn now id true input accepted true msgs end c in
      IsSound r.0
      × (r.3 ≡ false → lookup id r.0.manager.sessions ≡ none)
      × ((target rest : Text)
          → (handshake true input).1 ≡ ok (target, rest)
          → r.2 ≡ (version_5 ∷ auth_none ∷ []) ++ reply_for (device_answer id accepted msgs end))
unfolding handle_socks5_conn
handle_socks5_conn_lem now id input accepted msgs end c v new =
    elim (Result-cases (handshake true input).1) [
      | inl (e, f) ↦ rw (f, handle_socks5_conn) (v, λ h. new, λ target rest g. absurd cc)
      | inr ((target, rest), f) ↦
          let said = (handshake true input).0 in
          let (sound, gone) =
            serve_target-IsSound now id target said accepted msgs end c v new true in
          rw (f, handle_socks5_conn)
            (
              sound,
              gone,
              λ t r g.
                  serve_target-reply now id target said accepted msgs end c v new
                  ∙ ap (λ s. s ++ reply_for (device_answer id accepted msgs end))
                      (handshake_sound true input target rest f).0,
            )
    ]
