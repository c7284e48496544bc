-- ===== src/Client/Opening.antt =====
-- The answer that `sendOpen` waits for.
use mqtt_forward.Prelude.{
  if◌then◌else◌, Bool-cases, Option-cases, Text, text_eq, text_eq_self, text_eq_iff, Dict, lookup,
  insert, delete, lookup-insert, lookup-delete, Result, err, ok, ℕ, ◌≡◌, refl, ◌∙◌, inl, inr, Bool,
  true, false, ◌&&◌, ◌||◌, Option, none, some, List, [], ◌∷◌, arith,
}
use mqtt_forward.Client.{
  Client, offer, post, close_session, handle_close, handle_ack, notice_of, dispatch, handle_control,
}
use mqtt_forward.Client.Connecting.{OpenRequest, OpenError, not_published, wait_reply, send_open}
use mqtt_forward.Transport.{ControlMessage}
use mqtt_forward.Transport.MessageType

-- A message that `handleControl` takes for an answer, for the session.
abbrev pub answers_to : Text → ControlMessage → Bool
answers_to id msg =
    (text_eq msg.type MessageType.open_ack || text_eq msg.type MessageType.pong)
    && text_eq msg.session_id id

abbrev pub first_answer : Text → List (ℕ × Option ControlMessage) → Option ControlMessage
first_answer id [] = none
first_answer id ((_, none) ∷ msgs) = first_answer id msgs
first_answer id ((_, some msg) ∷ msgs) =
    if answers_to id msg then some msg else first_answer id msgs

abbrev pub answer_or : OpenError → Option ControlMessage → Result OpenError ControlMessage
answer_or end none = err end
answer_or end (some msg) = ok msg

post-empty :
    (msg : ControlMessage) (id : Text) (chans : Dict (Option ControlMessage))
    → lookup id chans ≡ some none
    → lookup id (post msg chans)
      ≡ (if text_eq msg.session_id id then some (some msg) else some none)
unfolding post
post-empty msg id chans h = elim (Option-cases (lookup msg.session_id chans)) [
  | inl e ↦ rw (e, post) (ground (arith, text_eq_iff msg.session_id id))
  | inr (chan, e) ↦
      rw (e, post)
        (ground (
          arith,
          text_eq_iff msg.session_id id,
          lookup-insert msg.session_id id (offer msg chan) chans,
        ))
]

close_session-ack_chans :
    (msg : ControlMessage) (c : Client) → (close_session msg c).0.ack_chans ≡ c.ack_chans
unfolding close_session
close_session-ack_chans msg c = ground arith

handle_close-ack_chans :
    (msg : ControlMessage) (c : Client) → (handle_close msg c).0.ack_chans ≡ c.ack_chans
unfolding handle_close
handle_close-ack_chans msg c = ground (arith, close_session-ack_chans msg c)

handle_ack-ack_chans :
    (now : ℕ) (msg : ControlMessage) (c : Client) → (handle_ack now msg c).ack_chans ≡ c.ack_chans
unfolding handle_ack
handle_ack-ack_chans now msg c = ground arith

-- The channel of a session that waits, after one message.
handle_control-empty :
    (now : ℕ) (msg : ControlMessage) (id : Text) (c : Client)
    → lookup id c.ack_chans ≡ some none
    → lookup id (handle_control now (some msg) c).0.ack_chans
      ≡ (if answers_to id msg then some (some msg) else some none)
unfolding handle_control notice_of dispatch
handle_control-empty now msg id c h = ground (
  arith,
  post-empty msg id c.ack_chans h,
  handle_close-ack_chans msg c,
  handle_ack-ack_chans now msg c,
)

wait_reply_next :
    (id : Text) (now : ℕ) (msg : Option ControlMessage) (msgs : List (ℕ × Option ControlMessage))
    (end : OpenError) (c : Client)
    → lookup id (handle_control now msg c).0.ack_chans ≡ some none
    → (wait_reply id ((now, msg) ∷ msgs) end c).2
      ≡ (wait_reply id msgs end (handle_control now msg c).0).2
unfolding wait_reply
wait_reply_next id now msg msgs end c h = rw (h, wait_reply)

wait_reply_lem :
    (id : Text) (msgs : List (ℕ × Option ControlMessage)) (end : OpenError) (c : Client)
    → lookup id c.ack_chans ≡ some none
    → (wait_reply id msgs end c).2 ≡ answer_or end (first_answer id msgs)
unfolding handle_control
wait_reply_lem id [] end c h = unfold wait_reply in refl
wait_reply_lem id ((now, none) ∷ msgs) end c h =
    wait_reply_next id now none msgs end c h ∙ wait_reply_lem id msgs end c h
wait_reply_lem id ((now, some msg) ∷ msgs) end c h =
    let e = handle_control-empty now msg id c h in
    elim (Bool-cases (answers_to id msg)) [
      | inl ours ↦ let held = rw ours at e in rw ours (unfold wait_reply in rw (held, wait_reply))
      | inr other ↦
          let empty = rw other at e in
          rw other (
            wait_reply_next id now (some msg) msgs end c empty
            ∙ wait_reply_lem id msgs end (handle_control now (some msg) c).0 empty)
    ]

-- Opening a session returns the first open acknowledgement or pong for the session among the messages
-- that are handled while it waits, whatever else is handled before and between; without one it returns
-- why the wait ended. Afterwards no channel waits for the session any more.
pub send_open_lem :
    (req : OpenRequest) (accepted : Bool) (msgs : List (ℕ × Option ControlMessage))
    (end : OpenError) (c : Client)
    → let r = send_open req accepted msgs end c in
      (r.2 ≡ (
        if accepted then answer_or end (first_answer req.session_id msgs) else err not_published))
      × (lookup req.session_id r.0.ack_chans ≡ none)
unfolding send_open
send_open_lem req true msgs end c =
    let id = req.session_id in
    let waiting = record c { ack_chans = insert id none c.ack_chans } in
    let empty : lookup id (insert id none c.ack_chans) ≡ some none =
      ground (arith, lookup-insert id id none c.ack_chans, text_eq_self id) in
    (wait_reply_lem id msgs end waiting empty, gone id (wait_reply id msgs end waiting).0.ack_chans)
  where
    gone : (id : Text) (chans : Dict (Option ControlMessage)) → lookup id (delete id chans) ≡ none
    gone id chans = ground (arith, lookup-delete id id chans, text_eq_self id)
send_open_lem req false msgs end c =
    let id = req.session_id in
    let chans = insert id none c.ack_chans in
    (refl, ground (arith, lookup-delete id id chans, text_eq_self id))
