-- ===== src/Client/Course.antt =====
-- The client's session manager in the course of its work: internal/client/client.go.
use mqtt_forward.Prelude.{
  Bool-cases, Text, lookup, ◌≡◌, refl, sym, subst, inl, inr, some, List, [], ◌∷◌, ◌++◌, arith,
}
use mqtt_forward.Session.{Session, close}
use mqtt_forward.Manager.{stale_timeout, new_manager, close_all, closing_messages}
use mqtt_forward.Manager.Invariant.{
  new_manager-IsWellFormed, remove_session-IsWellFormed, get_cases,
}
use mqtt_forward.Manager.Cleanup.{cleanup_stale-IsCleaned}
use mqtt_forward.Device.Handlers.{put-IsWellFormed_of_id}
use mqtt_forward.Transport.{PubMessage}
use mqtt_forward.Client.{
  Client, new_client, handle_control, handle_data, close_all_sessions, run_stale_cleanup,
}
use mqtt_forward.Client.Connecting.{add_session, start_held}
use mqtt_forward.Client.Exec.{register_close_ch, unregister_close_ch}
use mqtt_forward.Client.Events.{
  await_reply, end_reply, close_held, remove_held, ClientEvent, control_comes, data_comes,
  session_added, reply_awaited, reply_over, close_awaited, close_over, session_started,
  session_closed, session_removed, all_close, cleanup_due, client_step, client_run,
}
use mqtt_forward.Client.Invariant.{
  IsSound, handle_control-IsSound, handle_data-IsSound, add_session-IsSound, start_held-IsSound,
}

close-id : (s : Session) → (close s).session.id ≡ s.id
unfolding close
close-id s = ground arith

close_held-IsSound : (id : Text) (c : Client) → IsSound c → IsSound (close_held id c).0
unfolding close_held
close_held-IsSound id c v = elim (get_cases id c.manager) [
  | inl e ↦ rw (e, close_held) v
  | inr (s, e, g) ↦
      let held : lookup s.id c.manager.sessions ≡ some s =
        subst (λ k. lookup k c.manager.sessions ≡ some s) (sym (v.own_id id s e)) e in
      elim (Bool-cases (close s).calls_hook) [
        | inl b ↦ rw (g, close_held) (rw b (remove_session-IsWellFormed s.id c.manager v))
        | inr b ↦
            rw (g, close_held)
              (rw b (put-IsWellFormed_of_id (close s).session s c.manager v held (close-id s)))
      ]
]

client_step-IsSound :
    (e : ClientEvent) (c : Client)
    → IsSound c
    → (r : Client × List PubMessage) × (client_step e c ≡ some r) × IsSound r.0
unfolding client_step await_reply end_reply register_close_ch unregister_close_ch remove_held
client_step-IsSound (control_comes now msg) c v =
    (handle_control now msg c, refl, handle_control-IsSound now msg c v)
client_step-IsSound (data_comes now sel topic payload) c v =
    ((handle_data now sel topic payload c, []), refl, handle_data-IsSound now sel topic payload c v)
client_step-IsSound (session_added now s) c v =
    (((add_session now s c).0, []), refl, add_session-IsSound now s c v)
client_step-IsSound (reply_awaited id) c v = ((await_reply id c, []), refl, v)
client_step-IsSound (reply_over id) c v = ((end_reply id c, []), refl, v)
client_step-IsSound (close_awaited id) c v = ((register_close_ch id c, []), refl, v)
client_step-IsSound (close_over id) c v = ((unregister_close_ch id c, []), refl, v)
client_step-IsSound (session_started id) c v =
    ((start_held id c, []), refl, start_held-IsSound id c v)
client_step-IsSound (session_closed id) c v = (close_held id c, refl, close_held-IsSound id c v)
client_step-IsSound (session_removed id) c v =
    ((remove_held id c, []), refl, remove_session-IsWellFormed id c.manager v)
client_step-IsSound all_close c v = (
  close_all_sessions c,
  refl,
  unfold close_all_sessions close_all new_manager in new_manager-IsWellFormed,
)
client_step-IsSound (cleanup_due now) c v =
    let (r, e, cleaned) = cleanup_stale-IsCleaned now stale_timeout c.manager v in
    (
      (record c { manager = r.0 }, closing_messages r.1),
      unfold run_stale_cleanup in rw (e, run_stale_cleanup),
      cleaned.well_formed,
    )

run-IsSound :
    (es : List ClientEvent) (c : Client)
    → IsSound c
    → (r : Client × List PubMessage) × (client_run es c ≡ some r) × IsSound r.0
unfolding client_run
run-IsSound [] c v = ((c, []), refl, v)
run-IsSound (e ∷ es) c v =
    let (r, step, v') = client_step-IsSound e c v in
    let (q, rest, v'') = run-IsSound es r.0 v' in
    ((q.0, r.1 ++ q.1), rw (step, client_run) (rw (rest, client_run)), v'')

-- A client that has just been made, and to which control and data messages come, sessions of any kind are
-- added, started, closed and taken out, answers and close messages are waited for, all sessions are
-- closed and the cleanup has its turns, step by step in any order: the cleanup finds a session for every
-- stale id (it would call a nil session otherwise, the one panic that is modelled), and the session manager
-- is well formed after all of it.
pub client_run-IsSound :
    (es : List ClientEvent) (device_id : Text)
    → (r : Client × List PubMessage) × (client_run es (new_client device_id) ≡ some r) × IsSound r.0
unfolding new_client
client_run-IsSound es device_id = run-IsSound es (new_client device_id) new_manager-IsWellFormed
