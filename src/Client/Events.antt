-- ===== src/Client/Events.antt =====
-- internal/client/client.go and client_shell.go: what happens to a client, in steps between which others
-- may come. The opening of a session, of a connection, of SOCKS5, a command or a shell, is the steps that
-- `handleTCPConn`, `handleSOCKS5Conn`, `RunExec` and `RunShell` make of it.
use mqtt_forward.Prelude.{
  if◌then◌else◌, Text, insert, delete, ok, err, ℕ, Option, none, some, List, [], ◌∷◌, ◌++◌,
}
use mqtt_forward.Reorder.{Select}
use mqtt_forward.Session.{Session, close}
use mqtt_forward.Manager.{get, put, remove_session}
use mqtt_forward.Transport.{ControlMessage, PubMessage}
use mqtt_forward.Client.{Client, handle_control, handle_data, close_all_sessions, run_stale_cleanup}
use mqtt_forward.Client.Connecting.{add_session, start_held}
use mqtt_forward.Client.Exec.{register_close_ch, unregister_close_ch}

-- The channel for the answer to an open request or a ping, while the call lasts.
unfoldable pub await_reply : Text → Client → Client
await_reply session_id c = record c { ack_chans = insert session_id none c.ack_chans }

unfoldable pub end_reply : Text → Client → Client
end_reply session_id c = record c { ack_chans = delete session_id c.ack_chans }

-- `sess.Close()`, of a session that has come to its end, that the keepalive gives up, or that a call
-- leaves; its hook is `Remove`.
unfoldable pub close_held : Text → Client → Client × List PubMessage
unfolding remove_session
close_held session_id c = elim (get session_id c.manager) [
  | err _ ↦ (c, [])
  | ok s ↦
      let closing = close s in
      (
        record c {
          manager =
              if closing.calls_hook
              then remove_session s.id c.manager
              else put closing.session c.manager;
        },
        closing.messages,
      )
]

unfoldable pub remove_held : Text → Client → Client
remove_held session_id c = record c { manager = remove_session session_id c.manager }

-- What may happen to a client, in any order.
pub data ClientEvent : Type 0 where
  control_comes : ℕ → Option ControlMessage → ClientEvent
  data_comes : ℕ → Select → Text → Text → ClientEvent
  session_added : ℕ → Session → ClientEvent
  reply_awaited reply_over : Text → ClientEvent
  close_awaited close_over : Text → ClientEvent
  session_started session_closed session_removed : Text → ClientEvent
  all_close : ClientEvent
  cleanup_due : ℕ → ClientEvent

-- One step, with what is published; `none` is a panic.
unfoldable pub client_step : ClientEvent → Client → Option (Client × List PubMessage)
client_step (control_comes now msg) c = some (handle_control now msg c)
client_step (data_comes now sel topic payload) c = some (handle_data now sel topic payload c, [])
client_step (session_added now s) c = some ((add_session now s c).0, [])
client_step (reply_awaited session_id) c = some (await_reply session_id c, [])
client_step (reply_over session_id) c = some (end_reply session_id c, [])
client_step (close_awaited session_id) c = some (register_close_ch session_id c, [])
client_step (close_over session_id) c = some (unregister_close_ch session_id c, [])
client_step (session_started session_id) c = some (start_held session_id c, [])
client_step (session_closed session_id) c = some (close_held session_id c)
client_step (session_removed session_id) c = some (remove_held session_id c, [])
client_step all_close c = some (close_all_sessions c)
client_step (cleanup_due now) c = run_stale_cleanup now c

unfoldable pub client_run : List ClientEvent → Client → Option (Client × List PubMessage)
unfolding client_step
client_run [] c = some (c, [])
client_run (e ∷ es) c = elim (client_step e c) [
  | none ↦ none
  | some (c', out) ↦ elim (client_run es c') [
    | none ↦ none
    | some (c'', rest) ↦ some (c'', out ++ rest)
  ]
]
