-- ===== src/Client/Tests.antt =====
-- Examples for internal/client/client.go.
use mqtt_forward.Client.Exits.{exec_loop_lem}
use mqtt_forward.Prelude.{
  if◌then◌else◌, Text, codes, lookup, err, ok, pos, negsuc, IsRising, ℕ, ◌≤◌, ◌<◌, ◌≡◌, refl, true,
  false, Option, none, some, List, [], ◌∷◌, ◌++◌, arith,
}
use mqtt_forward.Client.{AckState, Client, new_client}
use mqtt_forward.Client.Connecting.{OpenRequest, not_published, timed_out, send_open}
use mqtt_forward.Client.Opening.{first_answer, answer_or, send_open_lem}
use mqtt_forward.Client.Course.{client_run-IsSound}
use mqtt_forward.Client.Events.{
  ClientEvent, control_comes, data_comes, session_added, reply_awaited, reply_over, session_started,
  session_closed, session_removed, cleanup_due, client_run,
}
use mqtt_forward.Manager.Invariant.{IsWellFormed, new_manager-IsWellFormed}
use mqtt_forward.Transport.{ControlMessage, control_message, PubMessage}
use mqtt_forward.Transport.MessageType
use mqtt_forward.Transport.SessionMode
use mqtt_forward.Manager.{new_manager}
use mqtt_forward.Client.SocksConn.{
  reply_for, handle_socks5_conn, device_answer, handle_socks5_conn_lem,
}
use mqtt_forward.Socks.{version_5, auth_none, handshake}
use mqtt_forward.Client.Listeners.{connects, fails, accept_loop}
use mqtt_forward.Client.Loops.{
  close_comes, context_ends, timer_fires, exits, finished, close_result, cancel_result, exec_loop,
}
use mqtt_forward.Client.Ping.{no_pings, run_ping, avg_rtt}
use mqtt_forward.Client.Status.{Reply, sort_devices, run_status}
use mqtt_forward.Session.{Session, new_exec_session}
use mqtt_forward.Session.Exec.{exit_error, signal_exit_code, close_of_result}
use mqtt_forward.Client.Deliveries.{deliveries}
use mqtt_forward.Client.PingBounds.{answered, IsStats, later, run_ping_lem}
use mqtt_forward.Client.Status.Table.{ids, first_pong, run_status_lem}
use mqtt_forward.Client.Reports.{exit_of, exec_code_arrives}
use mqtt_forward.Writer.Frames.{concat}

abbrev counting : AckState
counting = record { total = 65_000; last = 0; interval = 65_536 }

abbrev client_7 : Client
client_7 = new_client (codes "device-7")

abbrev session_a1 : Text
session_a1 = codes "a1"

abbrev agreed : ControlMessage
agreed = record (control_message MessageType.open_ack session_a1) { success = true }

abbrev handled : List (ℕ × Option ControlMessage)
handled =
    (1, none) ∷ (2, some (control_message MessageType.pong (codes "other"))) ∷ (3, some agreed) ∷ []

abbrev shell_request : OpenRequest
shell_request = record {
  session_id = session_a1;
  mode = SessionMode.shell;
  target = [];
  command = [];
  cols = 80;
  rows = 24;
  timeout = pos 0;
}

send_open_lem_example :
    let r = send_open shell_request true handled timed_out client_7 in
    (r.2
      ≡ (if true then answer_or timed_out (first_answer session_a1 handled) else err not_published))
    × (lookup session_a1 r.0.ack_chans ≡ none)
send_open_lem_example = send_open_lem shell_request true handled timed_out client_7

new_client-IsWellFormed : IsWellFormed client_7.manager
unfolding new_client
new_client-IsWellFormed = new_manager-IsWellFormed

no_session : lookup session_a1 client_7.manager.sessions ≡ none
unfolding new_client new_manager lookup
no_session = refl

-- Two openings at once, of which one is refused, with data and a cleanup between.
abbrev interleaved : List ClientEvent
interleaved =
    session_added 1 (new_exec_session session_a1 [] [])
    ∷ reply_awaited session_a1
    ∷ session_added 2 (new_exec_session (codes "b2") [] [])
    ∷ control_comes 3 (some agreed)
    ∷ data_comes 4 (λ s. false) (codes "tunnel/device-7/out/data/b2") []
    ∷ session_removed (codes "b2")
    ∷ reply_over session_a1
    ∷ session_started session_a1
    ∷ cleanup_due 5
    ∷ session_closed session_a1
    ∷ []

client_run-IsSound_example :
    (r : Client × List PubMessage) × (client_run interleaved (new_client (codes "device-7"))
      ≡ some r)
    × IsWellFormed r.0.manager
client_run-IsSound_example = client_run-IsSound interleaved (codes "device-7")

-- A greeting, and a request for port 80 of 127.0.0.1.
abbrev socks_input : Text
socks_input = 5 ∷ 1 ∷ 0 ∷ 5 ∷ 1 ∷ 0 ∷ 1 ∷ 127 ∷ 0 ∷ 0 ∷ 1 ∷ 0 ∷ 80 ∷ []

handle_socks5_conn_lem_example :
    let r = handle_socks5_conn 1 session_a1 true socks_input true true handled timed_out client_7 in
    IsWellFormed r.0.manager
    × (r.3 ≡ false → lookup session_a1 r.0.manager.sessions ≡ none)
    × ((target rest : Text)
        → (handshake true socks_input).1 ≡ ok (target, rest)
        → r.2
          ≡ (version_5 ∷ auth_none ∷ [])
            ++ reply_for (device_answer session_a1 true handled timed_out))
handle_socks5_conn_lem_example =
    handle_socks5_conn_lem 1 session_a1 socks_input true handled timed_out client_7
      new_client-IsWellFormed no_session

abbrev finished_7 : ControlMessage
finished_7 = record (control_message MessageType.close session_a1) { exit_code = some (pos 7) }

abbrev line_1 : Text
line_1 = codes "one\n"

abbrev line_2 : Text
line_2 = codes "two\n"

exec_loop_lem_example :
    let ps = line_1 ∷ [] in
    let qs = line_2 ∷ [] in
    let last = timer_fires ∷ [] in
    let closed =
      exec_loop client_7 session_a1
        (deliveries ps ++ (close_comes finished_7 ∷ (deliveries qs ++ last))) in
    let cut_off =
      exec_loop client_7 session_a1 (deliveries ps ++ (context_ends ∷ (deliveries qs ++ last))) in
    let cancelled = exec_loop client_7 session_a1 (
      deliveries ps
      ++ (context_ends ∷ (deliveries qs ++ (close_comes finished_7 ∷ (deliveries [] ++ last))))) in
    (closed.phase ≡ finished (close_result finished_7))
    × (closed.output ≡ concat ps ++ concat qs)
    × (cut_off.phase ≡ finished (exits (pos 130) none))
    × (cut_off.output ≡ concat ps ++ concat qs)
    × (cancelled.phase ≡ finished (cancel_result finished_7))
    × (cancelled.output ≡ concat ps ++ (concat qs ++ []))
exec_loop_lem_example =
    exec_loop_lem client_7 session_a1 (line_1 ∷ []) (line_2 ∷ []) [] finished_7 []

-- The device's session, and its message for a command that signal 9 ended.
abbrev exec_a1 : Session
exec_a1 =
    new_exec_session session_a1 (codes "tunnel/device-7/out/control")
      (codes "tunnel/device-7/out/data/a1")

abbrev killed_message : ControlMessage
killed_message = record (control_message MessageType.close session_a1) {
  exit_code = some (pos 137);
}

exec_code_arrives_example :
    (exec_loop client_7 session_a1 (
      deliveries (line_1 ∷ [])
      ++ (close_comes killed_message ∷ (deliveries [] ++ (timer_fires ∷ []))))).phase
    ≡ finished (exit_of (exit_error (record { exit_code = negsuc 0; status = some (some 9) })))
unfolding close_of_result signal_exit_code new_exec_session
exec_code_arrives_example =
    exec_code_arrives client_7 session_a1 exec_a1
      (exit_error (record { exit_code = negsuc 0; status = some (some 9) })) killed_message
      (line_1 ∷ []) [] [] refl

abbrev three_pings : List (Option ℕ)
three_pings = some 30 ∷ none ∷ some 10 ∷ []

run_ping_lem_example :
    let s = run_ping 3 three_pings no_pings in
    IsStats (later (answered 3 three_pings) []) s
    × (0 < s.received → (s.min_rtt ≤ avg_rtt s) × (avg_rtt s ≤ s.max_rtt))
run_ping_lem_example = run_ping_lem 3 three_pings (ground arith)

-- Two answers of device b, and one of device a.
abbrev pong_of : Text → Text → ℕ → Reply
pong_of topic version at = record {
  topic = topic;
  message = some (record (control_message MessageType.pong (codes "p1")) { version = version });
  at = at;
}

abbrev replies : List Reply
replies =
    pong_of (codes "tunnel/b/out/control") (codes "1") 5
    ∷ pong_of (codes "tunnel/a/out/control") (codes "2") 6
    ∷ pong_of (codes "tunnel/b/out/control") (codes "3") 7
    ∷ []

run_status_lem_example :
    let table = sort_devices (run_status (codes "p1") 0 replies) in
    IsRising (ids table) × ((id : Text) → lookup id table ≡ first_pong id (codes "p1") 0 replies)
run_status_lem_example = run_status_lem (codes "p1") 0 replies

-- An error of the listener is passed over until the context is done.
accept_loop_test :
    accept_loop {A = ℕ} (connects 1 ∷ fails false ∷ connects 2 ∷ fails true ∷ connects 3 ∷ [])
    ≡ 1 ∷ 2 ∷ []
unfolding accept_loop
accept_loop_test = refl
