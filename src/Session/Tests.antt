-- ===== src/Session/Tests.antt =====
-- Examples for internal/tunnel/session_tcp.go, session_exec.go, session_shell.go.
use mqtt_forward.Transport.{publish}
use mqtt_forward.Prelude.{codes, pos, negsuc, ◌≡◌, refl, true, false, none, some, [], ◌∷◌}
use mqtt_forward.Session.{Session, new_tcp_session, new_exec_session}
use mqtt_forward.Session.Exec.{exit_error, Process, signal_exit_code, close_of_result, exec_run}
use mqtt_forward.Session.ExitCode.{IsReported, exec_run_lem}
use mqtt_forward.Writer.Tests.{fresh}
use mqtt_forward.Pump.{read_failed, read_from_conn}

abbrev pub tcp_a1 : Session
tcp_a1 = new_tcp_session (codes "a1") (codes "tunnel/d/out/control") (codes "tunnel/d/out/data/a1")

abbrev pub exec_b2 : Session
exec_b2 =
    new_exec_session (codes "b2") (codes "tunnel/d/out/control") (codes "tunnel/d/out/data/b2")

-- A command that prints a line and is then killed by signal 9.
abbrev killed : Process
killed = record {
  stdout_pipe = none;
  stderr_pipe = none;
  start_error = none;
  pid = 700;
  output = record { buf = codes "hello"; failed = false } ∷ record { buf = []; failed = true } ∷ [];
  result = exit_error (record { exit_code = negsuc 0; status = some (some 9) });
}

exec_run_lem_example :
    IsReported exec_b2 (exec_run killed exec_b2 fresh)
    × (killed.stdout_pipe ≡ none
        → killed.stderr_pipe ≡ none
        → killed.start_error ≡ none
        → (read_from_conn killed.output fresh).1 ≡ read_failed
        → ((exec_run killed exec_b2 fresh).returned ≡ true)
          × ((exec_run killed exec_b2 fresh).messages ≡ close_of_result killed.result exec_b2 ∷ [])
          × ((exec_run killed exec_b2 fresh).writing.transport
              ≡ (publish
                  (close_of_result killed.result exec_b2)
                  (read_from_conn killed.output fresh).0.transport).0))
exec_run_lem_example = exec_run_lem killed exec_b2 fresh (unfold new_exec_session in refl)

killed_code : signal_exit_code (record { exit_code = negsuc 0; status = some (some 9) }) ≡ pos 137
unfolding signal_exit_code
killed_code = refl
