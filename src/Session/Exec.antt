-- ===== src/Session/Exec.antt =====
-- internal/tunnel/session_exec.go: `ExecSession.run`, and session_shell.go: `waitForExit`. The process
-- is an argument: what its pipes, its start, the reads of its output and its `Wait` return.
use mqtt_forward.Prelude.{
  ◌==◌, if◌then◌else◌, Text, ℤ, pos, negsuc, ℕ, ◌+◌, Bool, true, false, ◌||◌, Option, none, some,
  List, [], ◌∷◌,
}
use mqtt_forward.Pump.{Read, ReadOutcome, reading, read_failed, write_ended, read_from_conn}
use mqtt_forward.Session.{Session, close_message, Closing, close}
use mqtt_forward.Writer.{written, context_done, publish_failed, waiting, Writing}
use mqtt_forward.Transport.{PubMessage, publish}

-- `ExitError`: `ExitCode()`, which is -1 for a process that a signal ended, and `Sys()`, if it is a
-- `WaitStatus`: the signal, if one ended the process.
pub record ExitError : Type 0 where
  pub exit_code : ℤ
  pub status : Option (Option ℕ)

pub data WaitResult : Type 0 where
  succeeded : WaitResult
  exit_error : ExitError → WaitResult
  wait_failed : Text → WaitResult

pub record Process : Type 0 where
  pub stdout_pipe : Option Text
  pub stderr_pipe : Option Text
  pub start_error : Option Text
  pub pid : ℕ
  pub output : List Read
  pub result : WaitResult

abbrev sigint : ℕ
sigint = 2

abbrev sigterm : ℕ
sigterm = 15

abbrev pub code_of_status : Option (Option ℕ) → ℤ
code_of_status none = pos 1
code_of_status (some none) = pos 1
code_of_status (some (some sig)) =
    if (sig == sigint) || (sig == sigterm) then pos 0 else pos (128 + sig)

unfoldable pub signal_exit_code : ExitError → ℤ
signal_exit_code e = elim (e.exit_code) [ pos code ↦ pos code | negsuc _ ↦ code_of_status e.status ]

-- How `run` reports the end of the command.
unfoldable pub close_of_result : WaitResult → Session → PubMessage
unfolding signal_exit_code close_message
close_of_result succeeded s = close_message (some (pos 0)) [] s
close_of_result (exit_error e) s = close_message (some (signal_exit_code e)) [] s
close_of_result (wait_failed text) s = close_message none text s

-- The session, the writer with its transport, on which all that `run` publishes goes, and the control
-- messages among what it passes to `Publish`, whether or not it has returned.
pub record Running : Type 0 where
  pub session : Session
  pub writing : Writing
  pub messages : List PubMessage
  pub returned : Bool

-- `sendClose`, whose error is only logged, and `defer s.Close()`.
abbrev pub finish_run : PubMessage → Session → Writing → Running
finish_run m s w =
    let c = close s in
    record {
      session = c.session;
      writing = record w { transport = (publish m w.transport).0 };
      messages = m ∷ c.messages;
      returned = true;
    }

-- The output has ended, or a write has failed, and then the process is killed; or the loop goes on.
unfoldable pub after_output : WaitResult → Session → Writing × ReadOutcome → Running
unfolding close_of_result close publish
after_output result s (w, outcome) = elim outcome [
  | reading ↦ record { session = s; writing = w; messages = []; returned = false }
  | read_failed ↦ finish_run (close_of_result result s) s w
  | write_ended cause ↦ elim cause [
    | waiting ↦ record { session = s; writing = w; messages = []; returned = false }
    | written ↦ record { session = s; writing = w; messages = []; returned = false }
    | context_done ↦ finish_run (close_of_result result s) (record s { cancelled = true }) w
    | publish_failed ↦ finish_run (close_of_result result s) (record s { cancelled = true }) w
  ]
]

unfoldable pub exec_run : Process → Session → Writing → Running
unfolding after_output read_from_conn close close_message publish
exec_run p s w = elim (p.stdout_pipe) [
  | some text ↦ finish_run (close_message none text s) s w
  | none ↦ elim (p.stderr_pipe) [
    | some text ↦ finish_run (close_message none text s) s w
    | none ↦ elim (p.start_error) [
      | some text ↦ finish_run (close_message none text s) s w
      | none ↦ after_output p.result (record s { pgid = p.pid }) (read_from_conn p.output w)
    ]
  ]
]

-- The exit code that a shell's close message has: that of an `ExitError`, which is -1 after a signal,
-- and 0 after any other error.
unfoldable pub shell_exit_code : WaitResult → ℤ
shell_exit_code succeeded = pos 0
shell_exit_code (exit_error e) = e.exit_code
shell_exit_code (wait_failed text) = pos 0

-- `waitForExit`, once the terminal has been read to its end.
unfoldable pub wait_for_exit : WaitResult → Session → Closing
unfolding shell_exit_code close_message close
wait_for_exit result s =
    let c = close s in
    record c { messages = close_message (some (shell_exit_code result)) [] s ∷ c.messages }
