-- ===== src/Session/ExitCode.antt =====
-- What is reported of a command that has ended.
use mqtt_forward.Prelude.{
  ◌==◌, Bool-cases, Option-cases, Text, ℤ, pos, negsuc, ℕ, ◌+◌, ◌≡◌, refl, sym, ap, subst, ◌⊎◌, inl,
  inr, true, false, ◌||◌, Option, none, some, [], ◌∷◌,
}
use mqtt_forward.Session.Exec.{
  ExitError, WaitResult, succeeded, exit_error, wait_failed, Process, code_of_status,
  signal_exit_code, close_of_result, Running, finish_run, after_output, exec_run,
}
use mqtt_forward.Session.{exec, Session, close_message, close}
use mqtt_forward.Transport.{PubMessage, publish}
use mqtt_forward.Writer.{written, context_done, publish_failed, waiting, Writing}
use mqtt_forward.Pump.{ReadOutcome, reading, read_failed, write_ended, read_from_conn}

-- What a close message of the session says: an exit code that is not negative and no error, or no
-- exit code and a text.
abbrev pub Says : Session → PubMessage → Type 0
Says s m =
    ((code : ℕ) × (m ≡ close_message (some (pos code)) [] s))
    ⊎ ((text : Text) × (m ≡ close_message none text s))

-- The exit code of a process is -1 or more.
abbrev pub IsExitCode : ExitError → Type 0
IsExitCode e = (e.exit_code ≡ negsuc 0) ⊎ ((code : ℕ) × (e.exit_code ≡ pos code))

-- The exit code that is reported is not negative.
signal_exit_code-pos : (e : ExitError) → (code : ℕ) × (signal_exit_code e ≡ pos code)
unfolding signal_exit_code
signal_exit_code-pos e = elim (ℤ-cases e.exit_code) [
  | inl (code, h) ↦ (code, rw (h, signal_exit_code) refl)
  | inr (n, h) ↦
      let (code, same) = code_of_status-pos e.status in (code, rw (h, signal_exit_code) same)
]
  where
    ℤ-cases : (z : ℤ) → ((n : ℕ) × (z ≡ pos n)) ⊎ ((n : ℕ) × (z ≡ negsuc n))
    ℤ-cases (pos n) = inl (n, refl)
    ℤ-cases (negsuc n) = inr (n, refl)

    code_of_status-pos : (o : Option (Option ℕ)) → (code : ℕ) × (code_of_status o ≡ pos code)
    code_of_status-pos none = (1, refl)
    code_of_status-pos (some none) = (1, refl)
    code_of_status-pos (some (some sig)) = elim (Bool-cases ((sig == 2) || (sig == 15))) [
      | inl h ↦ (0, rw h refl)
      | inr h ↦ (128 + sig, rw h refl)
    ]

close_of_result-Says : (result : WaitResult) (s : Session) → Says s (close_of_result result s)
unfolding close_of_result
close_of_result-Says succeeded s = inl (0, refl)
close_of_result-Says (exit_error e) s =
    let (code, same) = signal_exit_code-pos e in
    inl (code, ap (λ c. close_message (some c) [] s) same)
close_of_result-Says (wait_failed text) s = inr (text, refl)

-- `run` has returned, with one control message, or it has not, with none.
abbrev pub IsReported : Session → Running → Type 0
IsReported s r =
    ((r.returned ≡ true)
      × (r.session.closed ≡ true)
      × (m : PubMessage) × (r.messages ≡ m ∷ [])
      × Says s m)
    ⊎ ((r.returned ≡ false) × (r.messages ≡ []))

close-exec :
    (s : Session) → s.kind ≡ exec → ((close s).messages ≡ []) × ((close s).session.closed ≡ true)
unfolding close
close-exec s k = elim (Bool-cases s.closed) [
  | inl h ↦ rw h (refl, refl)
  | inr h ↦ rw h (rw (k, close) (refl, refl))
]

finish_run-IsReported :
    (m : PubMessage) (s : Session) (w : Writing)
    → s.kind ≡ exec
    → Says s m
    → IsReported s (finish_run m s w)
finish_run-IsReported m s w k says =
    let (none_more, closed) = close-exec s k in inl (refl, closed, m, ap (◌∷◌ m) none_more, says)

after_output-IsReported :
    (result : WaitResult) (s : Session) (r : Writing × ReadOutcome)
    → s.kind ≡ exec
    → IsReported s (after_output result s r)
unfolding after_output
after_output-IsReported result s (w, reading) k = inr (refl, refl)
after_output-IsReported result s (w, read_failed) k =
    finish_run-IsReported _ s w k (close_of_result-Says result s)
after_output-IsReported result s (w, write_ended written) k = inr (refl, refl)
after_output-IsReported result s (w, write_ended waiting) k = inr (refl, refl)
after_output-IsReported result s (w, write_ended context_done) k =
    finish_run-IsReported _ (record s { cancelled = true }) w k (close_of_result-Says result s)
after_output-IsReported result s (w, write_ended publish_failed) k =
    finish_run-IsReported _ (record s { cancelled = true }) w k (close_of_result-Says result s)

-- What is said of the session before the command was started holds of the session after it.
started-IsReported :
    (pid : ℕ) (s : Session) (r : Running) → IsReported (record s { pgid = pid }) r → IsReported s r
unfolding close_message
started-IsReported pid s r h = h

close_of_result-started :
    (result : WaitResult) (pid : ℕ) (s : Session)
    → close_of_result result (record s { pgid = pid }) ≡ close_of_result result s
unfolding close_of_result close_message
close_of_result-started succeeded pid s = refl
close_of_result-started (exit_error e) pid s = refl
close_of_result-started (wait_failed text) pid s = refl

-- A command that could be started, of which all the output was read and sent.
exec_run-ended :
    (p : Process) (s : Session) (w : Writing)
    → p.stdout_pipe ≡ none
    → p.stderr_pipe ≡ none
    → p.start_error ≡ none
    → exec_run p s w ≡ after_output p.result (record s { pgid = p.pid }) (read_from_conn p.output w)
unfolding exec_run
exec_run-ended p s w a b c = rw (a, exec_run) (rw (b, exec_run) (rw (c, exec_run) refl))

after_output-read :
    (result : WaitResult) (s : Session) (r : Writing × ReadOutcome)
    → s.kind ≡ exec
    → r.1 ≡ read_failed
    → ((after_output result s r).returned ≡ true)
      × ((after_output result s r).messages ≡ close_of_result result s ∷ [])
      × ((after_output result s r).writing.transport
          ≡ (publish (close_of_result result s) r.0.transport).0)
unfolding after_output
after_output-read result s (w, reading) k h = cc
after_output-read result s (w, write_ended cause) k h = cc
after_output-read result s (w, read_failed) k h =
    (refl, ap (◌∷◌ (close_of_result result s)) (close-exec s k).0, refl)

exec_run-cases {κ} :
    (p : Process) (s : Session) (w : Writing) (P : Running → Type κ)
    → ((text : Text) → P (finish_run (close_message none text s) s w))
    → P (after_output p.result (record s { pgid = p.pid }) (read_from_conn p.output w))
    → P (exec_run p s w)
unfolding exec_run
exec_run-cases p s w P refused ran = elim (Option-cases p.stdout_pipe) [
  | inr (text, a) ↦ rw (a, exec_run) (refused text)
  | inl a ↦ elim (Option-cases p.stderr_pipe) [
    | inr (text, b) ↦ rw (a, exec_run) (rw (b, exec_run) (refused text))
    | inl b ↦ elim (Option-cases p.start_error) [
      | inr (text, c) ↦ rw (a, exec_run) (rw (b, exec_run) (rw (c, exec_run) (refused text)))
      | inl c ↦ subst P (sym (exec_run-ended p s w a b c)) ran
    ]
  ]
]

-- The run of a command, whatever its pipes, its output and its end are: when it returns, the session is
-- closed, and the run passed exactly one control message to the transport, a close message with an exit
-- code that is not negative or with the text of an error; while it has not returned, it passed none.
-- (Besides these go the frames of the output; the transport may refuse any message.) When the command was
-- started, and its output was read to the end and sent, it returns, and the close message, which is
-- published after all frames, reports the result of the process.
pub exec_run_lem :
    (p : Process) (s : Session) (w : Writing)
    → s.kind ≡ exec
    → IsReported s (exec_run p s w)
      × (p.stdout_pipe ≡ none
          → p.stderr_pipe ≡ none
          → p.start_error ≡ none
          → (read_from_conn p.output w).1 ≡ read_failed
          → ((exec_run p s w).returned ≡ true)
            × ((exec_run p s w).messages ≡ close_of_result p.result s ∷ [])
            × ((exec_run p s w).writing.transport
                ≡ (publish (close_of_result p.result s) (read_from_conn p.output w).0.transport).0))
exec_run_lem p s w k = (
  reported,
  λ a b c read.
      rw (exec_run-ended p s w a b c, sym (close_of_result-started p.result p.pid s))
        (after_output-read p.result (record s { pgid = p.pid }) (read_from_conn p.output w) k read),
)
  where
    refused : (text : Text) → IsReported s (finish_run (close_message none text s) s w)
    refused text = finish_run-IsReported _ s w k (inr (text, refl))

    reported : IsReported s (exec_run p s w)
    reported =
        exec_run-cases p s w (λ r. IsReported s r) refused
          (started-IsReported p.pid s
            (after_output p.result (record s { pgid = p.pid }) (read_from_conn p.output w))
            (after_output-IsReported p.result (record s { pgid = p.pid })
              (read_from_conn p.output w) k))
