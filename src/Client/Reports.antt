-- ===== src/Client/Reports.antt =====
-- The exit code of a command, from the process on the device to the client: internal/tunnel/session_exec.go
-- and internal/client/client.go.
use mqtt_forward.Prelude.{Text, codes, pos, ◌≡◌, sym, ap, ◌∙◌, none, some, List, [], ◌∷◌, ◌++◌}
use mqtt_forward.Client.Loops.{
  LoopEvent, close_comes, timer_fires, LoopResult, exits, finished, close_result, exec_loop,
}
use mqtt_forward.Client.{Client, exec_close_result}
use mqtt_forward.Transport.{ControlMessage, json}
use mqtt_forward.Session.{Session}
use mqtt_forward.Session.Exec.{
  WaitResult, succeeded, exit_error, wait_failed, signal_exit_code, close_of_result,
}
use mqtt_forward.Client.Deliveries.{deliveries}
use mqtt_forward.Client.Exits.{exec_loop_lem}

-- What the client makes of the result of the process.
abbrev pub exit_of : WaitResult → LoopResult
exit_of succeeded = exits (pos 0) none
exit_of (exit_error e) = exits (signal_exit_code e) none
exit_of (wait_failed []) = exits (pos 0) none
exit_of (wait_failed (b ∷ text)) = exits (pos 1) (some (codes "remote error: " ++ b ∷ text))

json-injective : (m n : ControlMessage) → json m ≡ json n → m ≡ n
json-injective m n e = cc

close_result-sent :
    (s : Session) (result : WaitResult) (m : ControlMessage)
    → (close_of_result result s).payload ≡ json m
    → close_result m ≡ exit_of result
unfolding close_of_result exec_close_result
close_result-sent s succeeded m e = ap close_result (sym (json-injective _ m e))
close_result-sent s (exit_error x) m e = ap close_result (sym (json-injective _ m e))
close_result-sent s (wait_failed []) m e = ap close_result (sym (json-injective _ m e))
close_result-sent s (wait_failed (b ∷ t)) m e = ap close_result (sym (json-injective _ m e))

-- The exit code that the device reports is the one that the client's command ends with, where the client
-- is not cancelled, each piece of data is written out as a whole and each acknowledgement that is due is
-- published: when the close message of a command's run comes, the client exits with the code of the
-- process, with 0 after an interrupt or a termination, with 128 and the signal after another signal, and
-- with 1 and the text if the wait for the process failed with a text, or with 0 if that is empty.
pub exec_code_arrives :
    (c : Client) (id : Text) (s : Session) (result : WaitResult) (m : ControlMessage)
    (ps qs : List Text) (rest : List LoopEvent)
    → (close_of_result result s).payload ≡ json m
    → (exec_loop c id
        (deliveries ps ++ (close_comes m ∷ (deliveries qs ++ (timer_fires ∷ rest))))).phase
      ≡ finished (exit_of result)
exec_code_arrives c id s result m ps qs rest sent =
    let (ended, _, _, _, _, _) = exec_loop_lem c id ps qs [] m rest in
    ended ∙ ap finished (close_result-sent s result m sent)
