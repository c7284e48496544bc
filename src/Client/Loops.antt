-- ===== src/Client/Loops.antt =====
-- internal/client/client.go, `RunExec` with `waitExecCloseAfterCancel` and `drainSessionData`, and
-- client_shell.go, the loop of `runShellIO`. Which case of a `select` is taken next is an event, and an
-- event for which the loop does not wait at that moment changes nothing.
use mqtt_forward.Prelude.{
  Text, codes, err, ok, ℤ, pos, ℕ, Bool, Option, none, some, List, [], ◌∷◌, ◌++◌,
}
use mqtt_forward.Client.{AckState, new_session_ack_state, Client, exec_close_result}
use mqtt_forward.Client.Exec.{close_message, SinkError, write_session_data}
use mqtt_forward.Transport.{ControlMessage, PubMessage}

-- Data come out of the session's channel, with what the writer answers to them, and whether the
-- transport takes an acknowledgement that is due then; the channel is closed;
-- a close message comes; the context or the session ends; the timer of the wait fires.
pub data LoopEvent : Type 0 where
  data_comes : Option ℕ → Bool → Text → LoopEvent
  channel_ends : LoopEvent
  close_comes : ControlMessage → LoopEvent
  context_ends : LoopEvent
  session_ends : LoopEvent
  timer_fires : LoopEvent

-- An exit code, with an error or a text for the user; or the writer failed, or an acknowledgement could
-- not be published, which is exit code 1.
pub data LoopResult : Type 0 where
  exits : ℤ → Option Text → LoopResult
  sink_failed : SinkError → LoopResult

-- Where the loop is: in `RunExec` or `runShellIO`; in its `drainSessionData`, with the close message; in
-- `waitExecCloseAfterCancel`; in that one's `drainSessionData`; or it has returned.
pub data Phase : Type 0 where
  going : Phase
  draining : ControlMessage → Phase
  cancelling : Phase
  cancel_draining : ControlMessage → Phase
  finished : LoopResult → Phase

-- With the pieces that were written out and acknowledged, and the messages published.
pub record LoopState : Type 0 where
  pub phase : Phase
  pub ack_state : AckState
  pub output : Text
  pub messages : List PubMessage

unfoldable pub new_loop_state : LoopState
unfolding new_session_ack_state
new_loop_state = record {
  phase = going;
  ack_state = new_session_ack_state;
  output = [];
  messages = [];
}

unfoldable pub take_data : Client → Text → Option ℕ → Bool → Text → LoopState → LoopState
unfolding write_session_data
take_data c id taken sent payload r =
    elim (write_session_data c id taken sent payload r.ack_state) [
      | err e ↦ record r { phase = finished (sink_failed e) }
      | ok (s, out) ↦ record r {
        ack_state = s;
        output = r.output ++ payload;
        messages = r.messages ++ out;
      }
    ]

abbrev pub finish_loop : LoopResult → LoopState → LoopState
finish_loop result r = record r { phase = finished result }

-- `execCloseResult`
abbrev pub close_result : ControlMessage → LoopResult
close_result m = exits (exec_close_result m).0 (exec_close_result m).1

-- After a cancellation only the exit code counts.
abbrev pub cancel_result : ControlMessage → LoopResult
cancel_result m = elim (m.exit_code) [ some code ↦ exits code none | none ↦ exits (pos 0) none ]

unfoldable pub exec_event : Client → Text → Phase → LoopEvent → LoopState → LoopState
unfolding take_data exec_close_result
exec_event c id (finished result) e r = r
exec_event c id going (data_comes taken sent payload) r = take_data c id taken sent payload r
exec_event c id going channel_ends r = finish_loop (exits (pos 0) none) r
exec_event c id going (close_comes m) r = record r { phase = draining m }
exec_event c id going context_ends r = record r {
  phase = cancelling;
  messages = r.messages ++ close_message c.device_id id ∷ [];
}
exec_event c id going session_ends r = r
exec_event c id going timer_fires r = r
exec_event c id (draining m) (data_comes taken sent payload) r = take_data c id taken sent payload r
exec_event c id (draining m) channel_ends r = finish_loop (close_result m) r
exec_event c id (draining m) timer_fires r = finish_loop (close_result m) r
exec_event c id (draining m) (close_comes _) r = r
exec_event c id (draining m) context_ends r = r
exec_event c id (draining m) session_ends r = r
exec_event c id cancelling (data_comes taken sent payload) r = take_data c id taken sent payload r
exec_event c id cancelling channel_ends r = finish_loop (exits (pos 130) none) r
exec_event c id cancelling timer_fires r = finish_loop (exits (pos 130) none) r
exec_event c id cancelling (close_comes m) r = record r { phase = cancel_draining m }
exec_event c id cancelling context_ends r = r
exec_event c id cancelling session_ends r = r
exec_event c id (cancel_draining m) (data_comes taken sent payload) r =
    take_data c id taken sent payload r
exec_event c id (cancel_draining m) channel_ends r = finish_loop (cancel_result m) r
exec_event c id (cancel_draining m) timer_fires r = finish_loop (cancel_result m) r
exec_event c id (cancel_draining m) (close_comes _) r = r
exec_event c id (cancel_draining m) context_ends r = r
exec_event c id (cancel_draining m) session_ends r = r

abbrev pub unreachable_text : Text
unreachable_text = codes "\r\nSession ended: remote unreachable\r\n"

-- What a shell client prints of a close message.
unfoldable pub remote_error : ControlMessage → Option Text
remote_error m = elim (m.error) [
  | [] ↦ none
  | ◌∷◌ b e ↦ some (codes "\r\nRemote error: " ++ (b ∷ e) ++ codes "\r\n")
]

-- The loop of a shell never cancels; it returns no exit code.
unfoldable pub shell_event : Client → Text → Phase → LoopEvent → LoopState → LoopState
unfolding take_data remote_error
shell_event c id going (data_comes taken sent payload) r = take_data c id taken sent payload r
shell_event c id going channel_ends r = finish_loop (exits (pos 0) none) r
shell_event c id going (close_comes m) r = record r { phase = draining m }
shell_event c id going context_ends r = finish_loop (exits (pos 0) none) r
shell_event c id going session_ends r = finish_loop (exits (pos 0) (some unreachable_text)) r
shell_event c id going timer_fires r = r
shell_event c id (draining m) (data_comes taken sent payload) r =
    take_data c id taken sent payload r
shell_event c id (draining m) channel_ends r = finish_loop (exits (pos 0) (remote_error m)) r
shell_event c id (draining m) timer_fires r = finish_loop (exits (pos 0) (remote_error m)) r
shell_event c id (draining m) (close_comes _) r = r
shell_event c id (draining m) context_ends r = r
shell_event c id (draining m) session_ends r = r
shell_event c id cancelling e r = r
shell_event c id (cancel_draining m) e r = r
shell_event c id (finished result) e r = r

-- The loop, over the events in order.
unfoldable pub loop_events :
    (Phase → LoopEvent → LoopState → LoopState) → List LoopEvent → LoopState → LoopState
loop_events f [] r = r
loop_events f (e ∷ es) r = loop_events f es (f r.phase e r)

unfoldable pub exec_loop : Client → Text → List LoopEvent → LoopState
unfolding loop_events exec_event new_loop_state
exec_loop c id es = loop_events (exec_event c id) es new_loop_state

unfoldable pub shell_loop : Client → Text → List LoopEvent → LoopState
unfolding loop_events shell_event new_loop_state
shell_loop c id es = loop_events (shell_event c id) es new_loop_state
