-- ===== src/Tunnel/Tests.antt =====
-- Examples of what happens to one direction of a session.
use mqtt_forward.Reorder.{new_reorder_buffer, find, remove, flush, insert_frame}
use mqtt_forward.Prelude.{
  length, Text, codes, ℕ, ◌≤◌, ◌≡◌, refl, Bool, true, false, List, ◌++◌, arith,
}
use mqtt_forward.Tunnel.{
  Tunnel, new_tunnel, send_piece, handle_message, take_payload, Step, sends, delivers, takes, here,
  then,
}
use mqtt_forward.Flow.{flow_control_window, new_flow_control, outstanding, can_send}
use mqtt_forward.Transport.{PubMessage, publish}
use mqtt_forward.Tunnel.Pipe.{pipe_of, Does, tunnel_refines, tunnel_window}
use mqtt_forward.Tunnel.Streams.{bytes_from}
use mqtt_forward.Frame.{put_uint32, uint32, encode_data_frame, decode_data_frame}
use mqtt_forward.Writer.{new_sequence_writer, data_message}
use mqtt_forward.Transfer.{receive_payload}

abbrev words : ℕ → Text
words i = codes "hi"

abbrev willing : List PubMessage → PubMessage → Bool
willing ms m = true

abbrev start : Tunnel
start = new_tunnel (codes "t") willing

abbrev after_send : Tunnel
after_send = send_piece (codes "hi") start

abbrev first_message : PubMessage
first_message = data_message (codes "t") 0 (codes "hi")

abbrev after_delivery : Tunnel
after_delivery = handle_message (λ _. false) first_message after_send

abbrev after_take : Tunnel
after_take = take_payload (codes "hi") after_delivery

step_send : Step words start after_send
unfolding new_tunnel can_send outstanding new_flow_control new_sequence_writer
step_send = sends (ground arith) refl

step_deliver : Step words after_send after_delivery
unfolding new_tunnel send_piece publish new_sequence_writer
step_deliver = delivers (λ _. false) 0 first_message refl refl

step_take : Step words after_delivery after_take
unfolding new_tunnel send_piece publish new_sequence_writer handle_message receive_payload
    decode_data_frame encode_data_frame put_uint32 uint32 insert_frame flush find remove
    new_reorder_buffer
step_take = takes (codes "hi") refl refl

tunnel_refines_example :
    Does words step_take (pipe_of words after_delivery) (pipe_of words after_take)
unfolding step_send step_deliver
tunnel_refines_example =
    tunnel_refines words (codes "t") willing (then (then here step_send) step_deliver) (omega arith)
      (omega arith) step_take

tunnel_window_example :
    (after_take.output ++ (pipe_of words after_take).queue
      ≡ bytes_from words 0 after_take.writer.seq)
    × (length (pipe_of words after_take).queue ≤ flow_control_window)
unfolding step_send step_deliver step_take
tunnel_window_example =
    tunnel_window words (codes "t") willing
      (then (then (then here step_send) step_deliver) step_take) (omega arith) (omega arith)
