-- ===== src/Transfer/Tests.antt =====
-- An example of data written on one side and received on the other.
use mqtt_forward.Frame.{put_uint32, uint32, encode_data_frame, decode_data_frame}
use mqtt_forward.Prelude.{codes, ℕ, ◌<◌, ◌≡◌, refl, false, [], ◌∷◌, arith}
use mqtt_forward.Writer.Tests.{fresh, fresh-IsWithin}
use mqtt_forward.Reorder.{new_reorder_buffer, find, remove, Select, flush, insert_frame}
use mqtt_forward.Transfer.{receive_payload, receive_messages, arriving, write_transfers}
use mqtt_forward.Reorder.Delivery.{IsIn}
use mqtt_forward.Writer.{chunk_of, send_chunk, write_loop, write}
use mqtt_forward.Flow.{outstanding, can_send, wait_for_window}
use mqtt_forward.Transport.{publish}
use mqtt_forward.Writer.Frames.{concat}

abbrev open_buffer : Select
open_buffer _ = false

place_0 : (i : ℕ) → i < 1 → IsIn i (0 ∷ 0 ∷ [])
place_0 i h = ground arith

write_transfers_example :
    concat
      (receive_messages open_buffer
        (arriving (0 ∷ 0 ∷ []) (write (codes "hello") fresh).0.transport.published)
        (new_reorder_buffer 64)).data_ch
    ≡ codes "hello"
unfolding write write_loop send_chunk wait_for_window publish can_send outstanding encode_data_frame
    put_uint32 receive_payload decode_data_frame uint32 insert_frame flush find remove
    new_reorder_buffer chunk_of
write_transfers_example =
    write_transfers open_buffer (codes "hello") fresh (0 ∷ 0 ∷ []) 64 fresh-IsWithin (ground arith)
      (ground arith) refl refl refl (ground arith) place_0 (refl, (refl, tt))
