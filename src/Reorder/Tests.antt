-- ===== src/Reorder/Tests.antt =====
-- Examples for internal/tunnel/session.go, the reorder buffer.
use mqtt_forward.Prelude.{Text, ℕ, ◌%◌, ◌^◌, ◌≤◌, ◌<◌, ◌≡◌, refl, false, none, [], ◌∷◌, arith}
use mqtt_forward.Reorder.{
  ReorderBuffer, new_reorder_buffer, find, remove, Select, flush, insert_frame,
}
use mqtt_forward.Reorder.Delivery.{receive, IsIn, receive_in_order, receive_complete}
use mqtt_forward.Reorder.Order.{first}
use mqtt_forward.Reorder.Wrap.{insert_frame_wrapped}

abbrev never_closed : Select
never_closed _ = false

-- The payload of a frame is its number.
abbrev numbers : ℕ → Text
numbers i = i ∷ []

receive_in_order_example :
    let rb = receive never_closed numbers (2 ∷ 0 ∷ 0 ∷ 5 ∷ 1 ∷ []) (new_reorder_buffer 4) in
    (rb.data_ch ≡ first rb.next_seq numbers) × (rb.next_seq ≤ 6)
receive_in_order_example =
    receive_in_order never_closed numbers 4 (2 ∷ 0 ∷ 0 ∷ 5 ∷ 1 ∷ []) 6 (omega arith) (ground arith)

all_below_3 : (i : ℕ) → i < 3 → IsIn i (2 ∷ 0 ∷ 0 ∷ 1 ∷ [])
all_below_3 i h = ground arith

receive_complete_example :
    (receive never_closed numbers (2 ∷ 0 ∷ 0 ∷ 1 ∷ []) (new_reorder_buffer 4)).data_ch
    ≡ first 3 numbers
unfolding insert_frame flush find remove new_reorder_buffer
receive_complete_example =
    receive_complete never_closed numbers 4 (2 ∷ 0 ∷ 0 ∷ 1 ∷ []) 3 (omega arith) (ground arith)
      all_below_3 (refl, (refl, (refl, (refl, tt))))

-- The buffer waits for the last number before the wrap.
abbrev at_end : ReorderBuffer
at_end = record { buf = []; next_seq = 4_294_967_295; size = 64; data_ch = []; closed = false }

insert_frame_wrapped_example :
    insert_frame never_closed (4_294_967_296 % 2 ^ 32) (7 ∷ []) at_end ≡ (at_end, none)
insert_frame_wrapped_example =
    insert_frame_wrapped never_closed 4_294_967_296 (7 ∷ []) at_end (omega arith) (omega arith)
      (omega arith) (omega arith)

-- A buffer with the next two frames in it.
abbrev two_held : ReorderBuffer
two_held = record {
  buf = (1, 7 ∷ []) ∷ (0, 8 ∷ []) ∷ [];
  next_seq = 0;
  size = 64;
  data_ch = [];
  closed = false;
}
