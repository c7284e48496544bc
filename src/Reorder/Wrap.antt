-- ===== src/Reorder/Wrap.antt =====
-- What the buffer does where the 32-bit sequence number wraps.
use mqtt_forward.Prelude.{ltb, lt→ltb, Text, ℕ, ◌+◌, ◌%◌, ◌^◌, ◌≤◌, ◌<◌, ◌≡◌, true, none, arith}
use mqtt_forward.Reorder.{ReorderBuffer, Select, insert_frame}

-- A frame that is the next in the window, or a later one of it, but whose number has wrapped while
-- the number that the buffer waits for has not: it is ignored as if it were a duplicate, without an
-- error, and is lost. (`i` counts the frames of the stream, so `i % 2^32` is the number sent.)
pub insert_frame_wrapped :
    (sel : Select) (i : ℕ) (payload : Text) (rb : ReorderBuffer)
    → rb.next_seq < 2 ^ 32
    → rb.size ≤ 2 ^ 32
    → 2 ^ 32 ≤ i
    → i < rb.next_seq + rb.size
    → insert_frame sel (i % 2 ^ 32) payload rb ≡ (rb, none)
unfolding insert_frame
insert_frame_wrapped sel i payload rb short small wrapped ahead =
    let e : ltb (i % 2 ^ 32) rb.next_seq ≡ true = lt→ltb _ _ (omega arith) in rw e
