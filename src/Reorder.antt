-- ===== src/Reorder.antt =====
-- internal/tunnel/session.go: `ReorderBuffer`. The channel `dataCh` is the list of the payloads that
-- were sent on it, oldest first; a send may wait for its reader while the mutex is held, and the
-- payload is counted as sent when the wait is over.
pub mod Held
pub mod Ends
pub mod Order
pub mod Delivery
pub mod Wrap
pub mod Tests
use mqtt_forward.Prelude.{
  ltb, leb, ◌==◌, if◌then◌else◌, length, Text, ℕ, zero, suc, ◌+◌, ◌-◌, ◌%◌, ◌^◌, Bool, true, false,
  ◌&&◌, Option, none, some, List, [], ◌∷◌, ◌++◌,
}

pub record ReorderBuffer : Type 0 where
  pub buf : List (ℕ × Text)
  pub next_seq : ℕ
  pub size : ℕ
  pub data_ch : List Text
  pub closed : Bool

abbrev pub reorder_buf_size : ℕ
reorder_buf_size = 64

unfoldable pub new_reorder_buffer : ℕ → ReorderBuffer
new_reorder_buffer size = record {
  buf = [];
  next_seq = 0;
  size = size;
  data_ch = [];
  closed = false;
}

-- `buf[seq]`, and `delete(buf, seq)`.
unfoldable pub find : ℕ → List (ℕ × Text) → Option Text
find seq [] = none
find seq ((s, p) ∷ m) = if s == seq then some p else find seq m

unfoldable pub remove : ℕ → List (ℕ × Text) → List (ℕ × Text)
remove seq [] = []
remove seq ((s, p) ∷ m) = if s == seq then remove seq m else (s, p) ∷ remove seq m

pub data InsertError : Type 0 where
  buffer_full : InsertError

-- What the `select` of one send does: the reader takes the payload, or, once the buffer is closed,
-- the closed channel may be chosen. The argument tells by the sequence number which one is ready.
abbrev pub Select : Type 0
Select = ℕ → Bool

-- The loop that sends what is in order. The fuel bounds the rounds.
unfoldable pub flush : ℕ → Select → ReorderBuffer → ReorderBuffer
unfolding find remove
flush zero sel rb = rb
flush (suc fuel) sel rb = elim (find rb.next_seq rb.buf) [
  | none ↦ rb
  | some payload ↦
      let taken = record rb {
        buf = remove rb.next_seq rb.buf;
        next_seq = (rb.next_seq + 1) % 2 ^ 32;
      } in
      let rest = flush fuel sel (record taken { data_ch = rb.data_ch ++ payload ∷ [] }) in
      if rb.closed && sel rb.next_seq then taken else rest
]

-- Each round takes an entry from the buffer, so its length, with the new entry, is fuel enough.
unfoldable pub insert_frame : Select → ℕ → Text → ReorderBuffer → ReorderBuffer × Option InsertError
unfolding flush
insert_frame sel seq payload rb =
    if ltb seq rb.next_seq
    then (rb, none)
    else if leb rb.size (seq - rb.next_seq)
    then (rb, some buffer_full)
    else elim (find seq rb.buf) [
      | some _ ↦ (rb, none)
      | none ↦ (
        flush (suc (suc (length rb.buf))) sel (record rb { buf = (seq, payload) ∷ rb.buf }),
        none,
      )
    ]

unfoldable pub close_reorder : ReorderBuffer → ReorderBuffer
close_reorder rb = record rb { closed = true }
