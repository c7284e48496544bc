-- ===== src/Reorder/Ends.antt =====
-- The loop of the reorder buffer ends.
use mqtt_forward.Prelude.{Text, ◌+◌, ◌%◌, ◌^◌, ◌≡◌, true, some, [], ◌∷◌, ◌++◌}
use mqtt_forward.Reorder.{ReorderBuffer, find, remove, Select}

-- The buffer after one round, before the payload is sent, and after it.
abbrev pub taken_from : ReorderBuffer → ReorderBuffer
taken_from rb = record rb { buf = remove rb.next_seq rb.buf; next_seq = (rb.next_seq + 1) % 2 ^ 32 }

abbrev sent_from : Text → ReorderBuffer → ReorderBuffer
sent_from p rb = record (taken_from rb) { data_ch = rb.data_ch ++ p ∷ [] }

-- The loop was cut off: at a state `q` of a closed buffer, with the next frame there, the closed channel
-- was chosen; the frame is taken out, and what was sent is what `q` had sent.
abbrev pub IsCutOff : Select → ReorderBuffer → Type 0
IsCutOff sel rb' =
    (q : ReorderBuffer) × (p : Text) × (q.closed ≡ true)
    × (sel q.next_seq ≡ true)
    × (find q.next_seq q.buf ≡ some p)
    × (rb' ≡ taken_from q)
    × (rb'.data_ch ≡ q.data_ch)
