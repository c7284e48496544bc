-- ===== src/Transfer.antt =====
-- A write on one side of the tunnel and the reorder buffer on the other side: session.go, with
-- protocol.go between them.
pub mod Tests
use mqtt_forward.Prelude.{
  length, length-append, All, get_elem?, Text, err, ok, ℕ, zero, suc, ◌+◌, ◌%◌, ◌^◌, ◌≤◌, ◌<◌, ◌≡◌,
  refl, sym, ap, ◌∙◌, subst, Option, none, some, List, [], ◌∷◌, ◌++◌, append-nil, arith,
}
use mqtt_forward.Reorder.{ReorderBuffer, new_reorder_buffer, InsertError, Select, insert_frame}
use mqtt_forward.Reorder.Order.{first}
use mqtt_forward.Transport.{Payload, bytes, json, PubMessage}
use mqtt_forward.Writer.{written, Writing, data_message, write}
use mqtt_forward.Writer.Frames.{concat, frames, IsChunk, write-Written}
use mqtt_forward.Frame.{decode_data_frame, decode-encode}
use mqtt_forward.Flow.Window.{IsWithin}
use mqtt_forward.Reorder.Delivery.{receive, AllAccepted, IsIn, receive_complete}

-- What a session makes of the payload of a data message.
unfoldable pub receive_payload :
    Select → Payload → ReorderBuffer → ReorderBuffer × Option InsertError
receive_payload sel (json msg) rb = (rb, none)
receive_payload sel (bytes frame) rb = elim (decode_data_frame frame) [
  | err _ ↦ (rb, none)
  | ok (seq, payload) ↦ insert_frame sel seq payload rb
]

unfoldable pub receive_messages : Select → List PubMessage → ReorderBuffer → ReorderBuffer
receive_messages sel [] rb = rb
receive_messages sel (m ∷ ms) rb = receive_messages sel ms (receive_payload sel m.payload rb).0

-- No message of the run is refused for lack of room in the buffer.
abbrev pub NoneRefused : Select → List PubMessage → ReorderBuffer → Type 0
NoneRefused sel [] rb = Unit
NoneRefused sel (m ∷ ms) rb =
    ((receive_payload sel m.payload rb).1 ≡ none)
    × NoneRefused sel ms (receive_payload sel m.payload rb).0

abbrev pub arrive_one : Option PubMessage → List PubMessage → List PubMessage
arrive_one none ms = ms
arrive_one (some m) ms = m ∷ ms

-- The messages of a list in the order in which they arrive, by their places.
abbrev pub arriving : List ℕ → List PubMessage → List PubMessage
arriving [] ms = []
arriving (i ∷ is) ms = arrive_one (get_elem? ms i) (arriving is ms)

-- The pieces of the data, as a stream.
abbrev piece : List Text → ℕ → Text
piece [] i = []
piece (c ∷ cs) zero = c
piece (c ∷ cs) (suc i) = piece cs i

first-suc : (n : ℕ) (f : ℕ → Text) → first (suc n) f ≡ f 0 ∷ first n (λ i. f (suc i))
first-suc zero f = refl
first-suc (suc n) f = ap (λ l. l ++ f (suc n) ∷ []) (first-suc n f)

first-piece : (cs : List Text) → first (length cs) (piece cs) ≡ cs
first-piece [] = refl
first-piece (c ∷ cs) = first-suc (length cs) (piece (c ∷ cs)) ∙ ap (◌∷◌ c) (first-piece cs)

get_elem?-frames :
    (topic : Text) (seq : ℕ) (cs : List Text) (i : ℕ)
    → i < length cs
    → seq + length cs ≤ 2 ^ 32
    → get_elem? (frames topic seq cs) i ≡ some (data_message topic (seq + i) (piece cs i))
get_elem?-frames topic seq [] i lt small = absurd (omega arith)
get_elem?-frames topic seq (c ∷ cs) zero lt small =
    ap (λ n. some (data_message topic n c)) (omega arith)
get_elem?-frames topic seq (c ∷ cs) (suc i) lt small =
    let next : (seq + 1) % 2 ^ 32 ≡ seq + 1 = omega arith in
    rw next (
      get_elem?-frames topic (seq + 1) cs i (omega arith) (omega arith)
      ∙ ap (λ n. some (data_message topic n (piece cs i))) (omega arith))

length-chunks : (cs : List Text) → All IsChunk cs → length cs ≤ length (concat cs)
length-chunks [] h = omega arith
length-chunks (c ∷ cs) h = omega (arith, length-chunks cs h.1, length-append c (concat cs), h.0.0)

pub receive_payload-frame :
    (sel : Select) (topic : Text) (i : ℕ) (c : Text) (rb : ReorderBuffer)
    → i < 2 ^ 32
    → receive_payload sel (data_message topic i c).payload rb ≡ insert_frame sel i c rb
unfolding receive_payload
receive_payload-frame sel topic i c rb lt = rw (decode-encode i c lt, receive_payload)

receive_messages-cons :
    (sel : Select) (m : PubMessage) (ms : List PubMessage) (rb : ReorderBuffer)
    (r : ReorderBuffer × Option InsertError)
    → receive_payload sel m.payload rb ≡ r
    → (receive_messages sel (m ∷ ms) rb ≡ receive_messages sel ms r.0)
      × (NoneRefused sel (m ∷ ms) rb → (r.1 ≡ none) × NoneRefused sel ms r.0)
receive_messages-cons sel m ms rb r e =
    subst
      (λ r.
        (receive_messages sel (m ∷ ms) rb ≡ receive_messages sel ms r.0)
        × (NoneRefused sel (m ∷ ms) rb → (r.1 ≡ none) × NoneRefused sel ms r.0))
      e (unfold receive_messages in refl, λ n. n)

module _ (sel : Select) (topic : Text) (cs : List Text) (short : length cs < 2 ^ 32) where
  abbrev sent : List PubMessage
  sent = frames topic 0 cs

  arriving-cons :
      (i : ℕ) (is : List ℕ)
      → i < length cs
      → arriving (i ∷ is) sent ≡ data_message topic i (piece cs i) ∷ arriving is sent
  arriving-cons i is lt =
      ap (λ o. arrive_one o (arriving is sent))
        (get_elem?-frames topic 0 cs i lt (omega arith)
          ∙ ap (λ n. some (data_message topic n (piece cs i))) (omega arith))

  -- The messages in order of arrival do what their frames do.
  receive_messages-frames :
      (is : List ℕ) (rb : ReorderBuffer)
      → All (λ i. i < length cs) is
      → (receive_messages sel (arriving is sent) rb ≡ receive sel (piece cs) is rb)
        × (NoneRefused sel (arriving is sent) rb → AllAccepted sel (piece cs) is rb)
  receive_messages-frames [] rb h = (unfold receive_messages receive in refl, λ n. tt)
  receive_messages-frames (i ∷ is) rb h =
      let (same, accepted) =
        receive_messages-cons sel (data_message topic i (piece cs i)) (arriving is sent) rb _
          (receive_payload-frame sel topic i (piece cs i) rb (omega (arith, h.0))) in
      let (rest, none_refused) =
        receive_messages-frames is (insert_frame sel i (piece cs i) rb).0 h.1 in
      rw (arriving-cons i is h.0)
        (same ∙ rest ∙ unfold receive in refl, λ n. ((accepted n).0, none_refused (accepted n).1))

  receive_messages_lem :
      (size : ℕ) (order : List ℕ)
      → All (λ i. i < length cs) order
      → ((i : ℕ) → i < length cs → IsIn i order)
      → NoneRefused sel (arriving order sent) (new_reorder_buffer size)
      → (receive_messages sel (arriving order sent) (new_reorder_buffer size)).data_ch ≡ cs
  receive_messages_lem size order places every room =
      let (same, accepted) = receive_messages-frames order (new_reorder_buffer size) places in
      ap (λ rb. rb.data_ch) same
      ∙ receive_complete sel (piece cs) size order (length cs) short places every (accepted room)
      ∙ first-piece cs

length-frames : (topic : Text) (seq : ℕ) (cs : List Text) → length (frames topic seq cs) ≡ length cs
length-frames topic seq [] = refl
length-frames topic seq (c ∷ cs) = ap suc (length-frames topic ((seq + 1) % 2 ^ 32) cs)

-- What a successful write on a fresh connection publishes.
write-fresh :
    (whole : Text) (w : Writing)
    → IsWithin w.writer.fc
    → w.writer.fc.sent_bytes + length whole < 2 ^ 64
    → w.writer.seq ≡ 0
    → w.transport.published ≡ []
    → (write whole w).1 ≡ written
    → (cs : List Text) × (concat cs ≡ whole)
      × All IsChunk cs
      × ((write whole w).0.transport.published ≡ frames w.writer.topic 0 cs)
write-fresh whole w v small first_seq fresh done =
    let (cs, rest, spelled, chunks, published, _, all) = write-Written whole w v small in
    (
      cs,
      sym (append-nil (concat cs)) ∙ ap (λ t. concat cs ++ t) (sym (all done)) ∙ spelled,
      chunks,
      published
          ∙ ap (λ l. l ++ frames w.writer.topic w.writer.seq cs) fresh
          ∙ ap (λ n. frames w.writer.topic n cs) first_seq,
    )

-- A write that succeeds on a fresh connection, of less than 2^32 bytes, by a sender that keeps its window
-- and does not count past 2^64: in whatever order its messages
-- arrive, and however often, if each arrives and the buffer on the other side has room for each, what
-- that buffer sends on, put together, is exactly the data.
pub write_transfers :
    (sel : Select) (whole : Text) (w : Writing) (order : List ℕ) (size : ℕ)
    → IsWithin w.writer.fc
    → w.writer.fc.sent_bytes + length whole < 2 ^ 64
    → length whole < 2 ^ 32
    → w.writer.seq ≡ 0
    → w.transport.published ≡ []
    → (write whole w).1 ≡ written
    → let ms = (write whole w).0.transport.published in
      All (λ i. i < length ms) order
      → ((i : ℕ) → i < length ms → IsIn i order)
      → NoneRefused sel (arriving order ms) (new_reorder_buffer size)
      → concat (receive_messages sel (arriving order ms) (new_reorder_buffer size)).data_ch ≡ whole
write_transfers sel whole w order size v small short first_seq fresh done places every room =
    let (cs, spelled, chunks, published) = write-fresh whole w v small first_seq fresh done in
    let n : length (write whole w).0.transport.published ≡ length cs =
      ap length published ∙ length-frames w.writer.topic 0 cs in
    let few : length cs < 2 ^ 32 = omega (arith, length-chunks cs chunks, ap length spelled) in
    let received =
      receive_messages_lem sel w.writer.topic cs few size order
        (subst (λ k. All (λ i. i < k) order) n places)
        (subst (λ k. (i : ℕ) → i < k → IsIn i order) n every)
        (subst (λ ms. NoneRefused sel (arriving order ms) (new_reorder_buffer size)) published
          room) in
    ap (λ ms. concat (receive_messages sel (arriving order ms) (new_reorder_buffer size)).data_ch)
      published
    ∙ ap concat received
    ∙ spelled
