-- ===== src/Tunnel/Handled.antt =====
-- What becomes of the messages that the receiver has handled: internal/tunnel/session.go, session_tcp.go.
use mqtt_forward.Prelude.{
  Bool-cases, All, All-map, get_elem?, get_elem?-All, get_elem?-append, Text, ℕ, ◌+◌, ◌^◌, ◌<◌, ◌≡◌,
  sym, ap, ◌∙◌, subst, inl, inr, Result, ok, Bool, none, some, List, [], ◌∷◌, arith,
}
use mqtt_forward.Tunnel.{
  Tunnel, new_tunnel, send_piece, handle_message, take_payload, handle_ack, sends, delivers, takes,
  acked, Reach, here, then, pieces,
}
use mqtt_forward.Tunnel.Invariant.{Fits, IsTunnel, IsSent}
use mqtt_forward.Tunnel.Moves.{Fits-mono, Reach-IsTunnel}
use mqtt_forward.Transport.{PubMessage, bytes}
use mqtt_forward.Transfer.{receive_payload, receive_payload-frame}
use mqtt_forward.Reorder.{find, Select, insert_frame}
use mqtt_forward.Reorder.Order.{insert_frame-IsOrdered}
use mqtt_forward.Reorder.Delivery.{IsIn, IsKept, Extends-IsKept, Inserted-Extends}
use mqtt_forward.Writer.{Writing, data_message, send_chunk}
use mqtt_forward.Writer.Frames.{send_chunk-published, send_chunk-refused}
use mqtt_forward.Frame.{FrameError, encode_data_frame, decode_data_frame, decode-encode}

-- The places of the messages that were delivered on the way, after those in the list.
abbrev pub handled : {stream : ℕ → Text} {t u : Tunnel} → List ℕ → Reach stream t u → List ℕ
handled ks here = ks
handled ks (then r (sends _ _)) = handled ks r
handled ks (then r (delivers _ i _ _ _)) = i ∷ handled ks r
handled ks (then r (takes _ _ _)) = handled ks r
handled ks (then r (acked _ _ _ _)) = handled ks r

-- No message that was delivered on the way was refused for lack of room in the buffer.
abbrev pub NoneRefused : {stream : ℕ → Text} {t u : Tunnel} → Reach stream t u → Type 0
NoneRefused here = Unit
NoneRefused (then r (sends _ _)) = NoneRefused r
NoneRefused (then {u} r (delivers sel _ m _ _)) =
    NoneRefused r × ((receive_payload sel m.payload u.rb).1 ≡ none)
NoneRefused (then r (takes _ _ _)) = NoneRefused r
NoneRefused (then r (acked _ _ _ _)) = NoneRefused r

-- Every delivery on the way is the first of its message: it is not in the list, and was not delivered
-- before on the way.
abbrev pub FirstTimes : {stream : ℕ → Text} {t u : Tunnel} → List ℕ → Reach stream t u → Type 0
FirstTimes ks here = Unit
FirstTimes ks (then r (sends _ _)) = FirstTimes ks r
FirstTimes ks (then r (delivers _ i _ _ _)) = FirstTimes ks r × (¬ IsIn i (handled ks r))
FirstTimes ks (then r (takes _ _ _)) = FirstTimes ks r
FirstTimes ks (then r (acked _ _ _ _)) = FirstTimes ks r

-- The message at the place has a piece that the buffer holds or has sent.
abbrev pub IsDone : (ℕ → Text) → Tunnel → ℕ → Type 0
IsDone stream t k =
    (i : ℕ) × (i < t.writer.seq)
    × (get_elem? t.transport.published k ≡ some (data_message t.writer.topic i (stream i)))
    × IsKept stream t.rb i

-- Two messages of pieces are the same only for the same number.
data_message-injective :
    (topic : Text) (i j : ℕ) (p q : Text)
    → i < 2 ^ 32
    → j < 2 ^ 32
    → data_message topic i p ≡ data_message topic j q
    → i ≡ j
data_message-injective topic i j p q a b e = number (
    sym (decode-encode i p a)
    ∙ ap decode_data_frame (frame (ap (λ m. m.payload) e))
    ∙ decode-encode j q b)
  where
    decoded : ℕ → Text → Result FrameError (ℕ × Text)
    decoded i p = ok (i, p)

    frame :
        bytes (encode_data_frame i p) ≡ bytes (encode_data_frame j q)
        → encode_data_frame i p ≡ encode_data_frame j q
    frame h = cc

    number : decoded i p ≡ decoded j q → i ≡ j
    number h = cc

-- A message that the buffer waits for has not been handled.
pub IsDone-waits :
    (stream : ℕ → Text) (t : Tunnel) (ks : List ℕ) (k : ℕ)
    → IsTunnel stream t
    → All (IsDone stream t) ks
    → t.rb.next_seq < t.writer.seq
    → get_elem? t.transport.published k
      ≡ some (data_message t.writer.topic t.rb.next_seq (stream t.rb.next_seq))
    → ¬ IsIn k ks
IsDone-waits stream t [] k v h lt e i = i
IsDone-waits stream t (x ∷ ks) k v ((s, below, e', kept), h) lt e (inl same) =
    let n = t.rb.next_seq in
    let there : get_elem? t.transport.published k
        ≡ some (data_message t.writer.topic s (stream s)) =
      ap (get_elem? t.transport.published) (sym same) ∙ e' in
    let one : data_message t.writer.topic s (stream s) ≡ data_message t.writer.topic n (stream n) =
      cc in
    let number : s ≡ n =
      data_message-injective t.writer.topic s n (stream s) (stream n) (omega (arith, v.short))
        (omega (arith, v.short)) one in
    elim kept [
      | inl passed ↦ omega arith
      | inr held ↦ absurd (gap_held s n number (stream s) held v.gap)
    ]
  where
    gap_held :
        (s n : ℕ) → s ≡ n → (p : Text) → find s t.rb.buf ≡ some p → find n t.rb.buf ≡ none → ⊥
    gap_held s n e p a b = cc
IsDone-waits stream t (x ∷ ks) k v (_, h) lt e (inr i) = IsDone-waits stream t ks k v h lt e i

send_piece-IsDone :
    (stream : ℕ → Text) (t : Tunnel) (ks : List ℕ)
    → t.writer.seq + 1 < 2 ^ 32
    → All (IsDone stream t) ks
    → All (IsDone stream (send_piece (stream t.writer.seq) t)) ks
unfolding send_piece
send_piece-IsDone stream t ks short h =
    All-map (IsDone stream t) _
      (λ k (i, lt, e, kept). (i, omega (arith, short, lt), stays k _ e, kept)) ks h
  where
    w : Writing
    w = record { writer = t.writer; transport = t.transport; events = [] }

    stays :
        (k : ℕ) (m : PubMessage)
        → get_elem? t.transport.published k ≡ some m
        → get_elem? (send_chunk (stream t.writer.seq) t.writer.fc [] w).0.transport.published k
          ≡ some m
    stays k m e = elim (Bool-cases (send_chunk (stream t.writer.seq) t.writer.fc [] w).1) [
      | inl b ↦
          rw (send_chunk-published (stream t.writer.seq) t.writer.fc [] w b)
            (get_elem?-append t.transport.published _ k m e)
      | inr b ↦ rw (send_chunk-refused (stream t.writer.seq) t.writer.fc [] w b) e
    ]

-- A delivery keeps what was handled, and adds its message if it is not refused.
pub handle_message-IsDone :
    (stream : ℕ → Text) (t : Tunnel) (ks : List ℕ) (sel : Select) (k : ℕ) (m : PubMessage)
    → IsTunnel stream t
    → get_elem? t.transport.published k ≡ some m
    → (receive_payload sel m.payload t.rb).1 ≡ none
    → All (IsDone stream t) ks
    → All (IsDone stream (handle_message sel m t)) (k ∷ ks)
unfolding handle_message
handle_message-IsDone stream t ks sel k m v e taken h =
    let (s, lt, same) =
      get_elem?-All (IsSent stream t.writer.topic t.writer.seq) t.transport.published k m
        v.published e in
    let frame : receive_payload sel m.payload t.rb ≡ insert_frame sel s (stream s) t.rb =
      ap (λ m. receive_payload sel m.payload t.rb) same
      ∙ receive_payload-frame sel t.writer.topic s (stream s) t.rb (omega (arith, v.short)) in
    let (_, _, ins) =
      insert_frame-IsOrdered stream t.writer.seq v.short sel s t.rb lt v.ordered v.gap in
    let (grown, new) = Inserted-Extends sel stream t.writer.seq v.short s t.rb _ ins in
    let took : (insert_frame sel s (stream s) t.rb).1 ≡ none = sym (ap (λ r. r.1) frame) ∙ taken in
    let back : (i : ℕ)
        → IsKept stream (insert_frame sel s (stream s) t.rb).0 i
        → IsKept stream (receive_payload sel m.payload t.rb).0 i =
      λ i. subst (λ r. IsKept stream r.0 i) (sym frame) in
    (
      (s, lt, e ∙ ap some same, back s (new took)),
      All-map (IsDone stream t) _
          (λ k (i, lt, e, kept).
            (i, lt, e, back i (Extends-IsKept sel stream t.writer.seq v.short t.rb _ i grown kept)))
          ks h,
    )

-- Everything that was handled on the way, and not refused, is held or was sent.
pub Reach-IsDone :
    (stream : ℕ → Text) (topic : Text) (accepts : List PubMessage → PubMessage → Bool) {t : Tunnel}
    (r : Reach stream (new_tunnel topic accepts) t)
    → Fits stream (pieces r)
    → NoneRefused r
    → All (IsDone stream t) (handled [] r)
unfolding take_payload handle_ack
Reach-IsDone stream topic accepts here fits kept = tt
Reach-IsDone stream topic accepts (then {u} r (sends room e)) fits kept =
    let before = Fits-mono stream (pieces r) fits in
    let (_, count) = Reach-IsTunnel stream topic accepts r before in
    rw e (
      send_piece-IsDone stream u (handled [] r) (omega (arith, fits.0, count))
        (Reach-IsDone stream topic accepts r before kept))
Reach-IsDone stream topic accepts (then {u} r (delivers sel i m h e)) fits (kept, taken) =
    let (v, _) = Reach-IsTunnel stream topic accepts r fits in
    subst (λ t. All (IsDone stream t) (i ∷ handled [] r)) (sym e)
      (handle_message-IsDone stream u (handled [] r) sel i m v h taken
        (Reach-IsDone stream topic accepts r fits kept))
Reach-IsDone stream topic accepts (then r (takes p h e)) fits kept =
    rw e (Reach-IsDone stream topic accepts r fits kept)
Reach-IsDone stream topic accepts (then r (acked i n h e)) fits kept =
    rw e (Reach-IsDone stream topic accepts r fits kept)
