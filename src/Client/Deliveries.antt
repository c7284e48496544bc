-- ===== src/Client/Deliveries.antt =====
-- Data that the loops of internal/client/client.go write out.
use mqtt_forward.Prelude.{
  ltb, Option-cases, length, Text, ok, ℕ, ◌≡◌, refl, sym, ap, ◌∙◌, subst, inl, inr, Bool, true,
  false, Option, some, List, [], ◌∷◌, ◌++◌, map, append_assoc, append-nil, arith,
}
use mqtt_forward.Client.Loops.{
  LoopEvent, data_comes, LoopResult, Phase, going, draining, cancelling, cancel_draining, finished,
  LoopState, take_data, exec_event, loop_events,
}
use mqtt_forward.Writer.Frames.{concat}
use mqtt_forward.Client.Exec.{ack_message, write_session_data}
use mqtt_forward.Client.{AckState, record_ack, Client}

-- Data that come one after the other, each written out as a whole, and each acknowledgement published.
abbrev pub deliveries : List Text → List LoopEvent
deliveries [] = []
deliveries (p ∷ ps) = data_comes (some (length p)) true p ∷ deliveries ps

-- The phases in which data are taken.
abbrev pub takes_data : Phase → Bool
takes_data going = true
takes_data (draining m) = true
takes_data cancelling = true
takes_data (cancel_draining m) = true
takes_data (finished result) = false

-- What data that are written out change: the output grows by them, and acknowledgements are published.
pub record HasWritten (c : Client) (id : Text) (ps : List Text) (r r' : LoopState) : Type 0 where
  pub same_phase : r'.phase ≡ r.phase
  pub output : r'.output ≡ r.output ++ concat ps
  pub acks : List ℕ
  pub messages : r'.messages ≡ r.messages ++ map (λ n. ack_message c.device_id id n) acks

pub loop_events-append :
    (f : Phase → LoopEvent → LoopState → LoopState) (es fs : List LoopEvent) (r : LoopState)
    → loop_events f (es ++ fs) r ≡ loop_events f fs (loop_events f es r)
unfolding loop_events
loop_events-append f [] fs r = refl
loop_events-append f (e ∷ es) fs r = loop_events-append f es fs (f r.phase e r)

-- A loop that has returned does nothing more.
pub exec_finished :
    (c : Client) (id : Text) (result : LoopResult) (es : List LoopEvent) (r : LoopState)
    → r.phase ≡ finished result
    → loop_events (exec_event c id) es r ≡ r
unfolding loop_events exec_event
exec_finished c id result [] r h = refl
exec_finished c id result (e ∷ es) r h =
    let same : exec_event c id r.phase e r ≡ r = rw h refl in
    rw same (exec_finished c id result es r h)

write_session_data-ok :
    (c : Client) (id p : Text) (s : AckState)
    → (s' : AckState) × (ns : List ℕ) × (write_session_data c id (some (length p)) true p s
        ≡ ok (s', map (λ n. ack_message c.device_id id n) ns))
unfolding write_session_data
write_session_data-ok c id [] s = (s, [], refl)
write_session_data-ok c id (b ∷ bs) s =
    let n = length (b ∷ bs) in
    let whole : ltb n n ≡ false = ground arith in
    elim (Option-cases (record_ack n s).1) [
      | inl e ↦ ((record_ack n s).0, [], rw whole (rw (e, write_session_data) refl))
      | inr (count, e) ↦
          ((record_ack n s).0, count ∷ [], rw whole (rw (e, write_session_data) refl))
    ]

take_data-HasWritten :
    (c : Client) (id p : Text) (r : LoopState)
    → HasWritten c id (p ∷ []) r (take_data c id (some (length p)) true p r)
unfolding take_data
take_data-HasWritten c id p r =
    let (s', ns, e) = write_session_data-ok c id p r.ack_state in
    rw (e, take_data)
      (record {
        same_phase = refl;
        output = ap (◌++◌ r.output) (sym (append-nil p));
        acks = ns;
        messages = refl;
      })

exec_event-data :
    (c : Client) (id p : Text) (taken : Option ℕ) (sent : Bool) (phase : Phase) (r : LoopState)
    → takes_data phase ≡ true
    → exec_event c id phase (data_comes taken sent p) r ≡ take_data c id taken sent p r
unfolding exec_event
exec_event-data c id p taken sent going r h = refl
exec_event-data c id p taken sent (draining m) r h = refl
exec_event-data c id p taken sent cancelling r h = refl
exec_event-data c id p taken sent (cancel_draining m) r h = refl
exec_event-data c id p taken sent (finished result) r h = cc

map_append :
    (c : Client) (id : Text) (ms ns : List ℕ)
    → map (λ n. ack_message c.device_id id n) ms ++ map (λ n. ack_message c.device_id id n) ns
      ≡ map (λ n. ack_message c.device_id id n) (ms ++ ns)
map_append c id [] ns = refl
map_append c id (m ∷ ms) ns = ap (◌∷◌ (ack_message c.device_id id m)) (map_append c id ms ns)

HasWritten-trans :
    (c : Client) (id p : Text) (ps : List Text) (r r' r'' : LoopState)
    → HasWritten c id (p ∷ []) r r'
    → HasWritten c id ps r' r''
    → HasWritten c id (p ∷ ps) r r''
HasWritten-trans c id p ps r r' r'' v w = record {
  same_phase = w.same_phase ∙ v.same_phase;
  output =
      w.output
      ∙ ap (λ o. o ++ concat ps) v.output
      ∙ append_assoc r.output (p ++ []) (concat ps)
      ∙ ap (λ q. r.output ++ (q ++ concat ps)) (append-nil p);
  acks = v.acks ++ w.acks;
  messages =
      w.messages
      ∙ ap (λ m. m ++ map (λ n. ack_message c.device_id id n) w.acks) v.messages
      ∙ append_assoc r.messages _ _
      ∙ ap (◌++◌ r.messages) (map_append c id v.acks w.acks);
}

pub deliveries-HasWritten :
    (c : Client) (id : Text) (ps : List Text) (r : LoopState)
    → takes_data r.phase ≡ true
    → HasWritten c id ps r (loop_events (exec_event c id) (deliveries ps) r)
unfolding loop_events
deliveries-HasWritten c id [] r h = record {
  same_phase = refl;
  output = sym (append-nil r.output);
  acks = [];
  messages = sym (append-nil r.messages);
}
deliveries-HasWritten c id (p ∷ ps) r h =
    let r' = take_data c id (some (length p)) true p r in
    let one = take_data-HasWritten c id p r in
    let rest = deliveries-HasWritten c id ps r' (ap takes_data one.same_phase ∙ h) in
    subst (λ x. HasWritten c id (p ∷ ps) r (loop_events (exec_event c id) (deliveries ps) x))
      (sym (exec_event-data c id p (some (length p)) true r.phase r h))
      (HasWritten-trans c id p ps r r' _ one rest)
