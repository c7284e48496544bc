-- ===== src/Pump/Acks.antt =====
-- The acknowledgements of a receiver keep the sender going.
use mqtt_forward.Prelude.{
  length, All, Text, ℕ, ◌+◌, ◌^◌, ◌≤◌, ◌<◌, ◌≡◌, refl, ◌∙◌, subst, ◌⊎◌, inl, inr, Bool, true, false,
  List, [], ◌∷◌, ◌++◌, arith,
}
use mqtt_forward.Flow.{FlowControl, flow_control_window, can_send, update_ack}
use mqtt_forward.Flow.Window.{IsWithin, update_ack-IsWithin, can_send_iff, update_ack_lem}
use mqtt_forward.Frame.{max_payload_size}
use mqtt_forward.Pump.{Receipt, ack_interval, new_receipt, count_received, write_each}

abbrev pub total_length : List (Text × Bool) → ℕ
total_length [] = 0
total_length ((payload, _) ∷ ps) = length payload + total_length ps

-- The sender's flow control after a list of acknowledgements.
abbrev pub update_acks : List ℕ → FlowControl → FlowControl
update_acks [] fc = fc
update_acks (n ∷ ns) fc = update_acks ns (update_ack n fc)

-- The counters are in order, and less than an interval is not acknowledged.
abbrev pub IsCounted : Receipt → Type 0
IsCounted r = (r.last_ack ≤ r.total_received) × (r.total_received < r.last_ack + ack_interval)

-- One payload: either less than an interval is open and nothing is acknowledged, or all of it is.
pub count_received_cases :
    (n : ℕ) (r : Receipt)
    → IsCounted r
    → r.total_received + n < 2 ^ 64
    → ((count_received n r ≡ (record r { total_received = r.total_received + n }, []))
        × (r.total_received + n < r.last_ack + ack_interval))
      ⊎ (count_received n r ≡ (
        record { total_received = r.total_received + n; last_ack = r.total_received + n },
        (r.total_received + n) ∷ [],
      ))
unfolding count_received
count_received_cases n r v small = ground arith

-- What the acknowledgements of a run do to a sender that has sent all that is received.
record IsCaughtUp (r : Receipt) (fc fc' : FlowControl) : Type 0 where
  within : IsWithin fc'
  acked : r.last_ack ≤ fc'.acked_bytes
  counted : IsCounted r
  same_sent : fc'.sent_bytes ≡ fc.sent_bytes
  same_window : fc'.window_size ≡ fc.window_size

pub update_ack-reaches :
    (count : ℕ) (fc : FlowControl)
    → count ≤ fc.sent_bytes
    → count ≤ (update_ack count fc).acked_bytes
unfolding update_ack
update_ack-reaches count fc h = ground arith

write_each-cons :
    (payload : Text) (ps : List (Text × Bool)) (r : Receipt) (one : Receipt × List ℕ)
    → count_received (length payload) r ≡ one
    → write_each ((payload, true) ∷ ps) r
      ≡ ((write_each ps one.0).0, one.1 ++ (write_each ps one.0).1)
write_each-cons payload ps r one e =
    subst
      (λ o.
        write_each ((payload, true) ∷ ps) r ≡ ((write_each ps o.0).0, o.1 ++ (write_each ps o.0).1))
      e (unfold write_each in refl)

write_each-IsCaughtUp :
    (ps : List (Text × Bool)) (r : Receipt) (fc : FlowControl)
    → All (λ p. p.1 ≡ true) ps
    → IsWithin fc
    → IsCounted r
    → r.last_ack ≤ fc.acked_bytes
    → r.total_received + total_length ps ≤ fc.sent_bytes
    → r.total_received + total_length ps < 2 ^ 64
    → let run = write_each ps r in
      IsCaughtUp run.0 fc (update_acks run.1 fc)
      × (run.0.total_received ≡ r.total_received + total_length ps)
write_each-IsCaughtUp [] r fc h v counted acked sent small =
    unfold write_each in
    (
      record { within = v; acked = acked; counted = counted; same_sent = refl; same_window = refl },
      omega arith,
    )
write_each-IsCaughtUp ((payload, false) ∷ ps) r fc h v counted acked sent small = cc
write_each-IsCaughtUp ((payload, true) ∷ ps) r fc h v counted acked sent small =
    let n = length payload in
    elim (count_received_cases n r counted (omega arith)) [
      | inl (e, lt) ↦
          let (c, total) =
            write_each-IsCaughtUp ps (record r { total_received = r.total_received + n }) fc h.1 v
              (omega arith, lt) acked (omega arith) (omega arith) in
          rw (write_each-cons payload ps r _ e) (c, omega (arith, total))
      | inr e ↦
          let count = r.total_received + n in
          let (_, _, same_sent, same_window, _, taken) = update_ack_lem count fc v.acked_le in
          let (c, total) =
            write_each-IsCaughtUp ps (record { total_received = count; last_ack = count })
              (update_ack count fc) h.1 (update_ack-IsWithin count fc v) (omega arith, omega arith)
              (update_ack-reaches count fc (omega arith)) (omega (arith, same_sent))
              (omega arith) in
          rw (write_each-cons payload ps r _ e) (
            record {
              within = c.within;
              acked = c.acked;
              counted = c.counted;
              same_sent = c.same_sent ∙ same_sent;
              same_window = c.same_window ∙ same_window;
            },
            omega (arith, total),
          )
    ]

-- When the receiver has written all that was sent, with no write failing, and the sender has taken its
-- acknowledgements, the window of 256 KiB has room for a next piece of up to 64 KiB: a transfer does
-- not stop because an acknowledgement is held back. (The sender keeps its window, and fewer than 2^64
-- bytes are sent.)
pub acks_reopen_window :
    (ps : List (Text × Bool)) (fc : FlowControl) (n : ℕ)
    → All (λ p. p.1 ≡ true) ps
    → IsWithin fc
    → fc.window_size ≡ flow_control_window
    → fc.sent_bytes ≡ total_length ps
    → total_length ps < 2 ^ 64
    → n ≤ max_payload_size
    → can_send (update_acks (write_each ps new_receipt).1 fc) n ≡ true
acks_reopen_window ps fc n h v window sent small le =
    let (c, total) =
      write_each-IsCaughtUp ps new_receipt fc h v (omega arith, omega arith) (omega arith)
        (omega arith) (omega arith) in
    (can_send_iff (update_acks (write_each ps new_receipt).1 fc) n c.within (omega arith)).1
      (omega (arith, c.acked, c.counted.0, c.counted.1, c.same_sent, c.same_window))
