-- ===== src/Client/AckCount.antt =====
-- The client counts what it receives as the sessions of a device do.
use mqtt_forward.Prelude.{ℕ, ◌≡◌, Option, none, some, List, [], ◌∷◌, arith}
use mqtt_forward.Client.{AckState, record_ack}
use mqtt_forward.Pump.{Receipt, ack_interval, count_received}

abbrev pub receipt_of : AckState → Receipt
receipt_of s = record { total_received = s.total; last_ack = s.last }

abbrev pub acknowledged : Option ℕ → List ℕ
acknowledged none = []
acknowledged (some n) = n ∷ []

-- With the interval that `newSessionAckState` sets, `record` does for each payload what the loop of a
-- session does: the same counters, and the same acknowledgement at the same time.
pub record_ack-count_received :
    (n : ℕ) (s : AckState)
    → s.interval ≡ ack_interval
    → let r = record_ack n s in
      (count_received n (receipt_of s) ≡ (receipt_of r.0, acknowledged r.1))
      × (r.0.interval ≡ ack_interval)
unfolding record_ack count_received
record_ack-count_received n s h = ground arith
