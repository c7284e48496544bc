-- ===== src/Pump/Tests.antt =====
-- Examples for the copy loops of the sessions.
use mqtt_forward.Prelude.{Text, codes, ◌≡◌, refl, Bool, true, false, List, [], ◌∷◌, arith}
use mqtt_forward.Flow.{FlowControl, can_send}
use mqtt_forward.Flow.Window.{IsWithin}
use mqtt_forward.Pump.{new_receipt, write_each}
use mqtt_forward.Pump.Acks.{update_acks, acks_reopen_window}

abbrev hello_world : List (Text × Bool)
hello_world = (codes "hello", true) ∷ (codes "world", true) ∷ []

abbrev ten_sent : FlowControl
ten_sent = record {
  sent_bytes = 10;
  acked_bytes = 0;
  window_size = 262_144;
  blocked_notify = false;
}

ten_sent-IsWithin : IsWithin ten_sent
ten_sent-IsWithin = record { acked_le = omega arith; window = omega arith; small = omega arith }

acks_reopen_window_example :
    can_send (update_acks (write_each hello_world new_receipt).1 ten_sent) 65_536 ≡ true
acks_reopen_window_example =
    acks_reopen_window hello_world ten_sent 65_536 (refl, (refl, tt)) ten_sent-IsWithin refl refl
      (omega arith) (omega arith)
