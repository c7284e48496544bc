-- ===== src/Flow/Tests.antt =====
-- Examples for internal/tunnel/session.go, flow control.
use mqtt_forward.Prelude.{◌≡◌, false, List, [], ◌∷◌, ◌++◌, map, arith}
use mqtt_forward.Flow.{FlowControl, Event, ack, notified, done, granted, wait_for_window}
use mqtt_forward.Flow.Window.{IsWithin, wait_for_window_wakes}

-- A full window of ten bytes.
abbrev full : FlowControl
full = record { sent_bytes = 10; acked_bytes = 0; window_size = 10; blocked_notify = false }

full-IsWithin : IsWithin full
full-IsWithin = record { acked_le = omega arith; window = omega arith; small = omega arith }

wait_for_window_wakes_example :
    (fc' : FlowControl) × (events' : List Event) × (wait_for_window 4
        (map ack ((2 ∷ []) ++ 5 ∷ 3 ∷ []) ++ notified ∷ done ∷ [])
        full
      ≡ granted fc' events')
wait_for_window_wakes_example =
    wait_for_window_wakes 4 5 (2 ∷ []) (3 ∷ []) (done ∷ []) full full-IsWithin (omega arith)
      (omega arith) (omega arith)
