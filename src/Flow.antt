-- ===== src/Flow.antt =====
-- internal/tunnel/session.go: `FlowControl`. Byte counts are `uint64`, so sums are taken modulo 2^64.
pub mod Window
pub mod Tests
use mqtt_forward.Prelude.{
  ltb, leb, if◌then◌else◌, ℕ, ◌+◌, ◌-◌, ◌*◌, ◌%◌, ◌^◌, Bool, true, false, List, [], ◌∷◌,
}

pub record FlowControl : Type 0 where
  pub sent_bytes : ℕ
  pub acked_bytes : ℕ
  pub window_size : ℕ
  pub blocked_notify : Bool

abbrev pub flow_control_window : ℕ
flow_control_window = 256 * 1024

unfoldable pub new_flow_control : ℕ → FlowControl
new_flow_control window_size = record {
  sent_bytes = 0;
  acked_bytes = 0;
  window_size = window_size;
  blocked_notify = false;
}

unfoldable pub outstanding : FlowControl → ℕ
outstanding fc = if ltb fc.acked_bytes fc.sent_bytes then fc.sent_bytes - fc.acked_bytes else 0

unfoldable pub can_send : FlowControl → ℕ → Bool
unfolding outstanding
can_send fc n = leb ((outstanding fc + n) % 2 ^ 64) fc.window_size

unfoldable pub add_sent : ℕ → FlowControl → FlowControl
add_sent n fc = record fc { sent_bytes = (fc.sent_bytes + n) % 2 ^ 64 }

-- An acknowledgement of more than was sent counts for what was sent; an old one changes nothing. In
-- any case the blocked sender, if there is one, is told to look again.
unfoldable pub update_ack : ℕ → FlowControl → FlowControl
update_ack acked fc =
    let acked = if ltb fc.sent_bytes acked then fc.sent_bytes else acked in
    record fc {
      acked_bytes = if ltb fc.acked_bytes acked then acked else fc.acked_bytes;
      blocked_notify = true;
    }

-- What may happen while a sender waits: another goroutine handles an acknowledgement, or the sender
-- takes a case of its `select`: the notification, which it can only if one is there, or the end of its
-- context. Where both are ready, which it takes is the choice of the events.
pub data Event : Type 0 where
  ack : ℕ → Event
  notified done : Event

-- The wait is over with the events that have not happened yet, the context has ended, or the
-- events are all over and the sender still waits.
pub data Wait : Type 0 where
  granted : FlowControl → List Event → Wait
  cancelled : FlowControl → Wait
  blocked : FlowControl → Wait

-- The sender after it has taken the notification, in its next round: it tests again.
abbrev pub taken_notice : FlowControl → FlowControl
taken_notice fc = record fc { blocked_notify = false }

-- The sender in its `select`. Once nothing else happens it takes a notification that is there.
unfoldable pub select_wait : ℕ → List Event → FlowControl → Wait
unfolding can_send update_ack
select_wait n [] fc =
    if fc.blocked_notify
    then if can_send fc n then granted (taken_notice fc) [] else blocked (taken_notice fc)
    else blocked (taken_notice fc)
select_wait n (done ∷ events) fc = cancelled fc
select_wait n (ack acked ∷ events) fc = select_wait n events (update_ack acked fc)
select_wait n (notified ∷ events) fc =
    let rest = select_wait n events (taken_notice fc) in
    let still = select_wait n events fc in
    if fc.blocked_notify
    then if can_send fc n then granted (taken_notice fc) events else rest
    else still

unfoldable pub wait_for_window : ℕ → List Event → FlowControl → Wait
unfolding select_wait
wait_for_window n events fc = if can_send fc n then granted fc events else select_wait n events fc
