-- ===== src/Client/Ping.antt =====
-- internal/client/client.go: `sendPing`, `sendKeepalivePing`, and `RunPing` with its statistics. Times are
-- nanoseconds; the ids of pings are an argument.
use mqtt_forward.Prelude.{
  ltb, ◌==◌, if◌then◌else◌, Text, insert, delete, Result, err, ok, pos, ℕ, zero, suc, ◌+◌, ◌-◌, ◌/◌,
  Bool, true, false, ◌||◌, Option, none, some, List, [], ◌∷◌,
}
use mqtt_forward.Client.{Client}
use mqtt_forward.Client.Connecting.{OpenError, not_published, wait_reply}
use mqtt_forward.Transport.MessageType
use mqtt_forward.Transport.{ControlMessage, control_message, PubMessage, json_message}
use mqtt_forward.Topic.{in_control_topic, out_control_topic}

-- The message, with the topic that the device is to answer on.
abbrev pub ping_message : Text → Text → ℕ → PubMessage
ping_message device_id ping_id timestamp =
    record (json_message (in_control_topic device_id)
      (record (control_message MessageType.ping ping_id) { timestamp = pos timestamp }) 0) {
        response_topic = out_control_topic device_id;
      }

-- The channel is there for as long as the call lasts.
unfoldable pub send_ping_message :
    Text
    → ℕ
    → Bool
    → List (ℕ × Option ControlMessage)
    → OpenError
    → Client
    → Client × List PubMessage × Result OpenError ControlMessage
unfolding wait_reply
send_ping_message ping_id timestamp accepted msgs end c =
    let waiting = record c { ack_chans = insert ping_id none c.ack_chans } in
    let ping_msg = ping_message c.device_id ping_id timestamp in
    if accepted
    then (let (c', out, answer) = wait_reply ping_id msgs end waiting in
        (record c' { ack_chans = delete ping_id c'.ack_chans }, ping_msg ∷ out, answer))
    else (
      record waiting { ack_chans = delete ping_id waiting.ack_chans },
      ping_msg ∷ [],
      err not_published,
    )

-- `sendPing`: the time since the ping was sent, on the clock's time when the answer is there.
unfoldable pub send_ping :
    Text
    → ℕ
    → ℕ
    → Bool
    → List (ℕ × Option ControlMessage)
    → OpenError
    → Client
    → Client × List PubMessage × Result OpenError ℕ
unfolding send_ping_message
send_ping ping_id ts now accepted msgs end c =
    let sent = send_ping_message ping_id ts accepted msgs end c in
    elim (sent.2) [ err e ↦ (sent.0, sent.1, err e) | ok _ ↦ (sent.0, sent.1, ok (now - ts)) ]

-- `sendKeepalivePing`: whether it is answered.
unfoldable pub send_keepalive_ping :
    Text
    → ℕ
    → Bool
    → List (ℕ × Option ControlMessage)
    → OpenError
    → Client
    → Client × List PubMessage × Bool
unfolding send_ping_message
send_keepalive_ping ping_id now accepted msgs end c =
    let sent = send_ping_message ping_id now accepted msgs end c in
    elim (sent.2) [ err _ ↦ (sent.0, sent.1, false) | ok _ ↦ (sent.0, sent.1, true) ]

pub record PingStats : Type 0 where
  pub sent : ℕ
  pub received : ℕ
  pub min_rtt : ℕ
  pub max_rtt : ℕ
  pub total_rtt : ℕ

unfoldable pub no_pings : PingStats
no_pings = record { sent = 0; received = 0; min_rtt = 0; max_rtt = 0; total_rtt = 0 }

-- One round of the loop of `RunPing`; no answer is a timeout.
unfoldable pub count_ping : Option ℕ → PingStats → PingStats
count_ping none s = record s { sent = s.sent + 1 }
count_ping (some rtt) s = record {
  sent = s.sent + 1;
  received = s.received + 1;
  min_rtt = if (s.min_rtt == 0) || ltb rtt s.min_rtt then rtt else s.min_rtt;
  max_rtt = if ltb s.max_rtt rtt then rtt else s.max_rtt;
  total_rtt = s.total_rtt + rtt;
}

-- The rounds: the answers to the pings, as far as the context lasts, `count` at most.
unfoldable pub run_ping : ℕ → List (Option ℕ) → PingStats → PingStats
unfolding count_ping
run_ping zero rest s = s
run_ping (suc count) [] s = s
run_ping (suc count) (a ∷ rest) s = run_ping count rest (count_ping a s)

-- `avgRTT` of `printPingStats`.
unfoldable pub avg_rtt : PingStats → ℕ
avg_rtt s = s.total_rtt / s.received
