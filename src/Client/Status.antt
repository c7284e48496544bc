-- ===== src/Client/Status.antt =====
-- internal/client/status.go: `RunStatus`. Text is ASCII; the text of a duration is an argument.
pub mod Table
use mqtt_forward.Prelude.{
  if◌then◌else◌, is_some, Text, codes, text_eq, Dict, lookup, insert, Result, err, ok, pos, text_le,
  ℕ, zero, suc, ◌-◌, Bool, ◌&&◌, Option, none, some, List, [], ◌∷◌, ◌++◌,
}
use mqtt_forward.Topic.{shared_ping_topic, ParsedTopic, TopicError, parse_topic}
use mqtt_forward.Transport.MessageType
use mqtt_forward.Transport.{ControlMessage, control_message, PubMessage, json_message}

pub record DeviceStatus : Type 0 where
  pub version : Text
  pub arch : Text
  pub rtt : ℕ

-- What is sent to all devices.
unfoldable pub status_ping : Text → ℕ → PubMessage
unfolding shared_ping_topic
status_ping ping_id sent_at =
    json_message shared_ping_topic
      (record (control_message MessageType.ping ping_id) { timestamp = pos sent_at }) 0

-- A message of a device: its topic, its payload if it unmarshals, and when it comes.
pub record Reply : Type 0 where
  pub topic : Text
  pub message : Option ControlMessage
  pub at : ℕ

abbrev pub is_pong : Text → ControlMessage → Bool
is_pong ping_id msg = text_eq msg.type MessageType.pong && text_eq msg.session_id ping_id

-- The first pong of a device counts.
unfoldable pub put_first : Text → DeviceStatus → Dict DeviceStatus → Dict DeviceStatus
unfolding lookup insert
put_first device_id status devices =
    if is_some (lookup device_id devices) then devices else insert device_id status devices

-- The handler of `Subscribe`, on the parsed topic and the message.
unfoldable pub take_reply :
    Text
    → ℕ
    → ℕ
    → Result TopicError ParsedTopic
    → Option ControlMessage
    → Dict DeviceStatus
    → Dict DeviceStatus
unfolding put_first
take_reply ping_id sent_at now (err _) message devices = devices
take_reply ping_id sent_at now (ok parsed) none devices = devices
take_reply ping_id sent_at now (ok parsed) (some msg) devices =
    if is_pong ping_id msg
    then put_first parsed.device_id
        (record { version = msg.version; arch = msg.arch; rtt = now - sent_at }) devices
    else devices

unfoldable pub handle_reply : Text → ℕ → Reply → Dict DeviceStatus → Dict DeviceStatus
unfolding take_reply
handle_reply ping_id sent_at r devices =
    take_reply ping_id sent_at r.at (parse_topic r.topic) r.message devices

unfoldable pub handle_replies : Text → ℕ → List Reply → Dict DeviceStatus → Dict DeviceStatus
unfolding handle_reply
handle_replies ping_id sent_at [] devices = devices
handle_replies ping_id sent_at (r ∷ rs) devices =
    handle_replies ping_id sent_at rs (handle_reply ping_id sent_at r devices)

-- `sort.Slice` by the device id, on entries with different ids.
unfoldable pub insert_sorted : Text × DeviceStatus → Dict DeviceStatus → Dict DeviceStatus
unfolding text_le
insert_sorted e [] = e ∷ []
insert_sorted e (f ∷ l) =
    let rest = insert_sorted e l in if text_le e.0 f.0 then e ∷ f ∷ l else f ∷ rest

unfoldable pub sort_devices : Dict DeviceStatus → Dict DeviceStatus
unfolding insert_sorted
sort_devices [] = []
sort_devices (e ∷ l) = insert_sorted e (sort_devices l)

-- The version that is printed.
unfoldable pub version_text : DeviceStatus → Text
version_text s = elim (s.version) [
  | [] ↦ codes "-"
  | ◌∷◌ c v ↦ elim (s.arch) [ [] ↦ c ∷ v | ◌∷◌ d a ↦ (c ∷ v) ++ codes "/" ++ (d ∷ a) ]
]

-- `%-ns`: blanks up to the width.
unfoldable pub pad : ℕ → Text → Text
pad zero t = t
pad (suc n) [] = 32 ∷ pad n []
pad (suc n) (c ∷ t) = c ∷ pad n t

unfoldable pub status_line : Text → Text → Text → Text
unfolding pad
status_line a b c = pad 30 a ++ (codes " " ++ (pad 18 b ++ (codes " " ++ (c ++ codes "\n"))))

unfoldable pub status_lines : (ℕ → Text) → Dict DeviceStatus → Text
unfolding status_line version_text
status_lines show_rtt [] = []
status_lines show_rtt ((id, s) ∷ l) =
    status_line id (version_text s) (show_rtt s.rtt) ++ status_lines show_rtt l

-- The table that is printed when the wait is over.
unfoldable pub status_table : (ℕ → Text) → Dict DeviceStatus → Text
unfolding status_lines sort_devices
status_table show_rtt devices =
    let lines = status_lines show_rtt (sort_devices devices) in
    let header = status_line (codes "DEVICE") (codes "VERSION") (codes "RTT") in
    elim (sort_devices devices) [
      | [] ↦ header ++ codes "no devices responded\n"
      | ◌∷◌ e l ↦ header ++ lines
    ]

unfoldable pub run_status : Text → ℕ → List Reply → Dict DeviceStatus
unfolding handle_replies
run_status ping_id sent_at replies = handle_replies ping_id sent_at replies []
