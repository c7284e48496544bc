-- ===== src/Topic/Tests.antt =====
-- Examples for internal/tunnel/protocol.go, topics.
use mqtt_forward.Prelude.{Text, codes, text_eq, ok, split, ◌≡◌, refl, arith}
use mqtt_forward.Topic.{
  in_control_topic, in_data_topic, out_control_topic, out_data_topic, parse_data, parse_parts,
  parse_topic,
}
use mqtt_forward.Topic.RoundTrip.{
  control_of, data_of, parse_topic_complete, IsParsedFrom, parse_topic_sound,
}

abbrev device_7 : Text
device_7 = codes "device-7"

abbrev session_a1 : Text
session_a1 = codes "a1"

parse_topic_complete_example :
    (parse_topic (in_control_topic device_7) ≡ ok (control_of device_7))
    × (parse_topic (out_control_topic device_7) ≡ ok (control_of device_7))
    × (parse_topic (in_data_topic device_7 session_a1) ≡ ok (data_of device_7 session_a1))
    × (parse_topic (out_data_topic device_7 session_a1) ≡ ok (data_of device_7 session_a1))
parse_topic_complete_example =
    parse_topic_complete device_7 session_a1 (ground arith) (ground arith)

parse_topic_sound_example :
    IsParsedFrom (codes "tunnel/device-7/in/data/a1") (data_of device_7 session_a1)
unfolding parse_topic parse_parts parse_data split text_eq
parse_topic_sound_example = parse_topic_sound (codes "tunnel/device-7/in/data/a1") refl
