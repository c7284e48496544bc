-- ===== src/Topic.antt =====
-- internal/tunnel/protocol.go: the MQTT topics of a tunnel, the filters and `ParseTopic`.
pub mod RoundTrip
pub mod Tests
use mqtt_forward.Prelude.{
  Text, codes, text_eq, split, join, Result, ok, err, Bool, true, false, List, [], ◌∷◌, not, ◌||◌,
  if◌then◌else◌,
}

abbrev pub topic_prefix : Text
topic_prefix = codes "tunnel"

abbrev pub topic_in : Text
topic_in = codes "in"

abbrev pub topic_out : Text
topic_out = codes "out"

abbrev pub topic_control : Text
topic_control = codes "control"

abbrev pub topic_data : Text
topic_data = codes "data"

abbrev pub topic_shared : Text
topic_shared = codes "__shared__"

abbrev pub message_type_ping : Text
message_type_ping = codes "ping"

abbrev pub any_segment : Text
any_segment = codes "+"

unfoldable pub shared_ping_topic : Text
unfolding join
shared_ping_topic = join b'/' (topic_prefix ∷ topic_shared ∷ message_type_ping ∷ [])

unfoldable pub all_out_control_filter : Text
unfolding join
all_out_control_filter = join b'/' (topic_prefix ∷ any_segment ∷ topic_out ∷ topic_control ∷ [])

unfoldable pub in_control_topic : Text → Text
unfolding join
in_control_topic device_id = join b'/' (topic_prefix ∷ device_id ∷ topic_in ∷ topic_control ∷ [])

unfoldable pub in_data_topic : Text → Text → Text
unfolding join
in_data_topic device_id session_id =
    join b'/' (topic_prefix ∷ device_id ∷ topic_in ∷ topic_data ∷ session_id ∷ [])

unfoldable pub out_control_topic : Text → Text
unfolding join
out_control_topic device_id = join b'/' (topic_prefix ∷ device_id ∷ topic_out ∷ topic_control ∷ [])

unfoldable pub out_data_topic : Text → Text → Text
unfolding join
out_data_topic device_id session_id =
    join b'/' (topic_prefix ∷ device_id ∷ topic_out ∷ topic_data ∷ session_id ∷ [])

unfoldable pub in_control_filter : Text → Text
unfolding join
in_control_filter device_id = join b'/' (topic_prefix ∷ device_id ∷ topic_in ∷ topic_control ∷ [])

unfoldable pub in_data_filter : Text → Text
unfolding join
in_data_filter device_id =
    join b'/' (topic_prefix ∷ device_id ∷ topic_in ∷ topic_data ∷ any_segment ∷ [])

unfoldable pub out_control_filter : Text → Text
unfolding join
out_control_filter device_id = join b'/' (topic_prefix ∷ device_id ∷ topic_out ∷ topic_control ∷ [])

unfoldable pub out_data_filter : Text → Text
unfolding join
out_data_filter device_id =
    join b'/' (topic_prefix ∷ device_id ∷ topic_out ∷ topic_data ∷ any_segment ∷ [])

pub record ParsedTopic : Type 0 where
  pub device_id : Text
  pub is_control : Bool
  pub is_data : Bool
  pub session_id : Text

pub data TopicError : Type 0 where
  too_short : TopicError
  invalid_prefix : Text → TopicError
  invalid_direction : Text → TopicError
  control_segments data_segments : TopicError
  unknown_type : Text → TopicError

-- `case topicControl`: no segment may follow.
parse_control : Text → List Text → Result TopicError ParsedTopic
parse_control device_id [] =
    ok (record { device_id = device_id; is_control = true; is_data = false; session_id = [] })
parse_control device_id (_ ∷ _) = err control_segments

-- `case topicData`: exactly one segment follows, the session.
parse_data : Text → List Text → Result TopicError ParsedTopic
parse_data device_id [] = err data_segments
parse_data device_id (session_id ∷ []) =
    ok (record {
      device_id = device_id;
      is_control = false;
      is_data = true;
      session_id = session_id;
    })
parse_data device_id (_ ∷ _ ∷ _) = err data_segments

parse_parts : List Text → Result TopicError ParsedTopic
unfolding parse_control parse_data
parse_parts [] = err too_short
parse_parts (_ ∷ []) = err too_short
parse_parts (_ ∷ _ ∷ []) = err too_short
parse_parts (_ ∷ _ ∷ _ ∷ []) = err too_short
parse_parts (prefix ∷ device_id ∷ dir ∷ kind ∷ rest) =
    if not (text_eq prefix topic_prefix)
    then err (invalid_prefix prefix)
    else if not (text_eq dir topic_in || text_eq dir topic_out)
    then err (invalid_direction dir)
    else if text_eq kind topic_control
    then parse_control device_id rest
    else if text_eq kind topic_data
    then parse_data device_id rest
    else err (unknown_type kind)

unfoldable pub parse_topic : Text → Result TopicError ParsedTopic
unfolding parse_parts
parse_topic topic = parse_parts (split b'/' topic)
