-- ===== src/Topic/RoundTrip.antt =====
-- What `ParseTopic` accepts: exactly the topics that the constructors of protocol.go build.
use mqtt_forward.Prelude.{
  All, Text, text_eq, text_eq_iff, Lacks, ok, split, join, join-split, split-Lacks, split_self,
  split-append, ◌≡◌, subst, ◌⊎◌, true, false, List, [], ◌∷◌, arith,
}
use mqtt_forward.Topic.{
  topic_prefix, topic_in, topic_out, topic_control, topic_data, in_control_topic, in_data_topic,
  out_control_topic, out_data_topic, ParsedTopic, parse_control, parse_data, parse_parts,
  parse_topic,
}

abbrev pub control_of : Text → ParsedTopic
control_of d = record { device_id = d; is_control = true; is_data = false; session_id = [] }

abbrev pub data_of : Text → Text → ParsedTopic
data_of d s = record { device_id = d; is_control = false; is_data = true; session_id = s }

-- Both directions of a control topic, and both of a data topic, are parsed to their parts, if the
-- device and the session hold no slash.
pub parse_topic_complete :
    (d s : Text)
    → Lacks b'/' d
    → Lacks b'/' s
    → (parse_topic (in_control_topic d) ≡ ok (control_of d))
      × (parse_topic (out_control_topic d) ≡ ok (control_of d))
      × (parse_topic (in_data_topic d s) ≡ ok (data_of d s))
      × (parse_topic (out_data_topic d s) ≡ ok (data_of d s))
unfolding parse_topic in_control_topic out_control_topic in_data_topic out_data_topic split text_eq
parse_topic_complete d s hd hs = (
  rw (split-append b'/' d _ hd),
  rw (split-append b'/' d _ hd),
  rw (split-append b'/' d _ hd, split_self b'/' s hs),
  rw (split-append b'/' d _ hd, split_self b'/' s hs),
)

-- The four topics that a parsed topic can come from.
abbrev pub IsTopicOf : Text → ParsedTopic → Type 0
IsTopicOf topic p =
    ((p ≡ control_of p.device_id)
      × ((topic ≡ in_control_topic p.device_id) ⊎ (topic ≡ out_control_topic p.device_id)))
    ⊎ ((p ≡ data_of p.device_id p.session_id)
        × ((topic ≡ in_data_topic p.device_id p.session_id)
            ⊎ (topic ≡ out_data_topic p.device_id p.session_id)))

module _ (d : Text) {p : ParsedTopic} where
  parse_control-ok :
      (rest : List Text) → parse_control d rest ≡ ok p → (rest ≡ []) × (p ≡ control_of d)
  unfolding parse_control
  parse_control-ok [] h = ground arith
  parse_control-ok (_ ∷ _) h = cc

  parse_data-ok :
      (rest : List Text)
      → parse_data d rest ≡ ok p
      → (rest ≡ p.session_id ∷ []) × (p ≡ data_of d p.session_id)
  unfolding parse_data
  parse_data-ok [] h = cc
  parse_data-ok (s ∷ []) h = ground arith
  parse_data-ok (_ ∷ _ ∷ _) h = cc

abbrev pub IsParsedFrom : Text → ParsedTopic → Type 0
IsParsedFrom topic p = IsTopicOf topic p × Lacks b'/' p.device_id × Lacks b'/' p.session_id

parse_parts_sound :
    (parts : List Text) {p : ParsedTopic}
    → All (Lacks b'/') parts
    → parse_parts parts ≡ ok p
    → IsParsedFrom (join b'/' parts) p
unfolding parse_parts in_control_topic out_control_topic in_data_topic out_data_topic
parse_parts_sound [] l h = cc
parse_parts_sound (_ ∷ []) l h = cc
parse_parts_sound (_ ∷ _ ∷ []) l h = cc
parse_parts_sound (_ ∷ _ ∷ _ ∷ []) l h = cc
parse_parts_sound (prefix ∷ d ∷ dir ∷ kind ∷ rest) {p} l h = ground (
  arith,
  text_eq_iff prefix topic_prefix,
  text_eq_iff dir topic_in,
  text_eq_iff dir topic_out,
  text_eq_iff kind topic_control,
  text_eq_iff kind topic_data,
  parse_control-ok d {p = p} rest,
  parse_data-ok d {p = p} rest,
)

-- Whatever `ParseTopic` accepts is a control or a data topic of the device and the session that it
-- returns, and neither of the two holds a slash.
pub parse_topic_sound :
    (topic : Text) {p : ParsedTopic} → parse_topic topic ≡ ok p → IsParsedFrom topic p
unfolding parse_topic
parse_topic_sound topic {p} h =
    subst (λ t. IsParsedFrom t p) (join-split b'/' topic)
      (parse_parts_sound (split b'/' topic) (split-Lacks b'/' topic) h)
