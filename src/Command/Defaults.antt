-- ===== src/Command/Defaults.antt =====
-- What the defaults and the exit status of internal/cmd/cmd.go come to.
use mqtt_forward.Prelude.{
  ◌==◌, Bool-cases, All-append, Text, codes, Lacks, ok, ℕ, ◌≡◌, refl, ◌≢◌, inl, inr, some, [], ◌∷◌,
  ◌++◌, arith,
}
use mqtt_forward.Command.{lower, to_lower, before, default_device_id}
use mqtt_forward.Topic.{out_control_topic, ParsedTopic, parse_topic}
use mqtt_forward.Topic.RoundTrip.{control_of, parse_topic_complete}

to_lower-Lacks : (t : Text) → Lacks b'/' t → Lacks b'/' (to_lower t)
unfolding to_lower
to_lower-Lacks [] h = tt
to_lower-Lacks (c ∷ t) h = (λ e. h.0 (lower-slash c e), to_lower-Lacks t h.1)
  where
    lower-slash : (c : ℕ) → lower c ≡ b'/' → c ≡ b'/'
    lower-slash c e = ground arith

before-Lacks : (sep b : ℕ) (t : Text) → Lacks b t → Lacks b (before sep t)
unfolding before
before-Lacks sep b [] h = tt
before-Lacks sep b (c ∷ t) h = elim (Bool-cases (c == sep)) [
  | inl e ↦ rw e tt
  | inr e ↦ rw e (h.0, before-Lacks sep b t h.1)
]

-- The default device id of a host whose name has no slash is one level of a topic: a control topic of the
-- device is parsed back to it.
pub default_device_id_lem :
    (hostname : Text)
    → Lacks b'/' hostname
    → (p : ParsedTopic) × (parse_topic (out_control_topic (default_device_id (some hostname)))
        ≡ ok p)
      × (p.device_id ≡ default_device_id (some hostname))
unfolding default_device_id
default_device_id_lem hostname h =
    let prefix = codes "tunnel-device-" in
    let short = before b'.' (to_lower hostname) in
    let lacks : Lacks b'/' (prefix ++ short) =
      All-append (λ c. c ≢ b'/') prefix short (ground arith)
        (before-Lacks b'.' b'/' (to_lower hostname) (to_lower-Lacks hostname h)) in
    let (_, parsed, _, _) = parse_topic_complete (prefix ++ short) [] lacks tt in
    (control_of (prefix ++ short), parsed, refl)
