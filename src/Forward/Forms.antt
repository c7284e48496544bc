-- ===== src/Forward/Forms.antt =====
-- The forms that the comment of `Parse` gives, with any hosts and ports in them.
use mqtt_forward.Prelude.{
  Option-cases, Text, text_eq, Lacks, contains, Lacks-contains, ok, ℤ, strip_suffix, trim_suffix,
  cut_last-append, strip_suffix-append, strip_suffix-Lacks, ℕ, ◌+◌, ◌-◌, ◌*◌, ◌≡◌, refl, ◌≢◌, inl,
  inr, Bool, true, false, none, some, [], ◌∷◌, ◌++◌, arith,
}
use mqtt_forward.Forward.{
  digits_value, magnitude, atoi, join_host_port, validate_port, split_port, bracketed_host,
  split_host, split_target, normalize_host, default_bind_addr, split_listen, parse,
}
use mqtt_forward.Forward.Parse.{IsPort, lowest_of}

digits_value-Lacks : (n v : ℕ) (cs : Text) → digits_value n cs ≡ some v → Lacks b':' cs
unfolding digits_value
digits_value-Lacks n v [] h = tt
digits_value-Lacks n v (c ∷ cs) h = ground (arith, digits_value-Lacks (10 * n + (c - b'0')) v cs)

magnitude-Lacks :
    (negative : Bool) (v : ℤ) (cs : Text) → magnitude negative cs ≡ some v → Lacks b':' cs
unfolding magnitude
magnitude-Lacks negative v [] h = tt
magnitude-Lacks negative v (c ∷ cs) h = elim (Option-cases (digits_value 0 (c ∷ cs))) [
  | inl e ↦ let failed = rw (e, magnitude) at h in absurd cc
  | inr (n, e) ↦ digits_value-Lacks 0 n (c ∷ cs) e
]

-- A number has no colon.
atoi-Lacks : (v : ℤ) (p : Text) → atoi p ≡ some v → Lacks b':' p
unfolding atoi
atoi-Lacks v [] h = tt
atoi-Lacks v (c ∷ cs) h =
    ground (
      arith,
      magnitude-Lacks true v cs,
      magnitude-Lacks false v cs,
      magnitude-Lacks false v (c ∷ cs),
    )

validate_port_complete : (p : Text) (z : Bool) → IsPort (lowest_of z) p → validate_port p z ≡ ok tt
unfolding validate_port
validate_port_complete [] z (n, e, low, high) = unfold atoi in cc
validate_port_complete (c ∷ cs) true (n, e, low, high) = rw (e, validate_port) (ground arith)
validate_port_complete (c ∷ cs) false (n, e, low, high) = rw (e, validate_port) (ground arith)

split_port_complete :
    (front p : Text) (z : Bool)
    → IsPort (lowest_of z) p
    → split_port (front ++ b':' ∷ p) z ≡ ok (front, p)
unfolding split_port
split_port_complete front p z v =
    rw (cut_last-append b':' front p (atoi-Lacks _ p v.1), split_port, validate_port_complete p z v)

strip_suffix-append_Lacks :
    (c : ℕ) (front : Text) (d : ℕ) (back : Text)
    → Lacks c (d ∷ back)
    → strip_suffix c (front ++ d ∷ back) ≡ none
unfolding strip_suffix
strip_suffix-append_Lacks c [] d back l = strip_suffix-Lacks c (d ∷ back) l
strip_suffix-append_Lacks c (x ∷ []) d back l = rw (strip_suffix-append_Lacks c [] d back l)
strip_suffix-append_Lacks c (x ∷ y ∷ front) d back l =
    rw (strip_suffix-append_Lacks c (y ∷ front) d back l)

-- A plain host after a colon, and a host in brackets.
split_host_plain :
    (front : Text) (c : ℕ) (host : Text)
    → Lacks b':' (c ∷ host)
    → Lacks b']' (c ∷ host)
    → split_host (front ++ b':' ∷ c ∷ host) ≡ ok (front ++ b':' ∷ [], c ∷ host)
unfolding split_host
split_host_plain front c host no_colon no_bracket = rw (
  strip_suffix-append_Lacks b']' front b':' (c ∷ host) (omega arith, no_bracket),
  split_host,
  cut_last-append b':' front (c ∷ host) no_colon,
  Lacks-contains (c ∷ host) b']' no_bracket,
)

split_host_bracketed :
    (front : Text) (c : ℕ) (host : Text)
    → Lacks b'[' (c ∷ host)
    → split_host (front ++ b'[' ∷ (c ∷ host) ++ b']' ∷ []) ≡ ok (front, c ∷ host)
unfolding split_host
split_host_bracketed front c host no_bracket = rw (
  strip_suffix-append b']' (front ++ b'[' ∷ c ∷ host),
  split_host,
  cut_last-append b'[' front (c ∷ host) no_bracket,
  bracketed_host,
)

text_eq-append : (s : Text) (c : ℕ) (t : Text) → text_eq (s ++ c ∷ t) [] ≡ false
unfolding text_eq
text_eq-append [] c t = refl
text_eq-append (x ∷ s) c t = refl

split_target_complete :
    (prefix rest host port : Text)
    → split_host prefix ≡ ok (rest ++ b':' ∷ [], host)
    → IsPort 1 port
    → split_target (prefix ++ b':' ∷ port) ≡ ok (rest, join_host_port host port)
unfolding split_target trim_suffix
split_target_complete prefix rest host port e v = rw (
  split_port_complete prefix port false v,
  split_target,
  e,
  text_eq-append rest b':' [],
  trim_suffix,
  strip_suffix-append b':' rest,
)

contains-append : (s : Text) (c : ℕ) (t : Text) → contains (s ++ c ∷ t) c ≡ true
unfolding contains
contains-append [] c t = ground arith
contains-append (x ∷ s) c t = ground (arith, contains-append s c t)

split_listen_bare :
    (port : Text) → IsPort 0 port → split_listen port ≡ ok (join_host_port default_bind_addr port)
unfolding split_listen
split_listen_bare port v = rw (
  Lacks-contains port b':' (atoi-Lacks _ port v.1),
  split_listen,
  validate_port_complete port true v,
)

split_listen_bind :
    (rest : Text) (c : ℕ) (bind port : Text)
    → normalize_host rest ≡ ok (c ∷ bind)
    → IsPort 0 port
    → split_listen (rest ++ b':' ∷ port) ≡ ok (join_host_port (c ∷ bind) port)
unfolding split_listen
split_listen_bind rest c bind port e v =
    rw (contains-append rest b':' port, split_listen, split_port_complete rest port true v, e)

normalize_host_plain :
    (host : Text) → Lacks b'[' host → Lacks b']' host → normalize_host host ≡ ok host
unfolding normalize_host
normalize_host_plain [] l r = refl
normalize_host_plain (c ∷ host) l r =
    rw (Lacks-contains (c ∷ host) b'[' l, normalize_host, Lacks-contains (c ∷ host) b']' r)
      (ground (arith, l.0))

normalize_host_bracketed :
    (c : ℕ) (host : Text) → normalize_host (b'[' ∷ (c ∷ host) ++ b']' ∷ []) ≡ ok (c ∷ host)
unfolding normalize_host
normalize_host_bracketed c host = rw (strip_suffix-append b']' (c ∷ host), normalize_host)

-- A host that needs no brackets, and one that stands in brackets.
abbrev pub IsHost : Text → Type 0
IsHost h = (h ≢ []) × Lacks b':' h × Lacks b'[' h × Lacks b']' h

abbrev pub IsInBrackets : Text → Type 0
IsInBrackets h = (h ≢ []) × Lacks b'[' h

-- "port", "bind_address:port" and "[bind_address]:port", with the listen address that is meant.
pub data ListenForm : Text → Text → Type 0 where
  bare : (port : Text) → IsPort 0 port → ListenForm port (join_host_port default_bind_addr port)
  bound :
      (bind port : Text)
      → IsHost bind
      → IsPort 0 port
      → ListenForm (bind ++ b':' ∷ port) (join_host_port bind port)
  bound_in_brackets :
      (bind port : Text)
      → IsInBrackets bind
      → IsPort 0 port
      → ListenForm ((b'[' ∷ bind ++ b']' ∷ []) ++ b':' ∷ port) (join_host_port bind port)

-- ":host:hostport" and ":[host]:hostport" after a text, with the target that is meant.
pub data TargetForm (rest : Text) : Text → Text → Type 0 where
  plain :
      (host port : Text)
      → IsHost host
      → IsPort 1 port
      → TargetForm rest ((rest ++ b':' ∷ host) ++ b':' ∷ port) (join_host_port host port)
  in_brackets :
      (host port : Text)
      → IsInBrackets host
      → IsPort 1 port
      → TargetForm rest
          ((((rest ++ b':' ∷ []) ++ b'[' ∷ host) ++ b']' ∷ []) ++ b':' ∷ port)
          (join_host_port host port)

split_listen_complete :
    (rest listen : Text) → ListenForm rest listen → split_listen rest ≡ ok listen
split_listen_complete _ _ (bare port v) = split_listen_bare port v
split_listen_complete _ _ (bound [] port h v) = absurd (h.0 refl)
split_listen_complete _ _ (bound (c ∷ bind) port h v) =
    split_listen_bind (c ∷ bind) c bind port (normalize_host_plain (c ∷ bind) h.2 h.3) v
split_listen_complete _ _ (bound_in_brackets [] port h v) = absurd (h.0 refl)
split_listen_complete _ _ (bound_in_brackets (c ∷ bind) port h v) =
    split_listen_bind _ c bind port (normalize_host_bracketed c bind) v

split_target-TargetForm :
    (rest s target : Text) → TargetForm rest s target → split_target s ≡ ok (rest, target)
split_target-TargetForm rest _ _ (plain [] port h v) = absurd (h.0 refl)
split_target-TargetForm rest _ _ (plain (c ∷ host) port h v) =
    split_target_complete _ rest (c ∷ host) port (split_host_plain rest c host h.1 h.3) v
split_target-TargetForm rest _ _ (in_brackets [] port h v) = absurd (h.0 refl)
split_target-TargetForm rest _ _ (in_brackets (c ∷ host) port h v) =
    split_target_complete _ rest (c ∷ host) port
      (split_host_bracketed (rest ++ b':' ∷ []) c host h.1) v

-- Each form of a listen address before each form of a target is parsed to what is meant: the bind
-- address defaults to the loopback interface, and hosts lose their brackets and get them back where
-- they hold a colon.
pub parse_complete :
    (rest listen s target : Text)
    → ListenForm rest listen
    → TargetForm rest s target
    → parse s ≡ ok (record { listen = listen; target = target })
unfolding parse
parse_complete rest listen s target l t =
    rw (split_target-TargetForm rest s target t, parse, split_listen_complete rest listen l)
