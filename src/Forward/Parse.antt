-- ===== src/Forward/Parse.antt =====
-- What `Parse` returns for one forward.
use mqtt_forward.Prelude.{
  if◌then◌else◌, Bool-cases, Option-cases, Text, text_eq, text_eq_iff, contains, Result, err, ok,
  ◌>>◌, guard, Result-cases, ℤ, pos, negsuc, strip_suffix, trim_suffix, cut_last_cases,
  strip_suffix_sound, Lacks, contains-Lacks, append_assoc, sym, ◌⊎◌, ℕ, ◌≤◌, ◌≡◌, refl, ap, ◌∙◌,
  subst, ◌≢◌, inl, inr, Bool, true, false, not, some, [], ◌∷◌, ◌++◌, arith,
}
use mqtt_forward.Forward.{
  Spec, ForwardError, expected_forward, port_out_of_range, atoi, join_host_port, is_port,
  validate_port, split_port, bracketed_host, plain_host, split_host, split_target, normalize_host,
  default_bind_addr, or_default, split_listen, parse,
}

-- A text that Go reads as a number in the range of a port, from `lowest` on.
abbrev pub IsPort : ℕ → Text → Type 0
IsPort lowest p = (n : ℕ) × (atoi p ≡ some (pos n)) × (lowest ≤ n) × (n ≤ 65535)

abbrev pub lowest_of : Bool → ℕ
lowest_of true = 0
lowest_of false = 1

is_port_sound :
    (lowest : ℕ) (v : ℤ)
    → is_port lowest v ≡ true
    → (n : ℕ) × (v ≡ pos n) × (lowest ≤ n) × (n ≤ 65535)
is_port_sound lowest (pos n) h = (n, refl, ground arith, ground arith)
is_port_sound lowest (negsuc n) h = cc

validate_port_sound : (p : Text) (z : Bool) → validate_port p z ≡ ok tt → IsPort (lowest_of z) p
unfolding validate_port
validate_port_sound [] z h = cc
validate_port_sound (c ∷ cs) z h = elim (Option-cases (atoi (c ∷ cs))) [
  | inl e ↦ let failed = rw (e, validate_port) at h in absurd cc
  | inr (v, e) ↦
      let after = rw (e, validate_port) at h in
      let in_range : is_port (lowest_of z) v ≡ true = checked z v after in
      let (n, same, low, high) = is_port_sound (lowest_of z) v in_range in
      (n, e ∙ ap some same, low, high)
]
  where
    checked :
        (z : Bool) (v : ℤ)
        → (let r : Result ForwardError (Unit {0}) =
              if is_port (if z then 0 else 1) v
              then ok tt
              else err (port_out_of_range v (if z then 0 else 1)) in
            r ≡ ok tt)
        → is_port (lowest_of z) v ≡ true
    checked true v h = ground arith
    checked false v h = ground arith

split_port_sound :
    (s : Text) (z : Bool) (rest port : Text)
    → split_port s z ≡ ok (rest, port)
    → (s ≡ rest ++ b':' ∷ port) × IsPort (lowest_of z) port
unfolding split_port
split_port_sound s z rest port h = elim (cut_last_cases b':' s) [
  | inl (e, l) ↦ let failed = rw (e, split_port) at h in absurd cc
  | inr (front, back, e, spelled, l) ↦ elim (Result-cases (validate_port back z)) [
    | inl (w, f) ↦ let failed = rw (e, split_port, f) at h in absurd cc
    | inr (u, f) ↦
        let after = rw (e, split_port, f) at h in
        let here : Text × Text = (front, back) in
        let there : Text × Text = (rest, port) in
        let same : here ≡ there = cc in
        let valid = validate_port_sound back z f in
        (
          spelled ∙ ap (λ r. r.0 ++ b':' ∷ r.1) same,
          subst (λ r. IsPort (lowest_of z) r.1) same valid,
        )
  ]
]

-- A host and the way it is written: in brackets, where it has no opening bracket itself, or plain, where
-- it has neither a colon nor a closing bracket.
abbrev pub IsSpelled : Text → Text → Type 0
IsSpelled host written =
    ((written ≡ b'[' ∷ host ++ b']' ∷ []) × Lacks b'[' host)
    ⊎ ((written ≡ host) × Lacks b':' host × Lacks b']' host)

-- The host that a text ends with, and what stands before it.
abbrev HostEnds : Text → Text → Text → Type 0
HostEnds s left host =
    (host ≢ []) × (written : Text) × IsSpelled host written × (s ≡ left ++ written)

bracketed_host_sound :
    (s : Text) (left host : Text)
    → bracketed_host s ≡ ok (left, host)
    → HostEnds (s ++ b']' ∷ []) left host
bracketed_host_sound s left host h = elim (cut_last_cases b'[' s) [
  | inl (e, l) ↦ let failed = rw (e, bracketed_host) at h in absurd cc
  | inr (front, [], e, spelled, l) ↦ let failed = rw (e, bracketed_host) at h in absurd cc
  | inr (front, c ∷ cs, e, spelled, l) ↦
      let after = rw (e, bracketed_host) at h in
      let here : Text × Text = (front, c ∷ cs) in
      let there : Text × Text = (left, host) in
      let same : here ≡ there = cc in
      subst (λ r. HostEnds (s ++ b']' ∷ []) r.0 r.1) same
        (
          λ n. cc,
          b'[' ∷ (c ∷ cs) ++ b']' ∷ [],
          inl (refl, l),
          ap (λ t. t ++ b']' ∷ []) spelled ∙ append_assoc front (b'[' ∷ c ∷ cs) (b']' ∷ []),
        )
]

plain_host_sound :
    (front s left host : Text)
    → Lacks b':' s
    → plain_host front s ≡ ok (left, host)
    → HostEnds (front ++ s) left host
plain_host_sound front [] left host l h = cc
plain_host_sound front (c ∷ cs) left host l h = elim (Bool-cases (contains (c ∷ cs) b']')) [
  | inl e ↦ let failed = rw e at h in absurd cc
  | inr e ↦
      let after = rw e at h in
      let here : Text × Text = (front, c ∷ cs) in
      let there : Text × Text = (left, host) in
      let same : here ≡ there = cc in
      subst (λ r. HostEnds (front ++ c ∷ cs) r.0 r.1) same
        (λ n. cc, c ∷ cs, inr (refl, l, contains-Lacks (c ∷ cs) b']' e), refl)
]

split_host_sound : (s left host : Text) → split_host s ≡ ok (left, host) → HostEnds s left host
unfolding split_host
split_host_sound s left host h = elim (Option-cases (strip_suffix b']' s)) [
  | inr (front, e) ↦
      subst (λ t. HostEnds t left host) (sym (strip_suffix_sound b']' s front e))
        (bracketed_host_sound front left host (rw (e, split_host) at h))
  | inl e ↦ elim (cut_last_cases b':' s) [
    | inl (f, l) ↦ plain_host_sound [] s left host l (rw (e, split_host, f) at h)
    | inr (front, back, f, spelled, l) ↦
        let ends =
          plain_host_sound (front ++ b':' ∷ []) back left host l (rw (e, split_host, f) at h) in
        subst (λ t. HostEnds t left host) (append_assoc front (b':' ∷ []) back ∙ sym spelled) ends
  ]
]

-- What is known of a target, which stands at the end of the forward, and of a listen address.
abbrev pub IsTarget : Text → Text → Type 0
IsTarget s target =
    (host : Text) × (port : Text) × (written : Text) × (before : Text) × (target
      ≡ join_host_port host port)
    × (host ≢ [])
    × IsPort 1 port
    × IsSpelled host written
    × (before ≢ [])
    × (s ≡ before ++ written ++ b':' ∷ port)

abbrev pub IsListen : Text → Type 0
IsListen listen =
    (bind : Text) × (port : Text) × (listen ≡ join_host_port bind port)
    × (bind ≢ [])
    × IsPort 0 port

split_target_sound : (s rest target : Text) → split_target s ≡ ok (rest, target) → IsTarget s target
unfolding split_target
split_target_sound s rest target h = elim (Result-cases (split_port s false)) [
  | inl (e, f) ↦ let failed = rw (f, split_target) at h in absurd cc
  | inr ((front, port), f) ↦ elim (Result-cases (split_host front)) [
    | inl (e, g) ↦ let failed = rw (f, split_target, g) at h in absurd cc
    | inr ((left, host), g) ↦
        let (spelled, valid) = split_port_sound s false front port f in
        let after = rw (f, split_target, g) at h in
        let (not_empty, written, way, ends) = split_host_sound front left host g in
        let (is_joined, listens) = target_of left host port after in
        (
          host,
          port,
          written,
          left,
          is_joined,
          not_empty,
          valid,
          way,
          listens,
          spelled ∙ ap (λ t. t ++ b':' ∷ port) ends,
        )
  ]
]
  where
    target_of :
        (left host port : Text)
        → (let r : Result ForwardError (Text × Text) = do
          guard (not (text_eq left [])) expected_forward
          ok (trim_suffix b':' left, join_host_port host port)
          in r ≡ ok (rest, target))
        → (target ≡ join_host_port host port) × (left ≢ [])
    target_of left host port e = elim (Bool-cases (text_eq left [])) [
      | inl t ↦ let failed = rw t at e in absurd cc
      | inr t ↦ let same = rw t at e in (cc, λ n. ground (arith, text_eq_iff left []))
    ]

or_default-ne-nil : (s : Text) → or_default s ≢ []
or_default-ne-nil [] = λ e. cc
or_default-ne-nil (c ∷ cs) = λ e. cc

default-ne-nil : default_bind_addr ≢ []
default-ne-nil = λ e. cc

split_listen_sound : (s listen : Text) → split_listen s ≡ ok listen → IsListen listen
unfolding split_listen
split_listen_sound s listen h = elim (Bool-cases (contains s b':')) [
  | inr bare ↦ elim (Result-cases (validate_port s true)) [
    | inl (e, f) ↦ let failed = rw (bare, split_listen, f) at h in absurd cc
    | inr (u, f) ↦
        let same = rw (bare, split_listen, f) at h in
        (default_bind_addr, s, cc, default-ne-nil, validate_port_sound s true f)
  ]
  | inl colon ↦ elim (Result-cases (split_port s true)) [
    | inl (e, f) ↦ let failed = rw (colon, split_listen, f) at h in absurd cc
    | inr ((rest, port), f) ↦ elim (Result-cases (normalize_host rest)) [
      | inl (e, g) ↦ let failed = rw (colon, split_listen, f, g) at h in absurd cc
      | inr (bind, g) ↦
          let same = rw (colon, split_listen, f, g) at h in
          let (_, valid) = split_port_sound s true rest port f in
          (or_default bind, port, cc, or_default-ne-nil bind, valid)
    ]
  ]
]

-- A forward that is accepted has a listen address of a bind address that is not empty and a port of 0 to
-- 65535, and a target of a host that is not empty and a port of 1 to 65535, each joined as
-- `net.JoinHostPort` does. The forward ends with the host and the port of the target, after a text that is
-- not empty, and the host is written in brackets, and then has no opening bracket itself, or it is plain,
-- and then has neither a colon nor a closing bracket.
pub parse_sound :
    (s : Text) (spec : Spec) → parse s ≡ ok spec → IsListen spec.listen × IsTarget s spec.target
unfolding parse
parse_sound s spec h = elim (Result-cases (split_target s)) [
  | inl (e, f) ↦ let failed = rw (f, parse) at h in absurd cc
  | inr ((rest, target), f) ↦ elim (Result-cases (split_listen rest)) [
    | inl (e, g) ↦ let failed = rw (f, parse, g) at h in absurd cc
    | inr (listen, g) ↦
        let after = rw (f, parse, g) at h in
        let made : Spec = record { listen = listen; target = target } in
        let same : made ≡ spec = cc in
        subst (λ p. IsListen p.listen × IsTarget s p.target) same
          (split_listen_sound rest listen g, split_target_sound s rest target f)
  ]
]
