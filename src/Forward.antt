-- ===== src/Forward.antt =====
-- internal/forward/forward.go: local port forwards, "[bind_address:]port:host:hostport". Of the
-- standard library, `strconv.Atoi` on a 64-bit machine and `net.JoinHostPort` are written out.
pub mod Listens
pub mod Parse
pub mod Forms
pub mod Tests
use mqtt_forward.Prelude.{
  ltb, leb, ◌==◌, if◌then◌else◌, Text, codes, text_eq, contains, Result, err, ok, ◌>>=◌, ◌>>◌,
  guard, wrap, ℤ, pos, negsuc, cut_last, strip_suffix, trim_suffix, ℕ, zero, suc, ◌+◌, ◌-◌, ◌*◌,
  ◌^◌, Bool, true, false, ◌&&◌, ◌||◌, not, Option, none, some, List, [], ◌∷◌, ◌++◌,
}

pub record Spec : Type 0 where
  pub listen : Text
  pub target : Text

pub data ForwardError : Type 0 where
  port_empty host_empty expected_host_port expected_forward no_forwards : ForwardError
  port_not_number unmatched unexpected_bracket malformed_bracket duplicate_listen :
      Text → ForwardError
  port_out_of_range : ℤ → ℕ → ForwardError
  target_port target_host local_port bind_address : ForwardError → ForwardError
  invalid_forward : Text → ForwardError → ForwardError

-- Whether a text is among the keys of a set.
unfoldable pub mem_text : Text → List Text → Bool
unfolding text_eq
mem_text x [] = false
mem_text x (y ∷ ys) = text_eq y x || mem_text x ys

-- The number that decimal digits spell after a number, if they are all digits.
unfoldable pub digits_value : ℕ → Text → Option ℕ
digits_value n [] = some n
digits_value n (c ∷ cs) =
    let rest = digits_value (10 * n + (c - b'0')) cs in
    if leb b'0' c && leb c b'9' then rest else none

-- A magnitude with its sign, where an `int` can hold it.
abbrev pub signed : Bool → ℕ → Option ℤ
signed negative zero = some (pos 0)
signed false (suc n) = if ltb (suc n) (2 ^ 63) then some (pos (suc n)) else none
signed true (suc n) = if leb (suc n) (2 ^ 63) then some (negsuc n) else none

-- The digits after the sign: one at least.
unfoldable pub magnitude : Bool → Text → Option ℤ
magnitude negative [] = none
magnitude negative (c ∷ cs) = elim (digits_value 0 (c ∷ cs)) [
  | none ↦ none
  | some n ↦ signed negative n
]

-- `strconv.Atoi`
unfoldable pub atoi : Text → Option ℤ
unfolding magnitude
atoi [] = none
atoi (c ∷ cs) =
    if c == b'-'
    then magnitude true cs
    else if c == b'+'
    then magnitude false cs
    else magnitude false (c ∷ cs)

-- `net.JoinHostPort`
unfoldable pub join_host_port : Text → Text → Text
unfolding contains
join_host_port host port =
    if contains host b':' then b'[' ∷ host ++ b']' ∷ b':' ∷ port else host ++ b':' ∷ port

-- Whether a number is a port, from `lowest` on.
abbrev pub is_port : ℕ → ℤ → Bool
is_port lowest (pos n) = leb lowest n && leb n 65535
is_port lowest (negsuc n) = false

unfoldable pub validate_port : Text → Bool → Result ForwardError (Unit {0})
unfolding atoi
validate_port [] allow_zero = err port_empty
validate_port (c ∷ cs) allow_zero = elim (atoi (c ∷ cs)) [
  | none ↦ err (port_not_number (c ∷ cs))
  | some n ↦
      let lowest = if allow_zero then 0 else 1 in
      if is_port lowest n then ok tt else err (port_out_of_range n lowest)
]

unfoldable pub split_port : Text → Bool → Result ForwardError (Text × Text)
unfolding validate_port cut_last
split_port s allow_zero = elim (cut_last b':' s) [
  | none ↦ err expected_host_port
  | some (rest, port) ↦ do validate_port port allow_zero; ok (rest, port)
]

-- The host after an opening bracket, or after a colon.
abbrev pub bracketed_host : Text → Result ForwardError (Text × Text)
bracketed_host s = elim (cut_last b'[' s) [
  | none ↦ err (unmatched s)
  | some (rest, []) ↦ err host_empty
  | some (rest, c ∷ host) ↦ ok (rest, c ∷ host)
]

abbrev pub plain_host : Text → Text → Result ForwardError (Text × Text)
plain_host rest [] = err host_empty
plain_host rest (c ∷ host) =
    if contains (c ∷ host) b']' then err (unexpected_bracket (c ∷ host)) else ok (rest, c ∷ host)

-- `rest` keeps the colon that separates it from a plain host.
unfoldable pub split_host : Text → Result ForwardError (Text × Text)
unfolding cut_last strip_suffix contains
split_host s = elim (strip_suffix b']' s) [
  | some front ↦ bracketed_host front
  | none ↦ elim (cut_last b':' s) [
    | some (front, host) ↦ plain_host (front ++ b':' ∷ []) host
    | none ↦ plain_host [] s
  ]
]

unfoldable pub split_target : Text → Result ForwardError (Text × Text)
unfolding split_port split_host trim_suffix join_host_port
split_target s = do
  (prefix, port) ← wrap target_port (split_port s false)
  (rest, host) ← wrap target_host (split_host prefix)
  guard (not (text_eq rest [])) expected_forward
  ok (trim_suffix b':' rest, join_host_port host port)

-- The empty text has no bracket to strip.
unfoldable pub normalize_host : Text → Result ForwardError Text
unfolding strip_suffix contains
normalize_host [] = ok []
normalize_host (c ∷ s) =
    let unbracketed =
      if contains (c ∷ s) b'[' || contains (c ∷ s) b']'
      then err (malformed_bracket (c ∷ s))
      else ok (c ∷ s) in
    if c == b'['
    then elim (strip_suffix b']' s) [
      | some [] ↦ err host_empty
      | some (d ∷ host) ↦ ok (d ∷ host)
      | none ↦ unbracketed
    ]
    else unbracketed

abbrev pub default_bind_addr : Text
default_bind_addr = codes "localhost"

-- An empty bind address gives way to the default.
abbrev pub or_default : Text → Text
or_default [] = default_bind_addr
or_default (c ∷ cs) = c ∷ cs

unfoldable pub split_listen : Text → Result ForwardError Text
unfolding split_port normalize_host validate_port join_host_port contains
split_listen prefix =
    if not (contains prefix b':')
    then (do
      wrap local_port (validate_port prefix true)
      ok (join_host_port default_bind_addr prefix))
    else (do
      (rest, port) ← wrap local_port (split_port prefix true)
      bind_addr ← wrap bind_address (normalize_host rest)
      ok (join_host_port (or_default bind_addr) port))

unfoldable pub parse : Text → Result ForwardError Spec
unfolding split_target split_listen
parse s = do
  (rest, host_port) ← split_target s
  listen ← split_listen rest
  ok (record { listen = listen; target = host_port })

-- The loop of `ParseAll`, with the listen addresses seen so far.
unfoldable pub parse_each : List Text → List Text → Result ForwardError (List Spec)
unfolding parse
parse_each seen [] = ok []
parse_each seen (raw ∷ raws) = elim (parse raw) [
  | err e ↦ err (invalid_forward raw e)
  | ok spec ↦
      let rest = parse_each (spec.listen ∷ seen) raws in
      if mem_text spec.listen seen
      then err (duplicate_listen spec.listen)
      else (do specs ← rest; ok (spec ∷ specs))
]

unfoldable pub parse_all : List Text → Result ForwardError (List Spec)
unfolding parse_each
parse_all [] = err no_forwards
parse_all (raw ∷ raws) = parse_each [] (raw ∷ raws)
