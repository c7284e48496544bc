-- ===== src/Shadow/Compare.antt =====
-- internal/shadow/shadow.go: the comparison of two reports.
use mqtt_forward.Prelude.{
  ◌==◌, if◌then◌else◌, length, Text, text_eq, Dict, lookup, insert, ℕ, ◌+◌, ◌-◌, Bool, true, false,
  ◌&&◌, Option, none, some, List, [], ◌∷◌,
}

pub record ReportedState : Type 0 where
  pub version : Text
  pub public_ip : List Text
  pub interfaces : Text

-- `counts[v]`, which is 0 for a missing key.
unfoldable pub count_of : Text → Dict ℕ → ℕ
unfolding lookup
count_of v counts = elim (lookup v counts) [ none ↦ 0 | some n ↦ n ]

-- The first loop: `counts[v]++`.
unfoldable pub tally : List Text → Dict ℕ → Dict ℕ
unfolding count_of insert
tally [] counts = counts
tally (v ∷ a) counts = tally a (insert v (count_of v counts + 1) counts)

-- The second loop: `counts[v]--`, unless the count falls below 0.
unfoldable pub spend : List Text → Dict ℕ → Bool
unfolding count_of insert
spend [] counts = true
spend (v ∷ b) counts =
    let rest = spend b (insert v (count_of v counts - 1) counts) in
    if count_of v counts == 0 then false else rest

unfoldable pub equal_string_set : List Text → List Text → Bool
unfolding tally spend
equal_string_set a b = if length a == length b then spend b (tally a []) else false

-- `decodeInterfaces`, where `unmarshal` reads the JSON text of a map.
unfoldable pub decode_interfaces :
    (Text → Option (Dict (List Text))) → Text → Option (Dict (List Text))
decode_interfaces unmarshal [] = some []
decode_interfaces unmarshal (c ∷ s) = unmarshal (c ∷ s)

-- The addresses of one interface, in order: the lengths first, then each.
unfoldable pub equal_addrs : List Text → List Text → Bool
equal_addrs [] [] = true
equal_addrs [] (y ∷ ys) = false
equal_addrs (x ∷ xs) [] = false
equal_addrs (x ∷ xs) (y ∷ ys) = text_eq x y && equal_addrs xs ys

-- The loop over the entries of the first map.
unfoldable pub all_equal : Dict (List Text) → Dict (List Text) → Bool
unfolding lookup equal_addrs
all_equal [] mb = true
all_equal ((name, addrs) ∷ ma) mb = elim (lookup name mb) [
  | none ↦ false
  | some other ↦ equal_addrs addrs other && all_equal ma mb
]

unfoldable pub equal_interfaces : (Text → Option (Dict (List Text))) → Text → Text → Bool
unfolding decode_interfaces all_equal
equal_interfaces unmarshal a b = elim (decode_interfaces unmarshal a) [
  | none ↦ false
  | some ma ↦ elim (decode_interfaces unmarshal b) [
    | none ↦ false
    | some mb ↦ if length ma == length mb then all_equal ma mb else false
  ]
]

unfoldable pub equal : (Text → Option (Dict (List Text))) → ReportedState → ReportedState → Bool
unfolding equal_string_set equal_interfaces
equal unmarshal s o =
    if text_eq s.version o.version
    then if equal_string_set s.public_ip o.public_ip
      then equal_interfaces unmarshal s.interfaces o.interfaces
      else false
    else false
