-- ===== src/Reorder/Held.antt =====
-- The frames that a reorder buffer holds: lookups, and the bounds on their numbers.
use mqtt_forward.Prelude.{
  ◌==◌, if◌then◌else◌, length, All, Text, ℕ, suc, ◌+◌, ◌≤◌, ◌<◌, ◌≡◌, none, some, List, [], ◌∷◌,
  arith,
}
use mqtt_forward.Reorder.{find, remove}

pub find-remove :
    (k s : ℕ) (m : List (ℕ × Text)) → find s (remove k m) ≡ (if k == s then none else find s m)
unfolding find remove
find-remove k s [] = ground arith
find-remove k s ((i, p) ∷ m) = ground (arith, find-remove k s m)

length-remove-le : (k : ℕ) (m : List (ℕ × Text)) → length (remove k m) ≤ length m
unfolding remove
length-remove-le k [] = omega arith
length-remove-le k ((i, p) ∷ m) = ground (arith, length-remove-le k m)

pub length-remove-lt :
    (k : ℕ) (p : Text) (m : List (ℕ × Text)) → find k m ≡ some p → length (remove k m) < length m
unfolding find remove
length-remove-lt k p [] h = cc
length-remove-lt k p ((i, q) ∷ m) h = ground (arith, length-remove-le k m, length-remove-lt k p m)

-- A held frame: its number is one of the `size` next ones and below `limit`, and its payload is the
-- one that the stream has at that number.
abbrev pub IsHeld : (ℕ → Text) → ℕ → ℕ → ℕ → ℕ × Text → Type 0
IsHeld stream limit next size (s, p) = (next ≤ s) × (s < next + size) × (s < limit) × (p ≡ stream s)

module _ (stream : ℕ → Text) (limit : ℕ) where
  pub find-IsHeld :
      (next size s : ℕ) (p : Text) (m : List (ℕ × Text))
      → All (IsHeld stream limit next size) m
      → find s m ≡ some p
      → IsHeld stream limit next size (s, p)
  unfolding find
  find-IsHeld next size s p [] h e = cc
  find-IsHeld next size s p ((i, q) ∷ m) h e = ground (arith, find-IsHeld next size s p m)

  pub remove-IsHeld :
      (next size : ℕ) (m : List (ℕ × Text))
      → All (IsHeld stream limit next size) m
      → All (IsHeld stream limit (suc next) size) (remove next m)
  unfolding remove
  remove-IsHeld next size [] h = tt
  remove-IsHeld next size ((i, q) ∷ m) h = ground (arith, remove-IsHeld next size m h.1)
