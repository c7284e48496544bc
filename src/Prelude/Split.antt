-- ===== src/Prelude/Split.antt =====
-- `strings.Split` and `strings.Join` at a separator of one byte.
use Prim.Native.Nat.{ℕ}
use mathlib.Core.Path.{◌≡◌, refl}
use mathlib.Core.Logic.{◌≢◌}
use mathlib.Core.List.{List, [], ◌∷◌, ◌++◌}
use native.Mathlib.Omega.{arith}
use mqtt_forward.Prelude.Tests.{◌==◌, if◌then◌else◌}
use mqtt_forward.Prelude.Lists.{All}
use mqtt_forward.Prelude.Strings.{Text, Lacks}

-- A byte in front of the first part.
abbrev push_head : ℕ → List Text → List Text
push_head c [] = (c ∷ []) ∷ []
push_head c (p ∷ ps) = (c ∷ p) ∷ ps

unfoldable pub split : ℕ → Text → List Text
split sep [] = [] ∷ []
split sep (c ∷ s) = let parts = split sep s in if c == sep then [] ∷ parts else push_head c parts

unfoldable pub join : ℕ → List Text → Text
join sep [] = []
join sep (p ∷ []) = p
join sep (p ∷ q ∷ ps) = p ++ sep ∷ join sep (q ∷ ps)

module _ (sep : ℕ) where
  split-ne-nil : (s : Text) → split sep s ≢ []
  unfolding split
  split-ne-nil [] = λ e. cc
  split-ne-nil (c ∷ s) = push-ne-nil (split sep s)
    where
      push-ne-nil : (parts : List Text) → (if c == sep then [] ∷ parts else push_head c parts) ≢ []
      push-ne-nil [] = ground arith
      push-ne-nil (p ∷ ps) = ground arith

  join-cons : (ps : List Text) → ps ≢ [] → join sep ([] ∷ ps) ≡ sep ∷ join sep ps
  unfolding join
  join-cons [] h = absurd (h refl)
  join-cons (p ∷ ps) h = refl

  join-push_head : (c : ℕ) (ps : List Text) → join sep (push_head c ps) ≡ c ∷ join sep ps
  unfolding join
  join-push_head c [] = refl
  join-push_head c (p ∷ []) = refl
  join-push_head c (p ∷ q ∷ ps) = refl

  -- The parts of a text, joined, are the text.
  pub join-split : (s : Text) → join sep (split sep s) ≡ s
  unfolding split
  join-split [] = unfold join in refl
  join-split (c ∷ s) = ground (
    arith,
    join-split s,
    join-cons (split sep s) (split-ne-nil s),
    join-push_head c (split sep s),
  )

  push_head-Lacks :
      (c : ℕ) (ps : List Text) → c ≢ sep → All (Lacks sep) ps → All (Lacks sep) (push_head c ps)
  push_head-Lacks c [] h all = ((h, tt), tt)
  push_head-Lacks c (p ∷ ps) h all = ((h, all.0), all.1)

  pub split-Lacks : (s : Text) → All (Lacks sep) (split sep s)
  unfolding split
  split-Lacks [] = (tt, tt)
  split-Lacks (c ∷ s) = ground (arith, split-Lacks s, push_head-Lacks c (split sep s))

  pub split_self : (p : Text) → Lacks sep p → split sep p ≡ p ∷ []
  unfolding split
  split_self [] h = refl
  split_self (c ∷ p) h = ground (arith, split_self p)

  pub split-append : (p s : Text) → Lacks sep p → split sep (p ++ sep ∷ s) ≡ p ∷ split sep s
  unfolding split
  split-append [] s h = ground arith
  split-append (c ∷ p) s h = ground (arith, split-append p s)
