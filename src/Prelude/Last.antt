-- ===== src/Prelude/Last.antt =====
-- `strings.LastIndex` for a text of one byte, as a cut, and `strings.HasSuffix` with `TrimSuffix`.
use Prim.Native.Nat.{ℕ}
use mathlib.Core.Path.{◌≡◌, refl, ap, ◌∙◌}
use mathlib.Core.Option.{Option, none, some}
use mathlib.Core.Logic.{◌⊎◌, inl, inr}
use native.Mathlib.Decide.{ℕ_discrete}
use mathlib.Core.List.{[], ◌∷◌, ◌++◌}
use native.Mathlib.Omega.{arith}
use mqtt_forward.Prelude.Tests.{◌==◌, if◌then◌else◌, Option-cases}
use mqtt_forward.Prelude.Strings.{Text, Lacks}

-- What stands before and after the last occurrence of a byte; `none` where LastIndex is -1.
unfoldable pub cut_last : ℕ → Text → Option (Text × Text)
cut_last b [] = none
cut_last b (c ∷ s) = elim (cut_last b s) [
  | some (front, back) ↦ some (c ∷ front, back)
  | none ↦ if c == b then some ([], s) else none
]

-- The text without the byte that it ends with; `none` where HasSuffix is false.
unfoldable pub strip_suffix : ℕ → Text → Option Text
strip_suffix b [] = none
strip_suffix b (c ∷ s) = elim (strip_suffix b s) [
  | some front ↦ some (c ∷ front)
  | none ↦ elim s [ [] ↦ if c == b then some [] else none | _ ∷ _ ↦ none ]
]

unfoldable pub trim_suffix : ℕ → Text → Text
trim_suffix b s = elim (strip_suffix b s) [ some front ↦ front | none ↦ s ]

module _ (b : ℕ) where
  -- A text is cut at the last occurrence of the byte, or has none.
  pub cut_last_cases :
      (s : Text)
      → ((cut_last b s ≡ none) × Lacks b s)
        ⊎ ((front : Text) × (back : Text) × (cut_last b s ≡ some (front, back))
            × (s ≡ front ++ b ∷ back)
            × Lacks b back)
  unfolding cut_last
  cut_last_cases [] = inl (refl, tt)
  cut_last_cases (c ∷ s) = elim (cut_last_cases s) [
    | inr (front, back, e, spelled, l) ↦ rw e (inr (c ∷ front, back, refl, ap (◌∷◌ c) spelled, l))
    | inl (e, l) ↦ elim (ℕ_discrete c b) [
      | yes same ↦ rw e (inr ([], s, ground arith, ground arith, l))
      | no other ↦ rw e (inl (ground arith, (other, l)))
    ]
  ]

  pub cut_last-Lacks : (s : Text) → Lacks b s → cut_last b s ≡ none
  unfolding cut_last
  cut_last-Lacks [] l = refl
  cut_last-Lacks (c ∷ s) l = rw (cut_last-Lacks s l.1) (ground arith)

  pub cut_last-append :
      (front back : Text) → Lacks b back → cut_last b (front ++ b ∷ back) ≡ some (front, back)
  unfolding cut_last
  cut_last-append [] back l = rw (cut_last-Lacks back l) (ground arith)
  cut_last-append (c ∷ front) back l = rw (cut_last-append front back l)

  pub strip_suffix-append : (front : Text) → strip_suffix b (front ++ b ∷ []) ≡ some front
  unfolding strip_suffix
  strip_suffix-append [] = ground arith
  strip_suffix-append (c ∷ front) = rw (strip_suffix-append front)

  pub strip_suffix-Lacks : (s : Text) → Lacks b s → strip_suffix b s ≡ none
  unfolding strip_suffix
  strip_suffix-Lacks [] l = refl
  strip_suffix-Lacks (c ∷ []) l = ground arith
  strip_suffix-Lacks (c ∷ d ∷ s) l = rw (strip_suffix-Lacks (d ∷ s) l.1)

  -- A text that a byte is stripped from ends with it.
  pub strip_suffix_sound : (s front : Text) → strip_suffix b s ≡ some front → s ≡ front ++ b ∷ []
  unfolding strip_suffix
  strip_suffix_sound [] front h = cc
  strip_suffix_sound (c ∷ []) front h = elim (ℕ_discrete c b) [
    | yes same ↦ ground arith
    | no other ↦ absurd (ground arith)
  ]
  strip_suffix_sound (c ∷ d ∷ s) front h = elim (Option-cases (strip_suffix b (d ∷ s))) [
    | inl e ↦ let failed = rw e at h in absurd cc
    | inr (inner, e) ↦
        let after : some (c ∷ inner) ≡ some front = rw e at h in
        let same : c ∷ inner ≡ front = cc in
        ap (◌∷◌ c) (strip_suffix_sound (d ∷ s) inner e) ∙ ap (λ t. t ++ b ∷ []) same
  ]
