-- ===== src/Prelude/Sorted.antt =====
-- The order of Go strings, and package sort on them.
use mathlib.Core.Path.{◌≡◌, refl, sym, ◌∙◌}
use mathlib.Core.Logic.{◌≢◌, inl, inr}
use mathlib.Core.Bool.{Bool, true, false, ◌&&◌, ◌||◌}
use mathlib.Core.List.{List, [], ◌∷◌}
use native.Mathlib.Omega.{arith}
use mqtt_forward.Prelude.Tests.{◌==◌, ltb, if◌then◌else◌, Bool-cases}
use mqtt_forward.Prelude.Lists.{All}
use mqtt_forward.Prelude.Strings.{Text, text_eq, text_eq_iff}
use mqtt_forward.Prelude.Maps.{mem}

-- The order of Go strings, and `sort.Strings`.
unfoldable pub text_le : Text → Text → Bool
text_le [] t = true
text_le (c ∷ s) [] = false
text_le (c ∷ s) (d ∷ t) = if ltb c d then true else (c == d) && text_le s t

unfoldable pub sort_insert : Text → List Text → List Text
unfolding text_le
sort_insert v [] = v ∷ []
sort_insert v (w ∷ l) = let rest = sort_insert v l in if text_le v w then v ∷ w ∷ l else w ∷ rest

unfoldable pub sort_strings : List Text → List Text
unfolding sort_insert
sort_strings [] = []
sort_strings (v ∷ l) = sort_insert v (sort_strings l)

-- In strictly rising order, so that no text stands twice.
abbrev pub IsRising : List Text → Type 0
IsRising [] = Unit
IsRising (v ∷ l) = All (λ w. (text_le v w ≡ true) × (v ≢ w)) l × IsRising l

text_le_total : (s t : Text) → text_le s t ≡ false → text_le t s ≡ true
unfolding text_le
text_le_total [] t h = cc
text_le_total (c ∷ s) [] h = refl
text_le_total (c ∷ s) (d ∷ t) h = ground (arith, text_le_total s t)

text_le_trans : (s t u : Text) → text_le s t ≡ true → text_le t u ≡ true → text_le s u ≡ true
unfolding text_le
text_le_trans [] t u h k = refl
text_le_trans (c ∷ s) [] u h k = cc
text_le_trans (c ∷ s) (d ∷ t) [] h k = cc
text_le_trans (c ∷ s) (d ∷ t) (e ∷ u) h k = ground (arith, text_le_trans s t u)

mem-sort_insert : (v w : Text) (l : List Text) → mem w (sort_insert v l) ≡ (text_eq v w || mem w l)
unfolding mem sort_insert
mem-sort_insert v w [] = refl
mem-sort_insert v w (u ∷ l) = ground (arith, mem-sort_insert v w l)

pub mem-sort_strings : (w : Text) (l : List Text) → mem w (sort_strings l) ≡ mem w l
unfolding mem sort_strings
mem-sort_strings w [] = refl
mem-sort_strings w (v ∷ l) =
    ground (arith, mem-sort_insert v w (sort_strings l), mem-sort_strings w l)

-- No text stands twice.
abbrev pub IsDistinct : List Text → Type 0
IsDistinct [] = Unit
IsDistinct (v ∷ l) = (mem v l ≡ false) × IsDistinct l

-- The order of a text and the texts after it.
abbrev Precedes : Text → Text → Type 0
Precedes v w = (text_le v w ≡ true) × (v ≢ w)

absent-differs : (v w : Text) → text_eq w v ≡ false → v ≢ w
absent-differs v w h e = ground (arith, text_eq_iff w v)

Precedes-All :
    (v w : Text) (l : List Text)
    → text_le v w ≡ true
    → mem v l ≡ false
    → All (Precedes w) l
    → All (Precedes v) l
unfolding mem
Precedes-All v w [] h k a = tt
Precedes-All v w (u ∷ l) h k a = (
  (text_le_trans v w u h a.0.0, absent-differs v u (ground arith)),
  Precedes-All v w l h (ground arith) a.1,
)

All-sort_insert {κ} :
    (P : Text → Type κ) (v : Text) (l : List Text) → P v → All P l → All P (sort_insert v l)
unfolding sort_insert
All-sort_insert P v [] h a = (h, tt)
All-sort_insert P v (w ∷ l) h a = elim (Bool-cases (text_le v w)) [
  | inl e ↦ rw e (h, a)
  | inr e ↦ rw e (a.0, All-sort_insert P v l h a.1)
]

sort_insert-IsRising :
    (v : Text) (l : List Text) → mem v l ≡ false → IsRising l → IsRising (sort_insert v l)
unfolding sort_insert mem
sort_insert-IsRising v [] h r = (tt, tt)
sort_insert-IsRising v (w ∷ l) h r = elim (Bool-cases (text_le v w)) [
  | inl e ↦
      rw e (((e, absent-differs v w (ground arith)), Precedes-All v w l e (ground arith) r.0), r)
  | inr e ↦ rw e (
    All-sort_insert (Precedes w) v l
        (text_le_total v w e, λ same. absurd (absent-differs v w (ground arith) (sym same))) r.0,
    sort_insert-IsRising v l (ground arith) r.1,
  )
]

pub sort_strings-IsRising : (l : List Text) → IsDistinct l → IsRising (sort_strings l)
unfolding sort_strings
sort_strings-IsRising [] d = tt
sort_strings-IsRising (v ∷ l) d =
    sort_insert-IsRising v (sort_strings l) (mem-sort_strings v l ∙ d.0)
      (sort_strings-IsRising l d.1)
