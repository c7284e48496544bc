-- ===== src/Prelude/Strings.antt =====
-- Go strings and byte slices as lists of bytes, their comparison, and the parts of package
-- strings that the program uses.
use Prim.Native.Char.{code}
use Prim.Native.String.{String}
use Prim.Native.Nat.{ℕ}
use mathlib.Core.Path.{◌≡◌, refl}
use mathlib.Core.Logic.{◌↔◌, ◌≢◌}
use mathlib.Core.Bool.{Bool, true, false, ◌&&◌, ◌||◌}
use mathlib.Core.Option.{Option, none, some}
use mathlib.Core.List.{List, [], ◌∷◌}
use native.Mathlib.Omega.{arith}
use mqtt_forward.Prelude.Tests.{◌==◌, leb, if◌then◌else◌}
use mqtt_forward.Prelude.Lists.{All}

abbrev pub Text : Type 0
Text = List ℕ

abbrev pub codes : String → Text
codes String.[] = []
codes (String.◌∷◌ c s) = code c ∷ codes s

unfoldable pub text_eq : Text → Text → Bool
text_eq [] [] = true
text_eq [] (y ∷ ys) = false
text_eq (x ∷ xs) [] = false
text_eq (x ∷ xs) (y ∷ ys) = (x == y) && text_eq xs ys

pub text_eq_self : (xs : Text) → text_eq xs xs ≡ true
unfolding text_eq
text_eq_self [] = refl
text_eq_self (x ∷ xs) = ground (arith, text_eq_self xs)

pub text_eq→eq : (xs ys : Text) → text_eq xs ys ≡ true → xs ≡ ys
unfolding text_eq
text_eq→eq [] [] h = refl
text_eq→eq [] (y ∷ ys) h = cc
text_eq→eq (x ∷ xs) [] h = cc
text_eq→eq (x ∷ xs) (y ∷ ys) h = ground (arith, text_eq→eq xs ys)

pub text_eq_iff : (xs ys : Text) → (text_eq xs ys ≡ true) ↔ (xs ≡ ys)
text_eq_iff xs ys = (text_eq→eq xs ys, λ e. rw e (text_eq_self ys))

-- No byte of the text is `b`.
abbrev pub Lacks : ℕ → Text → Type 0
Lacks b = All (λ c. c ≢ b)

-- Whether the byte `b` occurs: `strings.Contains` with a text of one byte.
unfoldable pub contains : Text → ℕ → Bool
contains [] b = false
contains (x ∷ xs) b = (x == b) || contains xs b

pub contains-Lacks : (xs : Text) (b : ℕ) → contains xs b ≡ false → Lacks b xs
unfolding contains
contains-Lacks [] b h = tt
contains-Lacks (x ∷ xs) b h = ground (arith, contains-Lacks xs b)

pub Lacks-contains : (xs : Text) (b : ℕ) → Lacks b xs → contains xs b ≡ false
unfolding contains
Lacks-contains [] b h = refl
Lacks-contains (x ∷ xs) b h = ground (arith, Lacks-contains xs b)

-- `strings.CutPrefix`: what is left after a beginning.
unfoldable pub cut_prefix : Text → Text → Option Text
cut_prefix [] t = some t
cut_prefix (c ∷ start) [] = none
cut_prefix (c ∷ start) (d ∷ t) = let rest = cut_prefix start t in if c == d then rest else none

-- `strings.TrimSpace`, on ASCII text.
abbrev pub is_space : ℕ → Bool
is_space c = c == 32 || leb 9 c && leb c 13

unfoldable pub trim_left : Text → Text
trim_left [] = []
trim_left (c ∷ cs) = let rest = trim_left cs in if is_space c then rest else c ∷ cs

unfoldable pub trim_right : Text → Text
trim_right [] = []
trim_right (c ∷ cs) = elim (trim_right cs) [
  | [] ↦ if is_space c then [] else c ∷ []
  | d ∷ ds ↦ c ∷ d ∷ ds
]

unfoldable pub trim_space : Text → Text
unfolding trim_left trim_right
trim_space s = trim_right (trim_left s)
