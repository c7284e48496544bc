-- ===== src/Prelude/Results.antt =====
-- Errors as values, and their chaining.
use mathlib.Core.Path.{◌≡◌, refl}
use mathlib.Core.Logic.{◌⊎◌, inl, inr}
use mathlib.Core.Bool.{Bool, true, false}

pub data Result {ℓ} (E : Type 0) (A : Type ℓ) : Type ℓ where
  err : E → Result E A
  ok : A → Result E A

infixl 5 ◌>>=◌ ◌>>◌
abbrev pub ◌>>=◌ {ℓ κ} :
    {E : Type 0} {A : Type ℓ} {B : Type κ} → Result E A → (A → Result E B) → Result E B
err e >>= f = err e
ok a >>= f = f a

abbrev pub ◌>>◌ {ℓ} : {E : Type 0} {B : Type ℓ} → Result E (Unit {0}) → Result E B → Result E B
m >> k = m >>= λ _. k

-- An early return with an error unless the test passes.
abbrev pub guard : {E : Type 0} → Bool → E → Result E (Unit {0})
guard true e = ok tt
guard false e = err e

-- `fmt.Errorf("…: %w", err)`: the error of a part under a heading.
abbrev pub wrap {ℓ} : {E F : Type 0} {A : Type ℓ} → (E → F) → Result E A → Result F A
wrap f (ok a) = ok a
wrap f (err e) = err (f e)

-- A chain succeeds only if each of its parts does.
pub >>=-ok {ℓ κ} :
    {E : Type 0} {A : Type ℓ} {B : Type κ} {b : B} (r : Result E A) (next : A → Result E B)
    → (r >>= next) ≡ ok b
    → (x : A) × (r ≡ ok x) × (next x ≡ ok b)
>>=-ok (err e) next chain = cc
>>=-ok (ok x) next chain = (x, refl, chain)

pub Result-cases {ℓ} :
    {E : Type 0} {A : Type ℓ} (r : Result E A) → ((e : E) × (r ≡ err e)) ⊎ ((a : A) × (r ≡ ok a))
Result-cases (err e) = inl (e, refl)
Result-cases (ok a) = inr (a, refl)
