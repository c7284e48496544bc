-- ===== src/Prelude/Maps.antt =====
-- Go maps with text keys, as association lists in which an insertion overwrites in place.
use mathlib.Core.Path.{◌≡◌, refl}
use mathlib.Core.Bool.{Bool, false, ◌||◌}
use mathlib.Core.Option.{Option, none, some}
use mathlib.Core.List.{List, [], ◌∷◌}
use native.Mathlib.Omega.{arith}
use mqtt_forward.Prelude.Tests.{if◌then◌else◌}
use mqtt_forward.Prelude.Strings.{Text, text_eq, text_eq_iff}

abbrev pub Dict {ℓ} : Type ℓ → Type ℓ
Dict V = List (Text × V)

module _ {ℓ} {V : Type ℓ} where
  unfoldable pub lookup : Text → Dict V → Option V
  lookup k [] = none
  lookup k ((j, v) ∷ m) = if text_eq j k then some v else lookup k m

  unfoldable pub insert : Text → V → Dict V → Dict V
  insert k v [] = (k, v) ∷ []
  insert k v ((j, w) ∷ m) = if text_eq j k then (k, v) ∷ m else (j, w) ∷ insert k v m

  -- `delete(m, k)`: every entry of the key goes.
  unfoldable pub delete : Text → Dict V → Dict V
  delete k [] = []
  delete k ((j, w) ∷ m) = if text_eq j k then delete k m else (j, w) ∷ delete k m

  pub lookup-insert :
      (k j : Text) (v : V) (m : Dict V)
      → lookup j (insert k v m) ≡ (if text_eq k j then some v else lookup j m)
  unfolding lookup insert
  lookup-insert k j v [] = refl
  lookup-insert k j v ((i, w) ∷ m) =
      ground (arith, text_eq_iff k j, text_eq_iff i k, text_eq_iff i j, lookup-insert k j v m)

  pub lookup-delete :
      (k j : Text) (m : Dict V) → lookup j (delete k m) ≡ (if text_eq k j then none else lookup j m)
  unfolding lookup delete
  lookup-delete k j [] = ground arith
  lookup-delete k j ((i, w) ∷ m) =
      ground (arith, text_eq_iff k j, text_eq_iff i k, text_eq_iff i j, lookup-delete k j m)

  -- No key stands in two entries.
  abbrev pub Unique : Dict V → Type ℓ
  Unique [] = Unit
  Unique ((k, v) ∷ m) = (lookup k m ≡ none) × Unique m

  pub insert-Unique : (k : Text) (v : V) (m : Dict V) → Unique m → Unique (insert k v m)
  unfolding insert
  insert-Unique k v [] u = (unfold lookup in refl, tt)
  insert-Unique k v ((i, w) ∷ m) u =
      ground
        (arith, text_eq_iff i k, text_eq_iff k i, lookup-insert k i v m, insert-Unique k v m u.1)

  pub delete-Unique : (k : Text) (m : Dict V) → Unique m → Unique (delete k m)
  unfolding delete
  delete-Unique k [] u = tt
  delete-Unique k ((i, w) ∷ m) u =
      ground (arith, lookup-delete k i m, delete-Unique k m u.1, text_eq_iff k i)

-- Whether a text stands in a list, as a key of a `map[string]struct{}`.
unfoldable pub mem : Text → List Text → Bool
mem k [] = false
mem k (j ∷ l) = text_eq j k || mem k l

-- `delete(m, k)` for each key of a list.
unfoldable pub delete_all {ℓ} : {V : Type ℓ} → List Text → Dict V → Dict V
delete_all [] m = m
delete_all (k ∷ ks) m = delete_all ks (delete k m)

module _ {ℓ} {V : Type ℓ} where
  pub lookup-delete_all :
      (ks : List Text) (j : Text) (m : Dict V)
      → lookup j (delete_all ks m) ≡ (if mem j ks then none else lookup j m)
  unfolding delete_all mem
  lookup-delete_all [] j m = refl
  lookup-delete_all (k ∷ ks) j m =
      ground (arith, lookup-delete_all ks j (delete k m), lookup-delete k j m)

  pub delete_all-Unique : (ks : List Text) (m : Dict V) → Unique m → Unique (delete_all ks m)
  unfolding delete_all
  delete_all-Unique [] m u = u
  delete_all-Unique (k ∷ ks) m u = delete_all-Unique ks (delete k m) (delete-Unique k m u)

  pub delete_absent : (k : Text) (m : Dict V) → lookup k m ≡ none → delete k m ≡ m
  unfolding lookup delete
  delete_absent k [] h = refl
  delete_absent k ((i, w) ∷ m) h = ground (arith, delete_absent k m)
