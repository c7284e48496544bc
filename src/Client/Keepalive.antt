-- ===== src/Client/Keepalive.antt =====
-- When the keepalive of a session closes it.
use mqtt_forward.Prelude.{ℕ, zero, suc, ◌≡◌, ◌↔◌, ◌⊎◌, Bool, true, false, List, [], ◌∷◌, arith}
use mqtt_forward.Client.{keepalive}

-- The list starts with that many misses.
abbrev pub Misses : ℕ → List Bool → Type 0
Misses zero results = Unit
Misses (suc n) [] = ⊥
Misses (suc n) (true ∷ results) = ⊥
Misses (suc n) (false ∷ results) = Misses n results

-- Somewhere there are three misses on end.
abbrev pub HasMisses : List Bool → Type 0
HasMisses [] = ⊥
HasMisses (r ∷ results) = Misses 3 (r ∷ results) ⊎ HasMisses results

Misses-suc : (n : ℕ) (results : List Bool) → Misses (suc n) results → Misses n results
Misses-suc zero results h = tt
Misses-suc (suc n) [] h = h
Misses-suc (suc n) (true ∷ results) h = h
Misses-suc (suc n) (false ∷ results) h = Misses-suc n results h

keepalive_cases :
    (results : List Bool)
    → ((keepalive 0 results ≡ true) ↔ HasMisses results)
      × ((keepalive 1 results ≡ true) ↔ (Misses 2 results ⊎ HasMisses results))
      × ((keepalive 2 results ≡ true) ↔ (Misses 1 results ⊎ HasMisses results))
unfolding keepalive
keepalive_cases [] = ground arith
keepalive_cases (true ∷ results) = let ih = keepalive_cases results in ground arith
keepalive_cases (false ∷ results) =
    let ih = keepalive_cases results in ground (arith, Misses-suc 1 results)

-- The keepalive closes the session exactly when three pings on end have missed.
pub keepalive_iff : (results : List Bool) → (keepalive 0 results ≡ true) ↔ HasMisses results
keepalive_iff results = (keepalive_cases results).0
