-- ===== src/Gateway/Checks.antt =====
-- The routes that `New` accepts.
use mqtt_forward.Prelude.{
  All, Text, text_eq_iff, mem, ok, Result-cases, ◌≡◌, refl, sym, ap, ◌≢◌, ◌↔◌, inl, inr, false,
  List, [], ◌∷◌, arith,
}
use mqtt_forward.Gateway.{Route, is_empty, check_route, check_routes, new_gateway}

abbrev pub IsRoute : Route → Type 0
IsRoute r = (r.listen ≢ []) × (r.device ≢ []) × (r.target ≢ [])

-- No listen address is among those before it.
abbrev pub AreApart : List Text → List Route → Type 0
AreApart seen [] = Unit
AreApart seen (r ∷ rs) = All (λ x. x ≢ r.listen) seen × AreApart (r.listen ∷ seen) rs

mem-false : (x : Text) (ys : List Text) → (mem x ys ≡ false) ↔ All (λ y. y ≢ x) ys
unfolding mem
mem-false x [] = (λ h. tt, λ h. refl)
mem-false x (y ∷ ys) = ground (arith, text_eq_iff y x, mem-false x ys)

is_empty_iff : (t : Text) → (is_empty t ≡ false) ↔ (t ≢ [])
is_empty_iff [] = (λ h. cc, λ h. absurd (h refl))
is_empty_iff (c ∷ cs) = (λ h. λ e. cc, λ h. refl)

check_route_iff : (r : Route) → (check_route r ≡ ok tt) ↔ IsRoute r
unfolding check_route
check_route_iff r =
    ground (arith, is_empty_iff r.listen, is_empty_iff r.device, is_empty_iff r.target)

check_routes_iff :
    (seen : List Text) (rs : List Route)
    → (check_routes seen rs ≡ ok tt) ↔ (All IsRoute rs × AreApart seen rs)
unfolding check_routes
check_routes_iff seen [] = (λ h. (tt, tt), λ h. refl)
check_routes_iff seen (r ∷ rs) = ground (
  arith,
  is_empty_iff r.listen,
  is_empty_iff r.device,
  is_empty_iff r.target,
  mem-false r.listen seen,
  check_routes_iff (r.listen ∷ seen) rs,
)

-- A gateway is built exactly of routes, one at least, that have no empty part and of which no two share a
-- listen address; it has the routes as they are.
pub new_gateway_iff :
    (rs gs : List Route)
    → (new_gateway rs ≡ ok gs) ↔ ((gs ≡ rs) × (rs ≢ []) × All IsRoute rs × AreApart [] rs)
unfolding new_gateway
new_gateway_iff [] gs = (λ h. cc, λ h. absurd (h.1 refl))
new_gateway_iff (r ∷ rs) gs = elim (Result-cases (check_routes [] (r ∷ rs))) [
  | inl (e, f) ↦ (
    λ h. let failed = rw (f, new_gateway) at h in absurd cc,
    λ h. let passed = (check_routes_iff [] (r ∷ rs)).1 (h.2, h.3) in absurd cc,
  )
  | inr (tt, f) ↦ (
    λ h.
        let after = rw (f, new_gateway) at h in
        let (all, apart) = (check_routes_iff [] (r ∷ rs)).0 f in (cc, λ e. cc, all, apart),
    λ h. rw (f, new_gateway) (ap ok (sym h.0)),
  )
]
