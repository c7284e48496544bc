-- ===== src/Gateway/Merge.antt =====
-- Which route stands for a listen address after the merge of flags into the configuration.
use mqtt_forward.Prelude.{
  if◌then◌else◌, Bool-cases, Option-cases, Text, text_eq, text_eq→eq, text_eq_iff, Dict, lookup,
  insert, lookup-insert, mem, ok, ◌≡◌, refl, sym, ap, ◌∙◌, subst, ◌⊎◌, inl, inr, Bool, true, false,
  Option, none, some, List, [], ◌∷◌, ◌++◌, arith,
}
use mqtt_forward.Gateway.{
  Route, parse_route_flags, override, merge_config, listens, unused, used_listens,
  merge_gateway_routes,
}

-- The first and the last route of a list for a listen address.
abbrev pub first_route : Text → List Route → Option Route
first_route l [] = none
first_route l (r ∷ rs) = if text_eq r.listen l then some r else first_route l rs

abbrev pub or_else : Option Route → Option Route → Option Route
or_else none o = o
or_else (some r) o = some r

abbrev pub last_route : Text → List Route → Option Route
last_route l [] = none
last_route l (r ∷ rs) = or_else (last_route l rs) (if text_eq r.listen l then some r else none)

or_else-if :
    (a : Option Route) (b : Bool) (r : Route) (o : Option Route)
    → or_else a (if b then some r else o) ≡ or_else (or_else a (if b then some r else none)) o
or_else-if none true r o = refl
or_else-if none false r o = refl
or_else-if (some x) b r o = refl

lookup-override :
    (l : Text) (rs : List Route) (d : Dict Route)
    → lookup l (override rs d) ≡ or_else (last_route l rs) (lookup l d)
unfolding override
lookup-override l [] d = refl
lookup-override l (r ∷ rs) d =
    lookup-override l rs (insert r.listen r d)
    ∙ ap (or_else (last_route l rs)) (lookup-insert r.listen l r d)
    ∙ or_else-if (last_route l rs) (text_eq r.listen l) r (lookup l d)

or_else-cases :
    (a b : Option Route) (r : Route) → or_else a b ≡ some r → (a ≡ some r) ⊎ (b ≡ some r)
or_else-cases none b r h = inr h
or_else-cases (some x) b r h = inl h

if-listen :
    (l : Text) (x r : Route) → (if text_eq x.listen l then some x else none) ≡ some r → r.listen ≡ l
if-listen l x r h = ground (arith, text_eq_iff x.listen l)

last_route-listen :
    (l : Text) (rs : List Route) (r : Route) → last_route l rs ≡ some r → r.listen ≡ l
last_route-listen l [] r h = cc
last_route-listen l (x ∷ rs) r h =
    elim (or_else-cases (last_route l rs) (if text_eq x.listen l then some x else none) r h) [
      | inl e ↦ last_route-listen l rs r e
      | inr e ↦ if-listen l x r e
    ]

-- Each route of a map stands under its own listen address.
abbrev OwnListens : Dict Route → Type 0
OwnListens d = (k : Text) (r : Route) → lookup k d ≡ some r → r.listen ≡ k

override-OwnListens : (rs : List Route) → OwnListens (override rs [])
override-OwnListens rs k r h =
    elim (or_else-cases (last_route k rs) (lookup k []) r (sym (lookup-override k rs []) ∙ h)) [
      | inl e ↦ last_route-listen k rs r e
      | inr e ↦ unfold lookup in cc
    ]

module _ (l : Text) (d : Dict Route) (own : OwnListens d) where
  merge_config-cons :
      (r : Route) (cfg : List Route)
      → first_route l (merge_config d (r ∷ cfg)) ≡ (
          if text_eq r.listen l
          then or_else (lookup l d) (some r)
          else first_route l (merge_config d cfg))
  unfolding merge_config
  merge_config-cons r cfg = elim (Option-cases (lookup r.listen d)) [
    | inl e ↦
        rw (e, merge_config)
          (elim (Bool-cases (text_eq r.listen l)) [
            | inl t ↦
                let here : lookup l d ≡ none =
                  subst (λ k. lookup k d ≡ none) (text_eq→eq r.listen l t) e in
                rw t (rw here)
            | inr t ↦ rw t
          ])
    | inr (ov, e) ↦
        let same : ov.listen ≡ r.listen = own r.listen ov e in
        let listens_same = ap (λ k. text_eq k l) same in
        rw (e, merge_config)
          (elim (Bool-cases (text_eq r.listen l)) [
            | inl t ↦
                let here : lookup l d ≡ some ov =
                  subst (λ k. lookup k d ≡ some ov) (text_eq→eq r.listen l t) e in
                rw (listens_same ∙ t) (rw t (rw here))
            | inr t ↦ rw (listens_same ∙ t) (rw t)
          ])
  ]

  first_route-merge_config :
      (cfg : List Route)
      → first_route l (merge_config d cfg)
        ≡ (if mem l (listens cfg) then or_else (lookup l d) (first_route l cfg) else none)
  unfolding mem
  first_route-merge_config [] = unfold merge_config in refl
  first_route-merge_config (r ∷ cfg) =
      merge_config-cons r cfg ∙ elim (Bool-cases (text_eq r.listen l)) [
        | inl t ↦ rw t
        | inr t ↦ rw t (first_route-merge_config cfg)
      ]

first_route-append :
    (l : Text) (xs ys : List Route)
    → first_route l (xs ++ ys) ≡ or_else (first_route l xs) (first_route l ys)
first_route-append l [] ys = refl
first_route-append l (x ∷ xs) ys = elim (Bool-cases (text_eq x.listen l)) [
  | inl t ↦ rw t
  | inr t ↦ rw t (first_route-append l xs ys)
]

-- The flags that are left over: those whose listen address overrides nothing.
mem-used_listens :
    (l : Text) (d : Dict Route) (cfg : List Route)
    → mem l (listens cfg) ≡ false
    → mem l (used_listens d cfg) ≡ false
unfolding mem used_listens
mem-used_listens l d [] h = refl
mem-used_listens l d (r ∷ cfg) h = ground (arith, mem-used_listens l d cfg)

first_route-unused :
    (l : Text) (used : List Text) (rs : List Route)
    → mem l used ≡ false
    → first_route l (unused used rs) ≡ first_route l rs
unfolding unused
first_route-unused l used [] h = refl
first_route-unused l used (r ∷ rs) h = elim (Bool-cases (text_eq r.listen l)) [
  | inl t ↦
      let absent : mem r.listen used ≡ false =
        subst (λ k. mem k used ≡ false) (sym (text_eq→eq r.listen l t)) h in
      rw absent (rw t)
  | inr t ↦ elim (Bool-cases (mem r.listen used)) [
    | inl m ↦ rw m (rw t (first_route-unused l used rs h))
    | inr m ↦ rw m (rw t (first_route-unused l used rs h))
  ]
]

first_route-some :
    (l : Text) (a : Option Route) (cfg : List Route) (o : Option Route)
    → mem l (listens cfg) ≡ true
    → or_else (or_else a (first_route l cfg)) o ≡ or_else a (first_route l cfg)
unfolding mem
first_route-some l (some r) cfg o h = refl
first_route-some l none [] o h = cc
first_route-some l none (r ∷ cfg) o h = elim (Bool-cases (text_eq r.listen l)) [
  | inl t ↦ rw t
  | inr t ↦ rw t (first_route-some l none cfg o (rw t at h))
]

lookup-override_empty : (l : Text) (rs : List Route) → lookup l (override rs []) ≡ last_route l rs
unfolding lookup
lookup-override_empty l rs = lookup-override l rs [] ∙ or_else-none (last_route l rs)
  where
    or_else-none : (o : Option Route) → or_else o (lookup l []) ≡ o
    or_else-none none = refl
    or_else-none (some r) = refl

merged_choice :
    (l : Text) (cfg flags : List Route)
    → let d = override flags [] in
      or_else
        (if mem l (listens cfg) then or_else (lookup l d) (first_route l cfg) else none)
        (first_route l (unused (used_listens d cfg) flags))
      ≡ (if mem l (listens cfg)
          then or_else (last_route l flags) (first_route l cfg)
          else first_route l flags)
merged_choice l cfg flags =
    let d = override flags [] in
    elim (Bool-cases (mem l (listens cfg))) [
      | inl known ↦ rw known (
          first_route-some l (lookup l d) cfg _ known
          ∙ ap (λ o. or_else o (first_route l cfg)) (lookup-override_empty l flags))
      | inr other ↦
          rw other
            (first_route-unused l (used_listens d cfg) flags (mem-used_listens l d cfg other))
    ]

-- When every flag parses, the merge succeeds, and the first route for a listen address is this: where the
-- configuration has the address, the last flag for it, or else the configuration's own route; where
-- it has not, the first flag for it.
pub merge_gateway_routes_lem :
    (config_routes flag_routes : List Route) (route_flags : List Text)
    → parse_route_flags route_flags ≡ ok flag_routes
    → (merged : List Route) × (merge_gateway_routes config_routes route_flags ≡ ok merged)
      × ((l : Text)
          → first_route l merged ≡ (
              if mem l (listens config_routes)
              then or_else (last_route l flag_routes) (first_route l config_routes)
              else first_route l flag_routes))
unfolding merge_gateway_routes
merge_gateway_routes_lem cfg flags raws h =
    let d = override flags [] in
    let front = merge_config d cfg in
    let back = unused (used_listens d cfg) flags in
    (
      front ++ back,
      rw (h, merge_gateway_routes),
      λ l.
          first_route-append l front back
          ∙ ap (λ o. or_else o (first_route l back))
              (first_route-merge_config l d (override-OwnListens flags) cfg)
          ∙ merged_choice l cfg flags,
    )
