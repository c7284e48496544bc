-- ===== src/Forward/Listens.antt =====
-- What `ParseAll` accepts.
use mqtt_forward.Prelude.{
  if◌then◌else◌, Bool-cases, All, Text, text_eq_iff, Result, err, ok, ◌>>=◌, Result-cases, ◌≡◌,
  refl, sym, ◌∙◌, subst, ◌≢◌, ◌↔◌, inl, inr, false, List, [], ◌∷◌, arith,
}
use mqtt_forward.Forward.{
  Spec, ForwardError, duplicate_listen, invalid_forward, mem_text, parse, parse_each, parse_all,
}

pub mem_text-false : (x : Text) (ys : List Text) → (mem_text x ys ≡ false) ↔ All (λ y. y ≢ x) ys
unfolding mem_text
mem_text-false x [] = (λ h. tt, λ h. refl)
mem_text-false x (y ∷ ys) = ground (arith, text_eq_iff y x, mem_text-false x ys)

-- Each entry is parsed, in order.
abbrev pub AllParsed : List Text → List Spec → Type 0
AllParsed [] [] = Unit
AllParsed [] (_ ∷ _) = ⊥
AllParsed (_ ∷ _) [] = ⊥
AllParsed (raw ∷ raws) (spec ∷ specs) = (parse raw ≡ ok spec) × AllParsed raws specs

-- No listen address is among those before it.
abbrev pub AreNew : List Text → List Spec → Type 0
AreNew seen [] = Unit
AreNew seen (spec ∷ specs) = All (λ x. x ≢ spec.listen) seen × AreNew (spec.listen ∷ seen) specs

parse_each-err :
    (seen : List Text) (raw : Text) (raws : List Text) (e : ForwardError)
    → parse raw ≡ err e
    → parse_each seen (raw ∷ raws) ≡ err (invalid_forward raw e)
unfolding parse_each
parse_each-err seen raw raws e h = rw (h, parse_each)

parse_each-cons :
    (seen : List Text) (raw : Text) (raws : List Text) (spec : Spec)
    → parse raw ≡ ok spec
    → parse_each seen (raw ∷ raws) ≡ (
        if mem_text spec.listen seen
        then err (duplicate_listen spec.listen)
        else (do specs ← parse_each (spec.listen ∷ seen) raws; ok (spec ∷ specs)))
unfolding parse_each
parse_each-cons seen raw raws spec h = rw (h, parse_each)

specs-cons :
    (spec : Spec) (r : Result ForwardError (List Spec)) (specs : List Spec)
    → (r >>= λ rest. ok (spec ∷ rest)) ≡ ok specs
    → (rest : List Spec) × (r ≡ ok rest) × (spec ∷ rest ≡ specs)
specs-cons spec (err e) specs h = cc
specs-cons spec (ok rest) specs h = (rest, refl, cc)

parse_each-AllParsed :
    (seen : List Text) (raws : List Text) (specs : List Spec)
    → parse_each seen raws ≡ ok specs
    → AllParsed raws specs × AreNew seen specs
parse_each-AllParsed seen [] specs h =
    let none_left : [] ≡ specs = unfold parse_each in cc in
    subst (λ l. AllParsed [] l × AreNew seen l) none_left (tt, tt)
parse_each-AllParsed seen (raw ∷ raws) specs h = elim (Result-cases (parse raw)) [
  | inl (e, f) ↦ let failed = parse_each-err seen raw raws e f in absurd cc
  | inr (spec, f) ↦
      let after = sym (parse_each-cons seen raw raws spec f) ∙ h in
      elim (Bool-cases (mem_text spec.listen seen)) [
        | inl m ↦ let failed = rw m at after in absurd cc
        | inr m ↦
            let (rest, parsed, same) =
              specs-cons spec (parse_each (spec.listen ∷ seen) raws) specs (rw m at after) in
            let (all, new) = parse_each-AllParsed (spec.listen ∷ seen) raws rest parsed in
            subst (λ l. AllParsed (raw ∷ raws) l × AreNew seen l) same
              ((f, all), ((mem_text-false spec.listen seen).0 m, new))
      ]
]

AllParsed-parse_each :
    (seen : List Text) (raws : List Text) (specs : List Spec)
    → AllParsed raws specs
    → AreNew seen specs
    → parse_each seen raws ≡ ok specs
AllParsed-parse_each seen [] [] p n = unfold parse_each in refl
AllParsed-parse_each seen [] (_ ∷ _) p n = absurd p
AllParsed-parse_each seen (_ ∷ _) [] p n = absurd p
AllParsed-parse_each seen (raw ∷ raws) (spec ∷ specs) p n = rw (
  parse_each-cons seen raw raws spec p.0,
  (mem_text-false spec.listen seen).1 n.0,
  AllParsed-parse_each (spec.listen ∷ seen) raws specs p.1 n.1,
)

-- A list of forwards is accepted exactly when it is not empty, each entry parses, and no listen
-- address comes twice; the result holds the parsed entries in order.
pub parse_all_iff :
    (raws : List Text) (specs : List Spec)
    → (parse_all raws ≡ ok specs) ↔ ((raws ≢ []) × AllParsed raws specs × AreNew [] specs)
unfolding parse_all
parse_all_iff [] specs = (λ h. cc, λ h. absurd (h.0 refl))
parse_all_iff (raw ∷ raws) specs = (
  λ h. let (parsed, new) = parse_each-AllParsed [] (raw ∷ raws) specs h in (λ e. cc, parsed, new),
  λ h. AllParsed-parse_each [] (raw ∷ raws) specs h.1 h.2,
)
