-- ===== src/Shadow/Interfaces.antt =====
-- `equalInterfaces` compares what the two maps contain.
use mqtt_forward.Prelude.{
  ◌==◌, if◌then◌else◌, Bool-cases, Option-cases, length, All, All-map, Text, text_eq, text_eq_self,
  text_eq→eq, text_eq_iff, Dict, lookup, delete, lookup-delete, Unique, delete-Unique,
  delete_absent, suc, ◌≤◌, ◌≡◌, refl, sym, ap, ◌∙◌, ◌↔◌, ◌⊎◌, inl, inr, true, false, Option, none,
  some, List, [], ◌∷◌, arith,
}
use mqtt_forward.Shadow.Compare.{decode_interfaces, equal_addrs, all_equal, equal_interfaces}

equal_addrs_sound : (xs ys : List Text) → equal_addrs xs ys ≡ true → xs ≡ ys
unfolding equal_addrs
equal_addrs_sound [] [] h = refl
equal_addrs_sound [] (y ∷ ys) h = cc
equal_addrs_sound (x ∷ xs) [] h = cc
equal_addrs_sound (x ∷ xs) (y ∷ ys) h = ground (arith, text_eq→eq x y, equal_addrs_sound xs ys)

equal_addrs_self : (xs : List Text) → equal_addrs xs xs ≡ true
unfolding equal_addrs
equal_addrs_self [] = refl
equal_addrs_self (x ∷ xs) = ground (arith, text_eq_self x, equal_addrs_self xs)

-- Two maps with the same content.
abbrev pub SameContent : Dict (List Text) → Dict (List Text) → Type 0
SameContent ma mb = (name : Text) → lookup name ma ≡ lookup name mb

-- The loop holds exactly if each entry of the first map stands in the second.
abbrev Contains : Dict (List Text) → Dict (List Text) → Type 0
Contains mb ma = All (λ e. lookup e.0 mb ≡ some e.1) ma

all_equal_sound : (ma mb : Dict (List Text)) → all_equal ma mb ≡ true → Contains mb ma
unfolding all_equal
all_equal_sound [] mb h = tt
all_equal_sound ((name, addrs) ∷ ma) mb h = elim (Option-cases (lookup name mb)) [
  | inl e ↦ let no_entry = rw (e, all_equal) at h in absurd cc
  | inr (other, e) ↦
      let both = rw (e, all_equal) at h in
      ground (arith, equal_addrs_sound addrs other, all_equal_sound ma mb, e, both)
]

all_equal_complete : (ma mb : Dict (List Text)) → Contains mb ma → all_equal ma mb ≡ true
unfolding all_equal
all_equal_complete [] mb h = refl
all_equal_complete ((name, addrs) ∷ ma) mb h =
    rw (h.0, all_equal) (ground (arith, equal_addrs_self addrs, all_equal_complete ma mb h.1))

length-delete :
    (k : Text) (v : List Text) (m : Dict (List Text))
    → Unique m
    → lookup k m ≡ some v
    → length m ≡ suc (length (delete k m))
unfolding lookup delete
length-delete k v [] u h = cc
length-delete k v ((j, w) ∷ m) u h = elim (Bool-cases (text_eq j k)) [
  | inl e ↦
      let same = text_eq→eq j k e in
      let absent : delete k m ≡ m = delete_absent k m (ap (λ n. lookup n m) (sym same) ∙ u.0) in
      rw (e, absent) refl
  | inr e ↦
      let later : lookup k m ≡ some v = ground arith in
      rw e (ap suc (length-delete k v m u.1 later))
]

Contains-delete :
    (k : Text) (ma mb : Dict (List Text))
    → lookup k ma ≡ none
    → Contains mb ma
    → Contains (delete k mb) ma
unfolding lookup
Contains-delete k [] mb absent h = tt
Contains-delete k ((j, w) ∷ ma) mb absent h =
    ground (arith, lookup-delete k j mb, text_eq_iff j k, text_eq_iff k j, Contains-delete k ma mb)

-- A map without double keys that has no more entries than the part of it that another is, is that part.
contained_back :
    (ma mb : Dict (List Text))
    → Unique ma
    → Unique mb
    → length ma ≡ length mb
    → Contains mb ma
    → SameContent ma mb
unfolding lookup
contained_back [] [] ua ub n h name = refl
contained_back [] (e ∷ mb) ua ub n h name = absurd (omega arith)
contained_back ((k, v) ∷ ma) mb ua ub n h name =
    let shorter = length-delete k v mb ub h.0 in
    let rest =
      contained_back ma (delete k mb) ua.1 (delete-Unique k mb ub) (omega (arith, shorter))
        (Contains-delete k ma mb ua.0 h.1) name in
    elim (Bool-cases (text_eq k name)) [
      | inl e ↦ rw e (sym h.0 ∙ ap (λ n. lookup n mb) (text_eq→eq k name e))
      | inr e ↦ rw e (ground (arith, rest, lookup-delete k name mb))
    ]

contained-le :
    (ma mb : Dict (List Text)) → Unique ma → Unique mb → Contains mb ma → length ma ≤ length mb
contained-le [] mb ua ub h = omega arith
contained-le ((k, v) ∷ ma) mb ua ub h = omega (
  arith,
  length-delete k v mb ub h.0,
  contained-le ma (delete k mb) ua.1 (delete-Unique k mb ub) (Contains-delete k ma mb ua.0 h.1),
)

Contains-cons :
    (k : Text) (v : List Text) (ma mb : Dict (List Text))
    → lookup k ma ≡ none
    → Contains mb ma
    → Contains ((k, v) ∷ mb) ma
unfolding lookup
Contains-cons k v [] mb absent h = tt
Contains-cons k v ((j, w) ∷ ma) mb absent h =
    ground (arith, text_eq_iff j k, text_eq_iff k j, Contains-cons k v ma mb)

Contains-self : (ma : Dict (List Text)) → Unique ma → Contains ma ma
unfolding lookup
Contains-self [] u = tt
Contains-self ((k, v) ∷ ma) u =
    (ground (arith, text_eq_self k), Contains-cons k v ma ma u.0 (Contains-self ma u.1))

SameContent-Contains : (ma mb : Dict (List Text)) → Unique ma → SameContent ma mb → Contains mb ma
SameContent-Contains ma mb u h =
    All-map (λ e. lookup e.0 ma ≡ some e.1) (λ e. lookup e.0 mb ≡ some e.1) (λ e k. sym (h e.0) ∙ k)
      ma (Contains-self ma u)

equal_interfaces-decoded :
    (unmarshal : Text → Option (Dict (List Text))) (a b : Text) (ma mb : Dict (List Text))
    → decode_interfaces unmarshal a ≡ some ma
    → decode_interfaces unmarshal b ≡ some mb
    → equal_interfaces unmarshal a b ≡ (if length ma == length mb then all_equal ma mb else false)
unfolding equal_interfaces
equal_interfaces-decoded unmarshal a b ma mb ea eb =
    rw (ea, equal_interfaces) (rw (eb, equal_interfaces) refl)

-- Of texts that decode to maps, `equalInterfaces` holds exactly if the maps have the same content.
pub equal_interfaces_iff :
    (unmarshal : Text → Option (Dict (List Text))) (a b : Text) (ma mb : Dict (List Text))
    → decode_interfaces unmarshal a ≡ some ma
    → decode_interfaces unmarshal b ≡ some mb
    → Unique ma
    → Unique mb
    → (equal_interfaces unmarshal a b ≡ true) ↔ SameContent ma mb
equal_interfaces_iff unmarshal a b ma mb ea eb ua ub =
    rw (equal_interfaces-decoded unmarshal a b ma mb ea eb) (
      λ h. contained_back ma mb ua ub (ground arith) (all_equal_sound ma mb (ground arith)),
      λ h.
          let there = SameContent-Contains ma mb ua h in
          let back = SameContent-Contains mb ma ub (λ name. sym (h name)) in
          ground (
            arith,
            all_equal_complete ma mb there,
            contained-le ma mb ua ub there,
            contained-le mb ma ub ua back,
          ),
    )

-- A text that does not decode is equal to none.
pub equal_interfaces_undecoded :
    (unmarshal : Text → Option (Dict (List Text))) (a b : Text)
    → (decode_interfaces unmarshal a ≡ none) ⊎ (decode_interfaces unmarshal b ≡ none)
    → equal_interfaces unmarshal a b ≡ false
unfolding equal_interfaces
equal_interfaces_undecoded unmarshal a b (inl e) = rw (e, equal_interfaces) refl
equal_interfaces_undecoded unmarshal a b (inr e) =
    elim (Option-cases (decode_interfaces unmarshal a)) [
      | inl h ↦ rw (h, equal_interfaces) refl
      | inr (ma, h) ↦ rw (h, equal_interfaces) (rw (e, equal_interfaces) refl)
    ]
