-- ===== src/Shadow/Drift.antt =====
-- When the device updates its shadow.
use mathlib.Core.List.{Perm}
use mqtt_forward.Prelude.{
  if◌then◌else◌, Bool-cases, Option-cases, Text, text_eq, text_eq→eq, text_eq_iff, Dict, Unique,
  ◌≡◌, refl, subst, ◌↔◌, inl, inr, true, Option, some, List, [], ◌∷◌, arith,
}
use mqtt_forward.Shadow.Compare.{
  ReportedState, equal_string_set, decode_interfaces, equal_interfaces, equal,
}
use mqtt_forward.Shadow.Interfaces.{SameContent, equal_interfaces_iff, equal_interfaces_undecoded}
use mqtt_forward.Shadow.{Json, publish_update, handle_get_accepted}
use mqtt_forward.Shadow.Sets.{equal_string_set_iff}
use mqtt_forward.Transport.{Transport}

-- Two reports that say the same: the version, the public addresses but for their order, and the
-- interfaces with their addresses, however the JSON text of the map is written.
abbrev pub SameReport : (Text → Option (Dict (List Text))) → ReportedState → ReportedState → Type 0
SameReport unmarshal s o =
    (s.version ≡ o.version)
    × Perm s.public_ip o.public_ip
    × (ma : Dict (List Text)) × (mb : Dict (List Text)) × (decode_interfaces unmarshal s.interfaces
        ≡ some ma)
    × (decode_interfaces unmarshal o.interfaces ≡ some mb)
    × SameContent ma mb

-- A decoder that gives maps, that is, no key twice.
abbrev pub Decodes : (Text → Option (Dict (List Text))) → Type 0
Decodes unmarshal = (t : Text) (m : Dict (List Text)) → unmarshal t ≡ some m → Unique m

decode_interfaces-Unique :
    (unmarshal : Text → Option (Dict (List Text)))
    → Decodes unmarshal
    → (t : Text) (m : Dict (List Text)) → decode_interfaces unmarshal t ≡ some m
    → Unique m
unfolding decode_interfaces
decode_interfaces-Unique unmarshal maps [] m e = let same : [] ≡ m = cc in subst Unique same tt
decode_interfaces-Unique unmarshal maps (c ∷ t) m e = maps (c ∷ t) m e

interfaces_sound :
    (unmarshal : Text → Option (Dict (List Text))) (a b : Text)
    → Decodes unmarshal
    → equal_interfaces unmarshal a b ≡ true
    → (ma : Dict (List Text)) × (mb : Dict (List Text)) × (decode_interfaces unmarshal a ≡ some ma)
      × (decode_interfaces unmarshal b ≡ some mb)
      × SameContent ma mb
interfaces_sound unmarshal a b maps h = elim (Option-cases (decode_interfaces unmarshal a)) [
  | inl e ↦ let no_map = equal_interfaces_undecoded unmarshal a b (inl e) in absurd cc
  | inr (ma, ea) ↦ elim (Option-cases (decode_interfaces unmarshal b)) [
    | inl e ↦ let no_map = equal_interfaces_undecoded unmarshal a b (inr e) in absurd cc
    | inr (mb, eb) ↦ (
      ma,
      mb,
      ea,
      eb,
      (equal_interfaces_iff unmarshal a b ma mb ea eb
            (decode_interfaces-Unique unmarshal maps a ma ea)
            (decode_interfaces-Unique unmarshal maps b mb eb)).0
          h,
    )
  ]
]

equal_parts :
    (unmarshal : Text → Option (Dict (List Text))) (s o : ReportedState)
    → (equal unmarshal s o ≡ true) ↔ (
        (text_eq s.version o.version ≡ true)
        × (equal_string_set s.public_ip o.public_ip ≡ true)
        × (equal_interfaces unmarshal s.interfaces o.interfaces ≡ true))
unfolding equal
equal_parts unmarshal s o = (λ h. (ground arith, ground arith, ground arith), λ h. ground arith)

equal_iff :
    (unmarshal : Text → Option (Dict (List Text))) (s o : ReportedState)
    → Decodes unmarshal
    → (equal unmarshal s o ≡ true) ↔ SameReport unmarshal s o
equal_iff unmarshal s o maps = (
  λ h.
      let (v, p, i) = (equal_parts unmarshal s o).0 h in
      let (ma, mb, ea, eb, c) = interfaces_sound unmarshal s.interfaces o.interfaces maps i in
      (
        text_eq→eq s.version o.version v,
        (equal_string_set_iff s.public_ip o.public_ip).0 p,
        ma,
        mb,
        ea,
        eb,
        c,
      ),
  λ (v, p, ma, mb, ea, eb, c). (equal_parts unmarshal s o).1 (
    (text_eq_iff s.version o.version).1 v,
    (equal_string_set_iff s.public_ip o.public_ip).1 p,
    (equal_interfaces_iff unmarshal s.interfaces o.interfaces ma mb ea eb
          (decode_interfaces-Unique unmarshal maps s.interfaces ma ea)
          (decode_interfaces-Unique unmarshal maps o.interfaces mb eb)).1
        c,
  ),
)

handle_get_accepted-decoded :
    (js : Json) (device_id : Text) (current reported : ReportedState) (payload : Text)
    (t : Transport)
    → js.unmarshal_response payload ≡ some reported
    → handle_get_accepted js device_id current payload t ≡ (
        if equal js.unmarshal_interfaces current reported
        then t
        else publish_update js device_id current t)
unfolding handle_get_accepted
handle_get_accepted-decoded js device_id current reported payload t e =
    rw (e, handle_get_accepted) refl

-- When the broker answers with the shadow document, the device publishes nothing if the report in it says
-- the same as the present one, in whatever order the addresses stand and however the text of the
-- interfaces is written; if it does not, the device publishes the present report. (The JSON
-- decoder yields maps with no key twice, and the answer is well formed.)
pub handle_get_accepted_lem :
    (js : Json) (device_id : Text) (current reported : ReportedState) (payload : Text)
    (t : Transport)
    → Decodes js.unmarshal_interfaces
    → js.unmarshal_response payload ≡ some reported
    → let t' = handle_get_accepted js device_id current payload t in
      (SameReport js.unmarshal_interfaces current reported → t' ≡ t)
      × (¬ SameReport js.unmarshal_interfaces current reported
          → t' ≡ publish_update js device_id current t)
handle_get_accepted_lem js device_id current reported payload t maps e =
    let same = equal_iff js.unmarshal_interfaces current reported maps in
    rw (handle_get_accepted-decoded js device_id current reported payload t e) (
      λ h. rw (same.1 h) refl,
      λ h. elim (Bool-cases (equal js.unmarshal_interfaces current reported)) [
        | inl yes_same ↦ absurd (h (same.0 yes_same))
        | inr differs ↦ rw differs refl
      ],
    )
