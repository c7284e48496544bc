-- ===== src/Config/Endpoint.antt =====
-- Which hosts are taken for AWS IoT endpoints.
use mqtt_forward.Prelude.{
  ltb, if◌then◌else◌, length, take, drop, length-append, take-append-drop, All, Text, codes,
  text_eq_self, text_eq→eq, Lacks, split, join, join-split, split-Lacks, split-append, ◌-◌, ◌≤◌,
  ◌≡◌, refl, sym, ap, ◌∙◌, subst, ◌↔◌, true, false, List, [], ◌∷◌, ◌++◌, arith,
}
use mqtt_forward.Config.{has_suffix, second_is_iot, is_aws_iot_endpoint}

-- A first label, the label `iot`, and two labels at least, the last ones `amazonaws.com`. A region is not
-- required: `abc.iot.amazonaws.com` is such a host.
abbrev pub IsIotHost : Text → Type 0
IsIotHost host =
    (id : Text) × (rest : Text) × (front : Text) × Lacks b'.' id
    × (host ≡ id ++ (b'.' ∷ (codes "iot" ++ (b'.' ∷ rest))))
    × (2 ≤ length (split b'.' rest))
    × (host ≡ front ++ codes ".amazonaws.com")

drop-append : (front end : Text) → drop (length front) (front ++ end) ≡ end
drop-append [] end = refl
drop-append (c ∷ front) end = drop-append front end

has_suffix_append : (front end : Text) → has_suffix (front ++ end) end ≡ true
unfolding has_suffix
has_suffix_append front end =
    let n : length (front ++ end) - length end ≡ length front =
      omega (arith, length-append front end) in
    let long : ltb (length (front ++ end)) (length end) ≡ false =
      ground (arith, length-append front end) in
    rw (long, n) (rw (drop-append front end) (text_eq_self end))

has_suffix_iff : (t end : Text) → (has_suffix t end ≡ true) ↔ ((front : Text) × (t ≡ front ++ end))
unfolding has_suffix
has_suffix_iff t end = (
  λ h.
      let n = length t - length end in
      let same : drop n t ≡ end = text_eq→eq (drop n t) end (ground arith) in
      (take n t, sym (take-append-drop n t) ∙ ap (◌++◌ (take n t)) same),
  λ (front, e). rw e (has_suffix_append front end),
)

-- At least four labels, the second of them `iot`.
abbrev HasLabels : List Text → Type 0
HasLabels parts = (p : Text) × (rs : List Text) × (parts ≡ p ∷ codes "iot" ∷ rs) × (2 ≤ length rs)

labels_iff :
    (parts : List Text)
    → ((if ltb (length parts) 4 then false else second_is_iot parts) ≡ true) ↔ HasLabels parts
labels_iff parts = (sound parts, λ (p, rs, e, n). rw e (complete p rs n))
  where
    sound :
        (parts : List Text)
        → (if ltb (length parts) 4 then false else second_is_iot parts) ≡ true
        → HasLabels parts
    sound [] h = cc
    sound (p ∷ []) h = cc
    sound (p ∷ q ∷ rs) h =
        let iot : q ≡ codes "iot" = text_eq→eq q (codes "iot") (ground arith) in
        (p, rs, ap (λ q. p ∷ q ∷ rs) iot, ground arith)

    complete :
        (p : Text) (rs : List Text)
        → 2 ≤ length rs
        → (if ltb (length (p ∷ codes "iot" ∷ rs)) 4
            then false
            else second_is_iot (p ∷ codes "iot" ∷ rs))
          ≡ true
    complete p rs n = let iot = text_eq_self (codes "iot") in ground arith

join-labels :
    (p : Text) (rs : List Text)
    → 2 ≤ length rs
    → join b'.' (p ∷ codes "iot" ∷ rs) ≡ p ++ (b'.' ∷ (codes "iot" ++ (b'.' ∷ join b'.' rs)))
unfolding join
join-labels p [] n = absurd (omega arith)
join-labels p (r ∷ rs) n = refl

split-labels :
    (p rest : Text)
    → Lacks b'.' p
    → split b'.' (p ++ (b'.' ∷ (codes "iot" ++ (b'.' ∷ rest)))) ≡ p ∷ codes "iot" ∷ split b'.' rest
split-labels p rest lacks =
    split-append b'.' p _ lacks ∙ ap (◌∷◌ p) (split-append b'.' (codes "iot") rest (ground arith))

is_aws_iot_endpoint_parts :
    (host : Text)
    → (is_aws_iot_endpoint host ≡ true)
      ↔ (HasLabels (split b'.' host) × (has_suffix host (codes ".amazonaws.com") ≡ true))
unfolding is_aws_iot_endpoint
is_aws_iot_endpoint_parts host = (
  λ h. ((labels_iff (split b'.' host)).0 (ground arith), ground arith),
  λ (labels, end). let both = (labels_iff (split b'.' host)).1 labels in ground arith,
)

is_aws_iot_endpoint_sound : (host : Text) → is_aws_iot_endpoint host ≡ true → IsIotHost host
is_aws_iot_endpoint_sound host h =
    let ((p, rs, e, n), end) = (is_aws_iot_endpoint_parts host).0 h in
    let (front, tail) = (has_suffix_iff host (codes ".amazonaws.com")).0 end in
    let rest = join b'.' rs in
    let lacks : Lacks b'.' p = (subst (All (Lacks b'.')) e (split-Lacks b'.' host)).0 in
    let whole : host ≡ p ++ (b'.' ∷ (codes "iot" ++ (b'.' ∷ rest))) =
      sym (join-split b'.' host) ∙ ap (join b'.') e ∙ join-labels p rs n in
    let parts : p ∷ codes "iot" ∷ rs ≡ p ∷ codes "iot" ∷ split b'.' rest =
      sym e ∙ ap (split b'.') whole ∙ split-labels p rest lacks in
    let same : rs ≡ split b'.' rest = cc in
    (p, rest, front, lacks, whole, subst (λ l. 2 ≤ length l) same n, tail)

is_aws_iot_endpoint_complete : (host : Text) → IsIotHost host → is_aws_iot_endpoint host ≡ true
is_aws_iot_endpoint_complete host (p, rest, front, lacks, whole, n, tail) =
    (is_aws_iot_endpoint_parts host).1 (
      (p, split b'.' rest, ap (split b'.') whole ∙ split-labels p rest lacks, n),
      (has_suffix_iff host (codes ".amazonaws.com")).1 (front, tail),
    )

-- A host is taken for an AWS IoT endpoint exactly if it has at least four labels, of which the second is
-- `iot`, and ends with `.amazonaws.com`.
pub is_aws_iot_endpoint_iff : (host : Text) → (is_aws_iot_endpoint host ≡ true) ↔ IsIotHost host
is_aws_iot_endpoint_iff host = (is_aws_iot_endpoint_sound host, is_aws_iot_endpoint_complete host)
