-- ===== src/Shadow/Addresses.antt =====
-- The public addresses that are reported are sorted, and each is reported once.
use mqtt_forward.Prelude.{
  Bool-cases, Text, text_eq, text_eq→eq, text_eq_iff, mem, IsRising, mem-sort_strings, IsDistinct,
  sort_strings-IsRising, ℕ, ◌≡◌, refl, ◌∙◌, subst, ◌⊎◌, inl, inr, Bool, true, false, ◌||◌, Option,
  List, [], ◌∷◌, ◌++◌, arith,
}
use mqtt_forward.Shadow.Network.{
  Answer, public_ip_http, add_new, add_each, first_http, public_ip_dns_opendns,
  public_ip_dns_google, public_ip_dns, public_ips,
}

mem-append : (w : Text) (l m : List Text) → mem w (l ++ m) ≡ (mem w l || mem w m)
unfolding mem
mem-append w [] m = refl
mem-append w (v ∷ l) m = ground (arith, mem-append w l m)

mem-snoc : (w v : Text) (l : List Text) → mem w (l ++ v ∷ []) ≡ (mem w l || text_eq v w)
mem-snoc w v l = mem-append w l (v ∷ []) ∙ unfold mem in ground arith

mem-eq : (v w : Text) (l : List Text) → mem v l ≡ true → text_eq v w ≡ true → mem w l ≡ true
mem-eq v w l h e = subst (λ w. mem w l ≡ true) (text_eq→eq v w e) h

mem-add_new : (v w : Text) (l : List Text) → mem w (add_new v l) ≡ (text_eq v w || mem w l)
unfolding add_new
mem-add_new v w l = elim (Bool-cases (mem v l)) [
  | inl e ↦ rw e (ground (arith, mem-eq v w l))
  | inr e ↦ rw e (ground (arith, mem-snoc w v l))
]

mem-add_each : (w : Text) (ips l : List Text) → mem w (add_each ips l) ≡ (mem w ips || mem w l)
unfolding add_each mem
mem-add_each w [] l = refl
mem-add_each w (v ∷ ips) l = ground (arith, mem-add_each w ips (add_new v l), mem-add_new v w l)

IsDistinct-snoc :
    (v : Text) (l : List Text) → mem v l ≡ false → IsDistinct l → IsDistinct (l ++ v ∷ [])
unfolding mem
IsDistinct-snoc v [] h d = (refl, tt)
IsDistinct-snoc v (w ∷ l) h d = (
  ground (arith, mem-snoc w v l, text_eq_iff v w, text_eq_iff w v),
  IsDistinct-snoc v l (ground arith) d.1,
)

add_new-IsDistinct : (v : Text) (l : List Text) → IsDistinct l → IsDistinct (add_new v l)
unfolding add_new
add_new-IsDistinct v l d = elim (Bool-cases (mem v l)) [
  | inl e ↦ rw e d
  | inr e ↦ rw e (IsDistinct-snoc v l e d)
]

add_each-IsDistinct : (ips l : List Text) → IsDistinct l → IsDistinct (add_each ips l)
unfolding add_each
add_each-IsDistinct [] l d = d
add_each-IsDistinct (v ∷ ips) l d = add_each-IsDistinct ips (add_new v l) (add_new-IsDistinct v l d)

-- The first answer of a web service that is not empty.
abbrev pub first_answer : List (Option Answer) → Text
first_answer [] = []
first_answer (a ∷ answers) =
    let rest = first_answer answers in elim (public_ip_http a) [ [] ↦ rest | ◌∷◌ c ip ↦ c ∷ ip ]

-- A text that is not empty, and is the one given.
abbrev pub is_given : Text → Text → Bool
is_given [] w = false
is_given (c ∷ v) w = text_eq (c ∷ v) w

Text-cases : (t : Text) → (t ≡ []) ⊎ ((c : ℕ) × (s : Text) × (t ≡ c ∷ s))
Text-cases [] = inl refl
Text-cases (c ∷ s) = inr (c, s, refl)

first_http-mem :
    (answers : List (Option Answer)) (w : Text)
    → (mem w (first_http answers []) ≡ is_given (first_answer answers) w)
      × IsDistinct (first_http answers [])
unfolding first_http mem add_new
first_http-mem [] w = (refl, tt)
first_http-mem (a ∷ answers) w = elim (Text-cases (public_ip_http a)) [
  | inl e ↦ rw (e, first_http, first_answer) (first_http-mem answers w)
  | inr (c, ip, e) ↦ rw (e, first_http, first_answer) (ground arith, (refl, tt))
]

dns-mem :
    (is_ip : Text → Bool) (opendns google : Option (List Text)) (w : Text)
    → mem w (public_ip_dns is_ip opendns google)
      ≡ (mem w (public_ip_dns_google is_ip google) || is_given (public_ip_dns_opendns opendns) w)
unfolding public_ip_dns mem
dns-mem is_ip opendns google w = elim (Text-cases (public_ip_dns_opendns opendns)) [
  | inl e ↦ rw (e, public_ip_dns) (mem-add_each w (public_ip_dns_google is_ip google) [])
  | inr (c, ip, e) ↦
      rw (e, public_ip_dns)
        (mem-add_each w (public_ip_dns_google is_ip google) ((c ∷ ip) ∷ []) ∙ ground arith)
]

-- The public addresses that are reported stand in strictly rising order, none twice; and they are: the
-- first answer of a web service that is not empty, the address that OpenDNS gives, and what Google's
-- name server gives and is an address.
pub public_ips_lem :
    (is_ip : Text → Bool) (answers : List (Option Answer)) (opendns google : Option (List Text))
    → let ips = public_ips is_ip answers opendns google in
      IsRising ips
      × ((w : Text)
          → mem w ips ≡ (
              mem w (public_ip_dns_google is_ip google)
              || is_given (public_ip_dns_opendns opendns) w
              || is_given (first_answer answers) w))
unfolding public_ips
public_ips_lem is_ip answers opendns google =
    let web = first_http answers [] in
    let dns = public_ip_dns is_ip opendns google in
    (
      sort_strings-IsRising (add_each dns web)
          (add_each-IsDistinct dns web (first_http-mem answers []).1),
      λ w.
          mem-sort_strings w (add_each dns web)
          ∙ mem-add_each w dns web
          ∙ ground (arith, dns-mem is_ip opendns google w, (first_http-mem answers w).0),
    )
