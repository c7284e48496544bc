-- ===== src/Shadow/Tests.antt =====
-- Examples for internal/shadow.
use mqtt_forward.Prelude.{
  if◌then◌else◌, Bool-cases, Text, codes, text_eq, trim_left, trim_right, trim_space, Dict, Unique,
  mem, text_le, sort_insert, sort_strings, IsRising, ◌≡◌, refl, subst, inl, inr, true, ◌||◌, Option,
  none, some, List, [], ◌∷◌,
}
use mqtt_forward.Shadow.{Json, publish_update, handle_get_accepted}
use mqtt_forward.Shadow.Compare.{ReportedState}
use mqtt_forward.Shadow.Drift.{SameReport, Decodes, handle_get_accepted_lem}
use mqtt_forward.Shadow.Network.{
  Answer, public_ip_http, add_new, add_each, first_http, public_ip_dns_opendns, valid_ips,
  public_ip_dns_google, public_ip_dns, public_ips,
}
use mqtt_forward.Transport.{Transport}
use mqtt_forward.Shadow.Addresses.{first_answer, is_given, public_ips_lem}

abbrev report : List Text → Text → ReportedState
report ips interfaces = record { version = codes "1.2"; public_ip = ips; interfaces = interfaces }

abbrev here_and_there : List Text
here_and_there = codes "10.0.0.1" ∷ codes "10.0.0.2" ∷ []

-- A decoder that knows one text.
abbrev decode : Text → Option (Dict (List Text))
decode t = if text_eq t (codes "{}") then some [] else none

abbrev coder : Json
coder = record {
  marshal_interfaces = λ m. some (codes "{}");
  unmarshal_interfaces = decode;
  marshal_update = λ r. some r.version;
  unmarshal_response = λ t. some (report (codes "10.0.0.2" ∷ codes "10.0.0.1" ∷ []) (codes "{}"));
}

decode-Unique : Decodes decode
decode-Unique t m e = elim (Bool-cases (text_eq t (codes "{}"))) [
  | inl h ↦ let k = rw h at e in let same : [] ≡ m = cc in subst Unique same tt
  | inr h ↦ let k = rw h at e in absurd cc
]

abbrev all_taken : Transport
all_taken = record { published = []; accepts = λ ms m. true }

handle_get_accepted_lem_example :
    let current = report here_and_there (codes "{}") in
    let t' = handle_get_accepted coder (codes "d") current (codes "x") all_taken in
    (SameReport decode current (report (codes "10.0.0.2" ∷ codes "10.0.0.1" ∷ []) (codes "{}"))
      → t' ≡ all_taken)
    × (¬ SameReport decode current (report (codes "10.0.0.2" ∷ codes "10.0.0.1" ∷ []) (codes "{}"))
        → t' ≡ publish_update coder (codes "d") current all_taken)
handle_get_accepted_lem_example =
    handle_get_accepted_lem coder (codes "d") (report here_and_there (codes "{}"))
      (report (codes "10.0.0.2" ∷ codes "10.0.0.1" ∷ []) (codes "{}")) (codes "x") all_taken
      decode-Unique refl

abbrev answers : List (Option Answer)
answers = none ∷ some (record { status = 200; body = codes "10.0.0.2\n" }) ∷ []

public_ips_lem_example :
    let ips =
      public_ips
        (λ t. true)
        answers
        (some (codes "10.0.0.2" ∷ []))
        (some (codes "10.0.0.1" ∷ [])) in
    IsRising ips
    × ((w : Text)
        → mem w ips ≡ (
            mem w (public_ip_dns_google (λ t. true) (some (codes "10.0.0.1" ∷ [])))
            || is_given (public_ip_dns_opendns (some (codes "10.0.0.2" ∷ []))) w
            || is_given (first_answer answers) w))
public_ips_lem_example =
    public_ips_lem (λ t. true) answers (some (codes "10.0.0.2" ∷ [])) (some (codes "10.0.0.1" ∷ []))

-- The same address from two sources is reported once.
public_ips_sorted :
    public_ips (λ t. true) answers (some (codes "10.0.0.2" ∷ [])) (some (codes "10.0.0.1" ∷ []))
    ≡ here_and_there
unfolding public_ips first_http public_ip_http trim_space trim_left trim_right add_new add_each mem
    text_eq public_ip_dns public_ip_dns_opendns public_ip_dns_google valid_ips sort_strings
    sort_insert text_le
public_ips_sorted = refl
