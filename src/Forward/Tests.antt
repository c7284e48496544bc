-- ===== src/Forward/Tests.antt =====
-- Examples for internal/forward/forward.go.
use mqtt_forward.Prelude.{
  Text, codes, text_eq, contains, ok, cut_last, strip_suffix, trim_suffix, ◌≡◌, refl, arith,
}
use mqtt_forward.Forward.{
  Spec, digits_value, magnitude, atoi, join_host_port, validate_port, split_port, split_host,
  split_target, split_listen, parse,
}
use mqtt_forward.Forward.Parse.{IsTarget, IsListen, parse_sound}
use mqtt_forward.Forward.Forms.{ListenForm, bound, TargetForm, in_brackets, parse_complete}

abbrev web : Spec
web = record { listen = codes "localhost:8080"; target = codes "db:22" }

abbrev web_text : Text
web_text = codes "8080:db:22"

parse_sound_example : IsListen (codes "localhost:8080") × IsTarget web_text (codes "db:22")
unfolding parse split_target split_listen split_port split_host validate_port atoi magnitude
    digits_value join_host_port trim_suffix strip_suffix cut_last contains text_eq
parse_sound_example = parse_sound web_text web refl

abbrev port_8080 : Text
port_8080 = codes "8080"

abbrev port_443 : Text
port_443 = codes "443"

-- "127.0.0.1:8080:[::1]:443"
ipv6_listen : ListenForm (codes "127.0.0.1:8080") (codes "127.0.0.1:8080")
unfolding atoi magnitude digits_value join_host_port contains
ipv6_listen =
    bound (codes "127.0.0.1") port_8080 (λ e. cc, ground arith, ground arith, ground arith)
      (8080, refl, omega arith, omega arith)

ipv6_target :
    TargetForm (codes "127.0.0.1:8080") (codes "127.0.0.1:8080:[::1]:443") (codes "[::1]:443")
unfolding atoi magnitude digits_value join_host_port contains
ipv6_target =
    in_brackets (codes "::1") port_443 (λ e. cc, ground arith) (443, refl, omega arith, omega arith)

parse_complete_example :
    parse (codes "127.0.0.1:8080:[::1]:443")
    ≡ ok (record { listen = codes "127.0.0.1:8080"; target = codes "[::1]:443" })
parse_complete_example =
    parse_complete (codes "127.0.0.1:8080") (codes "127.0.0.1:8080")
      (codes "127.0.0.1:8080:[::1]:443") (codes "[::1]:443") ipv6_listen ipv6_target

-- A target in brackets needs no colon before them.
missing_colon :
    parse (codes "8080[::1]:443")
    ≡ ok (record { listen = codes "localhost:8080"; target = codes "[::1]:443" })
unfolding parse split_target split_listen split_port split_host validate_port atoi magnitude
    digits_value join_host_port trim_suffix strip_suffix cut_last contains text_eq
missing_colon = refl
