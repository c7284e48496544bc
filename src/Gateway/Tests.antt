-- ===== src/Gateway/Tests.antt =====
-- Examples for internal/gateway/gateway.go and the routes of internal/cmd/cmd.go.
use mqtt_forward.Prelude.{
  if◌then◌else◌, All, Text, codes, text_eq, trim_left, trim_right, trim_space, lookup, mem, ok,
  split, ◌≡◌, refl, ◌≢◌, ◌↔◌, Option, none, some, List, [], ◌∷◌,
}
use mqtt_forward.Gateway.Runs.{Surroundings, run_gateway, run_gateway_lem}
use mqtt_forward.Client.{new_client}
use mqtt_forward.Client.Listeners.{TcpForward, Run}
use mqtt_forward.Client.Listeners.Closed.{IsRun}
use mqtt_forward.Gateway.{
  Route, new_gateway, cut, set_field, set_fields, check_flag, parse_route_flag, parse_route_flags,
  listens, merge_gateway_routes,
}
use mqtt_forward.Gateway.Groups.{device_forwards}
use mqtt_forward.Gateway.Checks.{IsRoute, AreApart, new_gateway_iff}
use mqtt_forward.Gateway.Merge.{first_route, or_else, last_route, merge_gateway_routes_lem}

abbrev web : Route
web = record { listen = codes ":80"; device = codes "d1"; target = codes "web:80" }

abbrev db : Route
db = record { listen = codes ":81"; device = codes "d2"; target = codes "db:22" }

abbrev ssh : Route
ssh = record { listen = codes ":82"; device = codes "d1"; target = codes "host:22" }

abbrev routes : List Route
routes = web ∷ db ∷ ssh ∷ []

-- Port 82 is taken.
abbrev ports : List Text → Text → Option Text
ports opened address = if text_eq address ssh.listen then some (codes "in use") else none

abbrev surroundings : Surroundings
surroundings = record {
  net_listen = λ device. ports;
  subscribed = λ device. none;
  last = new_client;
}

abbrev web_forward : TcpForward
web_forward = record { listen = codes ":80"; target = codes "web:80" }

abbrev ssh_forward : TcpForward
ssh_forward = record { listen = codes ":82"; target = codes "host:22" }

d1_forwards : device_forwards (codes "d1") routes ≡ web_forward ∷ ssh_forward ∷ []
unfolding text_eq
d1_forwards = refl

run_gateway_lem_example :
    (r : Run) × (lookup (codes "d1") (run_gateway surroundings routes) ≡ some r)
    × IsRun ports none
        (web_forward ∷ ssh_forward ∷ [])
        (new_client (codes "d1"))
        (new_client (codes "d1"))
        r
run_gateway_lem_example =
    run_gateway_lem surroundings routes (codes "d1") web_forward (ssh_forward ∷ []) d1_forwards

new_gateway_iff_example :
    (new_gateway routes ≡ ok routes)
    ↔ ((routes ≡ routes) × (routes ≢ []) × All IsRoute routes × AreApart [] routes)
new_gateway_iff_example = new_gateway_iff routes routes

parse_route_flag_test : parse_route_flag (codes "listen=:80, device = d1 ,target=web:80") ≡ ok web
unfolding parse_route_flag set_fields set_field check_flag split cut trim_space trim_left trim_right
    text_eq
parse_route_flag_test = refl

-- A flag that takes over the first route, and one for an address of its own.
abbrev flags : List Text
flags = codes "listen=:80,device=d9,target=web:8080" ∷ codes "listen=:99,device=d9,target=x:1" ∷ []

abbrev flag_routes : List Route
flag_routes =
    record { listen = codes ":80"; device = codes "d9"; target = codes "web:8080" }
    ∷ record { listen = codes ":99"; device = codes "d9"; target = codes "x:1" }
    ∷ []

merge_gateway_routes_lem_example :
    (merged : List Route) × (merge_gateway_routes routes flags ≡ ok merged)
    × ((l : Text)
        → first_route l merged ≡ (
            if mem l (listens routes)
            then or_else (last_route l flag_routes) (first_route l routes)
            else first_route l flag_routes))
unfolding parse_route_flags parse_route_flag set_fields set_field check_flag split cut trim_space
    trim_left trim_right text_eq
merge_gateway_routes_lem_example = merge_gateway_routes_lem routes flag_routes flags refl
