-- ===== src/Gateway.antt =====
-- internal/gateway/gateway.go, and the routes of the gateway command, internal/cmd/cmd.go. Of package
-- strings, `Cut` is written out, and `TrimSpace` for the white space of ASCII.
pub mod Groups
pub mod Checks
pub mod Merge
pub mod Runs
pub mod Tests
use mqtt_forward.Client.Listeners.{TcpForward}
use mqtt_forward.Prelude.{
  ◌==◌, if◌then◌else◌, Text, codes, text_eq, trim_left, trim_right, trim_space, Dict, lookup,
  insert, mem, Result, err, ok, ◌>>=◌, ◌>>◌, wrap, split, ℕ, Bool, true, false, Option, none, some,
  List, [], ◌∷◌, ◌++◌,
}

pub record Route : Type 0 where
  pub listen : Text
  pub device : Text
  pub target : Text

pub data RouteError : Type 0 where
  no_routes empty_listen missing_device missing_listen missing_target : RouteError
  empty_device empty_target duplicate_route not_key_value unknown_key : Text → RouteError
  invalid_route : Text → RouteError → RouteError

abbrev pub is_empty : Text → Bool
is_empty [] = true
is_empty (c ∷ cs) = false

-- The checks on one route, and on each, with the listen addresses seen so far.
unfoldable pub check_route : Route → Result RouteError (Unit {0})
check_route r =
    if is_empty r.listen
    then err empty_listen
    else if is_empty r.device
    then err (empty_device r.listen)
    else if is_empty r.target
    then err (empty_target r.listen)
    else ok tt

unfoldable pub check_routes : List Text → List Route → Result RouteError (Unit {0})
unfolding check_route mem
check_routes seen [] = ok tt
check_routes seen (r ∷ rs) =
    let rest = check_routes (r.listen ∷ seen) rs in
    elim (check_route r) [
      | err e ↦ err e
      | ok _ ↦ if mem r.listen seen then err (duplicate_route r.listen) else rest
    ]

-- `New`: the routes of the gateway.
unfoldable pub new_gateway : List Route → Result RouteError (List Route)
unfolding check_routes
new_gateway [] = err no_routes
new_gateway (r ∷ rs) = do check_routes [] (r ∷ rs); ok (r ∷ rs)

abbrev pub forward_of : Route → TcpForward
forward_of r = record { listen = r.listen; target = r.target }

-- `byDevice[device]`, which is empty where the map has no such key.
abbrev pub forwards_in : Option (List TcpForward) → List TcpForward
forwards_in none = []
forwards_in (some l) = l

abbrev pub forwards_at : Text → Dict (List TcpForward) → List TcpForward
forwards_at device d = forwards_in (lookup device d)

unfoldable pub group_each : List Route → Dict (List TcpForward) → Dict (List TcpForward)
group_each [] d = d
group_each (r ∷ rs) d =
    group_each rs (insert r.device (forwards_at r.device d ++ forward_of r ∷ []) d)

unfoldable pub group_by_device : List Route → Dict (List TcpForward)
unfolding group_each
group_by_device routes = group_each routes []

-- `strings.Cut` at one byte.
unfoldable pub cut : ℕ → Text → Option (Text × Text)
cut b [] = none
cut b (c ∷ cs) =
    let rest = cut b cs in
    if c == b
    then some ([], cs)
    else elim rest [ none ↦ none | some (front, back) ↦ some (c ∷ front, back) ]

-- One field of a flag sets one part of the route.
unfoldable pub set_field : Text → Route → Result RouteError Route
unfolding cut text_eq trim_left trim_right
set_field field r = elim (cut b'=' field) [
  | none ↦ err (not_key_value field)
  | some (key, value) ↦
      if text_eq (trim_space key) (codes "device")
      then ok (record r { device = trim_space value })
      else if text_eq (trim_space key) (codes "listen")
      then ok (record r { listen = trim_space value })
      else if text_eq (trim_space key) (codes "target")
      then ok (record r { target = trim_space value })
      else err (unknown_key key)
]

unfoldable pub set_fields : List Text → Route → Result RouteError Route
unfolding set_field
set_fields [] r = ok r
set_fields (field ∷ fields) r = do r' ← set_field field r; set_fields fields r'

unfoldable pub check_flag : Route → Result RouteError Route
check_flag r =
    if is_empty r.device
    then err missing_device
    else if is_empty r.listen
    then err missing_listen
    else if is_empty r.target
    then err missing_target
    else ok r

unfoldable pub parse_route_flag : Text → Result RouteError Route
unfolding set_fields check_flag split
parse_route_flag raw = do
  route ← set_fields (split b',' raw) (record { listen = []; device = []; target = [] })
  check_flag route

unfoldable pub parse_route_flags : List Text → Result RouteError (List Route)
unfolding parse_route_flag
parse_route_flags [] = ok []
parse_route_flags (raw ∷ raws) = do
  route ← wrap (invalid_route raw) (parse_route_flag raw)
  routes ← parse_route_flags raws
  ok (route ∷ routes)

-- The last flag for each listen address.
unfoldable pub override : List Route → Dict Route → Dict Route
override [] d = d
override (r ∷ rs) d = override rs (insert r.listen r d)

-- The routes of the configuration, each in its place, or the flag that overrides it.
unfoldable pub merge_config : Dict Route → List Route → List Route
merge_config d [] = []
merge_config d (r ∷ rs) = elim (lookup r.listen d) [
  | some ov ↦ ov ∷ merge_config d rs
  | none ↦ r ∷ merge_config d rs
]

-- The listen addresses of a list of routes; `used` holds those of the configuration that a flag overrides.
abbrev pub listens : List Route → List Text
listens [] = []
listens (r ∷ rs) = r.listen ∷ listens rs

unfoldable pub unused : List Text → List Route → List Route
unfolding mem
unused used [] = []
unused used (r ∷ rs) = let rest = unused used rs in if mem r.listen used then rest else r ∷ rest

unfoldable pub used_listens : Dict Route → List Route → List Text
used_listens d [] = []
used_listens d (r ∷ rs) = elim (lookup r.listen d) [
  | some _ ↦ r.listen ∷ used_listens d rs
  | none ↦ used_listens d rs
]

-- `mergeGatewayRoutes`
unfoldable pub merge_gateway_routes : List Route → List Text → Result RouteError (List Route)
unfolding parse_route_flags override merge_config unused used_listens
merge_gateway_routes config_routes route_flags = do
  flag_routes ← parse_route_flags route_flags
  ok (
      merge_config (override flag_routes []) config_routes
      ++ unused (used_listens (override flag_routes []) config_routes) flag_routes)
