-- ===== src/Shadow/Network.antt =====
-- internal/shadow/network.go: the public addresses and the addresses of the interfaces. What the HTTP
-- and DNS servers answer is an argument, an answer that fails being none; so is `net.ParseIP`, as
-- the test that its text is an address.
use mqtt_forward.Prelude.{
  ◌==◌, if◌then◌else◌, take, Text, trim_space, Dict, insert, mem, sort_strings, ℕ, Bool, not,
  Option, none, some, List, [], ◌∷◌, ◌++◌,
}

-- `publicIPHTTP`: the body of the answer, of which 64 bytes at most are read, if the status is 200.
pub record Answer : Type 0 where
  pub status : ℕ
  pub body : Text

unfoldable pub public_ip_http : Option Answer → Text
unfolding trim_space
public_ip_http none = []
public_ip_http (some a) = if a.status == 200 then trim_space (take 64 a.body) else []

-- `if !slices.Contains(result, ip) { result = append(result, ip) }`
unfoldable pub add_new : Text → List Text → List Text
unfolding mem
add_new ip result = if mem ip result then result else result ++ ip ∷ []

unfoldable pub add_each : List Text → List Text → List Text
unfolding add_new
add_each [] result = result
add_each (ip ∷ ips) result = add_each ips (add_new ip result)

-- The loop over the addresses of the web services, which ends with the first that answers.
unfoldable pub first_http : List (Option Answer) → List Text → List Text
unfolding public_ip_http add_new
first_http [] result = result
first_http (a ∷ answers) result = elim (public_ip_http a) [
  | [] ↦ first_http answers result
  | ◌∷◌ c ip ↦ add_new (c ∷ ip) result
]

unfoldable pub public_ip_dns_opendns : Option (List Text) → Text
public_ip_dns_opendns none = []
public_ip_dns_opendns (some []) = []
public_ip_dns_opendns (some (addr ∷ addrs)) = addr

unfoldable pub valid_ips : (Text → Bool) → List Text → List Text
unfolding trim_space
valid_ips is_ip [] = []
valid_ips is_ip (r ∷ records) =
    let ip = trim_space r in
    let rest = valid_ips is_ip records in if is_ip ip then ip ∷ rest else rest

unfoldable pub public_ip_dns_google : (Text → Bool) → Option (List Text) → List Text
unfolding valid_ips
public_ip_dns_google is_ip none = []
public_ip_dns_google is_ip (some records) = valid_ips is_ip records

unfoldable pub public_ip_dns : (Text → Bool) → Option (List Text) → Option (List Text) → List Text
unfolding public_ip_dns_opendns public_ip_dns_google add_each
public_ip_dns is_ip opendns google = elim (public_ip_dns_opendns opendns) [
  | [] ↦ add_each (public_ip_dns_google is_ip google) []
  | ◌∷◌ c ip ↦ add_each (public_ip_dns_google is_ip google) ((c ∷ ip) ∷ [])
]

unfoldable pub public_ips :
    (Text → Bool) → List (Option Answer) → Option (List Text) → Option (List Text) → List Text
unfolding first_http public_ip_dns add_each sort_strings
public_ips is_ip answers opendns google =
    sort_strings (add_each (public_ip_dns is_ip opendns google) (first_http answers []))

-- An interface of the system; `iface.Addrs()` may fail.
pub record Interface : Type 0 where
  pub name : Text
  pub loopback : Bool
  pub up : Bool
  pub addrs : Option (List Text)

unfoldable pub add_interface : Interface → Dict (List Text) → Dict (List Text)
unfolding insert
add_interface iface result =
    if iface.loopback then result else if not iface.up then result else elim (iface.addrs) [
      | none ↦ result
      | some ips ↦ elim ips [ [] ↦ result | ◌∷◌ ip rest ↦ insert iface.name (ip ∷ rest) result ]
    ]

unfoldable pub add_interfaces : List Interface → Dict (List Text) → Dict (List Text)
unfolding add_interface
add_interfaces [] result = result
add_interfaces (iface ∷ ifaces) result = add_interfaces ifaces (add_interface iface result)

-- `localInterfaces`, where `net.Interfaces()` may fail.
unfoldable pub local_interfaces : Option (List Interface) → Dict (List Text)
unfolding add_interfaces
local_interfaces none = []
local_interfaces (some ifaces) = add_interfaces ifaces []
