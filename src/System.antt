-- ===== src/System.antt =====
-- internal/system/resolver.go and sdnotify.go. What dialling and the environment give are arguments.
pub mod Dial
pub mod Tests
use mqtt_forward.Prelude.{
  if◌then◌else◌, is_some, Text, codes, text_eq, cut_prefix, ℕ, zero, suc, ◌*◌, Bool, false, ◌&&◌,
  ◌||◌, not, Option, none, some, List, [], ◌∷◌,
}

abbrev pub public_dns : List Text
public_dns = codes "8.8.8.8:53" ∷ codes "1.1.1.1:53" ∷ []

-- `isDefaultFallback`, where `split_host` is `SplitHostPort`.
unfoldable pub is_default_fallback : (Text → Option Text) → Text → Bool
unfolding cut_prefix
is_default_fallback split_host address = elim (split_host address) [
  | none ↦ false
  | some host ↦
      text_eq host (codes "127.0.0.1")
      || (is_some (cut_prefix (codes "[::1]") host) || text_eq host (codes "::1"))
]

-- The first of the addresses that a connection is made to, with the network.
unfoldable pub dial_each : (Text → Text → Bool) → List Text → Option (Text × Text)
dial_each dial [] = none
dial_each dial (dns ∷ rest) =
    let later = dial_each dial rest in
    if dial (codes "udp") dns then some (codes "udp", dns) else later

-- `resolverDial`: the connection, if one is made.
unfoldable pub resolver_dial :
    (Text → Option Text) → (Text → Text → Bool) → Text → Text → Option (Text × Text)
unfolding is_default_fallback dial_each
resolver_dial split_host dial network address =
    if not (is_default_fallback split_host address) && dial network address
    then some (network, address)
    else dial_each dial public_dns

-- `WatchdogInterval` in nanoseconds, where `usec` is the number that the environment has, if it is one.
unfoldable pub watchdog_interval : Option ℕ → ℕ
watchdog_interval none = 0
watchdog_interval (some usec) = usec * 1_000

-- `RunWatchdog` at its ticks: how often the service manager is told.
unfoldable pub run_watchdog : ℕ → List Bool → ℕ
run_watchdog zero healthy = 0
run_watchdog (suc n) [] = 0
run_watchdog (suc n) (up ∷ rest) =
    let told = run_watchdog (suc n) rest in if up then suc told else told
