-- ===== src/System/Dial.antt =====
-- Which name server is asked.
use mqtt_forward.Prelude.{
  Text, codes, ℕ, zero, suc, ◌*◌, ◌<◌, ◌≡◌, refl, ap, Bool, true, false, ◌&&◌, not, Option, none,
  some, List, [], ◌∷◌, arith,
}
use mqtt_forward.System.{
  is_default_fallback, dial_each, resolver_dial, watchdog_interval, run_watchdog,
}

-- The resolver asks the server that is configured, if it can be reached and is not the fallback on the
-- own host; otherwise the first of the public servers that can be reached, over UDP; and it fails
-- only if neither can be.
pub resolver_dial_lem :
    (split_host : Text → Option Text) (dial : Text → Text → Bool) (network address : Text)
    → let usable = not (is_default_fallback split_host address) && dial network address in
      let udp = codes "udp" in
      let first_public = codes "8.8.8.8:53" in
      let second_public = codes "1.1.1.1:53" in
      (usable ≡ true → resolver_dial split_host dial network address ≡ some (network, address))
      × (usable ≡ false
          → dial udp first_public ≡ true
          → resolver_dial split_host dial network address ≡ some (udp, first_public))
      × (usable ≡ false
          → dial udp first_public ≡ false
          → dial udp second_public ≡ true
          → resolver_dial split_host dial network address ≡ some (udp, second_public))
      × (usable ≡ false
          → dial udp first_public ≡ false
          → dial udp second_public ≡ false
          → resolver_dial split_host dial network address ≡ none)
unfolding resolver_dial dial_each
resolver_dial_lem split_host dial network address = (
  λ a. rw a refl,
  λ a b. rw a (rw b refl),
  λ a b c. rw a (rw (b, c) refl),
  λ a b c. rw a (rw (b, c) refl),
)

-- The service manager is told at each tick at which the program is healthy, unless there is no watchdog.
abbrev healthy_ticks : List Bool → ℕ
healthy_ticks [] = 0
healthy_ticks (true ∷ rest) = suc (healthy_ticks rest)
healthy_ticks (false ∷ rest) = healthy_ticks rest

pub run_watchdog_lem :
    (usec : ℕ) (ticks : List Bool)
    → (run_watchdog (watchdog_interval none) ticks ≡ 0)
      × (0 < usec → run_watchdog (watchdog_interval (some usec)) ticks ≡ healthy_ticks ticks)
unfolding run_watchdog watchdog_interval
run_watchdog_lem usec ticks = (refl, λ h. told (usec * 1_000) ticks (omega arith))
  where
    told : (n : ℕ) (ticks : List Bool) → 0 < n → run_watchdog n ticks ≡ healthy_ticks ticks
    told zero ticks h = absurd (omega arith)
    told (suc n) [] h = refl
    told (suc n) (true ∷ rest) h = ap suc (told (suc n) rest h)
    told (suc n) (false ∷ rest) h = told (suc n) rest h
