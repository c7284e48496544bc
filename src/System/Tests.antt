-- ===== src/System/Tests.antt =====
-- Examples for internal/system.
use mqtt_forward.Prelude.{codes, text_eq, ◌≡◌, refl, true, some}
use mqtt_forward.System.{is_default_fallback, dial_each, resolver_dial}

-- With the fallback of the Go resolver the first public server is asked.
fallback_skipped :
    resolver_dial
      (λ address. some (codes "127.0.0.1"))
      (λ network address. true)
      (codes "udp")
      (codes "127.0.0.1:53")
    ≡ some (codes "udp", codes "8.8.8.8:53")
unfolding resolver_dial is_default_fallback dial_each text_eq
fallback_skipped = refl
