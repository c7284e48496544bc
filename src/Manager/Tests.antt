-- ===== src/Manager/Tests.antt =====
-- Examples for internal/tunnel/session.go, the session manager.
use mqtt_forward.Prelude.{◌*◌, ◌≡◌, some, List}
use mqtt_forward.Session.Tests.{tcp_a1, exec_b2}
use mqtt_forward.Manager.{Manager, second, stale_timeout, new_manager, cleanup_stale}
use mqtt_forward.Manager.Invariant.{
  IsWellFormed, new_manager-IsWellFormed, added, added-IsWellFormed,
}
use mqtt_forward.Session.{Closing}
use mqtt_forward.Manager.Cleanup.{IsCleaned, cleanup_stale-IsCleaned}

-- A manager with two sessions, the second added a minute and a half after the first.
abbrev pub two_sessions : Manager
two_sessions = added (90 * second) exec_b2 (added 0 tcp_a1 new_manager)

pub two_sessions-IsWellFormed : IsWellFormed two_sessions
two_sessions-IsWellFormed =
    added-IsWellFormed (90 * second) exec_b2 (added 0 tcp_a1 new_manager)
      (added-IsWellFormed 0 tcp_a1 new_manager new_manager-IsWellFormed)

cleanup_stale-IsCleaned_example :
    (r : Manager × List Closing) × (cleanup_stale (100 * second) stale_timeout two_sessions
      ≡ some r)
    × IsCleaned (100 * second) stale_timeout two_sessions r
cleanup_stale-IsCleaned_example =
    cleanup_stale-IsCleaned (100 * second) stale_timeout two_sessions two_sessions-IsWellFormed
