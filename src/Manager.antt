-- ===== src/Manager.antt =====
-- internal/tunnel/session.go: `SessionManager`. The mutex makes each method one step. Times are
-- nanoseconds. A Go map is visited in the order of the association list.
pub mod Invariant
pub mod Cleanup
pub mod Tests
use mqtt_forward.Prelude.{
  ltb, if◌then◌else◌, length, Text, Dict, lookup, insert, delete, delete_all, Result, ok, err, ℕ,
  ◌-◌, ◌*◌, Option, none, some, List, [], ◌∷◌, ◌++◌,
}
use mqtt_forward.Session.{Session, Closing, close}
use mqtt_forward.Transport.{PubMessage}

pub record Manager : Type 0 where
  pub sessions : Dict Session
  pub last_seen : Dict ℕ

pub data ManagerError : Type 0 where
  session_not_found session_exists : ManagerError

abbrev pub second : ℕ
second = 1_000_000_000

abbrev pub stale_timeout : ℕ
stale_timeout = 60 * second

unfoldable pub new_manager : Manager
new_manager = record { sessions = []; last_seen = [] }

unfoldable pub add : ℕ → Session → Manager → Result ManagerError Manager
add now s m = elim (lookup s.id m.sessions) [
  | some _ ↦ err session_exists
  | none ↦
      ok (record { sessions = insert s.id s m.sessions; last_seen = insert s.id now m.last_seen })
]

unfoldable pub get : Text → Manager → Result ManagerError Session
get id m = elim (lookup id m.sessions) [ some s ↦ ok s | none ↦ err session_not_found ]

unfoldable pub remove_session : Text → Manager → Manager
remove_session id m = record { sessions = delete id m.sessions; last_seen = delete id m.last_seen }

unfoldable pub touch : ℕ → Text → Manager → Manager
touch now id m = elim (lookup id m.sessions) [
  | some _ ↦ record m { last_seen = insert id now m.last_seen }
  | none ↦ m
]

unfoldable pub count : Manager → ℕ
count m = length m.sessions

-- The session object that the manager holds under its id is changed: its methods work on the object
-- itself, which the map only points to.
unfoldable pub put : Session → Manager → Manager
put s m = record m { sessions = insert s.id s m.sessions }

-- `Close` of each session of a list; a hook is the manager's own `Remove`.
unfoldable pub close_each : List Session → Manager → Manager × List Closing
unfolding remove_session
close_each [] m = (m, [])
close_each (s ∷ ss) m =
    let c = close s in
    let (m', cs) = close_each ss (if c.calls_hook then remove_session s.id m else m) in (m', c ∷ cs)

-- The values of a map.
abbrev pub values : Dict Session → List Session
values [] = []
values ((k, s) ∷ m) = s ∷ values m

unfoldable pub close_all : Manager → Manager × List Closing
unfolding close_each
close_all m =
    let (_, cs) = close_each (values m.sessions) m in (record { sessions = []; last_seen = [] }, cs)

unfoldable pub stale_ids : ℕ → ℕ → Dict ℕ → List Text
stale_ids now timeout [] = []
stale_ids now timeout ((id, seen) ∷ d) =
    let rest = stale_ids now timeout d in if ltb timeout (now - seen) then id ∷ rest else rest

-- The sessions of the stale ids; `none` where the map has no session, which would be a nil pointer
-- on which `Close` is called.
unfoldable pub pick : List Text → Dict Session → Option (List Session)
pick [] d = some []
pick (id ∷ ids) d = elim (lookup id d) [
  | none ↦ none
  | some s ↦ elim (pick ids (delete id d)) [ none ↦ none | some ss ↦ some (s ∷ ss) ]
]

-- `none` stands for the panic that `pick` may find.
unfoldable pub cleanup_stale : ℕ → ℕ → Manager → Option (Manager × List Closing)
unfolding close_each
cleanup_stale now timeout m =
    let stale = stale_ids now timeout m.last_seen in
    elim (pick stale m.sessions) [
      | none ↦ none
      | some ss ↦ some (
          close_each ss (record {
            sessions = delete_all stale m.sessions;
            last_seen = delete_all stale m.last_seen;
          }))
    ]

-- The messages that the sessions of a list publish as they are closed.
abbrev pub closing_messages : List Closing → List PubMessage
closing_messages [] = []
closing_messages (c ∷ cs) = c.messages ++ closing_messages cs
