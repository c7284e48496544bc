-- ===== src/Health.antt =====
-- internal/health/health.go: the requests to the health server. Package net's reading of addresses is a
-- parameter, and so is what the profiler answers; the path of a request is a clean one.
pub mod Access
pub mod Tests
use mqtt_forward.Prelude.{
  ltb, if◌then◌else◌, is_some, length, Text, codes, text_eq, cut_prefix, strip_suffix, ℕ, Bool,
  false, not, ◌&&◌, ◌||◌, Option, none, some, List, [], ◌∷◌,
}

-- `SplitHostPort`, if it succeeds, and whether a text is the address of the loopback interface.
pub record Net : Type 0 where
  pub split_host : Text → Option Text
  pub is_loopback_ip : Text → Bool

pub record Response : Type 0 where
  pub status : ℕ
  pub body : Text

-- `healthy` may be nil; otherwise it tells the state.
pub record Server : Type 0 where
  pub listen : Text
  pub healthy : Option Bool

unfoldable pub is_loopback : Net → Text → Bool
is_loopback net remote_addr = elim (net.split_host remote_addr) [
  | none ↦ net.is_loopback_ip remote_addr
  | some host ↦ net.is_loopback_ip host
]

unfoldable pub handle_health : Server → Response
handle_health s = elim (s.healthy) [
  | none ↦ record { status = 503; body = codes "unavailable\n" }
  | some up ↦
      if up
      then record { status = 200; body = codes "ok\n" }
      else record { status = 503; body = codes "unavailable\n" }
]

-- The pages of the profiler, and the handlers that are registered: `loopbackOnly` wraps another.
pub data Page : Type 0 where
  index cmdline profile symbol trace : Page

pub data Handler : Type 0 where
  health : Handler
  pprof : Page → Handler
  loopback_only : Handler → Handler

unfoldable pub serve_http :
    Net → (Page → Text → Response) → Server → Handler → Text → Text → Response
unfolding handle_health is_loopback
serve_http net pages s health path remote_addr = handle_health s
serve_http net pages s (pprof page) path remote_addr = pages page path
serve_http net pages s (loopback_only next) path remote_addr =
    let served = serve_http net pages s next path remote_addr in
    if not (is_loopback net remote_addr)
    then record { status = 403; body = codes "forbidden\n" }
    else served

abbrev pub pprof_path : Text
pprof_path = codes "/debug/pprof/"

-- `registerPprof`, and the registrations of `Handler`.
abbrev pub register_pprof : List (Text × Handler)
register_pprof =
    (pprof_path, loopback_only (pprof index))
    ∷ (codes "/debug/pprof/cmdline", loopback_only (pprof cmdline))
    ∷ (codes "/debug/pprof/profile", loopback_only (pprof profile))
    ∷ (codes "/debug/pprof/symbol", loopback_only (pprof symbol))
    ∷ (codes "/debug/pprof/trace", loopback_only (pprof trace))
    ∷ []

abbrev pub registrations : List (Text × Handler)
registrations = (codes "/health", health) ∷ register_pprof

-- `ServeMux`: a pattern matches its own path, and one that ends in a slash all paths below; the longest
-- pattern that matches is served.
unfoldable pub matches : Text → Text → Bool
unfolding cut_prefix strip_suffix
matches pattern path =
    text_eq pattern path
    || (is_some (strip_suffix b'/' pattern) && is_some (cut_prefix pattern path))

abbrev pub longer : Text × Handler → Option (Text × Handler) → Option (Text × Handler)
longer r none = some r
longer r (some q) = if ltb (length r.0) (length q.0) then some q else some r

unfoldable pub match_path : List (Text × Handler) → Text → Option (Text × Handler)
unfolding matches
match_path [] path = none
match_path (r ∷ rs) path =
    let rest = match_path rs path in if matches r.0 path then longer r rest else rest

-- A path that lacks only the slash of a pattern is redirected to it.
unfoldable pub is_redirected : List (Text × Handler) → Text → Bool
unfolding strip_suffix
is_redirected [] path = false
is_redirected (r ∷ rs) path =
    let rest = is_redirected rs path in
    elim (strip_suffix b'/' r.0) [ none ↦ rest | some front ↦ text_eq front path || rest ]

-- `Handler`, on a request of a clean path. What the profiler answers, and the redirection, are arguments.
unfoldable pub serve :
    Net → (Page → Text → Response) → (Text → Response) → Server → Text → Text → Response
unfolding match_path is_redirected serve_http
serve net pages redirect s path remote_addr = elim (match_path registrations path) [
  | some r ↦ serve_http net pages s r.1 path remote_addr
  | none ↦
      if is_redirected registrations path
      then redirect path
      else record { status = 404; body = codes "404 page not found\n" }
]

-- `unixAddr`: the path of a Unix socket.
unfoldable pub unix_addr : Text → Option Text
unfolding cut_prefix
unix_addr addr = elim (cut_prefix (codes "unix:") addr) [
  | some path ↦ some path
  | none ↦ if is_some (cut_prefix (codes "/") addr) then some addr else none
]

-- What `os.Remove` says.
pub data Removal : Type 0 where
  removed not_there remove_failed : Removal

pub data Listening : Type 0 where
  on_unix on_tcp : Text → Listening
  not_removed : Listening

-- `listen`: what is bound, after a socket file that is left over is removed.
unfoldable pub listen_on : (Text → Removal) → Text → Listening
unfolding unix_addr
listen_on remove_file addr = elim (unix_addr addr) [
  | none ↦ on_tcp addr
  | some path ↦ elim (remove_file path) [
    | removed ↦ on_unix path
    | not_there ↦ on_unix path
    | remove_failed ↦ not_removed
  ]
]
