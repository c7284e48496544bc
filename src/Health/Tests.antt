-- ===== src/Health/Tests.antt =====
-- Examples for internal/health/health.go.
use mqtt_forward.Prelude.{
  Text, strip_suffix, codes, text_eq, cut_prefix, ◌≡◌, refl, true, none, some,
}
use mqtt_forward.Health.{
  Net, Response, Server, Page, matches, match_path, is_redirected, serve_http, is_loopback, serve,
  unix_addr, not_there, on_unix, listen_on,
}

-- An address without a port, of which only one is local.
abbrev plain_net : Net
plain_net = record {
  split_host = λ addr. none;
  is_loopback_ip = λ addr. text_eq addr (codes "127.0.0.1");
}

abbrev healthy_server : Server
healthy_server = record { listen = codes "/run/health.sock"; healthy = some true }

abbrev page_text : Page → Text → Response
page_text page path = record { status = 200; body = path }

abbrev moved : Text → Response
moved path = record { status = 301; body = path }

-- A page of the profiler is refused from afar, and a page below the index is the index's.
served_pages :
    let respond = serve plain_net page_text moved healthy_server in
    ((respond (codes "/debug/pprof/profile") (codes "10.0.0.9")).status ≡ 403)
    × ((respond (codes "/debug/pprof/heap") (codes "127.0.0.1")).body ≡ codes "/debug/pprof/heap")
    × ((respond (codes "/debug/pprof") (codes "10.0.0.9")).status ≡ 301)
unfolding serve match_path matches is_redirected strip_suffix text_eq cut_prefix serve_http
    is_loopback
served_pages = (refl, refl, refl)

socket_bound :
    listen_on (λ path. not_there) (codes "unix:/run/h.sock") ≡ on_unix (codes "/run/h.sock")
unfolding listen_on unix_addr cut_prefix
socket_bound = refl
