-- ===== src/Gateway/Runs.antt =====
-- internal/gateway/gateway.go: `Run`, which starts a client for each device, and `CloseAllSessions`.
use mqtt_forward.Prelude.{
  Bool-cases, Text, text_eq, text_eq→eq, Dict, lookup, ◌≡◌, ◌∙◌, inl, inr, Option, none, some, List,
  [], ◌∷◌, ◌++◌, arith,
}
use mqtt_forward.Client.{Client, new_client, close_all_sessions}
use mqtt_forward.Client.Listeners.{TcpForward, Run, run_tcp_forwards}
use mqtt_forward.Client.Listeners.Closed.{IsRun, run_tcp_forwards_lem}
use mqtt_forward.Transport.{PubMessage}
use mqtt_forward.Gateway.{Route, forwards_in, group_by_device}
use mqtt_forward.Gateway.Groups.{device_forwards, group_by_device_lem}

-- What the clients of the devices find: what can be listened on while other addresses are, the error of
-- the subscriptions, and the client when its accept loops have ended.
pub record Surroundings : Type 0 where
  pub net_listen : Text → List Text → Text → Option Text
  pub subscribed : Text → Option Text
  pub last : Text → Client

abbrev pub run_client : Surroundings → Text → List TcpForward → Run
run_client w device forwards =
    run_tcp_forwards (w.net_listen device) (w.subscribed device) forwards (new_client device)
      (w.last device)

unfoldable pub run_each : Surroundings → Dict (List TcpForward) → Dict Run
run_each w [] = []
run_each w ((device, forwards) ∷ d) = (device, run_client w device forwards) ∷ run_each w d

-- `Run`, for each device. (The group that runs the clients is not modelled: where one fails, it ends the
-- context of the others.)
unfoldable pub run_gateway : Surroundings → List Route → Dict Run
unfolding run_each
run_gateway w routes = run_each w (group_by_device routes)

-- `CloseAllSessions` of the gateway.
unfoldable pub close_clients : List Client → List Client × List PubMessage
close_clients [] = ([], [])
close_clients (c ∷ cs) =
    let (c', out) = close_all_sessions c in
    let (cs', rest) = close_clients cs in (c' ∷ cs', out ++ rest)

run_client_of :
    (w : Surroundings) (k device : Text) (l forwards : List TcpForward)
    → k ≡ device
    → some l ≡ some forwards
    → some (run_client w k l) ≡ some (run_client w device forwards)
run_client_of w k device l forwards same held = cc

lookup-run_each :
    (w : Surroundings) (device : Text) (forwards : List TcpForward) (d : Dict (List TcpForward))
    → lookup device d ≡ some forwards
    → lookup device (run_each w d) ≡ some (run_client w device forwards)
unfolding run_each lookup
lookup-run_each w device forwards [] h = ground arith
lookup-run_each w device forwards ((k, l) ∷ d) h = elim (Bool-cases (text_eq k device)) [
  | inl e ↦
      let same : k ≡ device = text_eq→eq k device e in
      let held = rw e at h in rw e (run_client_of w k device l forwards same held)
  | inr e ↦ let held = rw e at h in rw e (lookup-run_each w device forwards d held)
]

some_forwards :
    (o : Option (List TcpForward)) (f : TcpForward) (fs : List TcpForward)
    → forwards_in o ≡ f ∷ fs
    → o ≡ some (f ∷ fs)
some_forwards none f fs h = ground arith
some_forwards (some l) f fs h = cc

-- Every device that has a route has a run of its own, with exactly the forwards of its routes, in their
-- order: no listener of it is left open, and either each route has its accept loop, or the run fails and
-- starts none.
pub run_gateway_lem :
    (w : Surroundings) (routes : List Route) (device : Text) (f : TcpForward) (fs : List TcpForward)
    → device_forwards device routes ≡ f ∷ fs
    → (r : Run) × (lookup device (run_gateway w routes) ≡ some r)
      × IsRun
          (w.net_listen device)
          (w.subscribed device)
          (f ∷ fs)
          (new_client device)
          (w.last device)
          r
unfolding run_gateway
run_gateway_lem w routes device f fs h =
    let (_, grouped) = group_by_device_lem routes in
    (
      run_client w device (f ∷ fs),
      lookup-run_each w device (f ∷ fs) (group_by_device routes)
          (some_forwards (lookup device (group_by_device routes)) f fs (grouped device ∙ h)),
      run_tcp_forwards_lem (w.net_listen device) (w.subscribed device) (f ∷ fs) (new_client device)
          (w.last device),
    )
