-- ===== src/Device/Life.antt =====
-- internal/device/device.go: `Run`, from the subscriptions to the shutdown, and internal/tunnel/transport.go:
-- `SubscribeAll`. (The filters of the router are those that were handled, in order; the error of the
-- MQTT client's `Subscribe`, if there is one, is a function of the filter. The notifications to the
-- service manager, the watchdog and the reporter do not act on the sessions.)
use mqtt_forward.Prelude.{
  if◌then◌else◌, Text, Bool, Option-cases, Option, none, some, List, [], ◌∷◌, ◌++◌, map, ◌≡◌, refl,
  ◌⊎◌, inl, inr, ap, arith,
}
use mqtt_forward.Topic.{in_control_filter, in_data_filter, shared_ping_topic}
use mqtt_forward.Shadow.{get_accepted_topic}
use mqtt_forward.Transport.{PubMessage}
use mqtt_forward.Session.{close}
use mqtt_forward.Manager.{values, count, closing_messages}
use mqtt_forward.Manager.Cleanup.{close_all_lem}
use mqtt_forward.Device.{Device}
use mqtt_forward.Device.Events.{DeviceEvent, device_run, close_all_sessions}
use mqtt_forward.Device.Invariant.{run-IsSound}
use mqtt_forward.Device.Handlers.{IsSound}

-- The filters that the device handles; `reports` tells whether there is a reporter.
abbrev pub subscriptions : Bool → Text → List Text
subscriptions reports device_id =
    in_control_filter device_id
    ∷ in_data_filter device_id
    ∷ shared_ping_topic
    ∷ (if reports then get_accepted_topic device_id ∷ [] else [])

-- `SubscribeAll`: the filters that are subscribed, up to the first error.
unfoldable pub subscribe_all : (Text → Option Text) → List Text → List Text × Option Text
subscribe_all refuses [] = ([], none)
subscribe_all refuses (f ∷ fs) =
    let rest = subscribe_all refuses fs in
    elim (refuses f) [ some e ↦ ([], some e) | none ↦ (f ∷ rest.0, rest.1) ]

pub record Life : Type 0 where
  pub subscribed : List Text
  pub unsubscribed : List Text
  pub device : Device
  pub messages : List PubMessage
  pub error : Option Text

-- `Run`: the events that come while it subscribes to one filter after another, and those that come then
-- until its context is done; `none` is a panic. Where a filter is refused, it returns the error at once.
unfoldable pub run_device :
    (Text → Option Text) → Bool → List DeviceEvent → List DeviceEvent → Device → Option Life
unfolding subscribe_all
run_device refuses reports early es d =
    let (subscribed, failed) = subscribe_all refuses (subscriptions reports d.device_id) in
    elim (device_run early d) [
      | none ↦ none
      | some (d', first) ↦ elim failed [
        | some e ↦ some (record {
          subscribed = subscribed;
          unsubscribed = [];
          device = d';
          messages = first;
          error = some e;
        })
        | none ↦ elim (device_run es d') [
          | none ↦ none
          | some (d'', out) ↦
              let (closed, closings) = close_all_sessions d'' in
              some (record {
                subscribed = subscribed;
                unsubscribed = in_control_filter d.device_id ∷ in_data_filter d.device_id ∷ [];
                device = closed;
                messages = first ++ (out ++ closings);
                error = none;
              })
        ]
      ]
    ]

-- No filter is refused.
abbrev pub AreTaken : (Text → Option Text) → List Text → Type 0
AreTaken refuses [] = Unit
AreTaken refuses (f ∷ fs) = (refuses f ≡ none) × AreTaken refuses fs

-- Every filter is taken, and subscribed; or some filter is not, and its error is returned.
subscribe_all_cases :
    (refuses : Text → Option Text) (fs : List Text)
    → (AreTaken refuses fs
        × ((subscribe_all refuses fs).0 ≡ fs)
        × ((subscribe_all refuses fs).1 ≡ none))
      ⊎ ((¬ AreTaken refuses fs) × ((e : Text) × ((subscribe_all refuses fs).1 ≡ some e)))
unfolding subscribe_all
subscribe_all_cases refuses [] = inl (tt, refl, refl)
subscribe_all_cases refuses (f ∷ fs) = elim (Option-cases (refuses f)) [
  | inr (e, refused) ↦ inr (λ (taken, _). ground arith, (e, rw (refused, subscribe_all) refl))
  | inl free ↦ elim (subscribe_all_cases refuses fs) [
    | inl (taken, all, ends) ↦ inl (
      (free, taken),
      rw (free, subscribe_all) (ap (λ l. f ∷ l) all),
      rw (free, subscribe_all) ends,
    )
    | inr (untaken, (e, h)) ↦ inr (λ (_, taken). untaken taken, (e, rw (free, subscribe_all) h))
  ]
]

-- A life that is served: all that came was handled, and then every session was closed. Or one that ends
-- when a filter is refused: what came before was handled.
abbrev pub IsLife :
    (Text → Option Text) → Bool → List DeviceEvent → List DeviceEvent → Device → Life → Type 0
IsLife refuses reports early es d l =
    let filters = subscriptions reports d.device_id in
    (r : Device × List PubMessage) × (device_run early d ≡ some r)
    × ((AreTaken refuses filters
          × (l.error ≡ none)
          × (l.subscribed ≡ filters)
          × ((q : Device × List PubMessage) × (device_run es r.0 ≡ some q)
              × (count l.device.manager ≡ 0)
              × (l.messages
                  ≡ r.1 ++ (q.1 ++ closing_messages (map close (values q.0.manager.sessions))))))
        ⊎ ((¬ AreTaken refuses filters)
            × ((e : Text) × (l.error ≡ some e))
            × (l.device ≡ r.0)
            × (l.messages ≡ r.1)))

-- A device whose session manager is well formed runs, its cleanup without a panic. What comes while it
-- subscribes is handled. If all of its filters are subscribed it then handles whatever comes, and when its
-- context is done it closes every session that it then has, publishes what they publish on closing, and
-- has none left. If a filter is refused it returns an error, and leaves the device, with the sessions that
-- were opened meanwhile, as it is.
pub run_device_lem :
    (refuses : Text → Option Text) (reports : Bool) (early es : List DeviceEvent) (d : Device)
    → IsSound d
    → (l : Life) × (run_device refuses reports early es d ≡ some l)
      × IsLife refuses reports early es d l
unfolding run_device close_all_sessions
run_device_lem refuses reports early es d sound =
    let (r, ran, sound') = run-IsSound early d sound in
    elim (subscribe_all_cases refuses (subscriptions reports d.device_id)) [
      | inl (taken, all, ends) ↦
          let (q, went, _) = run-IsSound es r.0 sound' in
          let (emptied, gone) = close_all_lem q.0.manager in
          rw (ran, run_device)
            (rw (ends, run_device)
              (rw (went, run_device)
                (
                  _,
                  refl,
                  (
                    r,
                    refl,
                    inl (
                      taken,
                      refl,
                      all,
                      (q, went, gone, ap (λ x. r.1 ++ (q.1 ++ closing_messages x.1)) emptied),
                    ),
                  ),
                )))
      | inr (untaken, (e, h)) ↦
          rw (ran, run_device)
            (rw (h, run_device) (_, refl, (r, refl, inr (untaken, (e, refl), refl, refl))))
    ]
