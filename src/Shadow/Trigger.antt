-- ===== src/Shadow/Trigger.antt =====
-- internal/shadow/shadow.go: when the reporter asks for the shadow.
use mqtt_forward.Prelude.{
  if◌then◌else◌, length, length-append, Text, codes, ℕ, suc, ◌+◌, ◌≤◌, Bool, true, false, List, [],
  ◌∷◌, arith,
}
use mqtt_forward.Shadow.{shadow_topic, shadow_message, request_shadow}
use mqtt_forward.Transport.{Transport, publish}

-- The channel `trigger` of capacity 1 holds a value or not; `Run` has been left or not.
pub record Reporter : Type 0 where
  pub device_id : Text
  pub triggered : Bool
  pub stopped : Bool

unfoldable pub new_reporter : Text → Reporter
new_reporter device_id = record { device_id = device_id; triggered = false; stopped = false }

-- The send does not block: on a full channel it does nothing.
unfoldable pub report_now : Reporter → Reporter
report_now r = if r.triggered then r else record r { triggered = true }

-- What may happen: `ReportNow` is called, or the `select` of `Run` chooses a case that is ready.
pub data ReporterEvent : Type 0 where
  connected ticks takes_trigger cancelled : ReporterEvent

unfoldable pub reporter_step : ReporterEvent → Reporter × Transport → Reporter × Transport
unfolding report_now request_shadow
reporter_step connected (r, t) = (report_now r, t)
reporter_step ticks (r, t) = if r.stopped then (r, t) else (r, request_shadow r.device_id t)
reporter_step takes_trigger (r, t) =
    if r.stopped
    then (r, t)
    else if r.triggered
    then (record r { triggered = false }, request_shadow r.device_id t)
    else (r, t)
reporter_step cancelled (r, t) = (record r { stopped = true }, t)

unfoldable pub reporter_run : List ReporterEvent → Reporter × Transport → Reporter × Transport
unfolding reporter_step
reporter_run [] s = s
reporter_run (e ∷ es) s = reporter_run es (reporter_step e s)

abbrev occasion : ReporterEvent → ℕ
occasion connected = 1
occasion ticks = 1
occasion takes_trigger = 0
occasion cancelled = 0

abbrev pub occasions : List ReporterEvent → ℕ
occasions [] = 0
occasions (e ∷ es) = occasion e + occasions es

-- The requests so far, with the one that is due.
abbrev pub requests : Reporter × Transport → ℕ
requests (r, t) = length t.published + (if r.triggered then 1 else 0)

request_shadow-length :
    (device_id : Text) (t : Transport)
    → length (request_shadow device_id t).published ≤ suc (length t.published)
unfolding request_shadow publish
request_shadow-length device_id t =
    let m = shadow_message (shadow_topic device_id (codes "/shadow/get")) (codes "{}") in
    ground (arith, length-append t.published (m ∷ []))

reporter_step-requests :
    (e : ReporterEvent) (s : Reporter × Transport)
    → requests (reporter_step e s) ≤ requests s + occasion e
unfolding reporter_step report_now
reporter_step-requests connected (r, t) = ground arith
reporter_step-requests ticks (r, t) = ground (arith, request_shadow-length r.device_id t)
reporter_step-requests takes_trigger (r, t) = ground (arith, request_shadow-length r.device_id t)
reporter_step-requests cancelled (r, t) = ground arith

-- However the connections and the ticks come, and whichever case each `select` chooses, the reporter
-- asks for the shadow at most once for each of them; several connections before the trigger is taken
-- count as one.
pub reporter_run_lem :
    (es : List ReporterEvent) (s : Reporter × Transport)
    → requests (reporter_run es s) ≤ requests s + occasions es
unfolding reporter_run
reporter_run_lem [] s = omega arith
reporter_run_lem (e ∷ es) s =
    omega (arith, reporter_run_lem es (reporter_step e s), reporter_step-requests e s)
