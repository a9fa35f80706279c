-- ===== src/HookBridge/Telemetry.antt =====
-- runtime/hook-bridge-dispatch-engine.ts, its telemetry: the warnings on the pressure of the queue and on
-- the rate of failures. A log line is an alert in the order of the lines; what a line says of one task is
-- left out but for the task's id. A percentage is computed in floating point, so its two uses are
-- parameters: the whole percents of the queue, and the test of the failures against the threshold.
pub mod Alerts
use openclaw_event_server_pl.Common.{
  ℕ, zero, suc, ◌+◌, ◌-◌, String, Bool, true, false, not, ◌&&◌, Option, none, some, List, [], ◌∷◌,
  ◌++◌, ltb, leb, nat_eq, if◌then◌else◌, length, keep, get_or,
}

pub data Alert : Type 0 where
  high_watermark : ℕ → ℕ → Alert
  backpressure_active : ℕ → Alert
  backpressure_recovered : ℕ → Alert
  dropped_newest : String → Alert
  dropped_oldest : String → Alert
  coalesced : String → ℕ → Alert
  failure_rate : ℕ → ℕ → Alert
  failure_rate_recovered : ℕ → Alert

pub record TelemetryConfig : Type 0 where
  pub high_watermarks : List ℕ
  pub slow_action_ms : ℕ
  pub failure_rate_window_ms : ℕ
  pub failure_rate_threshold_pct : ℕ
  pub failure_rate_min_samples : ℕ
  pub saturation_window_ms : ℕ

pub record ActionOutcome : Type 0 where
  pub at_ms : ℕ
  pub success : Bool

pub record Telemetry : Type 0 where
  pub high_watermark_active : List ℕ
  pub outcomes : List ActionOutcome
  pub queue_full_since_ms : Option ℕ
  pub backpressure : Bool
  pub failure_rate_alert : Bool
  pub alerts : List Alert

abbrev pub silent : Telemetry
silent = record {
  high_watermark_active = [];
  outcomes = [];
  queue_full_since_ms = none;
  backpressure = false;
  failure_rate_alert = false;
  alerts = [];
}

-- The floating-point percentages: `floor(a / b * 100)`, and `a / b * 100 >= pct`.
pub record Percent : Type 0 where
  pub whole : ℕ → ℕ → ℕ
  pub reaches : ℕ → ℕ → ℕ → Bool

unfoldable pub emit : Alert → Telemetry → Telemetry
emit a t = record t { alerts = t.alerts ++ a ∷ [] }

-- `sort((a, b) => a - b)`.
insert_sorted : ℕ → List ℕ → List ℕ
insert_sorted a [] = a ∷ []
insert_sorted a (b ∷ bs) = if leb a b then a ∷ b ∷ bs else b ∷ insert_sorted a bs

unfoldable pub sort : List ℕ → List ℕ
unfolding insert_sorted
sort [] = []
sort (a ∷ rest) = insert_sorted a (sort rest)

abbrev pub includes : ℕ → List ℕ → Bool
includes a [] = false
includes a (b ∷ bs) = if nat_eq a b then true else includes a bs

-- One threshold of the loop.
unfoldable pub check_watermark : ℕ → ℕ → ℕ → Telemetry → Telemetry
unfolding emit
check_watermark queue_pct size threshold t =
    if leb threshold queue_pct
    then (if includes threshold t.high_watermark_active
        then t
        else emit (high_watermark threshold size)
            (record t { high_watermark_active = t.high_watermark_active ++ threshold ∷ [] }))
    else record t {
      high_watermark_active = keep (λ a. not (nat_eq a threshold)) t.high_watermark_active;
    }

unfoldable pub check_watermarks : ℕ → ℕ → List ℕ → Telemetry → Telemetry
unfolding check_watermark
check_watermarks queue_pct size [] t = t
check_watermarks queue_pct size (threshold ∷ rest) t =
    check_watermarks queue_pct size rest (check_watermark queue_pct size threshold t)

-- The part after the loop.
unfoldable pub check_capacity : TelemetryConfig → ℕ → ℕ → ℕ → Telemetry → Telemetry
unfolding emit
check_capacity config max_pending now size t =
    let since = get_or t.queue_full_since_ms now in
    let full = record t { queue_full_since_ms = some since } in
    let free = record t { queue_full_since_ms = none } in
    if leb max_pending size
    then (if not t.backpressure && leb config.saturation_window_ms (now - since)
        then emit (backpressure_active size) (record full { backpressure = true })
        else full)
    else if t.backpressure
    then emit (backpressure_recovered size) (record free { backpressure = false })
    else free

-- `size` is the length of the queue at the call.
unfoldable pub evaluate_queue_pressure :
    Percent → TelemetryConfig → ℕ → ℕ → ℕ → Telemetry → Telemetry
unfolding check_watermarks check_capacity sort
evaluate_queue_pressure percent config max_pending now size t =
    let queue_pct = if nat_eq max_pending 0 then 0 else percent.whole size max_pending in
    check_capacity config max_pending now size
      (check_watermarks queue_pct size (sort config.high_watermarks) t)

-- `atMs < now - window` stands as `atMs + window < now`.
unfoldable pub drop_expired : ℕ → ℕ → List ActionOutcome → List ActionOutcome
drop_expired window now [] = []
drop_expired window now (o ∷ os) =
    let rest = drop_expired window now os in if ltb (o.at_ms + window) now then rest else o ∷ os

unfoldable pub record_outcome : TelemetryConfig → ℕ → Bool → Telemetry → Telemetry
unfolding drop_expired
record_outcome config now success t = record t {
  outcomes =
      drop_expired config.failure_rate_window_ms now
        (t.outcomes ++ record { at_ms = now; success = success } ∷ []);
}

abbrev pub failures_of : List ActionOutcome → ℕ
failures_of [] = 0
failures_of (o ∷ os) = if o.success then failures_of os else suc (failures_of os)

rate_recovered : ℕ → Telemetry → Telemetry
unfolding emit
rate_recovered samples t =
    if t.failure_rate_alert
    then emit (failure_rate_recovered samples) (record t { failure_rate_alert = false })
    else t

unfoldable pub evaluate_failure_rate : Percent → TelemetryConfig → Telemetry → Telemetry
unfolding emit rate_recovered
evaluate_failure_rate percent config t =
    let samples = length t.outcomes in
    let failures = failures_of t.outcomes in
    if ltb samples config.failure_rate_min_samples
    then rate_recovered samples t
    else if percent.reaches failures samples config.failure_rate_threshold_pct
    then (if t.failure_rate_alert
        then t
        else emit (failure_rate samples failures) (record t { failure_rate_alert = true }))
    else rate_recovered samples t
