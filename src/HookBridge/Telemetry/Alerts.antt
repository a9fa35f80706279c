-- ===== src/HookBridge/Telemetry/Alerts.antt =====
-- When the engine warns (runtime/hook-bridge-dispatch-engine.ts).
use openclaw_event_server_pl.Common.{
  ℕ, ◌-◌, Bool, true, false, not, ◌&&◌, none, some, List, [], ◌∷◌, ◌++◌, ltb, leb, if◌then◌else◌,
  length, get_or, arith, ◌≡◌, inl, inr, Bool-cases, append-nil, ◌||◌,
}
use openclaw_event_server_pl.HookBridge.Telemetry.{
  Telemetry, TelemetryConfig, Percent, Alert, failure_rate, failure_rate_recovered,
  backpressure_active, backpressure_recovered, check_capacity, evaluate_failure_rate, failures_of,
  rate_recovered, emit,
}

-- Too few samples never alert; otherwise the failures must reach the threshold.
abbrev pub is_failing : Percent → TelemetryConfig → Telemetry → Bool
is_failing percent config t =
    not (ltb (length t.outcomes) config.failure_rate_min_samples)
    && percent.reaches (failures_of t.outcomes) (length t.outcomes)
        config.failure_rate_threshold_pct

-- The alert of a change, and none without one.
abbrev pub on_change : Bool → Bool → Alert → Alert → List Alert
on_change false true up down = up ∷ []
on_change true false up down = down ∷ []
on_change _ _ up down = []

-- After each action the alert on the failure rate is on exactly if there are enough samples and their
-- failures reach the threshold, and a warning is given exactly when it goes on or off.
pub evaluate_failure_rate_lem :
    (percent : Percent) (config : TelemetryConfig) (t : Telemetry)
    → let r = evaluate_failure_rate percent config t in
      let failing = is_failing percent config t in
      (r.failure_rate_alert ≡ failing)
      × (r.outcomes ≡ t.outcomes)
      × (r.alerts
          ≡ t.alerts
            ++ on_change t.failure_rate_alert failing
                (failure_rate (length t.outcomes) (failures_of t.outcomes))
                (failure_rate_recovered (length t.outcomes)))
unfolding evaluate_failure_rate rate_recovered emit
evaluate_failure_rate_lem percent config t = elim (Bool-cases t.failure_rate_alert) [
  | inl on ↦ ground (arith, append-nil t.alerts)
  | inr off ↦ ground (arith, append-nil t.alerts)
]

-- A call that finds the queue at its limit remembers since when it has been so, and turns the
-- backpressure on if that is `saturationWindowMs` ago; a call that finds room turns it off and forgets
-- the time. A warning is given exactly when it goes on or off.
pub check_capacity_lem :
    (config : TelemetryConfig) (max_pending now size : ℕ) (t : Telemetry)
    → let r = check_capacity config max_pending now size t in
      let since = get_or t.queue_full_since_ms now in
      (r.queue_full_since_ms ≡ (if leb max_pending size then some since else none))
      × (r.backpressure
          ≡ leb max_pending size
            && (t.backpressure || leb config.saturation_window_ms (now - since)))
      × (r.alerts
          ≡ t.alerts
            ++ on_change t.backpressure r.backpressure
                (backpressure_active size)
                (backpressure_recovered size))
unfolding check_capacity emit
check_capacity_lem config max_pending now size t = elim (Bool-cases t.backpressure) [
  | inl on ↦ ground (arith, append-nil t.alerts)
  | inr off ↦ ground (arith, append-nil t.alerts)
]
