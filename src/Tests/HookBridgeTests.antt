-- ===== src/Tests/HookBridgeTests.antt =====
-- Tests and examples of the hook bridge.
use openclaw_event_server_pl.Common.{
  String, true, false, Option, none, some, List, [], ◌∷◌, ◌++◌, length, arith, ◌≡◌, refl, inl, inr,
  map, leb, ◌*◌, ◌/◌,
}
use openclaw_event_server_pl.Common.JsMap
use openclaw_event_server_pl.Events.{OpenClawEvent}
use openclaw_event_server_pl.HookBridge.Telemetry.{Telemetry, TelemetryConfig, Percent, silent}
use openclaw_event_server_pl.HookBridge.Dispatch.{
  Engine, Setup, HookTask, RuleCoalesce, drop_oldest, latest, enqueue_task,
}
use openclaw_event_server_pl.HookBridge.Dispatch.Invariant.{IsEngine}
use openclaw_event_server_pl.HookBridge.Dispatch.Always.{
  Call, enqueues, ends, stops, run, run-IsEngine,
}
use openclaw_event_server_pl.HookBridge.Dispatch.Indexed.{IsIndexed}
use openclaw_event_server_pl.HookBridge.Dispatch.Agreement.{AreFresh, run-IsIndexed}
use openclaw_event_server_pl.HookBridge.Dispatch.Draining.{AreAwaited, finish, finish_drains}
use openclaw_event_server_pl.Tests.Data.{first_event, second_event, third_event}

abbrev telemetry_config : TelemetryConfig
telemetry_config = record {
  high_watermarks = 90 ∷ 50 ∷ [];
  slow_action_ms = 1000;
  failure_rate_window_ms = 60000;
  failure_rate_threshold_pct = 50;
  failure_rate_min_samples = 2;
  saturation_window_ms = 5000;
}

-- Exact percentages.
abbrev percent : Percent
percent = record { whole = λ a b. a * 100 / b; reaches = λ a b pct. leb (pct * b) (a * 100) }

-- One worker, two places, and a key by the rule.
abbrev setup : Setup
setup = record {
  runtime = record { max_pending_events = 2; concurrency = 1; drop_policy = drop_oldest };
  telemetry_config = telemetry_config;
  percent = percent;
  build_coalesce_key = λ rule e c. some rule;
}

abbrev start : Engine
start = record {
  queue = [];
  queued_task_by_id = [];
  queued_task_id_by_coalesce_key = [];
  running_workers = 0;
  executing = [];
  drain_resolvers = 0;
  telemetry = silent;
}

start-IsEngine : IsEngine setup start
start-IsEngine = record {
  sound = record { bounded = omega arith; counted = refl; limited = omega arith };
  busy = inl refl;
  waited = inl refl;
}

abbrev task_of : String → Option RuleCoalesce → OpenClawEvent → HookTask
task_of id coalesce e = record {
  task_id = id;
  rule_id = "rule";
  action_id = "action";
  coalesce = coalesce;
  event = e;
  enqueued_at = 10;
  coalesce_key = none;
  merged_count = 0;
}

abbrev by_rule : Option RuleCoalesce
by_rule = some record { enabled = true; key_fields = none; window_ms = none; strategy = none }

-- The second task with the key waits, the third is merged into it and brings its event.
abbrev merging : List Call
merging =
    enqueues 10 (task_of "task-1" by_rule first_event)
    ∷ enqueues 11 (task_of "task-2" by_rule second_event)
    ∷ enqueues 12 (task_of "task-3" by_rule third_event)
    ∷ []

merged_waits :
    let e = run setup merging start in
    (map (λ t. t.event) e.queue ≡ third_event ∷ [])
    × (map (λ t. t.merged_count) e.queue ≡ 1 ∷ [])
    × (map (λ t. t.task_id) e.executing ≡ "task-1" ∷ [])
unfolding run enqueue_task JsMap.get JsMap.set JsMap.delete
merged_waits = (refl, refl, refl)

run-IsEngine_example : IsEngine setup (run setup (merging ++ ends 20 0 true ∷ stops 21 ∷ []) start)
run-IsEngine_example =
    run-IsEngine setup (merging ++ ends 20 0 true ∷ stops 21 ∷ []) start start-IsEngine

abbrev task_one : HookTask
task_one = task_of "task-1" none first_event

abbrev task_two : HookTask
task_two = task_of "task-2" none second_event

-- One task at work, one in the queue, and one caller that waits.
abbrev at_work : Engine
at_work = record start {
  queue = task_two ∷ [];
  queued_task_by_id = ("task-2", task_two) ∷ [];
  running_workers = 1;
  executing = task_one ∷ [];
  drain_resolvers = 1;
}

at_work-IsEngine : IsEngine setup at_work
at_work-IsEngine = record {
  sound = record { bounded = omega arith; counted = refl; limited = omega arith };
  busy = inr refl;
  waited = inr (inl (omega arith));
}

finish_drains_example :
    let r = finish setup ((30, 0, true) ∷ (40, 0, false) ∷ []) at_work in
    (length r.queue ≡ 0) × (r.running_workers ≡ 0) × (r.drain_resolvers ≡ 0)
unfolding finish AreAwaited openclaw_event_server_pl.HookBridge.Dispatch.action_ends
finish_drains_example =
    finish_drains setup ((30, 0, true) ∷ (40, 0, false) ∷ []) at_work (omega arith) at_work-IsEngine
      refl (omega arith, (omega arith, tt))

abbrev two_failures : Telemetry
two_failures = record silent {
  outcomes = record { at_ms = 1; success = false } ∷ record { at_ms = 2; success = false } ∷ [];
}

start-IsIndexed : IsIndexed start
unfolding JsMap.get
start-IsIndexed = record {
  once = tt;
  same = λ id. refl;
  keyed = λ key id h. absurd cc;
  unnamed = refl;
}

run-IsIndexed_example : IsIndexed (run setup merging start)
unfolding AreFresh JsMap.get openclaw_event_server_pl.HookBridge.Dispatch.Always.step enqueue_task
    JsMap.set JsMap.delete
run-IsIndexed_example = run-IsIndexed setup merging start (refl, (refl, (refl, tt))) start-IsIndexed
