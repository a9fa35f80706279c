-- ===== src/HookBridge/Dispatch.antt =====
-- runtime/hook-bridge-dispatch-engine.ts: the bounded queue of hook tasks, the merging of tasks with the
-- same key, and the workers. The tasks are objects that the queue and the map by id share: a merge
-- changes the task in both. A worker takes a task and then awaits its action, so a call runs until every
-- worker awaits, and the end of an action is a call of its own. The clock does not move within a call.
-- How the key of a task is built from its rule and event is a parameter (HookBridge.Values and Bridge).
pub mod Invariant
pub mod Admission
pub mod Always
pub mod Draining
pub mod Indexed
pub mod Merging
pub mod Coalescing
pub mod Agreement
use openclaw_event_server_pl.Common.{
  ℕ, zero, suc, ◌+◌, ◌-◌, String, Bool, true, false, not, ◌&&◌, ◌||◌, Option, none, some, List, [],
  ◌∷◌, ◌++◌, ltb, leb, nat_eq, ◌==◌, if◌then◌else◌, length, get_or, get_elem?, take, drop, is_some,
}
use openclaw_event_server_pl.Common.JsMap.{JsMap}
use openclaw_event_server_pl.Common.JsMap
use openclaw_event_server_pl.Events.{OpenClawEvent}
use openclaw_event_server_pl.HookBridge.Telemetry.{
  Telemetry, TelemetryConfig, Percent, Alert, dropped_newest, dropped_oldest, coalesced, emit,
  evaluate_queue_pressure, record_outcome, evaluate_failure_rate,
}

pub data DropPolicy : Type 0 where
  drop_oldest : DropPolicy
  drop_newest : DropPolicy

pub record RuntimeConfig : Type 0 where
  pub max_pending_events : ℕ
  pub concurrency : ℕ
  pub drop_policy : DropPolicy

pub data Strategy : Type 0 where
  first : Strategy
  latest : Strategy

pub record RuleCoalesce : Type 0 where
  pub enabled : Bool
  pub key_fields : Option (List String)
  pub window_ms : Option ℕ
  pub strategy : Option Strategy

-- A task, with the part of its rule that the engine reads.
pub record HookTask : Type 0 where
  pub task_id : String
  pub rule_id : String
  pub action_id : String
  pub coalesce : Option RuleCoalesce
  pub event : OpenClawEvent
  pub enqueued_at : ℕ
  pub coalesce_key : Option String
  pub merged_count : ℕ

pub record Engine : Type 0 where
  pub queue : List HookTask
  pub queued_task_by_id : JsMap HookTask
  pub queued_task_id_by_coalesce_key : JsMap String
  pub running_workers : ℕ
  -- The tasks whose actions the workers await.
  pub executing : List HookTask
  -- How many callers wait for the engine to be idle.
  pub drain_resolvers : ℕ
  pub telemetry : Telemetry

pub record Setup : Type 0 where
  pub runtime : RuntimeConfig
  pub telemetry_config : TelemetryConfig
  pub percent : Percent
  pub build_coalesce_key : String → OpenClawEvent → RuleCoalesce → Option String

-- The key is taken away if it still names the task.
unfoldable pub release_key : HookTask → JsMap String → JsMap String
release_key task keys = elim task.coalesce_key [
  | none ↦ keys
  | some key ↦ elim (JsMap.get key keys) [
    | none ↦ keys
    | some id ↦ if not (key == "") && id == task.task_id then JsMap.delete key keys else keys
  ]
]

-- Both maps forget the task.
unfoldable pub forget : HookTask → Engine → Engine
unfolding release_key
forget task e = record e {
  queued_task_by_id = JsMap.delete task.task_id e.queued_task_by_id;
  queued_task_id_by_coalesce_key = release_key task e.queued_task_id_by_coalesce_key;
}

-- The change of an object in the queue.
unfoldable pub change_task : HookTask → List HookTask → List HookTask
change_task task [] = []
change_task task (t ∷ ts) =
    if t.task_id == task.task_id then task ∷ change_task task ts else t ∷ change_task task ts

abbrev pub is_latest : RuleCoalesce → Bool
is_latest c = elim (get_or c.strategy latest) [ first ↦ false | latest ↦ true ]

unfoldable pub merge_task : RuleCoalesce → HookTask → HookTask → HookTask
merge_task c task existing =
    let merged = record existing { merged_count = existing.merged_count + 1 } in
    if is_latest c
    then record merged { event = task.event; enqueued_at = task.enqueued_at }
    else merged

unfoldable pub resolve_drain_if_idle : Engine → Engine
resolve_drain_if_idle e =
    if not (nat_eq e.running_workers 0) || not (nat_eq (length e.queue) 0)
    then e
    else record e { drain_resolvers = 0 }

unfoldable pub wait_for_drain : Engine → Engine
wait_for_drain e =
    if nat_eq e.running_workers 0 && nat_eq (length e.queue) 0
    then e
    else record e { drain_resolvers = e.drain_resolvers + 1 }

unfoldable pub drop_head : HookTask → List HookTask → Engine → Engine
unfolding emit forget
drop_head oldest rest e =
    let left = forget oldest (record e { queue = rest }) in
    record left { telemetry = emit (dropped_oldest oldest.task_id) left.telemetry }

module _ (s : Setup) where
  unfoldable pub pressure : ℕ → Engine → Engine
  unfolding evaluate_queue_pressure
  pressure now e = record e {
    telemetry =
        evaluate_queue_pressure s.percent s.telemetry_config s.runtime.max_pending_events now
          (length e.queue) e.telemetry;
  }

  -- The outcome of `tryCoalesceTask`: true and the engine after the merge, or false and the task with
  -- its key.
  pub new_key : HookTask → String → Engine → Bool × HookTask × Engine
  new_key task key e = (
    false,
    record task { coalesce_key = some key },
    record e { queued_task_id_by_coalesce_key = JsMap.delete key e.queued_task_id_by_coalesce_key },
  )

  pub coalesce_with :
      ℕ → RuleCoalesce → HookTask → String → HookTask → Engine → Bool × HookTask × Engine
  unfolding new_key merge_task change_task emit
  coalesce_with now c task key existing e =
      let merged = merge_task c task existing in
      if ltb (existing.enqueued_at + get_or c.window_ms 10000) now then new_key task key e else (
        true,
        task,
        record e {
          queue = change_task merged e.queue;
          queued_task_by_id = JsMap.set existing.task_id merged e.queued_task_by_id;
          telemetry = emit (coalesced existing.task_id merged.merged_count) e.telemetry;
        },
      )

  pub coalesce_by : ℕ → RuleCoalesce → HookTask → String → Engine → Bool × HookTask × Engine
  unfolding coalesce_with new_key
  coalesce_by now c task key e = elim (JsMap.get key e.queued_task_id_by_coalesce_key) [
    | none ↦ (false, record task { coalesce_key = some key }, e)
    | some id ↦
        if id == ""
        then (false, record task { coalesce_key = some key }, e)
        else elim (JsMap.get id e.queued_task_by_id) [
          | none ↦ new_key task key e
          | some existing ↦ coalesce_with now c task key existing e
        ]
  ]

  unfoldable pub try_coalesce_task : ℕ → HookTask → Engine → Bool × HookTask × Engine
  unfolding coalesce_by
  try_coalesce_task now task e = elim task.coalesce [
    | none ↦ (false, task, e)
    | some c ↦
        if not c.enabled
        then (false, task, e)
        else elim (s.build_coalesce_key task.rule_id task.event c) [
          | none ↦ (false, task, e)
          | some key ↦ if key == "" then (false, task, e) else coalesce_by now c task key e
        ]
  ]

  -- One round of the loop of `runWorker`, up to the `await`.
  unfoldable pub take_task : ℕ → HookTask → List HookTask → Engine → Engine
  unfolding forget pressure
  take_task now task rest e =
      let taken = pressure now (forget task (record e { queue = rest })) in
      record taken { executing = taken.executing ++ task ∷ [] }

  -- The loop of `pumpWorkers`: `tasks` is the queue.
  unfoldable pub start_workers : ℕ → List HookTask → Engine → Engine
  unfolding take_task
  start_workers now [] e = e
  start_workers now (task ∷ rest) e =
      let started =
        start_workers now rest
          (take_task now task rest (record e { running_workers = e.running_workers + 1 })) in
      if ltb e.running_workers s.runtime.concurrency then started else e

  unfoldable pub pump_workers : ℕ → Engine → Engine
  unfolding start_workers resolve_drain_if_idle
  pump_workers now e = resolve_drain_if_idle (start_workers now e.queue e)

  -- The queue is full: none where the new task is dropped.
  unfoldable pub make_room : HookTask → Engine → Option Engine
  unfolding drop_head
  make_room task e =
      if not (leb s.runtime.max_pending_events (length e.queue))
      then some e
      else elim s.runtime.drop_policy [
        | drop_newest ↦ none
        | drop_oldest ↦ elim e.queue [
          | [] ↦ some e
          | oldest ∷ rest ↦ some (drop_head oldest rest e)
        ]
      ]

  unfoldable pub push_task : HookTask → Engine → Engine
  push_task task e = record e {
    queue = e.queue ++ task ∷ [];
    queued_task_by_id = JsMap.set task.task_id task e.queued_task_by_id;
    queued_task_id_by_coalesce_key = elim task.coalesce_key [
      | none ↦ e.queued_task_id_by_coalesce_key
      | some key ↦
          if key == ""
          then e.queued_task_id_by_coalesce_key
          else JsMap.set key task.task_id e.queued_task_id_by_coalesce_key
    ];
  }

  unfoldable pub admit : ℕ → HookTask → Engine → Engine
  unfolding make_room push_task pressure pump_workers emit
  admit now task e = elim (make_room task e) [
    | none ↦ pressure now (record e { telemetry = emit (dropped_newest task.task_id) e.telemetry })
    | some room ↦ pump_workers now (pressure now (push_task task room))
  ]

  unfoldable pub enqueue_task : ℕ → HookTask → Engine → Engine
  unfolding try_coalesce_task admit
  enqueue_task now task e =
      let r = try_coalesce_task now task e in if r.0 then r.2 else admit now r.1 r.2

  unfoldable pub stop : ℕ → Engine → Engine
  unfolding pump_workers wait_for_drain
  stop now e = wait_for_drain (pump_workers now e)

  -- The loop of a worker goes on after its action: the next task, or the end of the worker.
  unfoldable pub next_round : ℕ → Engine → Engine
  unfolding take_task pump_workers
  next_round now e = elim e.queue [
    | [] ↦ pump_workers now (record e { running_workers = e.running_workers - 1 })
    | task ∷ rest ↦ take_task now task rest e
  ]

  -- The k-th of the awaited actions ends, well or not.
  unfoldable pub action_ends : ℕ → ℕ → Bool → Engine → Engine
  unfolding next_round record_outcome evaluate_failure_rate
  action_ends now k success e =
      if is_some (get_elem? e.executing k)
      then next_round now (record e {
        executing = take k e.executing ++ drop (suc k) e.executing;
        telemetry =
            evaluate_failure_rate s.percent s.telemetry_config
              (record_outcome s.telemetry_config now success e.telemetry);
      })
      else e
