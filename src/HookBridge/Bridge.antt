-- ===== src/HookBridge/Bridge.antt =====
-- runtime/hook-bridge.ts: the class HookBridge, its rules for events and its engine. Which optional fields
-- an event object has is not told by the record of an event, so the object of its own fields is a
-- parameter.
use openclaw_event_server_pl.Common.{
  ℕ, ◌+◌, String, Bool, true, false, not, ◌&&◌, ◌||◌, Option, none, some, List, [], ◌∷◌, ◌==◌,
  if◌then◌else◌, trim, get_or, append, is_some, show_nat,
}
use openclaw_event_server_pl.Common.JsMap.{JsMap}
use openclaw_event_server_pl.Common.JsMap
use openclaw_event_server_pl.Events.{OpenClawEvent, Fields, get_field}
use openclaw_event_server_pl.HookBridge.Values.{read_path, text_of, build_coalesce_key}
use openclaw_event_server_pl.HookBridge.Rules.{RuleWhen, matches_rule}
use openclaw_event_server_pl.HookBridge.Guard.{Guard, can_trigger}
use openclaw_event_server_pl.HookBridge.Evaluation.{GuardSetup}
use openclaw_event_server_pl.HookBridge.Dispatch.{HookTask, RuleCoalesce, Engine, Setup}
use openclaw_event_server_pl.HookBridge.Dispatch

pub record HookBridgeRule : Type 0 where
  pub id : String
  pub enabled : Option Bool
  pub when : RuleWhen
  pub action : String
  pub cooldown_ms : Option ℕ
  pub coalesce : Option RuleCoalesce

pub record HookBridge : Type 0 where
  pub guard : Guard
  pub engine : Engine
  pub next_task_id : ℕ

pub record BridgeSetup : Type 0 where
  pub enabled : Bool
  pub dry_run : Bool
  pub rules : List HookBridgeRule
  pub guard_setup : GuardSetup
  pub engine_setup : Setup
  pub own : OpenClawEvent → Fields

module _ (s : BridgeSetup) where
  -- How the engine's key of a task is built.
  abbrev pub task_key : String → OpenClawEvent → RuleCoalesce → Option String
  unfolding build_coalesce_key
  task_key rule_id event c =
      build_coalesce_key s.guard_setup.platform.sort_fields rule_id (s.own event) c.key_fields

  set_status : String → Option String → Guard → Guard
  set_status agent_id none g = g
  set_status agent_id (some status) g =
      if trim status == ""
      then g
      else record g { parent_status_by_agent = JsMap.set agent_id status g.parent_status_by_agent }

  unfoldable pub observe_agent_status : Fields → Guard → Guard
  unfolding set_status read_path
  observe_agent_status event g = elim (text_of (get_field "agentId" event)) [
    | none ↦ g
    | some agent_id ↦
        if get_or (text_of (get_field "type" event)) "" == "agent.status" && not (agent_id == "")
        then set_status agent_id (text_of (read_path event "data.status")) g
        else g
  ]

  task_for : HookBridgeRule → OpenClawEvent → ℕ → ℕ → HookTask
  task_for r event n now = record {
    task_id = append "task-" (show_nat n);
    rule_id = r.id;
    action_id = r.action;
    coalesce = r.coalesce;
    event = event;
    enqueued_at = now;
    coalesce_key = none;
    merged_count = 0;
  }

  dispatch_action : HookBridgeRule → OpenClawEvent → ℕ → HookBridge → HookBridge
  unfolding task_for Dispatch.enqueue_task
  dispatch_action r event now b =
      if s.dry_run || not (is_some (JsMap.get r.action s.guard_setup.actions))
      then b
      else record b {
        engine =
            Dispatch.enqueue_task s.engine_setup now (task_for r event b.next_task_id now) b.engine;
        next_task_id = b.next_task_id + 1;
      }

  -- One round of the loop over the rules.
  unfoldable pub try_event_rule : HookBridgeRule → OpenClawEvent → ℕ → HookBridge → HookBridge
  unfolding dispatch_action matches_rule can_trigger
  try_event_rule r event now b =
      if get_or r.enabled true
        && matches_rule s.guard_setup.platform (s.own event) r.when b.guard.parent_status_by_agent
        && can_trigger r.id r.cooldown_ms now b.guard
      then dispatch_action r event now (record b {
        guard = record b.guard {
          last_trigger_by_rule = JsMap.set r.id now b.guard.last_trigger_by_rule;
        };
      })
      else b

  unfoldable pub try_event_rules : List HookBridgeRule → OpenClawEvent → ℕ → HookBridge → HookBridge
  unfolding try_event_rule
  try_event_rules [] event now b = b
  try_event_rules (r ∷ rest) event now b =
      try_event_rules rest event now (try_event_rule r event now b)

  unfoldable pub on_event : OpenClawEvent → ℕ → HookBridge → HookBridge
  unfolding try_event_rules observe_agent_status
  on_event event now b =
      if not s.enabled || not b.guard.accepting_events
      then b
      else try_event_rules s.rules event now
          (record b { guard = observe_agent_status (s.own event) b.guard })

  unfoldable pub stop : ℕ → HookBridge → HookBridge
  unfolding Dispatch.stop
  stop now b = record b {
    guard = record b.guard { accepting_events = false };
    engine = Dispatch.stop s.engine_setup now b.engine;
  }
