-- ===== src/HookBridge/Evaluation.antt =====
-- runtime/hook-bridge.ts, the tool guard: the loop of `evaluateBeforeToolCall` over the rules, which stops
-- where it awaits an action.
pub mod Backoff
pub mod Persistence
pub mod Calls
pub mod Deciding
pub mod DryRun
use openclaw_event_server_pl.Common.{
  ℕ, ◌+◌, ◌-◌, String, Bool, true, false, not, ◌&&◌, ◌||◌, Option, none, some, List, [], ◌∷◌, ◌==◌,
  if◌then◌else◌, nat_eq, leb, ltb, trim, get_or, append, is_some, show_nat, or_else,
}
use openclaw_event_server_pl.Common.JsMap.{JsMap}
use openclaw_event_server_pl.Common.JsMap
use openclaw_event_server_pl.Events.{Value, Fields, obj}
use openclaw_event_server_pl.HookBridge.Values.{stable_json_stringify}
use openclaw_event_server_pl.HookBridge.Templates.{render_guard_template, replace_tokens}
use openclaw_event_server_pl.HookBridge.Rules.{Platform, RuleWhen, matches_rule}
use openclaw_event_server_pl.HookBridge.Actions.{GuardDecision, HookBridgeAction}
use openclaw_event_server_pl.HookBridge.Guard.{
  ToolGuardRule, ToolGuardConfig, ScopeKeyBy, tool, tool_and_params, GuardOutcome, DecisionSource,
  action_source, rule_source, cache_source, backoff_source, Guard, ToolCall, Approval, BlockedState,
  can_trigger, sort_rules, cleanup_tool_guard_state, record_tool_guard_decision,
}

-- What an evaluation carries across its awaits.
pub record Evaluated : Type 0 where
  pub tool_event : Fields
  pub scope_key : String
  pub now_ms : ℕ

-- A rule whose action is awaited, and the rules after it.
pub record Waiting : Type 0 where
  pub call : Evaluated
  pub rule : ToolGuardRule
  pub action_id : String
  pub rest : List ToolGuardRule

pub data Progress : Type 0 where
  -- `none`: no rule says anything.
  finished : Option GuardOutcome → Progress
  awaiting : Waiting → Progress

pub data ActionResult : Type 0 where
  no_decision : ActionResult
  decides : GuardDecision → ActionResult
  throws : String → ActionResult

-- Static functions of the configuration.
pub record GuardSetup : Type 0 where
  pub platform : Platform
  pub config : ToolGuardConfig
  pub actions : JsMap HookBridgeAction

abbrev pub no_outcome : GuardOutcome
no_outcome = record {
  block = none;
  block_reason = none;
  params = none;
  block_reason_template = none;
  matched = false;
  matched_rule_id = none;
  matched_action_id = none;
  decision_source = none;
}

abbrev pub outcome_of : GuardDecision → GuardOutcome
outcome_of d = record no_outcome {
  block = d.block;
  block_reason = d.block_reason;
  params = d.params;
  block_reason_template = d.block_reason_template;
  matched = true;
}

abbrev pub only_matched : String → Option String → GuardOutcome
only_matched rule_id action_id = record no_outcome {
  matched = true;
  matched_rule_id = some rule_id;
  matched_action_id = action_id;
}

abbrev pub refuses : String → GuardOutcome
refuses reason = record no_outcome { block = some true; block_reason = some reason }

-- The loop goes on, or ends with an outcome.
pub data Verdict : Type 0 where
  goes_on : Guard → Verdict
  ends : Guard → Option GuardOutcome → Verdict

-- A rule has its say at once, or its action is awaited.
pub data Step : Type 0 where
  at_once : Verdict → Step
  awaits : Guard → String → Step

module _ (s : GuardSetup) where
  abbrev pub stops_on_match : ToolGuardRule → Bool
  stops_on_match r = get_or (or_else r.stop_on_match s.config.stop_on_match_default) false

  -- An empty template is none.
  unfoldable pub resolve_decision_templates : GuardDecision → Fields → GuardDecision
  unfolding render_guard_template
  resolve_decision_templates d event = elim (or_else d.block_reason_template d.block_reason) [
    | none ↦ d
    | some template ↦ if template == "" then d else record d {
      block_reason = some (render_guard_template s.platform.sort_fields template event);
    }
  ]

  unfoldable pub build_tool_guard_scope_key : String → Fields → ScopeKeyBy → String
  unfolding stable_json_stringify
  build_tool_guard_scope_key tool_name params tool = tool_name
  build_tool_guard_scope_key tool_name params tool_and_params =
      append tool_name (
        append ":" (get_or (stable_json_stringify s.platform.sort_fields (obj params)) "undefined"))

  abbrev pub decided :
      Evaluated → ToolGuardRule → Option String → DecisionSource → GuardDecision → GuardOutcome
  decided call r action_id source d =
      record (outcome_of (resolve_decision_templates d call.tool_event)) {
        matched_rule_id = some r.id;
        matched_action_id = action_id;
        decision_source = some source;
      }

  abbrev pub triggered : ToolGuardRule → ℕ → Guard → Guard
  triggered r clock g = record g {
    last_trigger_by_rule = JsMap.set r.id clock g.last_trigger_by_rule;
  }

  unfoldable pub applies : Evaluated → ToolGuardRule → ℕ → Guard → Bool
  unfolding matches_rule can_trigger
  applies call r clock g =
      get_or r.enabled true
      && matches_rule s.platform call.tool_event r.when g.parent_status_by_agent
      && can_trigger r.id r.cooldown_ms clock g

  abbrev pub missing_action : String → Guard → Verdict
  missing_action reason g =
      if s.config.blocks_on_error then ends g (some (refuses reason)) else goes_on g

  run_action : ToolGuardRule → Guard → Step
  run_action r g = elim r.action [
    | none ↦
        at_once
          (missing_action (append "Tool guard action missing for rule \"" (append r.id "\"")) g)
    | some action_id ↦
        if trim action_id == ""
        then at_once
            (missing_action (append "Tool guard action missing for rule \"" (append r.id "\"")) g)
        else if is_some (JsMap.get action_id s.actions)
        then awaits g action_id
        else at_once (missing_action (append "Tool guard action not found: " action_id) g)
  ]

  -- A decision that is only logged.
  abbrev pub dry_run : ToolGuardRule → Option String → Guard → Verdict
  dry_run r action_id g =
      if stops_on_match r then ends g (some (only_matched r.id action_id)) else goes_on g

  enforce :
      Evaluated → ToolGuardRule → Option String → DecisionSource → GuardDecision → Guard → Verdict
  unfolding record_tool_guard_decision
  enforce call r action_id source d g =
      if s.config.dry_run
      then dry_run r action_id g
      else ends
          (record_tool_guard_decision call.scope_key (decided call r action_id source d) s.config
            call.now_ms g)
          (some (decided call r action_id source d))

  try_rule : Evaluated → ToolGuardRule → ℕ → Guard → Step
  unfolding applies enforce run_action
  try_rule call r clock g =
      if not (applies call r clock g) then at_once (goes_on g) else elim r.decision [
        | some d ↦ at_once (enforce call r none rule_source d (triggered r clock g))
        | none ↦ run_action r (triggered r clock g)
      ]

  unfoldable pub run_rules : Evaluated → List ToolGuardRule → ℕ → Guard → Guard × Progress
  unfolding try_rule
  run_rules call [] clock g = (g, finished none)
  run_rules call (r ∷ rest) clock g = elim (try_rule call r clock g) [
    | at_once v ↦ elim v [
      | goes_on g' ↦ run_rules call rest clock g'
      | ends g' outcome ↦ (g', finished outcome)
    ]
    | awaits g' action_id ↦
        (g', awaiting (record { call = call; rule = r; action_id = action_id; rest = rest }))
  ]

  abbrev pub failure : Waiting → String → GuardOutcome
  failure w message =
      record (refuses
        (append "Tool guard failed for rule \"" (append w.rule.id (append "\": " message)))) {
          matched = true;
          matched_rule_id = some w.rule.id;
          matched_action_id = some w.action_id;
          decision_source = some action_source;
        }

  answer_failed : Waiting → String → Guard → Verdict
  unfolding record_tool_guard_decision
  answer_failed w message g =
      if s.config.blocks_on_error
      then ends
          (record_tool_guard_decision w.call.scope_key (failure w message) s.config w.call.now_ms g)
          (some (failure w message))
      else dry_run w.rule (some w.action_id) g

  judge_answer : Waiting → ActionResult → Guard → Verdict
  unfolding enforce answer_failed
  judge_answer w no_decision g = dry_run w.rule (some w.action_id) g
  judge_answer w (decides d) g = enforce w.call w.rule (some w.action_id) action_source d g
  judge_answer w (throws message) g = answer_failed w message g

  proceed : Evaluated → List ToolGuardRule → ℕ → Verdict → Guard × Progress
  unfolding run_rules
  proceed call rest clock (goes_on g) = run_rules call rest clock g
  proceed call rest clock (ends g outcome) = (g, finished outcome)

  -- The awaited action has ended.
  unfoldable pub resume : Waiting → ActionResult → ℕ → Guard → Guard × Progress
  unfolding judge_answer proceed run_rules
  resume w result clock g = proceed w.call w.rest clock (judge_answer w result g)

  unfoldable pub backoff_reason : ℕ → Fields → String
  unfolding replace_tokens render_guard_template
  backoff_reason remaining_ms event =
      replace_tokens
        (λ token. if token == "retryBackoffRemainingMs" then some (show_nat remaining_ms) else none)
        (render_guard_template s.platform.sort_fields
          (get_or s.config.retry_backoff_reason
            "Retry blocked. Back off briefly before retrying this tool call.")
          event)

  abbrev pub backing_off : ℕ → Option BlockedState → Option ℕ
  backing_off now none = none
  backing_off now (some blocked) =
      if not (nat_eq s.config.retry_backoff_ms 0)
        && ltb (now - blocked.blocked_at_ms) s.config.retry_backoff_ms
      then some (s.config.retry_backoff_ms - (now - blocked.blocked_at_ms))
      else none

  abbrev pub cached_outcome : Fields → Approval → GuardOutcome
  cached_outcome event cached =
      record (outcome_of (resolve_decision_templates cached.decision event)) {
        matched_rule_id = cached.rule_id;
        matched_action_id = cached.action_id;
        decision_source = some cache_source;
      }

  unfoldable pub check_cache : Evaluated → Guard → Option Approval → Guard × Progress
  unfolding run_rules sort_rules
  check_cache call g none = run_rules call (sort_rules s.config.rules) call.now_ms g
  check_cache call g (some cached) =
      if ltb call.now_ms cached.expires_at_ms
      then (g, finished (some (cached_outcome call.tool_event cached)))
      else run_rules call (sort_rules s.config.rules) call.now_ms g

  unfoldable pub check_backoff : Evaluated → Guard → Option ℕ → Guard × Progress
  unfolding check_cache backoff_reason
  check_backoff call g (some remaining_ms) = (
    g,
    finished (
        some (record (refuses (backoff_reason remaining_ms call.tool_event)) {
          matched = true;
          decision_source = some backoff_source;
        })),
  )
  check_backoff call g none =
      check_cache call g (JsMap.get call.scope_key g.approval_cache_by_scope)

  -- The tool event is built with a random id and the time.
  unfoldable pub evaluate_before_tool_call : ToolCall → Fields → ℕ → Guard → Guard × Progress
  unfolding check_backoff build_tool_guard_scope_key cleanup_tool_guard_state
  evaluate_before_tool_call c tool_event now g =
      if not s.config.enabled || not g.accepting_events
      then (g, finished none)
      else let scope_key =
          build_tool_guard_scope_key c.tool_name c.params
            (get_or s.config.scope_key_by tool_and_params) in
        let cleaned = cleanup_tool_guard_state now s.config.retry_backoff_ms g in
        check_backoff (record { tool_event = tool_event; scope_key = scope_key; now_ms = now })
          cleaned (backing_off now (JsMap.get scope_key cleaned.blocked_retry_state_by_scope))
