-- ===== src/HookBridge/Guard.antt =====
-- runtime/hook-bridge.ts, the tool guard: `evaluateBeforeToolCall` and the state that it keeps. A rule's
-- action is awaited, so the evaluation stops there and its answer is a call of its own; any other call may
-- come in between. The clock does not move within a call.
use openclaw_event_server_pl.Common.{
  ℕ, ◌+◌, ◌-◌, String, Bool, true, false, not, ◌||◌, Option, none, some, List, [], ◌∷◌,
  if◌then◌else◌, nat_eq, leb, ltb, get_or,
}
use openclaw_event_server_pl.Common.JsMap.{JsMap}
use openclaw_event_server_pl.Common.JsMap
use openclaw_event_server_pl.Events.{Value, Fields, undefined, str, obj, done, field}
use openclaw_event_server_pl.HookBridge.Actions.{GuardDecision}
use openclaw_event_server_pl.HookBridge.Rules.{RuleWhen}

pub record ToolGuardRule : Type 0 where
  pub id : String
  pub enabled : Option Bool
  pub priority : Option ℕ
  pub when : RuleWhen
  pub action : Option String
  pub decision : Option GuardDecision
  pub stop_on_match : Option Bool
  pub cooldown_ms : Option ℕ

pub data ScopeKeyBy : Type 0 where
  tool : ScopeKeyBy
  tool_and_params : ScopeKeyBy

pub record ToolGuardConfig : Type 0 where
  pub enabled : Bool
  pub dry_run : Bool
  -- `onError === 'block'`.
  pub blocks_on_error : Bool
  pub scope_key_by : Option ScopeKeyBy
  pub retry_backoff_ms : ℕ
  pub retry_backoff_reason : Option String
  pub approval_cache_ttl_ms : ℕ
  pub stop_on_match_default : Option Bool
  pub rules : List ToolGuardRule

pub data DecisionSource : Type 0 where
  action_source : DecisionSource
  rule_source : DecisionSource
  cache_source : DecisionSource
  backoff_source : DecisionSource

pub record GuardOutcome : Type 0 where
  pub block : Option Bool
  pub block_reason : Option String
  pub params : Option Fields
  pub block_reason_template : Option String
  pub matched : Bool
  pub matched_rule_id : Option String
  pub matched_action_id : Option String
  pub decision_source : Option DecisionSource

pub record BlockedState : Type 0 where
  pub blocked_at_ms : ℕ
  pub reason : Option String

pub record Approval : Type 0 where
  pub expires_at_ms : ℕ
  pub decision : GuardDecision
  pub rule_id : Option String
  pub action_id : Option String

-- The fields of `HookBridge` that the guard uses.
pub record Guard : Type 0 where
  pub parent_status_by_agent : JsMap String
  pub last_trigger_by_rule : JsMap ℕ
  pub blocked_retry_state_by_scope : JsMap BlockedState
  pub approval_cache_by_scope : JsMap Approval
  pub accepting_events : Bool

pub record ToolCall : Type 0 where
  pub tool_name : String
  pub params : Fields
  pub agent_id : Option String
  pub session_id : Option String
  pub session_key : Option String
  pub run_id : Option String
  pub tool_call_id : Option String

abbrev optional : Option String → Value
optional none = undefined
optional (some s) = str s

-- The event id, the version and the time are made up by the runtime.
unfoldable pub build_tool_guard_event : String → String → String → ToolCall → Fields
build_tool_guard_event event_id version timestamp c = field "eventId" (str event_id) (
    field "schemaVersion" (str "1.1.0") (
      field "pluginVersion" (str version) (
        field "timestamp" (str timestamp) (
          field "type" (str "tool.called") (
            field "eventCategory" (str "tool") (
              field "eventName" (str "before_tool_call") (
                field "source" (str "plugin-hook") (
                  field "agentId" (optional c.agent_id) (
                    field "sessionId" (optional c.session_id) (
                      field "sessionKey" (optional c.session_key) (
                        field "runId" (optional c.run_id) (
                          field "toolCallId" (optional c.tool_call_id) (
                            field "data"
                              (obj (
                                field "toolName" (str c.tool_name)
                                  (field "params" (obj c.params) done)))
                              done)))))))))))))

-- A cooldown of 0 is none, and a time of 0 is no time.
unfoldable pub can_trigger : String → Option ℕ → ℕ → Guard → Bool
can_trigger rule_id none now g = true
can_trigger rule_id (some cooldown_ms) now g =
    nat_eq cooldown_ms 0 || elim (JsMap.get rule_id g.last_trigger_by_rule) [
      | none ↦ true
      | some last ↦ nat_eq last 0 || leb cooldown_ms (now - last)
    ]

-- Priority decides, then the order of the configuration: a rule goes before those of a lower priority.
unfoldable pub insert_rule : ToolGuardRule → List ToolGuardRule → List ToolGuardRule
insert_rule r [] = r ∷ []
insert_rule r (s ∷ rest) =
    let later = s ∷ insert_rule r rest in
    if ltb (get_or r.priority 0) (get_or s.priority 0) then later else r ∷ s ∷ rest

unfoldable pub sort_rules : List ToolGuardRule → List ToolGuardRule
unfolding insert_rule
sort_rules [] = []
sort_rules (r ∷ rest) = insert_rule r (sort_rules rest)

-- An expired approval goes; without a backoff every block goes, otherwise those whose backoff is over.
unfoldable pub cleanup_tool_guard_state : ℕ → ℕ → Guard → Guard
cleanup_tool_guard_state now retry_backoff_ms g = record g {
  approval_cache_by_scope =
      JsMap.retain (λ cached. not (leb cached.expires_at_ms now)) g.approval_cache_by_scope;
  blocked_retry_state_by_scope =
      if nat_eq retry_backoff_ms 0
      then []
      else JsMap.retain (λ blocked. not (leb retry_backoff_ms (now - blocked.blocked_at_ms)))
          g.blocked_retry_state_by_scope;
}

abbrev pub is_true : Option Bool → Bool
is_true none = false
is_true (some b) = b

unfoldable pub record_tool_guard_decision :
    String → GuardOutcome → ToolGuardConfig → ℕ → Guard → Guard
record_tool_guard_decision scope_key outcome config now g =
    if is_true outcome.block
    then record g {
      blocked_retry_state_by_scope =
          JsMap.set scope_key (record { blocked_at_ms = now; reason = outcome.block_reason })
            g.blocked_retry_state_by_scope;
    }
    else if nat_eq config.approval_cache_ttl_ms 0
    then g
    else record g {
      approval_cache_by_scope =
          JsMap.set scope_key
            (record {
              expires_at_ms = now + config.approval_cache_ttl_ms;
              decision = record {
                block = some false;
                block_reason = none;
                params = outcome.params;
                block_reason_template = none;
              };
              rule_id = outcome.matched_rule_id;
              action_id = outcome.matched_action_id;
            })
            g.approval_cache_by_scope;
    }
