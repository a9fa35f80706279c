-- ===== src/Tests/GuardTests.antt =====
-- Tests and examples of the tool guard.
use openclaw_event_server_pl.Common.{
  ◌≤◌, String, true, false, none, some, List, [], ◌∷◌, ◌++◌, ◌≡◌, refl, arith, append, trim, split,
  get_or, member, starts_with, join,
}
use openclaw_event_server_pl.Common.JsMap.{JsMap}
use openclaw_event_server_pl.Common.JsMap
use openclaw_event_server_pl.Events.{Value, Fields, str, obj, done, field}
use openclaw_event_server_pl.HookBridge.Values.{Matcher, one, many, read_path, build_coalesce_key}
use openclaw_event_server_pl.HookBridge.Templates.{render_guard_template}
use openclaw_event_server_pl.HookBridge.Templates.Plain.{braced}
use openclaw_event_server_pl.HookBridge.Rules.{Platform, RuleWhen}
use openclaw_event_server_pl.HookBridge.Actions.{
  GuardDecision, Paths, ScriptLimits, LocalScriptAction, ScriptRun, starts, prepare_local_script,
}
use openclaw_event_server_pl.HookBridge.Actions.Allowed.{LiesIn, started_is_allowed}
use openclaw_event_server_pl.HookBridge.Guard.{
  Guard, ToolGuardRule, ToolGuardConfig, ToolCall, BlockedState, tool, rule_source, sort_rules,
  build_tool_guard_event,
}
use openclaw_event_server_pl.HookBridge.Evaluation.{
  GuardSetup, Evaluated, Waiting, finished, no_decision, decides, throws, evaluate_before_tool_call,
  resume, run_rules, applies, decided, failure,
}
use openclaw_event_server_pl.HookBridge.Evaluation.Backoff.{
  scope_of, refusal, remaining_time_is_erased,
}
use openclaw_event_server_pl.HookBridge.Evaluation.Calls.{
  GuardCall, evaluates, answers, run, blocked_scope_stays_blocked, failed_action_blocks_scope,
}
use openclaw_event_server_pl.HookBridge.Evaluation.Deciding.{priority_decides}
use openclaw_event_server_pl.HookBridge.Evaluation.DryRun.{Harmless, dry_run-Harmless}

abbrev platform : Platform
platform = record {
  sort_fields = λ fs. fs;
  lower = λ s. s;
  regex = λ pattern. none;
  hostname = λ url. none;
}

abbrev any_call : RuleWhen
any_call = record {
  event_type = none;
  tool_name = none;
  agent_id = none;
  session_id = none;
  session_key = none;
  contains = [];
  equals = [];
  required_paths = [];
  type_checks = [];
  in_list = [];
  not_in_list = [];
  matches_regex = [];
  not_matches_regex = [];
  domain_allowlist = [];
  domain_blocklist = [];
  domain_path = none;
  idle_for_ms_gte = none;
  parent_status = none;
}

abbrev denies : GuardDecision
denies = record {
  block = some true;
  block_reason = some "no";
  params = none;
  block_reason_template = none;
}

abbrev exec_only : ToolGuardRule
exec_only = record {
  id = "exec-only";
  enabled = none;
  priority = some 5;
  when = record any_call { tool_name = some (many ("exec" ∷ "shell" ∷ [])) };
  action = none;
  decision = some denies;
  stop_on_match = none;
  cooldown_ms = some 1000;
}

abbrev asks : ToolGuardRule
asks = record {
  id = "asks";
  enabled = none;
  priority = none;
  when = any_call;
  action = some "approval";
  decision = none;
  stop_on_match = some true;
  cooldown_ms = none;
}

abbrev config : ToolGuardConfig
config = record {
  enabled = true;
  dry_run = false;
  blocks_on_error = true;
  scope_key_by = some tool;
  retry_backoff_ms = 100;
  retry_backoff_reason = some (append "wait " (braced "retryBackoffRemainingMs" " ms"));
  approval_cache_ttl_ms = 500;
  stop_on_match_default = none;
  rules = asks ∷ exec_only ∷ [];
}

abbrev setup : GuardSetup
setup = record { platform = platform; config = config; actions = [] }

abbrev call_of : String → ToolCall
call_of name = record {
  tool_name = name;
  params = done;
  agent_id = some "a1";
  session_id = none;
  session_key = none;
  run_id = none;
  tool_call_id = none;
}

abbrev event_of : String → Fields
unfolding build_tool_guard_event
event_of name = build_tool_guard_event "e1" "1.0.0" "2026-01-01T00:00:00Z" (call_of name)

abbrev fresh : Guard
fresh = record {
  parent_status_by_agent = [];
  last_trigger_by_rule = [];
  blocked_retry_state_by_scope = [];
  approval_cache_by_scope = [];
  accepting_events = true;
}

abbrev blocked_at_10 : BlockedState
blocked_at_10 = record { blocked_at_ms = 10; reason = some "no" }

abbrev blocked : Guard
blocked = record fresh { blocked_retry_state_by_scope = ("exec", blocked_at_10) ∷ [] }

exec_is_blocked :
    JsMap.get (scope_of setup (call_of "exec")) blocked.blocked_retry_state_by_scope
    ≡ some blocked_at_10
unfolding JsMap.get openclaw_event_server_pl.HookBridge.Evaluation.build_tool_guard_scope_key
exec_is_blocked = refl

blocked-IsMap : JsMap.IsMap blocked.blocked_retry_state_by_scope
unfolding JsMap.get
blocked-IsMap = (refl, tt)

abbrev evaluated : Evaluated
evaluated = record { tool_event = event_of "exec"; scope_key = "exec"; now_ms = 12 }

abbrev awaited : Waiting
awaited = record { call = evaluated; rule = asks; action_id = "approval"; rest = [] }

abbrev others : List GuardCall
others = evaluates (call_of "read") (event_of "read") 15 ∷ answers awaited (throws "gone") 40 ∷ []

blocked_scope_stays_blocked_example :
    (reason : String) × ((evaluate_before_tool_call setup
        (call_of "exec")
        (event_of "exec")
        60
        (run setup others blocked)).1
      ≡ finished (some (refusal reason)))
blocked_scope_stays_blocked_example =
    blocked_scope_stays_blocked setup (call_of "exec") (event_of "exec") 10 60 others blocked refl
      (record {
        accepts = refl;
        is_map = blocked-IsMap;
        state = blocked_at_10;
        there = exec_is_blocked;
        since = omega arith;
      })
      ((omega arith, omega arith), (omega arith, tt)) (omega arith) (omega arith)

remaining_time_is_erased_example :
    (evaluate_before_tool_call setup (call_of "exec") (event_of "exec") 60 blocked).1
    ≡ finished (some (refusal (append "wait " " ms")))
remaining_time_is_erased_example =
    remaining_time_is_erased setup (call_of "exec") (event_of "exec") 60 blocked "wait " " ms"
      (record {
        is_on = refl;
        accepts = refl;
        is_map = blocked-IsMap;
        state = blocked_at_10;
        there = exec_is_blocked;
        recent = omega arith;
      })
      refl refl refl

exec_applies : applies setup evaluated exec_only 20 fresh ≡ true
unfolding applies split trim event_of openclaw_event_server_pl.Events.get_field JsMap.get
exec_applies = refl

priority_decides_example :
    (run_rules setup evaluated (sort_rules ((asks ∷ []) ++ exec_only ∷ [])) 20 fresh).1
    ≡ finished (some (decided setup evaluated exec_only none rule_source denies))
priority_decides_example =
    priority_decides setup evaluated 20 fresh refl (asks ∷ []) [] exec_only denies exec_applies refl
      ((λ h. omega arith), tt) tt

abbrev trial : GuardSetup
trial = record setup { config = record config { dry_run = true; blocks_on_error = false } }

dry_run-Harmless_example :
    Harmless fresh (run_rules trial evaluated (asks ∷ exec_only ∷ []) 20 fresh)
    × Harmless fresh (resume trial awaited (decides denies) 20 fresh)
dry_run-Harmless_example =
    dry_run-Harmless trial refl refl fresh evaluated (asks ∷ exec_only ∷ []) 20 awaited
      (decides denies)

abbrev strict_trial : GuardSetup
strict_trial = record setup { config = record config { dry_run = true } }

fresh-IsMap : JsMap.IsMap fresh.blocked_retry_state_by_scope
fresh-IsMap = tt

exec_scope : scope_of strict_trial (call_of "exec") ≡ awaited.call.scope_key
unfolding openclaw_event_server_pl.HookBridge.Evaluation.build_tool_guard_scope_key
exec_scope = refl

failed_action_blocks_scope_example :
    (reason : String) × ((evaluate_before_tool_call strict_trial
        (call_of "exec")
        (event_of "exec")
        60
        (run strict_trial others (resume strict_trial awaited (throws "gone") 20 fresh).0)).1
      ≡ finished (some (refusal reason)))
failed_action_blocks_scope_example =
    failed_action_blocks_scope strict_trial awaited "gone" 20 fresh (call_of "exec")
      (event_of "exec") 60 others refl refl refl fresh-IsMap exec_scope
      ((omega arith, omega arith), (omega arith, tt)) (omega arith) (omega arith)

abbrev paths : Paths
paths = record { resolve = λ p. p; to_canonical_path = λ p. some p }

abbrev limits : ScriptLimits
limits = record {
  allowed_action_dirs = "/opt/hooks" ∷ [];
  timeout_ms = 1000;
  max_payload_bytes = 4096;
}

abbrev approval_script : LocalScriptAction
approval_script = record {
  path = "/opt/hooks/ask.sh";
  args = [];
  timeout_ms = none;
  max_payload_bytes = none;
}

abbrev ask_run : ScriptRun
ask_run = record { script_path = "/opt/hooks/ask.sh"; args = []; timeout_ms = 1000 }

ask_starts : prepare_local_script paths limits approval_script none 300 ≡ starts ask_run
unfolding prepare_local_script starts_with
ask_starts = refl

started_is_allowed_example :
    (paths.to_canonical_path (paths.resolve approval_script.path) ≡ some ask_run.script_path)
    × ((dir : String) × (member dir limits.allowed_action_dirs ≡ true)
        × LiesIn paths ask_run.script_path dir)
    × (300 ≤ get_or approval_script.max_payload_bytes limits.max_payload_bytes)
started_is_allowed_example =
    started_is_allowed paths limits approval_script none 300 ask_run ask_starts

rendered :
    render_guard_template
      (λ fs. fs)
      "{{ toolName }} of {{agentId}}: {{path:data.params}}{{none}}{x}"
      (event_of "exec")
    ≡ "exec of a1: {}{x}"
unfolding render_guard_template trim split starts_with read_path event_of
    openclaw_event_server_pl.Events.get_field
    openclaw_event_server_pl.HookBridge.Values.to_stable_token join
rendered = refl
