-- ===== src/Tests/TrackerTests.antt =====
-- Tests and examples of the trackers.
use openclaw_event_server_pl.Common.{
  ℕ, ◌+◌, ◌≤◌, String, true, false, Option, none, some, [], ◌∷◌, arith, ◌≡◌, refl, inl, ◌↔◌, List,
  trim,
}
use openclaw_event_server_pl.Common.JsMap
use openclaw_event_server_pl.Events.{undefined}
use openclaw_event_server_pl.Trackers.Status.{
  AgentSyntheticStatus, working, idle, error, Agents, AgentState, Transition, Windows, windows_of,
  compute_status, created, evaluate_transitions, format_duration, mark_all_offline,
  mark_agent_error, remove_session,
}
use openclaw_event_server_pl.Trackers.Status
use openclaw_event_server_pl.Trackers.Status.Deriving.{Says, compute_status-Says}
use openclaw_event_server_pl.Trackers.Subagents.{
  Spawn, Subagents, register_spawn, evaluate_idle_transitions,
}
use openclaw_event_server_pl.Trackers.Subagents.Keyed.{acts, evaluates, IsKeyed, run, run-IsKeyed}
use openclaw_event_server_pl.Trackers.Subagents.Idling.{Reported}
use openclaw_event_server_pl.Trackers.Subagents.Reports.{reports_once}
use openclaw_event_server_pl.Trackers.ToolCalls.{Calls, start_call, end_call, get_call, no_context}
use openclaw_event_server_pl.Trackers.ToolCalls.Lifecycle
use openclaw_event_server_pl.Trackers.ToolCalls.Lifecycle.{start-end}

abbrev windows : Windows
windows = windows_of none none

-- An agent with one session that was last active at 1000.
abbrev agents : Agents
agents = Status.observe_activity "main" (some "s1") 1000 []

abbrev agent : AgentState
agent = record created {
  sessions = ("s1", record { session_ref = "s1"; last_active_at = 1000 }) ∷ [];
}

agents_value : agents ≡ ("main", agent) ∷ []
unfolding Status.observe_activity JsMap.set JsMap.get
agents_value = refl

-- The status over time, and the detail of an idle agent.
working_then_idle :
    ((compute_status windows agent 31000).status ≡ working)
    × ((compute_status windows agent 31001).activity_detail
        ≡ "No recent events in the last 30 seconds")
unfolding compute_status format_duration Status.get_latest_session_activity
    openclaw_event_server_pl.Common.show_nat
working_then_idle = (refl, refl)

error_hides :
    let (after, reported) =
      evaluate_transitions windows 2000 (mark_agent_error "main" true agents) in
    JsMap.get "main" reported
    ≡ some record {
      status = error;
      activity = "Error";
      activity_detail = "Agent reported an error state";
      reason = "agent-error";
      active_session_count = 1;
      last_active_at = some 1000;
    }
unfolding evaluate_transitions mark_agent_error Status.observe_activity compute_status JsMap.get
    JsMap.set Status.get_latest_session_activity
error_hides = refl

compute_status-Says_example : Says windows 31001 agent idle
unfolding compute_status JsMap.get Status.get_latest_session_activity
compute_status-Says_example = compute_status-Says windows agent 31001 (refl, tt)

abbrev child : Spawn
child = record {
  child_session_key = "child";
  parent_agent_id = some "main";
  parent_session_id = none;
  parent_session_key = none;
  child_agent_id = none;
  run_id = none;
  mode = none;
}

abbrev subagents : Subagents
subagents = (register_spawn 1000 child []).1

subagents-IsKeyed : IsKeyed subagents
unfolding register_spawn JsMap.get JsMap.set
subagents-IsKeyed = record { once = (refl, tt); kept = ((refl, refl), tt) }

run-IsKeyed_example : IsKeyed (run (acts (some "child") 2000 ∷ evaluates 500 2600 ∷ []) subagents)
run-IsKeyed_example =
    run-IsKeyed (acts (some "child") 2000 ∷ evaluates 500 2600 ∷ []) subagents subagents-IsKeyed

reports_once_example :
    ¬ Reported "child"
      (evaluate_idle_transitions 500 9000 (
        run
          (evaluates 500 3000 ∷ acts (some "other") 4000 ∷ [])
          (evaluate_idle_transitions 500 1500 subagents).0)).1
unfolding evaluate_idle_transitions register_spawn JsMap.set JsMap.get
reports_once_example =
    reports_once 500 1500 500 9000 subagents "child"
      (evaluates 500 3000 ∷ acts (some "other") 4000 ∷ []) subagents-IsKeyed (inl refl)
      (tt, (refl, tt))

start-end_example :
    (started : Calls) × (start_call 100 "u1" "exec" undefined none [] ≡ some ("u1", started))
    × (let ended = end_call 350 "u1" (
          Lifecycle.run
            (Lifecycle.starts 200 "u2" "read" undefined none ∷ Lifecycle.ends 300 "u2" ∷ [])
            started) in
        (ended.0
          ≡ some record {
            duration_ms = 250;
            tool_name = "exec";
            params = undefined;
            context = no_context;
          })
        × ((end_call 400 "u1" ended.1).0 ≡ none)
        × (get_call "u1" ended.1 ≡ none))
start-end_example =
    start-end 100 350 400 "u1" "exec" undefined none []
      (Lifecycle.starts 200 "u2" "read" undefined none ∷ Lifecycle.ends 300 "u2" ∷ []) refl
      (refl, (refl, tt))
