-- ===== src/Trackers/Status.antt =====
-- hooks/status-reducer.ts: the synthetic status of each agent, derived from the activity of its
-- sessions. A text argument that may be absent counts as absent when it is empty, as in the source's
-- `!sessionRef`. Times are milliseconds; `lastActiveAt` of a transition stays in milliseconds, where the
-- source prints it as an ISO date.
pub mod Deriving
pub mod Transitions
use openclaw_event_server_pl.Common.{
  ℕ, ◌+◌, ◌*◌, ◌/◌, String, Bool, true, false, Option, none, some, List, [], ◌∷◌, ltb, leb, nat_eq,
  if◌then◌else◌, get_or, length, append, show_nat, ◌==◌,
}
use openclaw_event_server_pl.Common.JsMap.{JsMap}
use openclaw_event_server_pl.Common.JsMap

pub data AgentSyntheticStatus : Type 0 where
  sleeping : AgentSyntheticStatus
  idle : AgentSyntheticStatus
  working : AgentSyntheticStatus
  offline : AgentSyntheticStatus
  error : AgentSyntheticStatus

abbrev pub status_eq : AgentSyntheticStatus → AgentSyntheticStatus → Bool
status_eq sleeping sleeping = true
status_eq idle idle = true
status_eq working working = true
status_eq offline offline = true
status_eq error error = true
status_eq _ _ = false

pub record SessionActivity : Type 0 where
  pub session_ref : String
  pub last_active_at : ℕ

pub record AgentState : Type 0 where
  pub sessions : JsMap SessionActivity
  pub has_agent_error : Bool
  pub is_offline : Bool
  pub last_status : Option AgentSyntheticStatus

abbrev pub created : AgentState
created = record { sessions = []; has_agent_error = false; is_offline = false; last_status = none }

-- The two windows of the constructor, with its defaults.
pub record Windows : Type 0 where
  pub working_window_ms : ℕ
  pub sleeping_window_ms : ℕ

abbrev pub windows_of : Option ℕ → Option ℕ → Windows
windows_of w s = record {
  working_window_ms = get_or w 30000;
  sleeping_window_ms = get_or s (10 * 60000);
}

abbrev pub Agents : Type 0
Agents = JsMap AgentState

-- `ensureAgent`, and then a change of the agent that it returns.
unfoldable pub on_agent : String → (AgentState → AgentState) → Agents → Agents
on_agent id f agents = JsMap.set id (f (get_or (JsMap.get id agents) created)) agents

-- A text that is present and not empty.
abbrev pub given : Option String → Option String
given none = none
given (some s) = if s == "" then none else some s

activate : ℕ → Option String → AgentState → AgentState
activate now none a = a
activate now (some ref) a = record a {
  sessions = JsMap.set ref (record { session_ref = ref; last_active_at = now }) a.sessions;
  is_offline = false;
}

unfoldable pub observe_activity : String → Option String → ℕ → Agents → Agents
unfolding on_agent activate
observe_activity id session_ref at_ms agents =
    on_agent id (activate at_ms (given session_ref)) agents

unfoldable pub remove_session : String → Option String → Agents → Agents
remove_session id session_ref agents = elim (given session_ref) [
  | none ↦ agents
  | some ref ↦ elim (JsMap.get id agents) [
    | none ↦ agents
    | some a ↦ JsMap.set id (record a { sessions = JsMap.delete ref a.sessions }) agents
  ]
]

unfoldable pub mark_agent_error : String → Bool → Agents → Agents
unfolding on_agent
mark_agent_error id has_error agents =
    on_agent id (λ a. record a { has_agent_error = has_error }) agents

unfoldable pub mark_agent_offline : String → Bool → Agents → Agents
unfolding on_agent
mark_agent_offline id is_offline agents =
    on_agent id (λ a. record a { is_offline = is_offline }) agents

unfoldable pub mark_all_offline : Agents → Agents
mark_all_offline [] = []
mark_all_offline ((id, a) ∷ rest) = (id, record a { is_offline = true }) ∷ mark_all_offline rest

-- The later of what the loop has seen and the next time.
unfoldable pub later_of : Option ℕ → ℕ → Option ℕ
later_of none at_ms = some at_ms
later_of (some latest) at_ms = if ltb latest at_ms then some at_ms else some latest

unfoldable pub latest_of : JsMap SessionActivity → Option ℕ → Option ℕ
unfolding later_of
latest_of [] latest = latest
latest_of ((ref, s) ∷ rest) latest = latest_of rest (later_of latest s.last_active_at)

unfoldable pub get_latest_session_activity : AgentState → Option ℕ
unfolding latest_of
get_latest_session_activity a = latest_of a.sessions none

counted : ℕ → String → String
counted n unit = append (show_nat n) (append " " (append unit (if nat_eq n 1 then "" else "s")))

unfoldable pub format_duration : ℕ → String
unfolding counted
format_duration ms =
    if ltb (ms / 1000) 60 then counted (ms / 1000) "second" else counted (ms / 1000 / 60) "minute"

pub record Transition : Type 0 where
  pub status : AgentSyntheticStatus
  pub activity : String
  pub activity_detail : String
  pub reason : String
  pub active_session_count : ℕ
  pub last_active_at : Option ℕ

-- A time of 0 is falsy.
abbrev pub truthy : Option ℕ → Option ℕ
truthy none = none
truthy (some n) = if nat_eq n 0 then none else some n

unfoldable pub by_age : Windows → ℕ → ℕ → ℕ → Transition
by_age w sessions now latest =
    if leb now (latest + w.working_window_ms)
    then record {
      status = working;
      activity = "Working";
      activity_detail = "Recent activity in one or more sessions";
      reason = "recent-activity";
      active_session_count = sessions;
      last_active_at = some latest;
    }
    else if leb now (latest + w.sleeping_window_ms)
    then record {
      status = idle;
      activity = "Idle";
      activity_detail =
          append "No recent events in the last " (format_duration w.working_window_ms);
      reason = "idle-window";
      active_session_count = sessions;
      last_active_at = some latest;
    }
    else record {
      status = sleeping;
      activity = "Sleeping";
      activity_detail = append "No events in the last " (format_duration w.sleeping_window_ms);
      reason = "sleeping-window";
      active_session_count = sessions;
      last_active_at = some latest;
    }

-- `now - latest <= window` stands as `now <= latest + window`.
unfoldable pub compute_status : Windows → AgentState → ℕ → Transition
unfolding by_age
compute_status w a now =
    if a.is_offline
    then record {
      status = offline;
      activity = "Offline";
      activity_detail = "Agent unreachable";
      reason = "offline";
      active_session_count = length a.sessions;
      last_active_at = truthy (get_latest_session_activity a);
    }
    else if a.has_agent_error
    then record {
      status = error;
      activity = "Error";
      activity_detail = "Agent reported an error state";
      reason = "agent-error";
      active_session_count = length a.sessions;
      last_active_at = truthy (get_latest_session_activity a);
    }
    else elim (get_latest_session_activity a) [
      | none ↦ record {
        status = sleeping;
        activity = "Sleeping";
        activity_detail = "No active sessions";
        reason = "no-sessions";
        active_session_count = length a.sessions;
        last_active_at = none;
      }
      | some latest ↦ by_age w (length a.sessions) now latest
    ]

-- `state.lastStatus !== status`.
abbrev pub differs : Option AgentSyntheticStatus → AgentSyntheticStatus → Bool
differs none s = true
differs (some t) s = if status_eq t s then false else true

-- The agents with their new status, and the transitions, each with the agent's id.
unfoldable pub evaluate_transitions : Windows → ℕ → Agents → Agents × List (String × Transition)
evaluate_transitions w now [] = ([], [])
evaluate_transitions w now ((id, a) ∷ rest) =
    let next = compute_status w a now in
    let later = evaluate_transitions w now rest in
    if differs a.last_status next.status
    then ((id, record a { last_status = some next.status }) ∷ later.0, (id, next) ∷ later.1)
    else ((id, a) ∷ later.0, later.1)

abbrev pub clear : Agents → Agents
clear x = []
