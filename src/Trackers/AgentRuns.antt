-- ===== src/Trackers/AgentRuns.antt =====
-- hooks/agent-run-tracker.ts: what the plugin saw of a run before its model request, by the run, the
-- session or the session key.
pub mod Snapshots
use openclaw_event_server_pl.Common.{
  ℕ, String, Bool, true, false, Option, none, some, List, [], get_or, if◌then◌else◌, ◌==◌, trim,
  append,
}
use openclaw_event_server_pl.Common.JsMap.{JsMap}
use openclaw_event_server_pl.Common.JsMap

pub record AgentRunSnapshot : Type 0 where
  pub before_model_resolve_prompt_length : Option ℕ
  pub before_prompt_build_prompt_length : Option ℕ
  pub before_prompt_build_message_count : Option ℕ

abbrev pub empty_snapshot : AgentRunSnapshot
empty_snapshot = record {
  before_model_resolve_prompt_length = none;
  before_prompt_build_prompt_length = none;
  before_prompt_build_message_count = none;
}

pub record RunIds : Type 0 where
  pub run_id : Option String
  pub session_id : Option String
  pub session_key : Option String

-- A text that is present and has more than white space.
abbrev pub is_named : Option String → Bool
is_named none = false
is_named (some s) = if trim s == "" then false else true

unfoldable pub to_tracker_key : RunIds → Option String
to_tracker_key p =
    if is_named p.run_id
    then some (append "run:" (get_or p.run_id ""))
    else if is_named p.session_id
    then some (append "session:" (get_or p.session_id ""))
    else if is_named p.session_key
    then some (append "session-key:" (get_or p.session_key ""))
    else none

abbrev pub Snapshots : Type 0
Snapshots = JsMap AgentRunSnapshot

-- The change of the snapshot that the ids name; nothing where they name none.
unfoldable pub on_snapshot : RunIds → (AgentRunSnapshot → AgentRunSnapshot) → Snapshots → Snapshots
on_snapshot p f snapshots = elim (to_tracker_key p) [
  | none ↦ snapshots
  | some key ↦ JsMap.set key (f (get_or (JsMap.get key snapshots) empty_snapshot)) snapshots
]

abbrev pub resolved : ℕ → AgentRunSnapshot → AgentRunSnapshot
resolved prompt_length s = record s { before_model_resolve_prompt_length = some prompt_length }

abbrev pub built : ℕ → ℕ → AgentRunSnapshot → AgentRunSnapshot
built prompt_length message_count s = record s {
  before_prompt_build_prompt_length = some prompt_length;
  before_prompt_build_message_count = some message_count;
}

unfoldable pub observe_before_model_resolve : RunIds → ℕ → Snapshots → Snapshots
unfolding on_snapshot
observe_before_model_resolve p prompt_length snapshots =
    on_snapshot p (resolved prompt_length) snapshots

unfoldable pub observe_before_prompt_build : RunIds → ℕ → ℕ → Snapshots → Snapshots
unfolding on_snapshot
observe_before_prompt_build p prompt_length message_count snapshots =
    on_snapshot p (built prompt_length message_count) snapshots

unfoldable pub get_snapshot : RunIds → Snapshots → Option AgentRunSnapshot
get_snapshot p snapshots = elim (to_tracker_key p) [
  | none ↦ none
  | some key ↦ JsMap.get key snapshots
]

unfoldable pub clear_snapshot : RunIds → Snapshots → Snapshots
clear_snapshot p snapshots = elim (to_tracker_key p) [
  | none ↦ snapshots
  | some key ↦ JsMap.delete key snapshots
]

abbrev pub clear : Snapshots → Snapshots
clear snapshots = []
