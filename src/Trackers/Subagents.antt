-- ===== src/Trackers/Subagents.antt =====
-- hooks/subagent-tracker.ts: the subagents by the session key of the child, from their spawn over the
-- report that they are idle to their end. The time of each call is an argument, `nowMs` or `atMs` where
-- it is given and the clock's otherwise.
pub mod Keyed
pub mod Idling
pub mod Reports
use openclaw_event_server_pl.Common.{
  ℕ, ◌+◌, String, Bool, true, false, Option, none, some, List, [], ◌∷◌, ltb, nat_eq, ◌||◌, or_else,
  get_or, is_some, if◌then◌else◌, ◌==◌,
}
use openclaw_event_server_pl.Common.JsMap.{JsMap}
use openclaw_event_server_pl.Common.JsMap

pub record SubagentRecord : Type 0 where
  pub subagent_key : String
  pub child_session_key : String
  pub parent_agent_id : Option String
  pub parent_session_id : Option String
  pub parent_session_key : Option String
  pub child_agent_id : Option String
  pub run_id : Option String
  pub mode : Option String
  pub spawned_at : ℕ
  pub last_active_at : ℕ
  pub idle_emitted_at : Option ℕ
  pub ended_at : Option ℕ

-- The parameters of `registerSpawn`.
pub record Spawn : Type 0 where
  pub child_session_key : String
  pub parent_agent_id : Option String
  pub parent_session_id : Option String
  pub parent_session_key : Option String
  pub child_agent_id : Option String
  pub run_id : Option String
  pub mode : Option String

abbrev pub Subagents : Type 0
Subagents = JsMap SubagentRecord

first_record : ℕ → Spawn → SubagentRecord
first_record now p = record {
  subagent_key = p.child_session_key;
  child_session_key = p.child_session_key;
  parent_agent_id = p.parent_agent_id;
  parent_session_id = p.parent_session_id;
  parent_session_key = p.parent_session_key;
  child_agent_id = p.child_agent_id;
  run_id = p.run_id;
  mode = p.mode;
  spawned_at = now;
  last_active_at = now;
  idle_emitted_at = none;
  ended_at = none;
}

-- `params.x ?? current?.x` for each field.
unfoldable pub merged : ℕ → Spawn → Option SubagentRecord → SubagentRecord
unfolding first_record
merged now p none = first_record now p
merged now p (some current) = record {
  subagent_key = p.child_session_key;
  child_session_key = p.child_session_key;
  parent_agent_id = or_else p.parent_agent_id current.parent_agent_id;
  parent_session_id = or_else p.parent_session_id current.parent_session_id;
  parent_session_key = or_else p.parent_session_key current.parent_session_key;
  child_agent_id = or_else p.child_agent_id current.child_agent_id;
  run_id = or_else p.run_id current.run_id;
  mode = or_else p.mode current.mode;
  spawned_at = current.spawned_at;
  last_active_at = now;
  idle_emitted_at = none;
  ended_at = none;
}

unfoldable pub register_spawn : ℕ → Spawn → Subagents → SubagentRecord × Subagents
unfolding merged
register_spawn now p t =
    let r = merged now p (JsMap.get p.child_session_key t) in (r, JsMap.set p.child_session_key r t)

-- A time of 0 is falsy, and so is an empty key.
abbrev pub is_truthy : Option ℕ → Bool
is_truthy none = false
is_truthy (some n) = if nat_eq n 0 then false else true

unfoldable pub get_by_child_session_key : Option String → Subagents → Option SubagentRecord
get_by_child_session_key none t = none
get_by_child_session_key (some key) t = if key == "" then none else JsMap.get key t

-- The change of the record that a key is found to name; no change where there is none.
unfoldable pub on_record : Option String → (SubagentRecord → SubagentRecord) → Subagents → Subagents
unfolding get_by_child_session_key
on_record key f t = elim (get_by_child_session_key key t) [
  | none ↦ t
  | some r ↦ JsMap.set (get_or key "") (f r) t
]

abbrev pub acted : ℕ → SubagentRecord → SubagentRecord
acted at_ms r =
    if is_truthy r.ended_at then r else record r { last_active_at = at_ms; idle_emitted_at = none }

abbrev pub ended : ℕ → SubagentRecord → SubagentRecord
ended at_ms r = record r { ended_at = some at_ms }

unfoldable pub observe_activity : Option String → ℕ → Subagents → Subagents
unfolding on_record
observe_activity key at_ms t = on_record key (acted at_ms) t

unfoldable pub mark_ended : Option String → ℕ → Subagents → Subagents
unfolding on_record
mark_ended key at_ms t = on_record key (ended at_ms) t

-- `now - lastActiveAt < idleAfterMs` stands as `now < lastActiveAt + idleAfterMs`.
abbrev pub is_due : ℕ → ℕ → SubagentRecord → Bool
is_due idle_after_ms now r =
    if is_some r.ended_at || is_some r.idle_emitted_at
    then false
    else if ltb now (r.last_active_at + idle_after_ms)
    then false
    else true

-- The records that have become idle, in their order, each marked as reported.
unfoldable pub evaluate_idle_transitions : ℕ → ℕ → Subagents → Subagents × List SubagentRecord
evaluate_idle_transitions idle_after_ms now [] = ([], [])
evaluate_idle_transitions idle_after_ms now ((key, r) ∷ rest) =
    let later = evaluate_idle_transitions idle_after_ms now rest in
    let reported = record r { idle_emitted_at = some now } in
    if is_due idle_after_ms now r
    then ((key, reported) ∷ later.0, reported ∷ later.1)
    else ((key, r) ∷ later.0, later.1)

abbrev pub clear : Subagents → Subagents
clear x = []
