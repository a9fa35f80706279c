-- ===== src/Sessions/Records.antt =====
-- hooks/session-tracker-helpers.ts: the record of a logical session, what is observed of one, and how one
-- record takes over another.
pub mod Observed
use openclaw_event_server_pl.Common.{
  ℕ, max, String, Bool, true, false, not, ◌||◌, Option, none, some, List, [], ◌∷◌, ◌++◌,
  if◌then◌else◌, or_else, is_some, keep, add, add_all, map,
}
use openclaw_event_server_pl.Common.JsMap.{JsMap}
use openclaw_event_server_pl.Common.JsMap
use openclaw_event_server_pl.Sessions.Keys.{
  ParsedSessionKey, is_non_empty_string, dedupe, looks_like_session_key, parse_session_key,
  is_strong_session_key,
}
use openclaw_event_server_pl.Sessions.Routes.{
  SessionRouteMetadata, RouteObservation, merge_observations,
}

pub record SessionRecord : Type 0 where
  pub record_id : String
  pub start_time : ℕ
  pub last_touched_at : ℕ
  pub agent_id : Option String
  pub parent_agent_id : Option String
  pub parent_session_id : Option String
  pub parent_session_key : Option String
  pub session_ids : List String
  pub session_keys : List String
  pub strong_session_keys : List String
  pub run_ids : List String
  pub route_observations : JsMap RouteObservation

pub data Direction : Type 0 where
  inbound : Direction
  outbound : Direction
  internal : Direction

-- An absent list of aliases is empty.
pub record ObserveSessionParams : Type 0 where
  pub session_id : Option String
  pub session_key : Option String
  pub alias_session_ids : List String
  pub alias_session_keys : List String
  pub agent_id : Option String
  pub parent_agent_id : Option String
  pub parent_session_id : Option String
  pub parent_session_key : Option String
  pub run_id : Option String
  pub route : Option SessionRouteMetadata
  pub direction : Option Direction
  pub now_ms : Option ℕ

abbrev pub no_params : ObserveSessionParams
no_params = record {
  session_id = none;
  session_key = none;
  alias_session_ids = [];
  alias_session_keys = [];
  agent_id = none;
  parent_agent_id = none;
  parent_session_id = none;
  parent_session_key = none;
  run_id = none;
  route = none;
  direction = none;
  now_ms = none;
}

abbrev pub any : (String → Bool) → List String → Bool
any p [] = false
any p (a ∷ rest) = p a || any p rest

abbrev is_strong_key : Option String → Bool
is_strong_key none = false
is_strong_key (some key) = is_strong_session_key key

unfoldable pub has_strong_identifiers : ObserveSessionParams → Bool
has_strong_identifiers params =
    is_non_empty_string params.session_id
    || is_strong_key params.session_key
    || any (λ id. is_non_empty_string (some id)) params.alias_session_ids
    || any is_strong_session_key params.alias_session_keys

-- The two lists that `findMatchingRecords` and `observeSession` both compute, and the run.
unfoldable pub observed_ids : ObserveSessionParams → List String
unfolding dedupe
observed_ids params = dedupe (params.session_id ∷ map some params.alias_session_ids)

unfoldable pub observed_keys : ObserveSessionParams → List String
unfolding dedupe observed_ids looks_like_session_key
observed_keys params = dedupe (
    params.session_key
    ∷ (map some params.alias_session_keys
        ++ map some (keep looks_like_session_key (observed_ids params))))

unfoldable pub observed_runs : ObserveSessionParams → List String
observed_runs params = elim params.run_id [
  | none ↦ []
  | some run_id ↦ if is_non_empty_string (some run_id) then run_id ∷ [] else []
]

unfoldable pub find_thread_scoped : List String → Option ParsedSessionKey
find_thread_scoped [] = none
find_thread_scoped (key ∷ rest) =
    let later = find_thread_scoped rest in
    elim (parse_session_key (some key)) [
      | none ↦ later
      | some p ↦ if p.is_thread_scoped then some p else later
    ]

find_parsed : List String → Option ParsedSessionKey
find_parsed [] = none
find_parsed (key ∷ rest) = or_else (parse_session_key (some key)) (find_parsed rest)

unfoldable pub pick_preferred_parsed_session : SessionRecord → Option ParsedSessionKey
unfolding find_thread_scoped find_parsed parse_session_key
pick_preferred_parsed_session r =
    or_else (find_thread_scoped r.session_keys) (find_parsed r.strong_session_keys)

-- One round of the loop of `mergeRecords`: what the primary record has then.
unfoldable pub merged_record : SessionRecord → SessionRecord → SessionRecord
merged_record primary r = record primary {
  session_ids = add_all r.session_ids primary.session_ids;
  session_keys = add_all r.session_keys primary.session_keys;
  strong_session_keys = add_all r.strong_session_keys primary.strong_session_keys;
  run_ids = add_all r.run_ids primary.run_ids;
  route_observations = merge_observations r.route_observations primary.route_observations;
  agent_id = or_else primary.agent_id r.agent_id;
  parent_agent_id = or_else primary.parent_agent_id r.parent_agent_id;
  parent_session_id = or_else primary.parent_session_id r.parent_session_id;
  parent_session_key = or_else primary.parent_session_key r.parent_session_key;
  last_touched_at = max primary.last_touched_at r.last_touched_at;
}
