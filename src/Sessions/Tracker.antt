-- ===== src/Sessions/Tracker.antt =====
-- hooks/session-tracker.ts and the functions of session-tracker-helpers.ts that change its maps.
pub mod Indexed
pub mod Consistent
pub mod Merging
pub mod Replacing
pub mod Matching
pub mod Resolving
pub mod Ownership
pub mod Outcomes
pub mod Observing
pub mod Lookup
pub mod Sharing
pub mod Ending
use openclaw_event_server_pl.Common.{
  ℕ, ◌-◌, String, Bool, true, false, not, ◌&&◌, ◌||◌, Option, none, some, List, [], ◌∷◌,
  if◌then◌else◌, or_else, get_or, is_some, keep, add_all, ◌==◌,
}
use openclaw_event_server_pl.Common.JsMap.{JsMap}
use openclaw_event_server_pl.Common.JsMap
use openclaw_event_server_pl.Sessions.Keys.{is_strong_session_key}
use openclaw_event_server_pl.Sessions.Routes.{
  RouteObservation, SessionRouteMetadata, merge_route_metadata, build_route_key, pick_parsed_route,
}
use openclaw_event_server_pl.Sessions.Index.{Index, add_entries, remove_entries, collect}
use openclaw_event_server_pl.Sessions.Records.{
  SessionRecord, ObserveSessionParams, Direction, inbound, outbound, internal,
  has_strong_identifiers, observed_ids, observed_keys, observed_runs, merged_record,
}

pub record SessionTracker : Type 0 where
  pub route_ttl_ms : ℕ
  pub records : JsMap SessionRecord
  pub by_session_id : Index
  pub by_session_key : Index
  pub by_run_id : Index

abbrev pub new : ℕ → SessionTracker
new route_ttl_ms = record {
  route_ttl_ms = route_ttl_ms;
  records = [];
  by_session_id = [];
  by_session_key = [];
  by_run_id = [];
}

unfoldable pub clear : SessionTracker → SessionTracker
clear t = new t.route_ttl_ms

-- `.map((id) => records.get(id)).filter((record) => record !== undefined)`.
unfoldable pub records_of : JsMap SessionRecord → List String → List SessionRecord
records_of records [] = []
records_of records (id ∷ rest) = elim (JsMap.get id records) [
  | none ↦ records_of records rest
  | some r ↦ r ∷ records_of records rest
]

-- `strongOnly`: true, false or absent.
abbrev pub serves : Option Bool → String → Bool
serves none key = true
serves (some true) key = is_strong_session_key key
serves (some false) key = not (is_strong_session_key key)

abbrev pub weak_only : Option Bool → Bool
weak_only none = false
weak_only (some strong_only) = not strong_only

-- The ids of the records that are found.
unfoldable pub found_ids : ObserveSessionParams → Option Bool → SessionTracker → List String
found_ids params strong_only t =
    let by_ids =
      if weak_only strong_only then [] else collect t.by_session_id (observed_ids params) [] in
    let by_keys =
      collect t.by_session_key (keep (serves strong_only) (observed_keys params)) by_ids in
    if weak_only strong_only then by_keys else collect t.by_run_id (observed_runs params) by_keys

unfoldable pub find_matching_records :
    ObserveSessionParams → Option Bool → SessionTracker → List SessionRecord
unfolding found_ids records_of
find_matching_records params strong_only t = records_of t.records (found_ids params strong_only t)

-- The entries of a record's texts, in all three indices.
unfoldable pub index_record : SessionRecord → String → SessionTracker → SessionTracker
unfolding add_entries
index_record r id t = record t {
  by_session_id = add_entries r.session_ids id t.by_session_id;
  by_session_key = add_entries r.session_keys id t.by_session_key;
  by_run_id = add_entries r.run_ids id t.by_run_id;
}

-- A record that has changed in place stands in the map under its id.
unfoldable pub store : SessionRecord → SessionTracker → SessionTracker
store r t = record t { records = JsMap.set r.record_id r t.records }

-- The helper `mergeRecords`: the loop, with the primary record that it changes.
unfoldable pub merge_into :
    SessionRecord → List SessionRecord → SessionTracker → SessionTracker × SessionRecord
unfolding index_record store
merge_into primary [] t = (t, primary)
merge_into primary (r ∷ rest) t =
    merge_into (merged_record primary r) rest
      (store (merged_record primary r) (index_record r primary.record_id t))

unfoldable pub remove_record : SessionRecord → Option String → SessionTracker → SessionTracker
unfolding remove_entries
remove_record r preserve t = record t {
  records = JsMap.delete r.record_id t.records;
  by_session_id = remove_entries r.session_ids r.record_id preserve t.by_session_id;
  by_session_key = remove_entries r.session_keys r.record_id preserve t.by_session_key;
  by_run_id = remove_entries r.run_ids r.record_id preserve t.by_run_id;
}

unfoldable pub remove_all : List SessionRecord → String → SessionTracker → SessionTracker
unfolding remove_record
remove_all [] preserve t = t
remove_all (r ∷ rest) preserve t = remove_all rest preserve (remove_record r (some preserve) t)

-- The method `mergeRecords`.
unfoldable pub merge_records :
    SessionRecord → List SessionRecord → SessionTracker → SessionTracker × SessionRecord
unfolding merge_into remove_all
merge_records primary rest t =
    let (merged, now_primary) = merge_into primary rest t in
    (remove_all rest now_primary.record_id merged, now_primary)

pub data Resolution : Type 0 where
  resolved : SessionRecord → Resolution
  ambiguous : List SessionRecord → Resolution
  unmatched : Resolution

abbrev pub resolve_weak : List SessionRecord → Resolution
resolve_weak [] = unmatched
resolve_weak (r ∷ []) = resolved r
resolve_weak (r ∷ s ∷ rest) = ambiguous (r ∷ s ∷ rest)

abbrev pub resolve_strong :
    List SessionRecord → List SessionRecord → SessionTracker → SessionTracker × Resolution
resolve_strong [] weak t = (t, resolve_weak weak)
resolve_strong (r ∷ []) weak t = (t, resolved r)
resolve_strong (r ∷ s ∷ rest) weak t =
    let (t', primary) = merge_records r (s ∷ rest) t in (t', resolved primary)

unfoldable pub resolve_unique_record :
    ObserveSessionParams → SessionTracker → SessionTracker × Resolution
unfolding find_matching_records merge_records
resolve_unique_record params t =
    resolve_strong (find_matching_records params (some true) t)
      (find_matching_records params (some false) t) t

-- `randomUUID()` gives the id.
abbrev pub new_record : String → ℕ → SessionRecord
new_record uuid now = record {
  record_id = uuid;
  start_time = now;
  last_touched_at = now;
  agent_id = none;
  parent_agent_id = none;
  parent_session_id = none;
  parent_session_key = none;
  session_ids = [];
  session_keys = [];
  strong_session_keys = [];
  run_ids = [];
  route_observations = [];
}

-- `this.byRunId.has(params.runId)`, of a run id that is not the empty text.
unfoldable pub is_known_run : Option String → SessionTracker → Bool
is_known_run none t = false
is_known_run (some run_id) t = not (run_id == "") && JsMap.has run_id t.by_run_id

abbrev seen_at : Option Direction → Direction → ℕ → Option ℕ → Option ℕ
seen_at (some inbound) inbound now before = some now
seen_at (some outbound) outbound now before = some now
seen_at direction wanted now before = before

abbrev next_observation :
    ObserveSessionParams
    → ℕ
    → String
    → SessionRouteMetadata
    → Option RouteObservation
    → RouteObservation
next_observation params now key route none = record {
  route_key = key;
  route = get_or (merge_route_metadata none (some route)) route;
  first_seen_at = now;
  last_seen_at = now;
  last_inbound_at = seen_at params.direction inbound now none;
  last_outbound_at = seen_at params.direction outbound now none;
  run_ids = observed_runs params;
}
next_observation params now key route (some current) = record {
  route_key = key;
  route = get_or (merge_route_metadata (some current.route) (some route)) route;
  first_seen_at = current.first_seen_at;
  last_seen_at = now;
  last_inbound_at = seen_at params.direction inbound now current.last_inbound_at;
  last_outbound_at = seen_at params.direction outbound now current.last_outbound_at;
  run_ids = add_all (observed_runs params) current.run_ids;
}

-- A route with no part that is not blank has no key, and is not observed.
unfoldable pub observe_route :
    ObserveSessionParams
    → ℕ
    → Option SessionRouteMetadata
    → JsMap RouteObservation
    → JsMap RouteObservation
unfolding merge_route_metadata build_route_key observed_runs
observe_route params now none observations = observations
observe_route params now (some route) observations = elim (build_route_key (some route)) [
  | none ↦ observations
  | some key ↦
      JsMap.set key (next_observation params now key route (JsMap.get key observations))
        observations
]

-- The record with what was observed.
unfoldable pub observed_record : ObserveSessionParams → ℕ → SessionRecord → SessionRecord
unfolding observe_route pick_parsed_route
observed_record params now r = record r {
  session_ids = add_all (observed_ids params) r.session_ids;
  session_keys = add_all (observed_keys params) r.session_keys;
  strong_session_keys =
      add_all (keep is_strong_session_key (observed_keys params)) r.strong_session_keys;
  run_ids = add_all (observed_runs params) r.run_ids;
  last_touched_at = now;
  agent_id = or_else params.agent_id r.agent_id;
  parent_agent_id = or_else params.parent_agent_id r.parent_agent_id;
  parent_session_id = or_else params.parent_session_id r.parent_session_id;
  parent_session_key = or_else params.parent_session_key r.parent_session_key;
  route_observations =
      observe_route params now
        (merge_route_metadata (pick_parsed_route (observed_keys params)) params.route)
        r.route_observations;
}

-- The record is changed in place, and its new texts are indexed.
unfoldable pub apply_observation :
    ObserveSessionParams → ℕ → SessionRecord → SessionTracker → SessionTracker
unfolding observed_record add_entries
apply_observation params now r t = record t {
  records = JsMap.set r.record_id (observed_record params now r) t.records;
  by_session_id = add_entries (observed_ids params) r.record_id t.by_session_id;
  by_session_key = add_entries (observed_keys params) r.record_id t.by_session_key;
  by_run_id = add_entries (observed_runs params) r.record_id t.by_run_id;
}

abbrev pub observe_resolved :
    ObserveSessionParams → String → ℕ → SessionTracker × Resolution → SessionTracker
observe_resolved params uuid now (t, resolved r) = apply_observation params now r t
observe_resolved params uuid now (t, ambiguous matches) = t
observe_resolved params uuid now (t, unmatched) =
    apply_observation params now (new_record uuid now) (store (new_record uuid now) t)

-- The clock is read where the caller gives no time.
unfoldable pub observe_session : ObserveSessionParams → String → ℕ → SessionTracker → SessionTracker
unfolding has_strong_identifiers is_known_run resolve_unique_record apply_observation store
observe_session params uuid clock t =
    if not (has_strong_identifiers params) && not (is_known_run params.run_id t)
    then t
    else observe_resolved params uuid (get_or params.now_ms clock) (resolve_unique_record params t)
