-- ===== src/Sessions/Queries.antt =====
-- hooks/session-tracker.ts: the methods by which the hooks and the event factories use the tracker.
-- `localeCompare` belongs to the runtime: `sorted` is a parameter.
use openclaw_event_server_pl.Common.{
  ℕ, ◌-◌, String, Bool, false, not, ◌&&◌, ◌||◌, Option, none, some, List, [], ◌∷◌, ◌++◌,
  if◌then◌else◌, or_else, get_or, get_elem?, length, keep, add_all, map, ◌==◌,
}
use openclaw_event_server_pl.Common.JsMap.{JsMap}
use openclaw_event_server_pl.Sessions.Keys.{
  ParsedSessionKey, is_non_empty_string, dedupe, parse_session_key, looks_like_session_key,
}
use openclaw_event_server_pl.Sessions.Routes.{
  RouteObservation, SessionRouteMetadata, prune_expired, select_route_candidates,
}
use openclaw_event_server_pl.Sessions.Records.{
  SessionRecord, ObserveSessionParams, no_params, pick_preferred_parsed_session, observed_ids,
}
use openclaw_event_server_pl.Sessions.Tracker.{
  SessionTracker, Resolution, resolved, ambiguous, unmatched, resolve_unique_record, remove_record,
  observe_session, find_matching_records, store,
}

-- What `startSession` is given: a text, an object, or anything else.
pub data StartInput : Type 0 where
  text : String → StartInput
  object : ObserveSessionParams → StartInput
  other : StartInput

-- `none`: it throws.
unfoldable pub start_session :
    StartInput → Option String → Option String → String → ℕ → SessionTracker → Option SessionTracker
unfolding observe_session
start_session other agent_id parent uuid clock t = none
start_session (text key) agent_id parent uuid clock t =
    if not (is_non_empty_string (some key))
    then none
    else some (
        observe_session
          (record no_params {
            session_key = some key;
            alias_session_keys = key ∷ [];
            agent_id = agent_id;
            parent_session_id = parent;
          })
          uuid clock t)
start_session (object params) agent_id parent uuid clock t =
    if not (is_non_empty_string params.session_id) && not (is_non_empty_string params.session_key)
    then none
    else some (observe_session params uuid clock t)

unfoldable pub touch_session : ObserveSessionParams → String → ℕ → SessionTracker → SessionTracker
unfolding observe_session
touch_session params uuid clock t = observe_session params uuid clock t

-- The identifier may be an id or a key.
abbrev pub identified_by : String → ObserveSessionParams
identified_by identifier = record no_params {
  session_id = some identifier;
  session_key = some identifier;
  alias_session_ids = identifier ∷ [];
  alias_session_keys = identifier ∷ [];
}

pub record SessionRecordSnapshot : Type 0 where
  pub agent_id : Option String
  pub parent_session_id : Option String
  pub duration_ms : ℕ
  pub session_id : Option String
  pub session_key : Option String

-- `id ? [id] : []`.
abbrev given : Option String → List String
given none = []
given (some s) = if s == "" then [] else s ∷ []

-- `getAgentIdBySession`; the records are not changed.
unfoldable pub get_agent_id_by_session :
    Option String → Option String → SessionTracker → Option String
unfolding find_matching_records dedupe
get_agent_id_by_session session_id session_key t =
    let matches =
      find_matching_records
        (record no_params {
          session_id = session_id;
          session_key = session_key;
          alias_session_ids = given session_id;
          alias_session_keys = given session_key;
        })
        none t in
    elim (dedupe (map (λ r. r.agent_id) matches)) [
      | [] ↦ none
      | a ∷ rest ↦ elim rest [ [] ↦ some a | _ ↦ none ]
    ]

pub record SessionAliasSnapshot : Type 0 where
  pub session_ids : List String
  pub session_keys : List String
  pub route_keys : List String

pub data RouteResolution : Type 0 where
  route_resolved : RouteResolution
  route_ambiguous : RouteResolution
  route_unavailable : RouteResolution

pub record SessionProvenanceSnapshot : Type 0 where
  pub agent_id : Option String
  pub parent_agent_id : Option String
  pub parent_session_id : Option String
  pub parent_session_key : Option String
  pub session_aliases : SessionAliasSnapshot
  pub parsed_session : Option ParsedSessionKey
  pub route : Option SessionRouteMetadata
  pub route_resolution : RouteResolution

unfoldable pub first_key : List String → Option String
first_key [] = none
first_key (key ∷ rest) =
    let later = first_key rest in if is_non_empty_string (some key) then some key else later

abbrev pub requested_session : ObserveSessionParams → Option ParsedSessionKey
unfolding parse_session_key first_key
requested_session params =
    or_else (parse_session_key params.session_key)
      (parse_session_key (first_key params.alias_session_keys))

-- `Boolean(text)` of an optional text.
abbrev pub is_truthy : Option String → Bool
is_truthy none = false
is_truthy (some s) = not (s == "")

abbrev pub is_specific : Option ParsedSessionKey → Bool
is_specific none = false
is_specific (some p) = p.is_thread_scoped || is_truthy p.provider || is_truthy p.surface

unfoldable pub prune_record : ℕ → SessionTracker → SessionRecord → SessionRecord
unfolding prune_expired
prune_record now t r = record r {
  route_observations = prune_expired t.route_ttl_ms now r.route_observations;
}

-- `pruneExpiredRoutes` changes the records in place.
unfoldable pub prune_all : ℕ → List SessionRecord → SessionTracker → SessionTracker
unfolding prune_record store
prune_all now [] t = t
prune_all now (r ∷ rest) t = prune_all now rest (store (prune_record now t r) t)

abbrev pub keys_of {ℓ} : {V : Type ℓ} → JsMap V → List String
keys_of m = map (λ e. e.0) m

abbrev pub union : (SessionRecord → List String) → List SessionRecord → List String
union f [] = []
union f (r ∷ rest) = f r ++ union f rest

abbrev pub resolution_of : List RouteObservation → RouteResolution
resolution_of [] = route_unavailable
resolution_of (o ∷ []) = route_resolved
resolution_of (o ∷ o' ∷ rest) = route_ambiguous

abbrev pub the_route : List RouteObservation → Option SessionRouteMetadata
the_route [] = none
the_route (o ∷ []) = some o.route
the_route (o ∷ o' ∷ rest) = none

module _ (sorted : List String → List String) where
  abbrev pub snapshot_of : ℕ → SessionRecord → SessionRecordSnapshot
  snapshot_of now r = record {
    agent_id = r.agent_id;
    parent_session_id = r.parent_session_id;
    duration_ms = now - r.start_time;
    session_id = get_elem? (sorted r.session_ids) 0;
    session_key = get_elem? (sorted r.session_keys) 0;
  }

  abbrev pub end_resolved :
      ℕ → SessionTracker × Resolution → SessionTracker × Option SessionRecordSnapshot
  end_resolved now (t, resolved r) = (remove_record r none t, some (snapshot_of now r))
  end_resolved now (t, ambiguous matches) = (t, none)
  end_resolved now (t, unmatched) = (t, none)

  unfoldable pub end_session :
      String → ℕ → SessionTracker → SessionTracker × Option SessionRecordSnapshot
  unfolding resolve_unique_record remove_record
  end_session identifier now t =
      end_resolved now (resolve_unique_record (identified_by identifier) t)

  abbrev pub get_resolved :
      ℕ → SessionTracker × Resolution → SessionTracker × Option SessionRecordSnapshot
  get_resolved now (t, resolved r) = (t, some (snapshot_of now r))
  get_resolved now (t, ambiguous matches) = (t, none)
  get_resolved now (t, unmatched) = (t, none)

  unfoldable pub get_session :
      Option String → ℕ → SessionTracker → SessionTracker × Option SessionRecordSnapshot
  unfolding resolve_unique_record
  get_session none now t = (t, none)
  get_session (some identifier) now t =
      if not (is_non_empty_string (some identifier))
      then (t, none)
      else get_resolved now (resolve_unique_record (identified_by identifier) t)

  abbrev pub aliases_of : List String → List String → List String → SessionAliasSnapshot
  aliases_of ids keys routes = record {
    session_ids = sorted ids;
    session_keys = sorted keys;
    route_keys = sorted routes;
  }

  abbrev pub provenance_unmatched : ObserveSessionParams → SessionProvenanceSnapshot
  unfolding dedupe looks_like_session_key observed_ids
  provenance_unmatched params = record {
    agent_id = none;
    parent_agent_id = none;
    parent_session_id = none;
    parent_session_key = none;
    session_aliases = record {
      session_ids = observed_ids params;
      session_keys = dedupe (
          params.session_key
          ∷ (map some params.alias_session_keys
              ++ map some (keep looks_like_session_key params.alias_session_ids)));
      route_keys = [];
    };
    parsed_session = requested_session params;
    route = none;
    route_resolution = route_unavailable;
  }

  abbrev pub provenance_ambiguous :
      ObserveSessionParams → List SessionRecord → SessionProvenanceSnapshot
  provenance_ambiguous params matches = record {
    agent_id = none;
    parent_agent_id = none;
    parent_session_id = none;
    parent_session_key = none;
    session_aliases =
        aliases_of (add_all (union (λ r. r.session_ids) matches) [])
          (add_all (union (λ r. r.session_keys) matches) [])
          (add_all (union (λ r. keys_of r.route_observations) matches) []);
    parsed_session = requested_session params;
    route = none;
    route_resolution = route_ambiguous;
  }

  abbrev pub provenance_resolved : ObserveSessionParams → SessionRecord → SessionProvenanceSnapshot
  unfolding select_route_candidates pick_preferred_parsed_session
  provenance_resolved params r =
      let candidates = select_route_candidates r.route_observations params.run_id in
      let requested = requested_session params in
      record {
        agent_id = r.agent_id;
        parent_agent_id = r.parent_agent_id;
        parent_session_id = r.parent_session_id;
        parent_session_key = r.parent_session_key;
        session_aliases = aliases_of r.session_ids r.session_keys (keys_of r.route_observations);
        parsed_session =
            or_else (if is_specific requested then requested else none)
              (or_else (pick_preferred_parsed_session r) requested);
        route = the_route candidates;
        route_resolution = resolution_of candidates;
      }

  abbrev pub provenance_of :
      ObserveSessionParams
      → ℕ
      → SessionTracker × Resolution
      → SessionTracker × SessionProvenanceSnapshot
  provenance_of params now (t, unmatched) = (t, provenance_unmatched params)
  provenance_of params now (t, ambiguous matches) =
      (prune_all now matches t, provenance_ambiguous params (map (prune_record now t) matches))
  provenance_of params now (t, resolved r) =
      (prune_all now (r ∷ []) t, provenance_resolved params (prune_record now t r))

  unfoldable pub get_session_provenance :
      ObserveSessionParams → ℕ → SessionTracker → SessionTracker × SessionProvenanceSnapshot
  unfolding resolve_unique_record prune_all prune_record
  get_session_provenance params clock t =
      provenance_of params (get_or params.now_ms clock) (resolve_unique_record params t)

  unfoldable pub get_active_sessions : SessionTracker → List String
  get_active_sessions t =
      let records = map (λ e. e.1) t.records in
      sorted (add_all (union (λ r. r.session_ids ++ r.session_keys) records) [])

unfoldable pub get_active_session_count : SessionTracker → ℕ
get_active_session_count t = length t.records
