-- ===== src/Sessions/Routes.antt =====
-- hooks/session-tracker-helpers.ts: the routes by which the messages of a session were seen.
pub mod Scoped
use openclaw_event_server_pl.Common.{
  ℕ, ◌+◌, max, min, String, Bool, true, false, not, ◌||◌, Option, none, some, List, [], ◌∷◌, ◌++◌,
  leb, nat_eq, ◌==◌, if◌then◌else◌, is_some, or_else, get_or, append, join, member, keep, add,
  add_all, map,
}
use openclaw_event_server_pl.Common.JsMap.{JsMap}
use openclaw_event_server_pl.Common.JsMap
use openclaw_event_server_pl.Sessions.Keys.{
  ParsedSessionKey, is_non_empty_string, parse_session_key, non_empty,
}

pub record SessionRouteMetadata : Type 0 where
  pub provider : Option String
  pub surface : Option String
  pub account_id : Option String
  pub channel_id : Option String
  pub conversation_id : Option String
  pub thread_id : Option String
  pub message_id : Option String
  pub from : Option String
  pub to : Option String
  pub sender_id : Option String
  pub sender_name : Option String

abbrev pub no_route : SessionRouteMetadata
no_route = record {
  provider = none;
  surface = none;
  account_id = none;
  channel_id = none;
  conversation_id = none;
  thread_id = none;
  message_id = none;
  from = none;
  to = none;
  sender_id = none;
  sender_name = none;
}

-- `Object.values(route).some((value) => value !== undefined)`.
abbrev pub has_values : SessionRouteMetadata → Bool
has_values r =
    is_some r.provider
    || is_some r.surface
    || is_some r.account_id
    || is_some r.channel_id
    || is_some r.conversation_id
    || is_some r.thread_id
    || is_some r.message_id
    || is_some r.from
    || is_some r.to
    || is_some r.sender_id
    || is_some r.sender_name

abbrev pub joined : SessionRouteMetadata → SessionRouteMetadata → SessionRouteMetadata
joined base override = record {
  provider = or_else override.provider base.provider;
  surface = or_else override.surface base.surface;
  account_id = or_else override.account_id base.account_id;
  channel_id = or_else override.channel_id base.channel_id;
  conversation_id = or_else override.conversation_id base.conversation_id;
  thread_id = or_else override.thread_id base.thread_id;
  message_id = or_else override.message_id base.message_id;
  from = or_else override.from base.from;
  to = or_else override.to base.to;
  sender_id = or_else override.sender_id base.sender_id;
  sender_name = or_else override.sender_name base.sender_name;
}

unfoldable pub merge_route_metadata :
    Option SessionRouteMetadata → Option SessionRouteMetadata → Option SessionRouteMetadata
merge_route_metadata base override =
    let merged = joined (get_or base no_route) (get_or override no_route) in
    if has_values merged then some merged else none

unfoldable pub route_from_parsed_session : Option ParsedSessionKey → Option SessionRouteMetadata
route_from_parsed_session none = none
route_from_parsed_session (some parsed) =
    let route = record no_route {
      provider = parsed.provider;
      surface = parsed.surface;
      account_id = parsed.account_id;
      thread_id = parsed.thread_token;
    } in
    if has_values route then some route else none

abbrev part : String → Option String → Option String
part name none = none
part name (some value) =
    if is_non_empty_string (some value) then some (append name (append "=" value)) else none

-- The parts are not blank, since each has its name.
unfoldable pub build_route_key : Option SessionRouteMetadata → Option String
build_route_key none = none
build_route_key (some r) =
    let parts = non_empty (
      part "provider" r.provider
      ∷ part "surface" r.surface
      ∷ part "accountId" r.account_id
      ∷ part "channelId" r.channel_id
      ∷ part "conversationId" r.conversation_id
      ∷ part "threadId" r.thread_id
      ∷ []) in
    elim parts [ [] ↦ none | p ∷ ps ↦ some (join "|" (p ∷ ps)) ]

-- A text as a condition; none, if it is absent.
abbrev pub as_condition : Option String → Option Bool
as_condition none = none
as_condition (some s) = some (not (s == ""))

-- `Boolean(candidate?.isThreadScoped ?? candidate?.provider ?? candidate?.surface)`.
unfoldable pub is_picked : Option ParsedSessionKey → Bool
is_picked none = false
is_picked (some p) =
    get_or
      (or_else (some p.is_thread_scoped)
        (or_else (as_condition p.provider) (as_condition p.surface)))
      false

find_picked : List (Option ParsedSessionKey) → Option ParsedSessionKey
unfolding is_picked
find_picked [] = none
find_picked (candidate ∷ rest) =
    let later = find_picked rest in if is_picked candidate then candidate else later

unfoldable pub pick_parsed_route : List String → Option SessionRouteMetadata
unfolding find_picked route_from_parsed_session
pick_parsed_route session_keys =
    route_from_parsed_session (find_picked (map (λ key. parse_session_key (some key)) session_keys))

pub record RouteObservation : Type 0 where
  pub route_key : String
  pub route : SessionRouteMetadata
  pub first_seen_at : ℕ
  pub last_seen_at : ℕ
  pub last_inbound_at : Option ℕ
  pub last_outbound_at : Option ℕ
  pub run_ids : List String

-- `now - lastSeenAt > routeTtlMs` deletes; it stands as `now <= lastSeenAt + routeTtlMs` to keep.
unfoldable pub prune_expired : ℕ → ℕ → JsMap RouteObservation → JsMap RouteObservation
prune_expired route_ttl_ms now observations =
    JsMap.retain (λ o. leb now (o.last_seen_at + route_ttl_ms)) observations

unfoldable pub observations_of : JsMap RouteObservation → List RouteObservation
observations_of observations = map (λ e. e.1) observations

unfoldable pub select_route_candidates :
    JsMap RouteObservation → Option String → List RouteObservation
unfolding observations_of
select_route_candidates observations none = observations_of observations
select_route_candidates observations (some run_id) =
    let all = observations_of observations in
    let by_run = keep (λ o. member run_id o.run_ids) all in
    if is_non_empty_string (some run_id) then elim by_run [ [] ↦ all | o ∷ os ↦ o ∷ os ] else all

-- `Math.max(a ?? 0, b ?? 0) || undefined`.
abbrev pub later_time : Option ℕ → Option ℕ → Option ℕ
later_time a b = let t = max (get_or a 0) (get_or b 0) in if nat_eq t 0 then none else some t

abbrev joined_observation : String → Option RouteObservation → RouteObservation → RouteObservation
joined_observation key none o = record {
  route_key = key;
  route = get_or (merge_route_metadata none (some o.route)) o.route;
  first_seen_at = o.first_seen_at;
  last_seen_at = o.last_seen_at;
  last_inbound_at = later_time none o.last_inbound_at;
  last_outbound_at = later_time none o.last_outbound_at;
  run_ids = add_all o.run_ids [];
}
joined_observation key (some current) o = record {
  route_key = key;
  route = get_or (merge_route_metadata (some current.route) (some o.route)) o.route;
  first_seen_at = min current.first_seen_at o.first_seen_at;
  last_seen_at = max current.last_seen_at o.last_seen_at;
  last_inbound_at = later_time current.last_inbound_at o.last_inbound_at;
  last_outbound_at = later_time current.last_outbound_at o.last_outbound_at;
  run_ids = add_all o.run_ids (add_all current.run_ids []);
}

-- The loop over the observations of a record that is merged into another.
unfoldable pub merge_observations :
    JsMap RouteObservation → JsMap RouteObservation → JsMap RouteObservation
merge_observations [] target = target
merge_observations ((key, o) ∷ rest) target =
    merge_observations rest (JsMap.set key (joined_observation key (JsMap.get key target) o) target)
