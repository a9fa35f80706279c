-- ===== src/Sessions/Routes/Scoped.antt =====
-- The two searches for a key of a thread (`pickParsedRoute` and `pickPreferredParsedSession` of
-- hooks/session-tracker-helpers.ts).
use openclaw_event_server_pl.Common.{
  String, Option, none, some, List, [], ◌∷◌, ◌≡◌, refl, ap, map, if◌then◌else◌,
}
use openclaw_event_server_pl.Sessions.Keys.{ParsedSessionKey, parse_session_key}
use openclaw_event_server_pl.Sessions.Routes.{
  pick_parsed_route, find_picked, is_picked, route_from_parsed_session,
}
use openclaw_event_server_pl.Sessions.Records.{find_thread_scoped}

either :
    (candidate later later' : Option ParsedSessionKey)
    → later ≡ later'
    → (if is_picked candidate then candidate else later)
      ≡ elim candidate [ none ↦ later' | some p ↦ if p.is_thread_scoped then some p else later' ]
unfolding is_picked
either none later later' e = e
either (some p) later later' e = ap (λ l. if p.is_thread_scoped then some p else l) e

find_picked-find_thread_scoped :
    (keys : List String)
    → find_picked (map (λ key. parse_session_key (some key)) keys) ≡ find_thread_scoped keys
unfolding find_picked find_thread_scoped
find_picked-find_thread_scoped [] = refl
find_picked-find_thread_scoped (key ∷ rest) =
    either (parse_session_key (some key)) _ _ (find_picked-find_thread_scoped rest)

-- The route that keys tell is the one of their first key of a thread or a topic, as the preferred key of a
-- record is found: the provider and the surface, which the test names as alternatives, play no part.
pub pick_parsed_route-find_thread_scoped :
    (keys : List String)
    → pick_parsed_route keys ≡ route_from_parsed_session (find_thread_scoped keys)
unfolding pick_parsed_route
pick_parsed_route-find_thread_scoped keys =
    ap route_from_parsed_session (find_picked-find_thread_scoped keys)
