-- ===== src/Tests/SessionTests.antt =====
-- Tests and examples of the session tracker.
use openclaw_event_server_pl.Common.{
  String, true, false, Option, none, some, List, [], ◌∷◌, ◌≡◌, eq_iff, refl, sym, ◌∙◌, ◌==◌, ◌||◌,
  inl, inr, Bool-cases, ap, arith, map, trim, split, starts_with, add_all, member,
}
use openclaw_event_server_pl.Common.JsMap
use openclaw_event_server_pl.Sessions.Keys.{parse_session_key, is_strong_session_key}
use openclaw_event_server_pl.Sessions.Routes.{pick_parsed_route, route_from_parsed_session}
use openclaw_event_server_pl.Sessions.Routes.Scoped.{pick_parsed_route-find_thread_scoped}
use openclaw_event_server_pl.Sessions.Index.{add_entries}
use openclaw_event_server_pl.Sessions.Records.{
  find_thread_scoped, SessionRecord, ObserveSessionParams, no_params, has_strong_identifiers,
  observed_ids, observed_keys, observed_runs,
}
use openclaw_event_server_pl.Sessions.Tracker.{
  SessionTracker, new, new_record, observe_session, find_matching_records,
}
use openclaw_event_server_pl.Sessions.Tracker.Ownership.{IsConsistent}
use openclaw_event_server_pl.Sessions.Tracker.Indexed.{texts}
use openclaw_event_server_pl.Sessions.Tracker.Merging.{record_ids}
use openclaw_event_server_pl.Sessions.Tracker.Lookup.{
  matches_stored, find_matching_records-matches_stored,
}
use openclaw_event_server_pl.Sessions.Tracker.Sharing.{
  IsNew, HasShared, shared_key_never_guesses, shared_key_joins,
}
use openclaw_event_server_pl.Sessions.Tracker.Ending.{end_session-get_session}
use openclaw_event_server_pl.Sessions.Queries.{
  end_session, get_session, get_session_provenance, route_ambiguous,
}
use openclaw_event_server_pl.Sessions.Tracker.Observing.{
  observe_session-IsConsistent, new-IsConsistent,
}

abbrev thread_a : String
thread_a = "agent:jacob:slack:direct:d0af:thread:1773"

abbrev main_key : String
main_key = "agent:jacob:main"

strong_thread : is_strong_session_key thread_a ≡ true
unfolding is_strong_session_key trim split
strong_thread = refl

shared_main : is_strong_session_key main_key ≡ false
unfolding is_strong_session_key trim split
shared_main = refl

abbrev touch : String → List String → ObserveSessionParams
touch id keys = record no_params { session_id = some id; alias_session_keys = keys }

abbrev one_session : SessionTracker
one_session = observe_session (touch "session-a" (thread_a ∷ [])) "r1" 5 (new 600000)

abbrev two_sessions : SessionTracker
two_sessions = observe_session (touch "session-b" []) "r2" 6 one_session

ids_of_two : map (λ e. e.0) two_sessions.records ≡ "r1" ∷ "r2" ∷ []
unfolding observe_session trim split starts_with add_all JsMap.get JsMap.set
    openclaw_event_server_pl.Sessions.Index.collect observed_keys is_strong_session_key
ids_of_two = refl

one-IsConsistent : IsConsistent one_session
unfolding JsMap.get
one-IsConsistent =
    observe_session-IsConsistent (touch "session-a" (thread_a ∷ [])) "r1" 5 (new 600000)
      (new-IsConsistent 600000) refl

fresh_r2 : JsMap.get "r2" one_session.records ≡ none
unfolding observe_session JsMap.get trim openclaw_event_server_pl.Sessions.Index.collect
    observed_keys add_all starts_with is_strong_session_key split JsMap.set
fresh_r2 = refl

observe_session-IsConsistent_example : IsConsistent two_sessions
observe_session-IsConsistent_example =
    observe_session-IsConsistent (touch "session-b" []) "r2" 6 one_session one-IsConsistent fresh_r2

two-IsConsistent : IsConsistent two_sessions
two-IsConsistent =
    observe_session-IsConsistent (touch "session-b" []) "r2" 6 one_session one-IsConsistent fresh_r2

-- Each of the two is seen with the key that they share.
abbrev sharing : SessionTracker
sharing =
    observe_session (touch "session-b" (main_key ∷ [])) "r3" 8
      (observe_session (touch "session-a" (main_key ∷ [])) "r3" 7 two_sessions)

fresh_r3 : JsMap.get "r3" two_sessions.records ≡ none
unfolding observe_session JsMap.get trim openclaw_event_server_pl.Sessions.Index.collect
    observed_keys add_all starts_with is_strong_session_key split JsMap.set
fresh_r3 = refl

fresh_r3' :
    JsMap.get "r3" (observe_session (touch "session-a" (main_key ∷ [])) "r3" 7 two_sessions).records
    ≡ none
unfolding observe_session JsMap.get trim openclaw_event_server_pl.Sessions.Index.collect
    observed_keys add_all starts_with is_strong_session_key split JsMap.set
fresh_r3' = refl

sharing-IsConsistent : IsConsistent sharing
sharing-IsConsistent =
    observe_session-IsConsistent (touch "session-b" (main_key ∷ [])) "r3" 8 _
      (observe_session-IsConsistent (touch "session-a" (main_key ∷ [])) "r3" 7 two_sessions
        two-IsConsistent fresh_r3)
      fresh_r3'

find_matching_records-matches_stored_example :
    member "r1" (record_ids (find_matching_records (touch "session-a" []) (some true) sharing))
    ≡ matches_stored (touch "session-a" []) (JsMap.get "r1" sharing.records)
find_matching_records-matches_stored_example =
    find_matching_records-matches_stored (touch "session-a" []) sharing "r1"
      sharing-IsConsistent.indexed

abbrev by_main : ObserveSessionParams
by_main = record no_params { session_key = some main_key }

main_finds_none : (o : Option SessionRecord) → matches_stored by_main o ≡ false
unfolding observed_ids observed_keys add_all trim is_strong_session_key split observed_runs
main_finds_none none = refl
main_finds_none (some r) = refl

nobody_is_main : IsNew by_main sharing
nobody_is_main i = main_finds_none (JsMap.get i sharing.records)

first_shares : HasShared by_main sharing main_key "r1"
unfolding observe_session observed_keys add_all trim is_strong_session_key split JsMap.get
    openclaw_event_server_pl.Sessions.Index.collect starts_with JsMap.set
first_shares = (refl, refl, refl)

second_shares : HasShared by_main sharing main_key "r2"
unfolding observe_session observed_keys add_all trim is_strong_session_key split JsMap.get
    openclaw_event_server_pl.Sessions.Index.collect starts_with JsMap.set
second_shares = (refl, refl, refl)

abbrev in_order : List String → List String
in_order texts = texts

shared_key_never_guesses_example :
    (observe_session by_main "r4" 9 sharing ≡ sharing)
    × ((get_session_provenance in_order by_main 9 sharing).1.agent_id ≡ none)
    × ((get_session_provenance in_order by_main 9 sharing).1.route ≡ none)
    × ((get_session_provenance in_order by_main 9 sharing).1.route_resolution ≡ route_ambiguous)
shared_key_never_guesses_example =
    shared_key_never_guesses by_main sharing sharing-IsConsistent.indexed nobody_is_main in_order
      "r4" 9 main_key main_key "r1" "r2" first_shares second_shares
      (ground (arith, eq_iff "r1" "r2"))

-- One session that is known by the shared key, and another that is seen with it.
abbrev alone : SessionTracker
alone = observe_session (touch "session-a" (main_key ∷ [])) "r1" 5 (new 600000)

alone-IsConsistent : IsConsistent alone
unfolding JsMap.get
alone-IsConsistent =
    observe_session-IsConsistent (touch "session-a" (main_key ∷ [])) "r1" 5 (new 600000)
      (new-IsConsistent 600000) refl

abbrev record_a : SessionRecord
record_a = record (new_record "r1" 5) {
  session_ids = "session-a" ∷ [];
  session_keys = main_key ∷ [];
}

alone_records : alone.records ≡ ("r1", record_a) ∷ []
unfolding observe_session trim openclaw_event_server_pl.Sessions.Index.collect observed_keys add_all
    starts_with is_strong_session_key split JsMap.get JsMap.set
alone_records = refl

other_finds_none :
    (i : String)
    → matches_stored (touch "session-b" (main_key ∷ [])) (JsMap.get i (("r1", record_a) ∷ []))
      ≡ false
unfolding JsMap.get observed_ids add_all trim observed_keys starts_with is_strong_session_key split
    observed_runs
other_finds_none i = elim (Bool-cases ("r1" == i)) [
  | inl same ↦ rw same refl
  | inr other ↦ rw other refl
]

b-IsNew : IsNew (touch "session-b" (main_key ∷ [])) alone
b-IsNew i =
    ap (λ m. matches_stored (touch "session-b" (main_key ∷ [])) (JsMap.get i m)) alone_records
    ∙ other_finds_none i

b_is_strong : has_strong_identifiers (touch "session-b" (main_key ∷ [])) ≡ true
unfolding has_strong_identifiers trim
b_is_strong = refl

a_shares : HasShared (touch "session-b" (main_key ∷ [])) alone main_key "r1"
unfolding observe_session observed_keys add_all trim starts_with is_strong_session_key split
    JsMap.get openclaw_event_server_pl.Sessions.Index.collect JsMap.set
a_shares = (refl, refl, refl)

a_is_there : JsMap.get "r1" alone.records ≡ some record_a
unfolding JsMap.get
a_is_there = ap (λ m. JsMap.get "r1" m) alone_records

found_alone :
    record_ids (find_matching_records (touch "session-b" (main_key ∷ [])) (some false) alone)
    ≡ "r1" ∷ []
unfolding observe_session openclaw_event_server_pl.Sessions.Index.collect observed_keys add_all trim
    starts_with is_strong_session_key split JsMap.get JsMap.set
found_alone = refl

a_is_alone :
    (j : String)
    → member j
        (record_ids (find_matching_records (touch "session-b" (main_key ∷ [])) (some false) alone))
      ≡ true
    → "r1" ≡ j
a_is_alone j m =
    let e : ("r1" == j || false) ≡ true = ap (λ s. member j s) (sym found_alone) ∙ m in
    ground (arith, eq_iff "r1" j)

shared_key_joins_example :
    member "session-a" (
      texts
        (λ q. q.session_ids)
        (JsMap.get "r1" (observe_session (touch "session-b" (main_key ∷ [])) "r2" 6 alone).records))
    ≡ true
shared_key_joins_example =
    shared_key_joins (touch "session-b" (main_key ∷ [])) alone alone-IsConsistent.indexed b-IsNew
      b_is_strong main_key "r1" record_a a_shares a_is_there a_is_alone "r2" 6 "session-a" refl

ended :
    (end_session in_order "session-a" 20 sharing).1
    ≡ some (record {
      agent_id = none;
      parent_session_id = none;
      duration_ms = 15;
      session_id = some "session-a";
      session_key = some thread_a;
    })
unfolding end_session openclaw_event_server_pl.Sessions.Index.collect observed_runs observed_keys
    add_all trim starts_with is_strong_session_key split JsMap.get observe_session JsMap.set
ended = refl

strong_a : is_strong_session_key "session-a" ≡ true
unfolding is_strong_session_key trim split
strong_a = refl

abbrev after_end : SessionTracker
after_end = (end_session in_order "session-a" 20 sharing).0

end_session-get_session_example :
    get_session in_order (some "session-a") 30 after_end ≡ (after_end, none)
end_session-get_session_example =
    end_session-get_session "session-a" strong_a in_order 20 30 sharing after_end
      (record {
        agent_id = none;
        parent_session_id = none;
        duration_ms = 15;
        session_id = some "session-a";
        session_key = some thread_a;
      })
      sharing-IsConsistent (ap (λ o. (after_end, o)) ended)

abbrev keys_of_thread : List String
keys_of_thread = "agent:jacob:slack:direct:d0af" ∷ "agent:jacob:slack:channel:c1:thread:77" ∷ []

-- The key of the thread is taken, not the first one.
thread_wins :
    find_thread_scoped keys_of_thread
    ≡ parse_session_key (some "agent:jacob:slack:channel:c1:thread:77")
unfolding find_thread_scoped parse_session_key trim split
thread_wins = refl

pick_parsed_route-find_thread_scoped_example :
    pick_parsed_route keys_of_thread ≡ route_from_parsed_session (find_thread_scoped keys_of_thread)
pick_parsed_route-find_thread_scoped_example = pick_parsed_route-find_thread_scoped keys_of_thread
