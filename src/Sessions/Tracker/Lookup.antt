-- ===== src/Sessions/Tracker/Lookup.antt =====
-- The lookup by the indices finds what a search of all records would (hooks/session-tracker-helpers.ts).
use openclaw_event_server_pl.Common.{
  String, Bool, true, false, ◌||◌, Option, none, some, List, [], ◌∷◌, member, arith, ◌≡◌, ◌∙◌, refl,
  Option-cases, inl, inr, keep,
}
use openclaw_event_server_pl.Common.JsMap.{JsMap}
use openclaw_event_server_pl.Common.JsMap
use openclaw_event_server_pl.Sessions.Keys.{is_strong_session_key}
use openclaw_event_server_pl.Sessions.Index.{Index}
use openclaw_event_server_pl.Sessions.Index.Found.{found_by}
use openclaw_event_server_pl.Sessions.Records.{
  SessionRecord, ObserveSessionParams, observed_ids, observed_keys, observed_runs,
}
use openclaw_event_server_pl.Sessions.Tracker.{SessionTracker, find_matching_records}
use openclaw_event_server_pl.Sessions.Tracker.Indexed.{texts, Agrees}
use openclaw_event_server_pl.Sessions.Tracker.Consistent.{IsIndexed}
use openclaw_event_server_pl.Sessions.Tracker.Merging.{record_ids}
use openclaw_event_server_pl.Sessions.Tracker.Matching.{
  member-find_matching_records, member-found_ids,
}

abbrev pub shares : List String → List String → Bool
shares [] own = false
shares (k ∷ rest) own = member k own || shares rest own

-- The record has one of the strong identifiers of the parameters.
abbrev pub has_identifier : ObserveSessionParams → SessionRecord → Bool
has_identifier params r =
    shares (observed_ids params) r.session_ids
    || shares (keep is_strong_session_key (observed_keys params)) r.session_keys
    || shares (observed_runs params) r.run_ids

abbrev pub matches_stored : ObserveSessionParams → Option SessionRecord → Bool
matches_stored params none = false
matches_stored params (some r) = has_identifier params r

found_by-shares :
    (f : SessionRecord → List String) (index : Index) (records : JsMap SessionRecord)
    (keys : List String) (i : String)
    → Agrees f index records
    → found_by index keys i ≡ shares keys (texts f (JsMap.get i records))
found_by-shares f index records [] i agrees = refl
found_by-shares f index records (k ∷ rest) i agrees =
    rw (agrees k i, found_by-shares f index records rest i agrees) refl

shares_none : (keys : List String) → shares keys [] ≡ false
shares_none [] = refl
shares_none (k ∷ rest) = shares_none rest

-- Where the indices agree with the records, the lookup by strong identifiers finds an id exactly if the
-- record under that id has one of the session ids, the keys that are not shared, or the run.
pub find_matching_records-matches_stored :
    (params : ObserveSessionParams) (t : SessionTracker) (i : String)
    → IsIndexed t
    → member i (record_ids (find_matching_records params (some true) t))
      ≡ matches_stored params (JsMap.get i t.records)
find_matching_records-matches_stored params t i h =
    member-find_matching_records params (some true) t h i
    ∙ rw (member-found_ids params t i) (
        rw (found_by-shares (λ r. r.run_ids) t.by_run_id t.records (observed_runs params) i h.runs)
          (rw
            (found_by-shares (λ r. r.session_keys) t.by_session_key t.records
              (keep is_strong_session_key (observed_keys params)) i h.keys)
            (rw
              (found_by-shares (λ r. r.session_ids) t.by_session_id t.records (observed_ids params)
                i h.ids)
              (elim (Option-cases (JsMap.get i t.records)) [
                | inl absent ↦ rw absent (ground arith)
                | inr (r, there) ↦ rw there (ground arith)
              ]))))
