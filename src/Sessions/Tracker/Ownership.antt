-- ===== src/Sessions/Tracker/Ownership.antt =====
-- The invariant of the tracker, and what a lookup must tell of it (hooks/session-tracker.ts).
use openclaw_event_server_pl.Common.{
  String, Bool, true, false, some, List, [], ◌∷◌, ◌==◌, member, arith, ◌≡◌, ◌∙◌, refl, is_some,
  keep,
}
use openclaw_event_server_pl.Common.JsMap.{JsMap, get-set_self}
use openclaw_event_server_pl.Common.JsMap
use openclaw_event_server_pl.Sessions.Keys.{is_strong_session_key}
use openclaw_event_server_pl.Sessions.Index.{Index}
use openclaw_event_server_pl.Sessions.Index.Holds.{holds}
use openclaw_event_server_pl.Sessions.Index.Found.{found_by-of_member}
use openclaw_event_server_pl.Sessions.Records.{
  SessionRecord, ObserveSessionParams, observed_ids, observed_keys, observed_runs,
}
use openclaw_event_server_pl.Sessions.Tracker.{
  SessionTracker, Resolution, resolved, ambiguous, unmatched, resolve_weak, find_matching_records,
  found_ids,
}
use openclaw_event_server_pl.Sessions.Tracker.Consistent.{IsIndexed, IsStored}
use openclaw_event_server_pl.Sessions.Tracker.Merging.{record_ids, AreStored}
use openclaw_event_server_pl.Sessions.Tracker.Matching.{
  member-find_matching_records, member-found_ids, is_some-of_holds,
}
use openclaw_event_server_pl.Sessions.Tracker.Resolving.{OneOwner}

-- Session ids, runs and strong keys belong to one record each; a shared key may belong to several.
pub record IsConsistent (t : SessionTracker) : Type 0 where
  pub indexed : IsIndexed t
  pub ids : OneOwner (λ k. true) t.by_session_id
  pub keys : OneOwner is_strong_session_key t.by_session_key
  pub runs : OneOwner (λ k. true) t.by_run_id

-- Who has one of the texts that were observed, in one index.
abbrev pub AreAmong : List String → Index → (String → Bool) → Type 0
AreAmong observed index within =
    (k i : String) → member k observed ≡ true → holds index k i ≡ true → within i ≡ true

-- Every record that has a strong identifier of the parameters passes the test.
pub record Owns (params : ObserveSessionParams) (within : String → Bool) (t : SessionTracker)
    : Type 0 where
  pub ids : AreAmong (observed_ids params) t.by_session_id within
  pub keys : AreAmong (keep is_strong_session_key (observed_keys params)) t.by_session_key within
  pub runs : AreAmong (observed_runs params) t.by_run_id within

is_matched :
    (params : ObserveSessionParams) (t : SessionTracker)
    → IsIndexed t
    → (i : String) → member i (found_ids params (some true) t) ≡ true
    → is_some (JsMap.get i t.records) ≡ true
    → member i (record_ids (find_matching_records params (some true) t)) ≡ true
is_matched params t h i found there =
    member-find_matching_records params (some true) t h i ∙ rw (found, there) refl

-- The strong lookup misses none.
pub find_matching_records-Owns :
    (params : ObserveSessionParams) (t : SessionTracker)
    → IsIndexed t
    → Owns params (λ i. member i (record_ids (find_matching_records params (some true) t))) t
find_matching_records-Owns params t h = record {
  ids = λ k i observed found.
      is_matched params t h i
        (member-found_ids params t i
          ∙ rw (found_by-of_member t.by_session_id (observed_ids params) k i observed found)
              (ground arith))
        (is_some-of_holds (λ r. r.session_ids) t.by_session_id t.records k i h.ids found);
  keys = λ k i observed found.
      is_matched params t h i
        (member-found_ids params t i
          ∙ rw
              (found_by-of_member t.by_session_key
                (keep is_strong_session_key (observed_keys params)) k i observed found)
              (ground arith))
        (is_some-of_holds (λ r. r.session_keys) t.by_session_key t.records k i h.keys found);
  runs = λ k i observed found.
      is_matched params t h i
        (member-found_ids params t i
          ∙ rw (found_by-of_member t.by_run_id (observed_runs params) k i observed found) refl)
        (is_some-of_holds (λ r. r.run_ids) t.by_run_id t.records k i h.runs found);
}

-- The record that was resolved is the only one with any of the strong identifiers.
abbrev pub IsOwner : ObserveSessionParams → SessionRecord → SessionTracker → Type 0
IsOwner params r t = IsStored r t.records × Owns params (λ i. r.record_id == i) t

-- What `resolveUniqueRecord` gives, of a tracker before.
abbrev pub Outcome : ObserveSessionParams → SessionTracker → SessionTracker × Resolution → Type 0
Outcome params before (t, resolved r) = IsConsistent t × IsOwner params r t
Outcome params before (t, ambiguous matches) = t ≡ before
Outcome params before (t, unmatched) = (t ≡ before) × Owns params (λ i. false) before

pub Owns-nobody :
    (params : ObserveSessionParams) (within : String → Bool) (t : SessionTracker)
    → Owns params (λ i. false) t
    → Owns params within t
Owns-nobody params within t nobody = record {
  ids = λ k i o f. absurd (let e : false ≡ true = nobody.ids k i o f in cc);
  keys = λ k i o f. absurd (let e : false ≡ true = nobody.keys k i o f in cc);
  runs = λ k i o f. absurd (let e : false ≡ true = nobody.runs k i o f in cc);
}

pub resolve_weak-Outcome :
    (params : ObserveSessionParams) (weak : List SessionRecord) (t : SessionTracker)
    → IsConsistent t
    → Owns params (λ i. false) t
    → AreStored weak t.records
    → Outcome params t (t, resolve_weak weak)
resolve_weak-Outcome params [] t h nobody stored = (refl, nobody)
resolve_weak-Outcome params (r ∷ []) t h nobody stored =
    (h, (stored.0, Owns-nobody params (λ i. r.record_id == i) t nobody))
resolve_weak-Outcome params (r ∷ s ∷ rest) t h nobody stored = refl
