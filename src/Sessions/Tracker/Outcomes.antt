-- ===== src/Sessions/Tracker/Outcomes.antt =====
-- What `resolveUniqueRecord` tells and keeps (hooks/session-tracker.ts).
use openclaw_event_server_pl.Common.{
  String, Bool, true, false, none, some, List, [], ◌∷◌, ◌==◌, member, arith, ◌≡◌, ◌∙◌, sym, ap,
  subst, eq_iff, eq_refl, inl, inr, if◌then◌else◌, ◌⊎◌, keep,
}
use openclaw_event_server_pl.Common.JsMap.{JsMap, get-set_self}
use openclaw_event_server_pl.Common.JsMap
use openclaw_event_server_pl.Sessions.Keys.{is_strong_session_key}
use openclaw_event_server_pl.Sessions.Index.{Index}
use openclaw_event_server_pl.Sessions.Index.Holds.{holds}
use openclaw_event_server_pl.Sessions.Records.{
  SessionRecord, ObserveSessionParams, observed_ids, observed_keys, observed_runs,
}
use openclaw_event_server_pl.Sessions.Tracker.{
  SessionTracker, merge_records, resolve_strong, resolve_unique_record, find_matching_records,
}
use openclaw_event_server_pl.Sessions.Tracker.Consistent.{IsIndexed}
use openclaw_event_server_pl.Sessions.Tracker.Merging.{
  record_ids, AreStored, AreDistinct, merged_all, merged_all-record_id,
}
use openclaw_event_server_pl.Sessions.Tracker.Replacing.{
  merge_records-IsIndexed, merge_records-primary, get-merge_records, ids-merged_all,
  keys-merged_all, runs-merged_all,
}
use openclaw_event_server_pl.Sessions.Tracker.Matching.{
  find_matching_records-AreStored, find_matching_records-AreDistinct,
}
use openclaw_event_server_pl.Sessions.Tracker.Resolving.{
  owner-merge_records, merge_records-OneOwner,
}
use openclaw_event_server_pl.Sessions.Tracker.Ownership.{
  IsConsistent, AreAmong, Owns, IsOwner, Outcome, resolve_weak-Outcome, find_matching_records-Owns,
}

-- One index after a merge: who has an observed text then is the primary record.
AreAmong-merge :
    (observed : List String) (index index' : Index) (matches : List String) (p : String)
    → AreAmong observed index (λ i. member i matches)
    → ((k i : String)
        → holds index' k i ≡ true
        → (p ≡ i) ⊎ ((member i matches ≡ false) × (holds index k i ≡ true)))
    → AreAmong observed index' (λ i. p == i)
AreAmong-merge observed index index' matches p among owner k i o found = elim (owner k i found) [
  | inl same ↦ ground (arith, eq_iff p i)
  | inr (out, before) ↦ let clash : true ≡ false = sym (among k i o before) ∙ out in absurd (cc)
]

module _ (params : ObserveSessionParams) (r : SessionRecord) (rest : List SessionRecord)
    (t : SessionTracker) (h : IsConsistent t) (stored : AreStored (r ∷ rest) t.records)
    (distinct : AreDistinct (r ∷ rest)) where
  after_IsIndexed : IsIndexed (merge_records r rest t).0
  after_IsIndexed = merge_records-IsIndexed r rest t stored distinct h.indexed

  merge_records-IsConsistent : IsConsistent (merge_records r rest t).0
  merge_records-IsConsistent = record {
    indexed = after_IsIndexed;
    ids =
        merge_records-OneOwner (λ q. q.session_ids) ids-merged_all t.by_session_id _ r rest t stored
          distinct h.indexed.ids after_IsIndexed.ids (λ k. true) h.ids;
    keys =
        merge_records-OneOwner (λ q. q.session_keys) keys-merged_all t.by_session_key _ r rest t
          stored distinct h.indexed.keys after_IsIndexed.keys is_strong_session_key h.keys;
    runs =
        merge_records-OneOwner (λ q. q.run_ids) runs-merged_all t.by_run_id _ r rest t stored
          distinct h.indexed.runs after_IsIndexed.runs (λ k. true) h.runs;
  }

  merge_records-Owns :
      Owns params (λ i. member i (record_ids (r ∷ rest))) t
      → Owns params (λ i. r.record_id == i) (merge_records r rest t).0
  merge_records-Owns owns = record {
    ids =
        AreAmong-merge (observed_ids params) t.by_session_id _ (record_ids (r ∷ rest)) r.record_id
          owns.ids
          (owner-merge_records (λ q. q.session_ids) ids-merged_all t.by_session_id _ r rest t stored
            distinct h.indexed.ids after_IsIndexed.ids);
    keys =
        AreAmong-merge (keep is_strong_session_key (observed_keys params)) t.by_session_key _
          (record_ids (r ∷ rest)) r.record_id owns.keys
          (owner-merge_records (λ q. q.session_keys) keys-merged_all t.by_session_key _ r rest t
            stored distinct h.indexed.keys after_IsIndexed.keys);
    runs =
        AreAmong-merge (observed_runs params) t.by_run_id _ (record_ids (r ∷ rest)) r.record_id
          owns.runs
          (owner-merge_records (λ q. q.run_ids) runs-merged_all t.by_run_id _ r rest t stored
            distinct h.indexed.runs after_IsIndexed.runs);
  }

  merge_records-IsOwner :
      Owns params (λ i. member i (record_ids (r ∷ rest))) t
      → IsOwner params (merge_records r rest t).1 (merge_records r rest t).0
  merge_records-IsOwner owns =
      let e : merged_all r rest ≡ (merge_records r rest t).1 =
        sym (merge_records-primary r rest t stored distinct) in
      let named : r.record_id ≡ (merged_all r rest).record_id = sym (merged_all-record_id r rest) in
      subst (λ q. IsOwner params q (merge_records r rest t).0) e
        (subst
          (λ (i : String).
            (JsMap.get i (merge_records r rest t).0.records ≡ some (merged_all r rest))
            × Owns params (λ j. i == j) (merge_records r rest t).0)
          named
          (
            get-merge_records r rest t stored distinct r.record_id
                ∙ ap
                    (λ (b : Bool).
                      if b
                      then some (merged_all r rest)
                      else if member r.record_id (record_ids rest)
                      then none
                      else JsMap.get r.record_id t.records)
                    (eq_refl r.record_id),
            merge_records-Owns owns,
          ))

one_only : (p i : String) → member i (p ∷ []) ≡ true → (p == i) ≡ true
one_only p i h = ground arith

resolve_strong-Outcome :
    (params : ObserveSessionParams) (matches weak : List SessionRecord) (t : SessionTracker)
    → IsConsistent t
    → AreStored matches t.records
    → AreDistinct matches
    → Owns params (λ i. member i (record_ids matches)) t
    → AreStored weak t.records
    → Outcome params t (resolve_strong matches weak t)
resolve_strong-Outcome params [] weak t h stored distinct owns stored' =
    resolve_weak-Outcome params weak t h owns stored'
resolve_strong-Outcome params (r ∷ []) weak t h stored distinct owns stored' = (
  h,
  (
    stored.0,
    record {
      ids = λ k i o f. one_only r.record_id i (owns.ids k i o f);
      keys = λ k i o f. one_only r.record_id i (owns.keys k i o f);
      runs = λ k i o f. one_only r.record_id i (owns.runs k i o f);
    },
  ),
)
resolve_strong-Outcome params (r ∷ s ∷ rest) weak t h stored distinct owns stored' = (
  merge_records-IsConsistent params r (s ∷ rest) t h stored distinct,
  merge_records-IsOwner params r (s ∷ rest) t h stored distinct owns,
)

pub resolve_unique_record-Outcome :
    (params : ObserveSessionParams) (t : SessionTracker)
    → IsConsistent t
    → Outcome params t (resolve_unique_record params t)
unfolding resolve_unique_record
resolve_unique_record-Outcome params t h =
    resolve_strong-Outcome params (find_matching_records params (some true) t)
      (find_matching_records params (some false) t) t h
      (find_matching_records-AreStored params (some true) t h.indexed)
      (find_matching_records-AreDistinct params (some true) t h.indexed)
      (find_matching_records-Owns params t h.indexed)
      (find_matching_records-AreStored params (some false) t h.indexed)
