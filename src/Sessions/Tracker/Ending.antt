-- ===== src/Sessions/Tracker/Ending.antt =====
-- A session that was ended is gone (`endSession` and `getSession` of hooks/session-tracker.ts).
use openclaw_event_server_pl.Common.{
  ℕ, String, true, false, not, ◌&&◌, Option, none, some, List, [], ◌∷◌, ◌==◌, member, arith, ◌≡◌,
  ◌∙◌, sym, ap, refl, subst, eq_iff, eq_refl, Bool-cases, inl, inr, keep,
}
use openclaw_event_server_pl.Common.JsMap.{JsMap, get-delete}
use openclaw_event_server_pl.Common.JsMap
use openclaw_event_server_pl.Sessions.Keys.{is_strong_session_key, is_non_empty_string}
use openclaw_event_server_pl.Sessions.Index.{Index, remove_entries, collect}
use openclaw_event_server_pl.Sessions.Index.Holds.{holds, holds-remove_entries}
use openclaw_event_server_pl.Sessions.Index.Found.{found_by}
use openclaw_event_server_pl.Sessions.Records.{
  SessionRecord, ObserveSessionParams, observed_ids, observed_keys, observed_runs,
}
use openclaw_event_server_pl.Sessions.Records.Observed.{observed_keys-identified_by}
use openclaw_event_server_pl.Sessions.Tracker.{
  SessionTracker, find_matching_records, found_ids, serves, resolve_unique_record, Resolution,
  resolved, ambiguous, unmatched, remove_record, records_of,
}
use openclaw_event_server_pl.Sessions.Tracker.Indexed.{texts, Agrees}
use openclaw_event_server_pl.Sessions.Tracker.Consistent.{IsIndexed, remove_record-IsIndexed}
use openclaw_event_server_pl.Sessions.Tracker.Matching.{
  member-find_matching_records, member-found_ids,
}
use openclaw_event_server_pl.Sessions.Tracker.Ownership.{
  IsConsistent, AreAmong, Owns, IsOwner, Outcome,
}
use openclaw_event_server_pl.Sessions.Tracker.Outcomes.{resolve_unique_record-Outcome}
use openclaw_event_server_pl.Sessions.Tracker.Sharing.{none_member}
use openclaw_event_server_pl.Sessions.Queries.{
  identified_by, SessionRecordSnapshot, end_session, end_resolved, get_session, get_resolved,
}

found_by-none :
    (index : Index) (keys : List String) (i : String)
    → AreAmong keys index (λ j. false)
    → found_by index keys i ≡ false
found_by-none index [] i among = refl
found_by-none index (k ∷ rest) i among = elim (Bool-cases (holds index k i)) [
  | inl found ↦ let clash : false ≡ true = among k i (rw (eq_refl k) refl) found in absurd (cc)
  | inr absent ↦
      rw absent (found_by-none index rest i (λ k' j m f. among k' j (rw m (ground arith)) f))
]

-- Where nobody has a strong identifier, none is found by one.
pub no_owner_no_match :
    (params : ObserveSessionParams) (t : SessionTracker)
    → IsIndexed t
    → Owns params (λ i. false) t
    → find_matching_records params (some true) t ≡ []
no_owner_no_match params t h nobody = none_member (find_matching_records params (some true) t) λ i.
    member-find_matching_records params (some true) t h i
    ∙ rw (member-found_ids params t i) (
        rw (found_by-none t.by_run_id (observed_runs params) i nobody.runs) (
          rw
            (found_by-none t.by_session_key (keep is_strong_session_key (observed_keys params)) i
              nobody.keys)
            (rw (found_by-none t.by_session_id (observed_ids params) i nobody.ids) refl)))

-- One index after the owner of the texts has been removed.
AreAmong-remove :
    (f : SessionRecord → List String) (observed : List String) (index : Index) (r : SessionRecord)
    (records : JsMap SessionRecord)
    → AreAmong observed index (λ i. r.record_id == i)
    → Agrees f (remove_entries (f r) r.record_id none index) (JsMap.delete r.record_id records)
    → AreAmong observed (remove_entries (f r) r.record_id none index) (λ i. false)
AreAmong-remove f observed index r records among agrees k i o found =
    let before : (holds index k i && not (member k (f r) && r.record_id == i)) ≡ true =
      sym (holds-remove_entries (f r) r.record_id none index k i tt) ∙ found in
    let named : (r.record_id == i) ≡ true = among k i o (ground arith) in
    let e : r.record_id ≡ i = ground (arith, eq_iff r.record_id i) in
    let gone : JsMap.get i (JsMap.delete r.record_id records) ≡ none =
      get-delete r.record_id i records ∙ rw named refl in
    let nothing : holds (remove_entries (f r) r.record_id none index) k i ≡ false =
      agrees k i ∙ ap (λ o'. member k (texts f o')) gone in
    sym nothing ∙ found

remove_record-Owns :
    (params : ObserveSessionParams) (r : SessionRecord) (t : SessionTracker)
    → Owns params (λ i. r.record_id == i) t
    → IsIndexed (remove_record r none t)
    → Owns params (λ i. false) (remove_record r none t)
unfolding remove_record
remove_record-Owns params r t owns h = record {
  ids =
      AreAmong-remove (λ q. q.session_ids) (observed_ids params) t.by_session_id r t.records
        owns.ids h.ids;
  keys =
      AreAmong-remove (λ q. q.session_keys) (keep is_strong_session_key (observed_keys params))
        t.by_session_key r t.records owns.keys h.keys;
  runs =
      AreAmong-remove (λ q. q.run_ids) (observed_runs params) t.by_run_id r t.records owns.runs
        h.runs;
}

-- A strong key has no place in the weak lane.
no_weak_keys :
    (s : List String)
    → ((k : String) → member k s ≡ true → is_strong_session_key k ≡ true)
    → keep (serves (some false)) s ≡ []
no_weak_keys [] h = refl
no_weak_keys (k ∷ s) h =
    let strong : is_strong_session_key k ≡ true = h k (rw (eq_refl k) refl) in
    rw strong (no_weak_keys s (λ k' m. h k' (rw m (ground arith))))

module _ (identifier : String) (strong : is_strong_session_key identifier ≡ true) where
  no_weak_match :
      (t : SessionTracker) → find_matching_records (identified_by identifier) (some false) t ≡ []
  unfolding find_matching_records found_ids collect records_of
  no_weak_match t =
      rw
        (no_weak_keys (observed_keys (identified_by identifier)) (λ k m.
          subst (λ x. is_strong_session_key x ≡ true) (observed_keys-identified_by k identifier m)
            strong))
        refl

  gone_after :
      (r : SessionRecord) (t : SessionTracker)
      → IsConsistent t
      → IsOwner (identified_by identifier) r t
      → resolve_unique_record (identified_by identifier) (remove_record r none t)
        ≡ (remove_record r none t, unmatched)
  unfolding resolve_unique_record
  gone_after r t h owner =
      let h' : IsIndexed (remove_record r none t) =
        remove_record-IsIndexed r none t h.indexed owner.0
          (record { ids = tt; keys = tt; runs = tt }) in
      let none_found : find_matching_records (identified_by identifier) (some true)
            (remove_record r none t)
          ≡ [] =
        no_owner_no_match (identified_by identifier) (remove_record r none t) h'
          (remove_record-Owns (identified_by identifier) r t owner.1 h') in
      rw (none_found, no_weak_match (remove_record r none t)) refl

  module _ (sorted : List String → List String) (now later : ℕ) where
    not_found_after :
        (r : SessionRecord) (t : SessionTracker)
        → IsConsistent t
        → IsOwner (identified_by identifier) r t
        → get_session sorted (some identifier) later (remove_record r none t)
          ≡ (remove_record r none t, none)
    unfolding get_session
    not_found_after r t h owner = elim (Bool-cases (is_non_empty_string (some identifier))) [
      | inl given ↦ rw given (ap (get_resolved sorted later) (gone_after r t h owner))
      | inr blank ↦ rw blank refl
    ]

    ended_is_gone :
        (t t' : SessionTracker) (snapshot : SessionRecordSnapshot)
        (outcome : SessionTracker × Resolution)
        → Outcome (identified_by identifier) t outcome
        → end_resolved sorted now outcome ≡ (t', some snapshot)
        → get_session sorted (some identifier) later t' ≡ (t', none)
    ended_is_gone t t' snapshot (t₁, resolved r) o e =
        subst (λ s. get_session sorted (some identifier) later s ≡ (s, none))
          (ap (λ (q : SessionTracker × Option SessionRecordSnapshot). q.0) e)
          (not_found_after r t₁ o.0 o.1)
    ended_is_gone t t' snapshot (t₁, ambiguous matches) o e = absurd (cc)
    ended_is_gone t t' snapshot (t₁, unmatched) o e = absurd (cc)

    -- In a consistent tracker, a session that was ended by an id or by a key that is not shared is not found
    -- by it afterwards.
    pub end_session-get_session :
        (t t' : SessionTracker) (snapshot : SessionRecordSnapshot)
        → IsConsistent t
        → end_session sorted identifier now t ≡ (t', some snapshot)
        → get_session sorted (some identifier) later t' ≡ (t', none)
    unfolding end_session
    end_session-get_session t t' snapshot h e =
        ended_is_gone t t' snapshot (resolve_unique_record (identified_by identifier) t)
          (resolve_unique_record-Outcome (identified_by identifier) t h) e
