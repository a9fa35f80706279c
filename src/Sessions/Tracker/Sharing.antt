-- ===== src/Sessions/Tracker/Sharing.antt =====
-- Keys that several sessions share (`resolveUniqueRecord` of hooks/session-tracker.ts, its weak lane).
use openclaw_event_server_pl.Common.{
  ℕ, String, true, false, ◌||◌, none, some, List, [], ◌∷◌, ◌==◌, member, arith, ◌≡◌, ◌≢◌, ◌∙◌, sym,
  ap, refl, subst, eq_iff, eq_refl, is_some, keep, get_or, member-add_all,
}
use openclaw_event_server_pl.Common.JsMap.{JsMap, get-set_self}
use openclaw_event_server_pl.Common.JsMap
use openclaw_event_server_pl.Sessions.Keys.{is_strong_session_key}
use openclaw_event_server_pl.Sessions.Index.Holds.{holds}
use openclaw_event_server_pl.Sessions.Index.Found.{found_by, found_by-of_member, member-collect}
use openclaw_event_server_pl.Sessions.Records.{
  SessionRecord, ObserveSessionParams, observed_ids, observed_keys, has_strong_identifiers,
}
use openclaw_event_server_pl.Sessions.Tracker.{
  SessionTracker, find_matching_records, found_ids, serves, observe_session, resolve_unique_record,
  resolved, ambiguous, resolve_strong, resolve_weak, apply_observation, observed_record,
}
use openclaw_event_server_pl.Sessions.Tracker.Indexed.{texts}
use openclaw_event_server_pl.Sessions.Tracker.Consistent.{IsIndexed}
use openclaw_event_server_pl.Sessions.Tracker.Merging.{record_ids, AreStored, AreDistinct}
use openclaw_event_server_pl.Sessions.Tracker.Matching.{
  member-find_matching_records, is_some-of_holds, find_matching_records-AreDistinct,
  find_matching_records-AreStored,
}
use openclaw_event_server_pl.Sessions.Tracker.Observing.{member-keep}
use openclaw_event_server_pl.Sessions.Tracker.Lookup.{
  matches_stored, find_matching_records-matches_stored,
}
use openclaw_event_server_pl.Sessions.Queries.{
  route_ambiguous, get_session_provenance, provenance_of,
}

pub none_member :
    (rs : List SessionRecord) → ((i : String) → member i (record_ids rs) ≡ false) → rs ≡ []
none_member [] h = refl
none_member (r ∷ rest) h = absurd (
    let e : true ≡ false =
      ap (λ b. b || member r.record_id (record_ids rest)) (sym (eq_refl r.record_id))
      ∙ h r.record_id in
    cc)

-- No record has a strong identifier of the parameters.
abbrev pub IsNew : ObserveSessionParams → SessionTracker → Type 0
IsNew params t = (i : String) → matches_stored params (JsMap.get i t.records) ≡ false

no_strong_match :
    (params : ObserveSessionParams) (t : SessionTracker)
    → IsIndexed t
    → IsNew params t
    → find_matching_records params (some true) t ≡ []
no_strong_match params t h is_new =
    none_member (find_matching_records params (some true) t)
      (λ i. find_matching_records-matches_stored params t i h ∙ is_new i)

-- The record is found by a key that is not strong.
abbrev pub HasShared : ObserveSessionParams → SessionTracker → String → String → Type 0
HasShared params t k i =
    (member k (observed_keys params) ≡ true)
    × (is_strong_session_key k ≡ false)
    × (holds t.by_session_key k i ≡ true)

weak_match :
    (params : ObserveSessionParams) (t : SessionTracker) (k i : String)
    → IsIndexed t
    → HasShared params t k i
    → member i (record_ids (find_matching_records params (some false) t)) ≡ true
unfolding found_ids
weak_match params t k i h (observed, weak, found) =
    let keys : List String = keep (serves (some false)) (observed_keys params) in
    let is_kept : member k keys ≡ true =
      member-keep (serves (some false)) k (observed_keys params) observed (rw weak refl) in
    let by_key : found_by t.by_session_key keys i ≡ true =
      found_by-of_member t.by_session_key keys k i is_kept found in
    let is_found : member i (found_ids params (some false) t) ≡ true =
      member-collect t.by_session_key keys i [] ∙ rw by_key refl in
    let there : is_some (JsMap.get i t.records) ≡ true =
      is_some-of_holds (λ r. r.session_keys) t.by_session_key t.records k i h.keys found in
    member-find_matching_records params (some false) t h i ∙ rw (is_found, there) refl

two_members :
    (rs : List SessionRecord) (i j : String)
    → i ≢ j
    → member i (record_ids rs) ≡ true
    → member j (record_ids rs) ≡ true
    → (r : SessionRecord) × (s : SessionRecord) × (rest : List SessionRecord) × (rs ≡ r ∷ s ∷ rest)
two_members [] i j differ mi mj = absurd (cc)
two_members (r ∷ []) i j differ mi mj =
    absurd (differ (ground (arith, eq_iff r.record_id i, eq_iff r.record_id j)))
two_members (r ∷ s ∷ rest) i j differ mi mj = (r, s, rest, refl)

module _ (params : ObserveSessionParams) (t : SessionTracker) (h : IsIndexed t)
    (is_new : IsNew params t) where
  two_owners :
      (k k' i j : String)
      → HasShared params t k i
      → HasShared params t k' j
      → i ≢ j
      → (matches : List SessionRecord) × (resolve_unique_record params t ≡ (t, ambiguous matches))
  unfolding resolve_unique_record
  two_owners k k' i j si sj differ =
      let (r, s, rest, e) =
        two_members (find_matching_records params (some false) t) i j differ
          (weak_match params t k i h si) (weak_match params t k' j h sj) in
      (
        r ∷ s ∷ rest,
        ap (λ m. resolve_strong m (find_matching_records params (some false) t) t)
              (no_strong_match params t h is_new)
            ∙ ap (λ w. (t, resolve_weak w)) e,
      )

  -- Where the indices agree with the records, no record has a strong identifier of the parameters and two
  -- records have shared keys of them, an observation changes nothing, and the provenance names no agent
  -- and no route and is ambiguous.
  pub shared_key_never_guesses :
      (sorted : List String → List String) (uuid : String) (clock : ℕ) (k k' i j : String)
      → HasShared params t k i
      → HasShared params t k' j
      → i ≢ j
      → (observe_session params uuid clock t ≡ t)
        × ((get_session_provenance sorted params clock t).1.agent_id ≡ none)
        × ((get_session_provenance sorted params clock t).1.route ≡ none)
        × ((get_session_provenance sorted params clock t).1.route_resolution ≡ route_ambiguous)
  unfolding observe_session get_session_provenance
  shared_key_never_guesses sorted uuid clock k k' i j si sj differ =
      let (matches, e) = two_owners k k' i j si sj differ in
      (
        rw e (ground arith),
        ap (λ o. (provenance_of sorted params (get_or params.now_ms clock) o).1.agent_id) e,
        ap (λ o. (provenance_of sorted params (get_or params.now_ms clock) o).1.route) e,
        ap (λ o. (provenance_of sorted params (get_or params.now_ms clock) o).1.route_resolution) e,
      )

one_member :
    (rs : List SessionRecord) (records : JsMap SessionRecord) (i : String) (r : SessionRecord)
    → AreStored rs records
    → AreDistinct rs
    → JsMap.get i records ≡ some r
    → member i (record_ids rs) ≡ true
    → ((j : String) → member j (record_ids rs) ≡ true → i ≡ j)
    → rs ≡ r ∷ []
one_member [] records i r stored distinct there m only = absurd (cc)
one_member (s ∷ []) records i r stored distinct there m only =
    let e : i ≡ s.record_id = only s.record_id (rw (eq_refl s.record_id) refl) in
    let same : some r ≡ some s = sym there ∙ (ap (λ j. JsMap.get j records) e ∙ stored.0) in cc
one_member (s ∷ s' ∷ rest) records i r stored distinct there m only =
    let e : i ≡ s.record_id = only s.record_id (rw (eq_refl s.record_id) refl) in
    let e' : i ≡ s'.record_id = only s'.record_id (rw (eq_refl s'.record_id) (ground arith)) in
    let clash : (s.record_id == s'.record_id) ≡ true =
      subst (λ x. (s.record_id == x) ≡ true) (sym e ∙ e') (eq_refl s.record_id) in
    absurd
      (ground (arith, distinct.0, eq_iff s.record_id s'.record_id, eq_iff s'.record_id s.record_id))

module _ (params : ObserveSessionParams) (t : SessionTracker) (h : IsIndexed t)
    (is_new : IsNew params t) (strong : has_strong_identifiers params ≡ true) (k i : String)
    (r : SessionRecord) (shared : HasShared params t k i) (there : JsMap.get i t.records ≡ some r)
    (alone : (j : String)
      → member j (record_ids (find_matching_records params (some false) t)) ≡ true
      → i ≡ j) where
  resolved_by_key : resolve_unique_record params t ≡ (t, resolved r)
  unfolding resolve_unique_record
  resolved_by_key =
      let e : find_matching_records params (some false) t ≡ r ∷ [] =
        one_member (find_matching_records params (some false) t) t.records i r
          (find_matching_records-AreStored params (some false) t h)
          (find_matching_records-AreDistinct params (some false) t h) there
          (weak_match params t k i h shared) alone in
      rw (no_strong_match params t h is_new, e) refl

  -- Where the indices agree with the records, a session that has strong identifiers, none of them known,
  -- and is seen with a shared key by which one record alone is found, joins that record, which then has
  -- the session ids of both.
  pub shared_key_joins :
      (uuid : String) (clock : ℕ) (m : String)
      → (member m r.session_ids || member m (observed_ids params)) ≡ true
      → member m
          (texts (λ q. q.session_ids) (JsMap.get i (observe_session params uuid clock t).records))
        ≡ true
  unfolding observe_session apply_observation observed_record
  shared_key_joins uuid clock m had =
      let now : ℕ = get_or params.now_ms clock in
      let named : r.record_id ≡ i = h.own i r there in
      rw (strong, resolved_by_key)
        (ap (λ o. member m (texts (λ q. q.session_ids) o))
            (subst
              (λ j.
                JsMap.get j (JsMap.set r.record_id (observed_record params now r) t.records)
                ≡ some (observed_record params now r))
              named (get-set_self r.record_id (observed_record params now r) t.records))
          ∙ (member-add_all m (observed_ids params) r.session_ids ∙ ground (arith, had)))
