-- ===== src/Sessions/Tracker/Matching.antt =====
-- The records that `findMatchingRecords` finds (hooks/session-tracker-helpers.ts).
use openclaw_event_server_pl.Common.{
  String, Bool, true, false, ◌&&◌, ◌||◌, Option, none, some, List, [], ◌∷◌, ◌==◌, member, NoRepeats,
  arith, ◌≡◌, ◌∙◌, sym, ap, refl, subst, eq_iff, Bool-cases, Option-cases, inl, inr, is_some, keep,
}
use openclaw_event_server_pl.Common.JsMap.{JsMap}
use openclaw_event_server_pl.Common.JsMap
use openclaw_event_server_pl.Sessions.Index.{Index, collect}
use openclaw_event_server_pl.Sessions.Index.Holds.{holds}
use openclaw_event_server_pl.Sessions.Index.Found.{found_by, member-collect, collect-NoRepeats}
use openclaw_event_server_pl.Sessions.Records.{
  SessionRecord, ObserveSessionParams, observed_ids, observed_keys, observed_runs,
}
use openclaw_event_server_pl.Sessions.Tracker.{
  SessionTracker, records_of, serves, found_ids, find_matching_records,
}
use openclaw_event_server_pl.Sessions.Tracker.Indexed.{texts, Agrees}
use openclaw_event_server_pl.Sessions.Tracker.Consistent.{OwnIds, IsIndexed}
use openclaw_event_server_pl.Sessions.Tracker.Merging.{record_ids, AreStored, AreDistinct}

pub member-records_of :
    (records : JsMap SessionRecord) (i : String) (ids : List String)
    → OwnIds records
    → member i (record_ids (records_of records ids))
      ≡ (member i ids && is_some (JsMap.get i records))
unfolding records_of
member-records_of records i [] own = refl
member-records_of records i (id ∷ rest) own = elim (Option-cases (JsMap.get id records)) [
  | inl absent ↦
      rw (absent, records_of)
        (member-records_of records i rest own ∙ elim (Bool-cases (id == i)) [
          | inl same ↦
              let e : id ≡ i = ground (arith, eq_iff id i) in
              let gone : JsMap.get i records ≡ none =
                subst (λ j. JsMap.get j records ≡ none) e absent in
              rw (gone, same) (ground arith)
          | inr other ↦ rw other refl
        ])
  | inr (r, there) ↦
      let named : r.record_id ≡ id = own id r there in
      rw (there, records_of)
        (ap (λ x. x == i || member i (record_ids (records_of records rest))) named
          ∙ rw (member-records_of records i rest own) (elim (Bool-cases (id == i)) [
            | inl same ↦
                let e : id ≡ i = ground (arith, eq_iff id i) in
                let here : JsMap.get i records ≡ some r =
                  subst (λ j. JsMap.get j records ≡ some r) e there in
                rw (here, same) refl
            | inr other ↦ rw other refl
          ]))
]

pub records_of-AreStored :
    (records : JsMap SessionRecord) (ids : List String)
    → OwnIds records
    → AreStored (records_of records ids) records
unfolding records_of
records_of-AreStored records [] own = tt
records_of-AreStored records (id ∷ rest) own = elim (Option-cases (JsMap.get id records)) [
  | inl absent ↦ rw (absent, records_of) (records_of-AreStored records rest own)
  | inr (r, there) ↦
      rw (there, records_of)
        (
          subst (λ j. JsMap.get j records ≡ some r) (sym (own id r there)) there,
          records_of-AreStored records rest own,
        )
]

pub records_of-AreDistinct :
    (records : JsMap SessionRecord) (ids : List String)
    → OwnIds records
    → NoRepeats ids
    → AreDistinct (records_of records ids)
unfolding records_of
records_of-AreDistinct records [] own h = tt
records_of-AreDistinct records (id ∷ rest) own h = elim (Option-cases (JsMap.get id records)) [
  | inl absent ↦ rw (absent, records_of) (records_of-AreDistinct records rest own h.1)
  | inr (r, there) ↦
      rw (there, records_of)
        (
          subst (λ j. member j (record_ids (records_of records rest)) ≡ false)
              (sym (own id r there)) (member-records_of records id rest own ∙ rw h.0 refl),
          records_of-AreDistinct records rest own h.1,
        )
]

pub found_ids-NoRepeats :
    (params : ObserveSessionParams) (strong_only : Option Bool) (t : SessionTracker)
    → NoRepeats (found_ids params strong_only t)
unfolding found_ids
found_ids-NoRepeats params none t =
    collect-NoRepeats _ _ _ (collect-NoRepeats _ _ _ (collect-NoRepeats _ _ [] tt))
found_ids-NoRepeats params (some true) t =
    collect-NoRepeats _ _ _ (collect-NoRepeats _ _ _ (collect-NoRepeats _ _ [] tt))
found_ids-NoRepeats params (some false) t = collect-NoRepeats _ _ [] tt

-- The strong lookup reads all three indices, and of the keys only the strong ones.
pub member-found_ids :
    (params : ObserveSessionParams) (t : SessionTracker) (i : String)
    → member i (found_ids params (some true) t) ≡ (
        found_by t.by_run_id (observed_runs params) i
        || (found_by t.by_session_key (keep (serves (some true)) (observed_keys params)) i
            || found_by t.by_session_id (observed_ids params) i))
unfolding found_ids
member-found_ids params t i =
    let ids : List String = collect t.by_session_id (observed_ids params) [] in
    let keys : List String =
      collect t.by_session_key (keep (serves (some true)) (observed_keys params)) ids in
    member-collect t.by_run_id (observed_runs params) i keys
    ∙ rw (member-collect t.by_session_key (keep (serves (some true)) (observed_keys params)) i ids)
        (rw (member-collect t.by_session_id (observed_ids params) i []) (ground arith))

module _ (params : ObserveSessionParams) (strong_only : Option Bool) (t : SessionTracker)
    (h : IsIndexed t) where
  pub find_matching_records-AreStored :
      AreStored (find_matching_records params strong_only t) t.records
  unfolding find_matching_records
  find_matching_records-AreStored = records_of-AreStored t.records _ h.own

  pub find_matching_records-AreDistinct : AreDistinct (find_matching_records params strong_only t)
  unfolding find_matching_records
  find_matching_records-AreDistinct =
      records_of-AreDistinct t.records _ h.own (found_ids-NoRepeats params strong_only t)

  pub member-find_matching_records :
      (i : String)
      → member i (record_ids (find_matching_records params strong_only t))
        ≡ (member i (found_ids params strong_only t) && is_some (JsMap.get i t.records))
  unfolding find_matching_records
  member-find_matching_records i = member-records_of t.records i _ h.own

-- Whatever an index finds is a record.
pub is_some-of_holds :
    (f : SessionRecord → List String) (index : Index) (records : JsMap SessionRecord) (k i : String)
    → Agrees f index records
    → holds index k i ≡ true
    → is_some (JsMap.get i records) ≡ true
is_some-of_holds f index records k i agrees found = elim (Option-cases (JsMap.get i records)) [
  | inl absent ↦
      let nothing : holds index k i ≡ false = agrees k i ∙ ap (λ o. member k (texts f o)) absent in
      absurd (cc)
  | inr (r, there) ↦ rw there refl
]
