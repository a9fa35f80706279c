-- ===== src/Sessions/Tracker/Replacing.antt =====
-- A merge keeps the invariant of the tracker (`mergeRecords` of hooks/session-tracker.ts).
use openclaw_event_server_pl.Common.{
  String, true, false, ◌||◌, none, some, List, [], ◌∷◌, ◌==◌, member, arith, ◌≡◌, ◌∙◌, sym, ap,
  refl, subst, eq_iff, eq_refl, Bool-cases, inl, inr, if◌then◌else◌,
}
use openclaw_event_server_pl.Common.JsMap.{JsMap, get-set, get-delete}
use openclaw_event_server_pl.Common.JsMap
use openclaw_event_server_pl.Sessions.Index.{Index}
use openclaw_event_server_pl.Sessions.Index.Holds.{AreSafe}
use openclaw_event_server_pl.Sessions.Records.{SessionRecord, merged_record}
use openclaw_event_server_pl.Sessions.Tracker.{
  SessionTracker, remove_record, merge_into, remove_all, merge_records,
}
use openclaw_event_server_pl.Sessions.Tracker.Indexed.{texts, Agrees}
use openclaw_event_server_pl.Sessions.Tracker.Consistent.{
  IsIndexed, IsStored, Covers, remove_record-IsIndexed,
}
use openclaw_event_server_pl.Sessions.Tracker.Merging.{
  record_ids, AreStored, AreDistinct, any_has, merged_all, merged_all-record_id, member-merged_all,
  merge_into-primary, get-merge_into, merge_into-IsIndexed, get-remove_all,
}

-- The record has every text that one of the others has.
abbrev pub Gathers : (SessionRecord → List String) → SessionRecord → List SessionRecord → Type 0
Gathers f p rest = (k : String) → any_has f k rest ≡ true → member k (f p) ≡ true

record GathersAll (p : SessionRecord) (rest : List SessionRecord) : Type 0 where
  ids : Gathers (λ r. r.session_ids) p rest
  keys : Gathers (λ r. r.session_keys) p rest
  runs : Gathers (λ r. r.run_ids) p rest

Gathers-rest :
    (f : SessionRecord → List String) (p r : SessionRecord) (rest : List SessionRecord)
    → Gathers f p (r ∷ rest)
    → Gathers f p rest
Gathers-rest f p r rest h k e = h k (rw e (ground arith))

AreSafe-of_Gathers :
    (f : SessionRecord → List String) (index : Index) (records : JsMap SessionRecord)
    (p r : SessionRecord) (rest : List SessionRecord)
    → Agrees f index records
    → IsStored p records
    → (r.record_id == p.record_id) ≡ false
    → Gathers f p (r ∷ rest)
    → AreSafe (some p.record_id) r.record_id (f r) index
AreSafe-of_Gathers f index records p r rest agrees there differs gathers = (
  differs,
  λ k within.
      agrees k p.record_id ∙ ap (λ o. member k (texts f o)) there ∙ gathers k (rw within refl),
)

delete-AreStored :
    (id : String) (rest : List SessionRecord) (records : JsMap SessionRecord)
    → member id (record_ids rest) ≡ false
    → AreStored rest records
    → AreStored rest (JsMap.delete id records)
delete-AreStored id [] records out stored = tt
delete-AreStored id (r ∷ rest) records out stored =
    let other : (id == r.record_id) ≡ false =
      ground (arith, eq_iff id r.record_id, eq_iff r.record_id id) in
    let later : member id (record_ids rest) ≡ false = ground arith in
    (
      get-delete id r.record_id records ∙ rw other stored.0,
      delete-AreStored id rest records later stored.1,
    )

remove_all-IsIndexed :
    (p : SessionRecord) (rest : List SessionRecord) (t : SessionTracker)
    → IsIndexed t
    → IsStored p t.records
    → AreStored rest t.records
    → AreDistinct rest
    → member p.record_id (record_ids rest) ≡ false
    → GathersAll p rest
    → IsIndexed (remove_all rest p.record_id t)
unfolding remove_all
remove_all-IsIndexed p [] t h there stored distinct out gathers = h
remove_all-IsIndexed p (r ∷ rest) t h there stored distinct out gathers =
    let differs : (r.record_id == p.record_id) ≡ false = ground arith in
    let later : member p.record_id (record_ids rest) ≡ false = ground arith in
    let covered : Covers (some p.record_id) r t = record {
      ids =
          AreSafe-of_Gathers (λ q. q.session_ids) t.by_session_id t.records p r rest h.ids there
            differs gathers.ids;
      keys =
          AreSafe-of_Gathers (λ q. q.session_keys) t.by_session_key t.records p r rest h.keys there
            differs gathers.keys;
      runs =
          AreSafe-of_Gathers (λ q. q.run_ids) t.by_run_id t.records p r rest h.runs there differs
            gathers.runs;
    } in
    unfold remove_record in
    remove_all-IsIndexed p rest (remove_record r (some p.record_id) t)
      (remove_record-IsIndexed r (some p.record_id) t h stored.0 covered)
      (get-delete r.record_id p.record_id t.records ∙ rw differs there)
      (delete-AreStored r.record_id rest t.records distinct.0 stored.1) distinct.1 later
      (record {
        ids = Gathers-rest (λ q. q.session_ids) p r rest gathers.ids;
        keys = Gathers-rest (λ q. q.session_keys) p r rest gathers.keys;
        runs = Gathers-rest (λ q. q.run_ids) p r rest gathers.runs;
      })

gathered :
    (f : SessionRecord → List String)
    → ((k : String) (p : SessionRecord) (rest : List SessionRecord)
        → member k (f (merged_all p rest)) ≡ (member k (f p) || any_has f k rest))
    → (p : SessionRecord) (rest : List SessionRecord) → Gathers f (merged_all p rest) rest
gathered f texts_of p rest k e = texts_of k p rest ∙ rw e (ground arith)

pub ids-merged_all :
    (k : String) (p : SessionRecord) (rest : List SessionRecord)
    → member k (merged_all p rest).session_ids
      ≡ (member k p.session_ids || any_has (λ r. r.session_ids) k rest)
unfolding merged_record
ids-merged_all k p rest = member-merged_all (λ r. r.session_ids) (λ q r. refl) k p rest

pub keys-merged_all :
    (k : String) (p : SessionRecord) (rest : List SessionRecord)
    → member k (merged_all p rest).session_keys
      ≡ (member k p.session_keys || any_has (λ r. r.session_keys) k rest)
unfolding merged_record
keys-merged_all k p rest = member-merged_all (λ r. r.session_keys) (λ q r. refl) k p rest

pub runs-merged_all :
    (k : String) (p : SessionRecord) (rest : List SessionRecord)
    → member k (merged_all p rest).run_ids ≡ (member k p.run_ids || any_has (λ r. r.run_ids) k rest)
unfolding merged_record
runs-merged_all k p rest = member-merged_all (λ r. r.run_ids) (λ q r. refl) k p rest

others_stored :
    (primary : SessionRecord) (rest part : List SessionRecord) (t : SessionTracker)
    → IsStored primary t.records
    → AreStored part t.records
    → member primary.record_id (record_ids part) ≡ false
    → AreStored part (merge_into primary rest t).0.records
others_stored primary rest [] t there stored out = tt
others_stored primary rest (r ∷ part) t there stored out =
    let other : (primary.record_id == r.record_id) ≡ false =
      ground (arith, eq_iff primary.record_id r.record_id, eq_iff r.record_id primary.record_id) in
    (
      get-merge_into r.record_id primary rest t there ∙ rw other stored.0,
      others_stored primary rest part t there stored.1 (ground arith),
    )

module _ (primary : SessionRecord) (rest : List SessionRecord) (t : SessionTracker)
    (stored : AreStored (primary ∷ rest) t.records) (distinct : AreDistinct (primary ∷ rest)) where
  pub merge_records-IsIndexed : IsIndexed t → IsIndexed (merge_records primary rest t).0
  unfolding merge_records
  merge_records-IsIndexed h = rw (merge_into-primary primary rest t) (
      remove_all-IsIndexed (merged_all primary rest) rest (merge_into primary rest t).0
        (merge_into-IsIndexed primary rest t h stored.0)
        (subst
          (λ j. JsMap.get j (merge_into primary rest t).0.records ≡ some (merged_all primary rest))
          (sym (merged_all-record_id primary rest))
          (get-merge_into primary.record_id primary rest t stored.0
            ∙ ap
                (λ b.
                  if b
                  then some (merged_all primary rest)
                  else JsMap.get primary.record_id t.records)
                (eq_refl primary.record_id)))
        (others_stored primary rest rest t stored.0 stored.1 distinct.0) distinct.1
        (subst (λ j. member j (record_ids rest) ≡ false) (sym (merged_all-record_id primary rest))
          distinct.0)
        (record {
          ids = gathered (λ r. r.session_ids) ids-merged_all primary rest;
          keys = gathered (λ r. r.session_keys) keys-merged_all primary rest;
          runs = gathered (λ r. r.run_ids) runs-merged_all primary rest;
        }))

  pub merge_records-primary : (merge_records primary rest t).1 ≡ merged_all primary rest
  unfolding merge_records
  merge_records-primary = merge_into-primary primary rest t

  -- The primary record stands alone; the others are gone; no other record changes.
  pub get-merge_records :
      (i : String)
      → JsMap.get i (merge_records primary rest t).0.records ≡ (
          if primary.record_id == i
          then some (merged_all primary rest)
          else if member i (record_ids rest)
          then none
          else JsMap.get i t.records)
  unfolding merge_records
  get-merge_records i =
      get-remove_all i (merge_into primary rest t).1.record_id rest (merge_into primary rest t).0
      ∙ rw (get-merge_into i primary rest t stored.0) (elim (Bool-cases (primary.record_id == i)) [
        | inl same ↦
            let e : primary.record_id ≡ i = ground (arith, eq_iff primary.record_id i) in
            let out : member i (record_ids rest) ≡ false =
              subst (λ j. member j (record_ids rest) ≡ false) e distinct.0 in
            rw (same, out) refl
        | inr other ↦ rw other refl
      ])
