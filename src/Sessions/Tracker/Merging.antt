-- ===== src/Sessions/Tracker/Merging.antt =====
-- The records after a merge (`mergeRecords` of hooks/session-tracker.ts and its helper).
use openclaw_event_server_pl.Common.{
  String, Bool, false, ◌||◌, none, some, List, [], ◌∷◌, ◌==◌, member, add_all, member-add_all,
  arith, ◌≡◌, ◌∙◌, refl, subst, eq_iff, Bool-cases, inl, inr, if◌then◌else◌,
}
use openclaw_event_server_pl.Common.JsMap.{JsMap, get-set, get-delete, get-set_self}
use openclaw_event_server_pl.Common.JsMap
use openclaw_event_server_pl.Sessions.Records.{SessionRecord, merged_record}
use openclaw_event_server_pl.Sessions.Tracker.{
  SessionTracker, store, index_record, remove_record, merge_into, remove_all,
}
use openclaw_event_server_pl.Sessions.Tracker.Consistent.{IsIndexed, IsStored, absorb-IsIndexed}

abbrev pub record_ids : List SessionRecord → List String
record_ids [] = []
record_ids (r ∷ rest) = r.record_id ∷ record_ids rest

abbrev pub AreStored : List SessionRecord → JsMap SessionRecord → Type 0
AreStored [] records = Unit
AreStored (r ∷ rest) records = IsStored r records × AreStored rest records

-- The records are pairwise different.
abbrev pub AreDistinct : List SessionRecord → Type 0
AreDistinct [] = Unit
AreDistinct (r ∷ rest) = (member r.record_id (record_ids rest) ≡ false) × AreDistinct rest

-- The primary record at the end.
unfoldable pub merged_all : SessionRecord → List SessionRecord → SessionRecord
unfolding merged_record
merged_all primary [] = primary
merged_all primary (r ∷ rest) = merged_all (merged_record primary r) rest

pub merged_all-record_id :
    (primary : SessionRecord) (rest : List SessionRecord)
    → (merged_all primary rest).record_id ≡ primary.record_id
unfolding merged_all merged_record
merged_all-record_id primary [] = refl
merged_all-record_id primary (r ∷ rest) = merged_all-record_id (merged_record primary r) rest

pub merge_into-primary :
    (primary : SessionRecord) (rest : List SessionRecord) (t : SessionTracker)
    → (merge_into primary rest t).1 ≡ merged_all primary rest
unfolding merge_into merged_all
merge_into-primary primary [] t = refl
merge_into-primary primary (r ∷ rest) t = merge_into-primary (merged_record primary r) rest _

abbrev pub any_has : (SessionRecord → List String) → String → List SessionRecord → Bool
any_has f k [] = false
any_has f k (r ∷ rest) = member k (f r) || any_has f k rest

-- Its texts are those of all.
pub member-merged_all :
    (f : SessionRecord → List String)
    → ((p r : SessionRecord) → f (merged_record p r) ≡ add_all (f r) (f p))
    → (k : String) (primary : SessionRecord) (rest : List SessionRecord)
    → member k (f (merged_all primary rest)) ≡ (member k (f primary) || any_has f k rest)
unfolding merged_all
member-merged_all f grows k primary [] = ground arith
member-merged_all f grows k primary (r ∷ rest) =
    member-merged_all f grows k (merged_record primary r) rest
    ∙ rw (grows primary r) (rw (member-add_all k (f r) (f primary)) (ground arith))

pub get-merge_into :
    (i : String) (primary : SessionRecord) (rest : List SessionRecord) (t : SessionTracker)
    → IsStored primary t.records
    → JsMap.get i (merge_into primary rest t).0.records
      ≡ (if primary.record_id == i then some (merged_all primary rest) else JsMap.get i t.records)
unfolding merge_into merged_all store index_record merged_record
get-merge_into i primary [] t there = elim (Bool-cases (primary.record_id == i)) [
  | inl same ↦
      let e : primary.record_id ≡ i = ground (arith, eq_iff primary.record_id i) in
      rw same (subst (λ j. JsMap.get j t.records ≡ some primary) e there)
  | inr other ↦ rw other refl
]
get-merge_into i primary (r ∷ rest) t there =
    let p : SessionRecord = merged_record primary r in
    get-merge_into i p rest (store p (index_record r primary.record_id t))
      (get-set_self primary.record_id p t.records)
    ∙ elim (Bool-cases (primary.record_id == i)) [
      | inl same ↦ rw same refl
      | inr other ↦ rw other (get-set primary.record_id i p t.records ∙ rw other refl)
    ]

pub merge_into-IsIndexed :
    (primary : SessionRecord) (rest : List SessionRecord) (t : SessionTracker)
    → IsIndexed t
    → IsStored primary t.records
    → IsIndexed (merge_into primary rest t).0
unfolding merge_into store index_record merged_record
merge_into-IsIndexed primary [] t h there = h
merge_into-IsIndexed primary (r ∷ rest) t h there =
    let p : SessionRecord = merged_record primary r in
    merge_into-IsIndexed p rest (store p (index_record r primary.record_id t))
      (absorb-IsIndexed primary r t h there) (get-set_self primary.record_id p t.records)

pub get-remove_all :
    (i preserve : String) (rest : List SessionRecord) (t : SessionTracker)
    → JsMap.get i (remove_all rest preserve t).records
      ≡ (if member i (record_ids rest) then none else JsMap.get i t.records)
unfolding remove_all remove_record
get-remove_all i preserve [] t = refl
get-remove_all i preserve (r ∷ rest) t =
    get-remove_all i preserve rest (remove_record r (some preserve) t)
    ∙ elim (Bool-cases (r.record_id == i)) [
      | inl same ↦ rw (get-delete r.record_id i t.records, same) (ground arith)
      | inr other ↦ rw (get-delete r.record_id i t.records, other) refl
    ]
