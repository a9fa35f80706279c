-- ===== src/Sessions/Tracker/Indexed.antt =====
-- The indices of the tracker and its records say the same (hooks/session-tracker.ts).
use openclaw_event_server_pl.Common.{
  String, false, Option, none, some, List, [], ◌==◌, member, add_all, member-add_all, arith, ◌≡◌,
  ◌∙◌, ap, refl, subst, eq_iff, Bool-cases, inl, inr,
}
use openclaw_event_server_pl.Common.JsMap.{JsMap, get-set, get-delete}
use openclaw_event_server_pl.Common.JsMap
use openclaw_event_server_pl.Sessions.Index.{Index, add_entries, remove_entries}
use openclaw_event_server_pl.Sessions.Index.Holds.{
  holds, holds-add_entries, holds-remove_entries, AreSafe,
}
use openclaw_event_server_pl.Sessions.Records.{SessionRecord}

-- The texts of the record with an id; none, if there is no such record.
abbrev pub texts : (SessionRecord → List String) → Option SessionRecord → List String
texts f none = []
texts f (some r) = f r

-- A text finds a record exactly if the record has it.
abbrev pub Agrees : (SessionRecord → List String) → Index → JsMap SessionRecord → Type 0
Agrees f index records = (k i : String) → holds index k i ≡ member k (texts f (JsMap.get i records))

module _ (f : SessionRecord → List String) (index : Index) (records : JsMap SessionRecord)
    (agrees : Agrees f index records) (r : SessionRecord)
    (there : JsMap.get r.record_id records ≡ some r) where
  -- The record gets further texts, and the index their entries.
  pub add_entries-Agrees :
      (r' : SessionRecord) (keys : List String)
      → f r' ≡ add_all keys (f r)
      → Agrees f (add_entries keys r.record_id index) (JsMap.set r.record_id r' records)
  add_entries-Agrees r' keys grown k i =
      holds-add_entries keys r.record_id index k i
      ∙ rw (get-set r.record_id i r' records) (elim (Bool-cases (r.record_id == i)) [
        | inl same ↦
            let e : r.record_id ≡ i = ground (arith, eq_iff r.record_id i) in
            let before : holds index k i ≡ member k (f r) =
              subst (λ j. holds index k j ≡ member k (f r)) e
                (agrees k r.record_id ∙ ap (λ o. member k (texts f o)) there) in
            rw (same, before, grown) (rw (member-add_all k keys (f r)) (ground arith))
        | inr other ↦ rw (other, agrees k i) (ground arith)
      ])

  -- The record goes, and its entries with it.
  pub remove_entries-Agrees :
      (preserve : Option String)
      → AreSafe preserve r.record_id (f r) index
      → Agrees f
          (remove_entries (f r) r.record_id preserve index)
          (JsMap.delete r.record_id records)
  remove_entries-Agrees preserve safe k i =
      holds-remove_entries (f r) r.record_id preserve index k i safe
      ∙ rw (get-delete r.record_id i records) (elim (Bool-cases (r.record_id == i)) [
        | inl same ↦
            let e : r.record_id ≡ i = ground (arith, eq_iff r.record_id i) in
            let before : holds index k i ≡ member k (f r) =
              subst (λ j. holds index k j ≡ member k (f r)) e
                (agrees k r.record_id ∙ ap (λ o. member k (texts f o)) there) in
            rw (same, before) (ground arith)
        | inr other ↦ rw (other, agrees k i) (ground arith)
      ])

-- A new record that has no text needs no entry.
pub new-Agrees :
    (f : SessionRecord → List String) (index : Index) (records : JsMap SessionRecord) (id : String)
    (r : SessionRecord)
    → Agrees f index records
    → JsMap.get id records ≡ none
    → f r ≡ []
    → Agrees f index (JsMap.set id r records)
new-Agrees f index records id r agrees absent empty k i =
    rw (get-set id i r records) (elim (Bool-cases (id == i)) [
      | inl same ↦
          let e : id ≡ i = ground (arith, eq_iff id i) in
          let before : holds index k i ≡ false =
            subst (λ j. holds index k j ≡ false) e
              (agrees k id ∙ ap (λ o. member k (texts f o)) absent) in
          rw (same, before, empty) refl
      | inr other ↦ rw other (agrees k i)
    ])
