-- ===== src/Sessions/Tracker/Resolving.antt =====
-- `resolveUniqueRecord` keeps the invariant of the tracker, and no text gets a second owner by a merge
-- (hooks/session-tracker.ts).
use openclaw_event_server_pl.Common.{
  String, Bool, true, false, ◌||◌, Option, none, some, List, [], ◌∷◌, ◌==◌, member, arith, ◌≡◌, ◌∙◌,
  sym, ap, refl, subst, eq_iff, eq_refl, Bool-cases, inl, inr, if◌then◌else◌, ◌⊎◌,
}
use openclaw_event_server_pl.Common.JsMap.{JsMap}
use openclaw_event_server_pl.Common.JsMap
use openclaw_event_server_pl.Sessions.Index.{Index}
use openclaw_event_server_pl.Sessions.Index.Holds.{holds}
use openclaw_event_server_pl.Sessions.Records.{SessionRecord}
use openclaw_event_server_pl.Sessions.Tracker.{SessionTracker, merge_records}
use openclaw_event_server_pl.Sessions.Tracker.Indexed.{texts, Agrees}
use openclaw_event_server_pl.Sessions.Tracker.Merging.{
  record_ids, AreStored, AreDistinct, any_has, merged_all,
}
use openclaw_event_server_pl.Sessions.Tracker.Replacing.{get-merge_records}

-- A text that passes the test is found by at most one record.
abbrev pub OneOwner : (String → Bool) → Index → Type 0
OneOwner test index =
    (k i j : String) → test k ≡ true → holds index k i ≡ true → holds index k j ≡ true → i ≡ j

-- A record with a text, among several that have it between them.
pub owner-any_has :
    (f : SessionRecord → List String) (k : String) (rest : List SessionRecord)
    (records : JsMap SessionRecord)
    → AreStored rest records
    → any_has f k rest ≡ true
    → (o : String) × (member o (record_ids rest) ≡ true)
      × (member k (texts f (JsMap.get o records)) ≡ true)
owner-any_has f k [] records stored h = absurd (cc)
owner-any_has f k (r ∷ rest) records stored h = elim (Bool-cases (member k (f r))) [
  | inl here ↦
      (r.record_id, rw (eq_refl r.record_id) refl, ap (λ o. member k (texts f o)) stored.0 ∙ here)
  | inr absent ↦
      let (o, within, has) = owner-any_has f k rest records stored.1 (ground arith) in
      (o, rw within (ground arith), has)
]

owner_cases :
    (f : SessionRecord → List String) (k : String) (is_primary is_merged : Bool) (p : SessionRecord)
    (o : Option SessionRecord)
    → member k (texts f (if is_primary then some p else if is_merged then none else o)) ≡ true
    → (is_primary ≡ true)
      ⊎ ((is_primary ≡ false) × (is_merged ≡ false) × (member k (texts f o) ≡ true))
owner_cases f k true is_merged p o h = inl refl
owner_cases f k false true p o h = absurd (cc)
owner_cases f k false false p o h = inr (refl, refl, h)

-- One index before and after a merge of two or more records.
module _ (f : SessionRecord → List String)
    (texts_of : (k : String) (p : SessionRecord) (rest : List SessionRecord)
      → member k (f (merged_all p rest)) ≡ (member k (f p) || any_has f k rest))
    (index index' : Index) (primary : SessionRecord) (rest : List SessionRecord)
    (t : SessionTracker) (stored : AreStored (primary ∷ rest) t.records)
    (distinct : AreDistinct (primary ∷ rest)) (agrees : Agrees f index t.records)
    (agrees' : Agrees f index' (merge_records primary rest t).0.records) where
  -- Who has a text afterwards is the primary record, or had it before and was not merged.
  pub owner-merge_records :
      (k i : String)
      → holds index' k i ≡ true
      → (primary.record_id ≡ i)
        ⊎ ((member i (record_ids (primary ∷ rest)) ≡ false) × (holds index k i ≡ true))
  owner-merge_records k i found =
      elim (owner_cases f k (primary.record_id == i) (member i (record_ids rest))
        (merged_all primary rest) (JsMap.get i t.records)
        (ap (λ o. member k (texts f o)) (sym (get-merge_records primary rest t stored distinct i))
          ∙ (sym (agrees' k i) ∙ found))) [
            | inl same ↦ inl (ground (arith, eq_iff primary.record_id i))
            | inr (other, kept, has) ↦ inr (rw (other, kept) refl, agrees k i ∙ has)
          ]

  -- If the primary record has a text then, one of the merged records had it.
  pub owner-primary :
      (k : String)
      → holds index' k primary.record_id ≡ true
      → (o : String) × (member o (record_ids (primary ∷ rest)) ≡ true) × (holds index k o ≡ true)
  owner-primary k found =
      let named : member k (f (merged_all primary rest)) ≡ true =
        ap
          (λ (b : Bool). member k (
            texts f (
              if b
              then some (merged_all primary rest)
              else if member primary.record_id (record_ids rest)
              then none
              else JsMap.get primary.record_id t.records)))
          (sym (eq_refl primary.record_id))
        ∙ (ap (λ o. member k (texts f o))
              (sym (get-merge_records primary rest t stored distinct primary.record_id))
            ∙ (sym (agrees' k primary.record_id) ∙ found)) in
      let (o, within, has) =
        owner-any_has f k (primary ∷ rest) t.records stored
          (sym (texts_of k primary rest) ∙ named) in
      (o, within, agrees k o ∙ has)

  pub merge_records-OneOwner : (test : String → Bool) → OneOwner test index → OneOwner test index'
  merge_records-OneOwner test one k i j tested hi hj = elim (owner-merge_records k i hi) [
    | inl pi ↦ elim (owner-merge_records k j hj) [
      | inl pj ↦ sym pi ∙ pj
      | inr (out, before) ↦
          let (o, within, had) =
            owner-primary k (subst (λ x. holds index' k x ≡ true) (sym pi) hi) in
          let e : o ≡ j = one k o j tested had before in
          let clash : true ≡ false =
            sym within ∙ (ap (λ x. member x (record_ids (primary ∷ rest))) e ∙ out) in
          absurd (cc)
    ]
    | inr (out, before) ↦ elim (owner-merge_records k j hj) [
      | inl pj ↦
          let (o, within, had) =
            owner-primary k (subst (λ x. holds index' k x ≡ true) (sym pj) hj) in
          let e : o ≡ i = one k o i tested had before in
          let clash : true ≡ false =
            sym within ∙ (ap (λ x. member x (record_ids (primary ∷ rest))) e ∙ out) in
          absurd (cc)
      | inr (out', before') ↦ one k i j tested before before'
    ]
  ]
