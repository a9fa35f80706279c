-- ===== src/Sessions/Tracker/Consistent.antt =====
-- The invariant of the tracker, under the single changes of its maps (hooks/session-tracker.ts).
use openclaw_event_server_pl.Common.{
  String, Option, none, some, ◌==◌, arith, ◌≡◌, ◌∙◌, sym, ap, refl, eq_iff, Bool-cases, inl, inr,
  if◌then◌else◌, ℕ,
}
use openclaw_event_server_pl.Common.JsMap.{JsMap, get-set, get-delete}
use openclaw_event_server_pl.Common.JsMap
use openclaw_event_server_pl.Sessions.Index.Holds.{AreSafe}
use openclaw_event_server_pl.Sessions.Records.{
  SessionRecord, ObserveSessionParams, merged_record, observed_ids, observed_keys, observed_runs,
}
use openclaw_event_server_pl.Sessions.Tracker.{
  SessionTracker, store, index_record, remove_record, apply_observation, observed_record,
  new_record,
}
use openclaw_event_server_pl.Sessions.Tracker.Indexed.{
  Agrees, add_entries-Agrees, remove_entries-Agrees, new-Agrees,
}

abbrev pub OwnIds : JsMap SessionRecord → Type 0
OwnIds records = (i : String) (r : SessionRecord) → JsMap.get i records ≡ some r → r.record_id ≡ i

-- A record stands under its id, and the three indices agree with the records.
pub record IsIndexed (t : SessionTracker) : Type 0 where
  pub own : OwnIds t.records
  pub ids : Agrees (λ r. r.session_ids) t.by_session_id t.records
  pub keys : Agrees (λ r. r.session_keys) t.by_session_key t.records
  pub runs : Agrees (λ r. r.run_ids) t.by_run_id t.records

abbrev pub IsStored : SessionRecord → JsMap SessionRecord → Type 0
IsStored r records = JsMap.get r.record_id records ≡ some r

set-OwnIds :
    (id : String) (r : SessionRecord) (records : JsMap SessionRecord)
    → r.record_id ≡ id
    → OwnIds records
    → OwnIds (JsMap.set id r records)
set-OwnIds id r records named own i s e =
    let e' : (if id == i then some r else JsMap.get i records) ≡ some s =
      sym (get-set id i r records) ∙ e in
    elim (Bool-cases (id == i)) [
      | inl same ↦
          let is_i : id ≡ i = ground (arith, eq_iff id i) in
          let is_r : r ≡ s = ground arith in
          ap (λ (q : SessionRecord). q.record_id) (sym is_r) ∙ (named ∙ is_i)
      | inr other ↦ own i s (ground arith)
    ]

delete-OwnIds :
    (id : String) (records : JsMap SessionRecord)
    → OwnIds records
    → OwnIds (JsMap.delete id records)
delete-OwnIds id records own i s e =
    let e' : (if id == i then none else JsMap.get i records) ≡ some s =
      sym (get-delete id i records) ∙ e in
    own i s (ground arith)

-- A record takes over the texts of another.
pub absorb-IsIndexed :
    (primary r : SessionRecord) (t : SessionTracker)
    → IsIndexed t
    → IsStored primary t.records
    → IsIndexed (store (merged_record primary r) (index_record r primary.record_id t))
unfolding store merged_record index_record
absorb-IsIndexed primary r t h there = record {
  own = set-OwnIds primary.record_id (merged_record primary r) t.records refl h.own;
  ids =
      add_entries-Agrees (λ q. q.session_ids) t.by_session_id t.records h.ids primary there
        (merged_record primary r) r.session_ids refl;
  keys =
      add_entries-Agrees (λ q. q.session_keys) t.by_session_key t.records h.keys primary there
        (merged_record primary r) r.session_keys refl;
  runs =
      add_entries-Agrees (λ q. q.run_ids) t.by_run_id t.records h.runs primary there
        (merged_record primary r) r.run_ids refl;
}

-- What is observed of a record.
pub apply_observation-IsIndexed :
    (params : ObserveSessionParams) (now : ℕ) (r : SessionRecord) (t : SessionTracker)
    → IsIndexed t
    → IsStored r t.records
    → IsIndexed (apply_observation params now r t)
unfolding apply_observation observed_record
apply_observation-IsIndexed params now r t h there = record {
  own = set-OwnIds r.record_id (observed_record params now r) t.records refl h.own;
  ids =
      add_entries-Agrees (λ q. q.session_ids) t.by_session_id t.records h.ids r there
        (observed_record params now r) (observed_ids params) refl;
  keys =
      add_entries-Agrees (λ q. q.session_keys) t.by_session_key t.records h.keys r there
        (observed_record params now r) (observed_keys params) refl;
  runs =
      add_entries-Agrees (λ q. q.run_ids) t.by_run_id t.records h.runs r there
        (observed_record params now r) (observed_runs params) refl;
}

-- The record that is preserved has all the texts of the one that goes.
pub record Covers (preserve : Option String) (r : SessionRecord) (t : SessionTracker) : Type 0 where
  pub ids : AreSafe preserve r.record_id r.session_ids t.by_session_id
  pub keys : AreSafe preserve r.record_id r.session_keys t.by_session_key
  pub runs : AreSafe preserve r.record_id r.run_ids t.by_run_id

pub remove_record-IsIndexed :
    (r : SessionRecord) (preserve : Option String) (t : SessionTracker)
    → IsIndexed t
    → IsStored r t.records
    → Covers preserve r t
    → IsIndexed (remove_record r preserve t)
unfolding remove_record
remove_record-IsIndexed r preserve t h there covered = record {
  own = delete-OwnIds r.record_id t.records h.own;
  ids =
      remove_entries-Agrees (λ q. q.session_ids) t.by_session_id t.records h.ids r there preserve
        covered.ids;
  keys =
      remove_entries-Agrees (λ q. q.session_keys) t.by_session_key t.records h.keys r there preserve
        covered.keys;
  runs =
      remove_entries-Agrees (λ q. q.run_ids) t.by_run_id t.records h.runs r there preserve
        covered.runs;
}

-- A record with a fresh id.
pub create-IsIndexed :
    (uuid : String) (now : ℕ) (t : SessionTracker)
    → IsIndexed t
    → JsMap.get uuid t.records ≡ none
    → IsIndexed (store (new_record uuid now) t)
unfolding store
create-IsIndexed uuid now t h fresh = record {
  own = set-OwnIds uuid (new_record uuid now) t.records refl h.own;
  ids = new-Agrees (λ q. q.session_ids) t.by_session_id t.records uuid _ h.ids fresh refl;
  keys = new-Agrees (λ q. q.session_keys) t.by_session_key t.records uuid _ h.keys fresh refl;
  runs = new-Agrees (λ q. q.run_ids) t.by_run_id t.records uuid _ h.runs fresh refl;
}
