-- ===== src/Sessions/Tracker/Observing.antt =====
-- `observeSession` keeps the invariant of the tracker (hooks/session-tracker.ts).
use openclaw_event_server_pl.Common.{
  ℕ, String, Bool, true, false, ◌&&◌, ◌||◌, none, List, [], ◌∷◌, ◌==◌, member, arith, ◌≡◌, ◌∙◌, sym,
  ap, refl, subst, eq_iff, Bool-cases, inl, inr, keep, get_or,
}
use openclaw_event_server_pl.Common.JsMap.{JsMap, get-set_self}
use openclaw_event_server_pl.Common.JsMap
use openclaw_event_server_pl.Sessions.Keys.{is_strong_session_key}
use openclaw_event_server_pl.Sessions.Index.{Index, add_entries}
use openclaw_event_server_pl.Sessions.Index.Holds.{holds, holds-add_entries}
use openclaw_event_server_pl.Sessions.Records.{
  SessionRecord, ObserveSessionParams, observed_ids, observed_keys, observed_runs,
  has_strong_identifiers,
}
use openclaw_event_server_pl.Sessions.Tracker.{
  SessionTracker, new, Resolution, resolved, ambiguous, unmatched, resolve_unique_record,
  apply_observation, new_record, store, observe_session, observe_resolved, is_known_run,
}
use openclaw_event_server_pl.Sessions.Tracker.Consistent.{
  apply_observation-IsIndexed, create-IsIndexed,
}
use openclaw_event_server_pl.Sessions.Tracker.Resolving.{OneOwner}
use openclaw_event_server_pl.Sessions.Tracker.Ownership.{
  IsConsistent, AreAmong, Owns, IsOwner, Outcome,
}
use openclaw_event_server_pl.Sessions.Tracker.Outcomes.{resolve_unique_record-Outcome}

pub member-keep :
    (test : String → Bool) (k : String) (s : List String)
    → member k s ≡ true
    → test k ≡ true
    → member k (keep test s) ≡ true
member-keep test k [] h tested = h
member-keep test k (x ∷ s) h tested = elim (Bool-cases (x == k)) [
  | inl same ↦
      let e : x ≡ k = ground (arith, eq_iff x k) in
      let passes : test x ≡ true = subst (λ y. test y ≡ true) (sym e) tested in
      rw passes (rw same refl)
  | inr other ↦
      let later : member k s ≡ true = ground arith in
      let more : member k (keep test s) ≡ true = member-keep test k s later tested in
      elim (Bool-cases (test x)) [
        | inl passes ↦ rw passes (rw (other, more) refl)
        | inr fails ↦ rw fails more
      ]
]

module _ (test : String → Bool) (observed : List String) (p : String) (index : Index)
    (among : AreAmong (keep test observed) index (λ i. p == i)) where
  is_owner :
      (k i : String)
      → test k ≡ true
      → member k observed ≡ true
      → holds (add_entries observed p index) k i ≡ true
      → p ≡ i
  is_owner k i tested new h =
      let e : ((member k observed && p == i) || holds index k i) ≡ true =
        sym (holds-add_entries observed p index k i) ∙ h in
      elim (Bool-cases (p == i)) [
        | inl same ↦ ground (arith, eq_iff p i)
        | inr other ↦
            let old : holds index k i ≡ true = ground arith in
            let same : (p == i) ≡ true = among k i (member-keep test k observed new tested) old in
            ground (arith, eq_iff p i)
      ]

  add_entries-OneOwner : OneOwner test index → OneOwner test (add_entries observed p index)
  add_entries-OneOwner one k i j tested hi hj = elim (Bool-cases (member k observed)) [
    | inl new ↦ sym (is_owner k i tested new hi) ∙ is_owner k j tested new hj
    | inr old ↦
        let ei : ((member k observed && p == i) || holds index k i) ≡ true =
          sym (holds-add_entries observed p index k i) ∙ hi in
        let ej : ((member k observed && p == j) || holds index k j) ≡ true =
          sym (holds-add_entries observed p index k j) ∙ hj in
        one k i j tested (ground arith) (ground arith)
  ]

keep-true : (s : List String) → keep (λ k. true) s ≡ s
keep-true [] = refl
keep-true (a ∷ s) = ap (λ r. a ∷ r) (keep-true s)

apply_observation-IsConsistent :
    (params : ObserveSessionParams) (now : ℕ) (r : SessionRecord) (t : SessionTracker)
    → IsConsistent t
    → IsOwner params r t
    → IsConsistent (apply_observation params now r t)
unfolding apply_observation
apply_observation-IsConsistent params now r t h owner = record {
  indexed = apply_observation-IsIndexed params now r t h.indexed owner.0;
  ids =
      add_entries-OneOwner (λ k. true) (observed_ids params) r.record_id t.by_session_id
        (subst (λ s. AreAmong s t.by_session_id (λ i. r.record_id == i))
          (sym (keep-true (observed_ids params))) owner.1.ids)
        h.ids;
  keys =
      add_entries-OneOwner is_strong_session_key (observed_keys params) r.record_id t.by_session_key
        owner.1.keys h.keys;
  runs =
      add_entries-OneOwner (λ k. true) (observed_runs params) r.record_id t.by_run_id
        (subst (λ s. AreAmong s t.by_run_id (λ i. r.record_id == i))
          (sym (keep-true (observed_runs params))) owner.1.runs)
        h.runs;
}

create-IsConsistent :
    (uuid : String) (now : ℕ) (t : SessionTracker)
    → IsConsistent t
    → JsMap.get uuid t.records ≡ none
    → IsConsistent (store (new_record uuid now) t)
unfolding store
create-IsConsistent uuid now t h fresh = record {
  indexed = create-IsIndexed uuid now t h.indexed fresh;
  ids = h.ids;
  keys = h.keys;
  runs = h.runs;
}

create-IsOwner :
    (params : ObserveSessionParams) (uuid : String) (now : ℕ) (t : SessionTracker)
    → Owns params (λ i. false) t
    → IsOwner params (new_record uuid now) (store (new_record uuid now) t)
unfolding store
create-IsOwner params uuid now t nobody = (
  get-set_self uuid (new_record uuid now) t.records,
  record {
    ids = λ k i o f. absurd (let e : false ≡ true = nobody.ids k i o f in cc);
    keys = λ k i o f. absurd (let e : false ≡ true = nobody.keys k i o f in cc);
    runs = λ k i o f. absurd (let e : false ≡ true = nobody.runs k i o f in cc);
  },
)

observe_resolved-IsConsistent :
    (params : ObserveSessionParams) (uuid : String) (now : ℕ) (t : SessionTracker)
    (outcome : SessionTracker × Resolution)
    → IsConsistent t
    → JsMap.get uuid t.records ≡ none
    → Outcome params t outcome
    → IsConsistent (observe_resolved params uuid now outcome)
observe_resolved-IsConsistent params uuid now t (t', resolved r) h fresh o =
    apply_observation-IsConsistent params now r t' o.0 o.1
observe_resolved-IsConsistent params uuid now t (t', ambiguous matches) h fresh o =
    subst IsConsistent (sym o) h
observe_resolved-IsConsistent params uuid now t (t', unmatched) h fresh o =
    subst
      (λ s.
        IsConsistent
          (apply_observation params now (new_record uuid now) (store (new_record uuid now) s)))
      (sym o.0)
      (apply_observation-IsConsistent params now (new_record uuid now)
        (store (new_record uuid now) t) (create-IsConsistent uuid now t h fresh)
        (create-IsOwner params uuid now t o.1))

-- An observation, under a fresh id for a new record, keeps the tracker consistent: each of the three
-- indices finds exactly the records that have the text, a record stands under its own id, and a session
-- id, a run or a key that is not shared belongs to one record.
pub observe_session-IsConsistent :
    (params : ObserveSessionParams) (uuid : String) (clock : ℕ) (t : SessionTracker)
    → IsConsistent t
    → JsMap.get uuid t.records ≡ none
    → IsConsistent (observe_session params uuid clock t)
unfolding observe_session
observe_session-IsConsistent params uuid clock t h fresh =
    let after : IsConsistent (
        observe_resolved params uuid (get_or params.now_ms clock)
          (resolve_unique_record params t)) =
      observe_resolved-IsConsistent params uuid (get_or params.now_ms clock) t
        (resolve_unique_record params t) h fresh (resolve_unique_record-Outcome params t h) in
    elim (Bool-cases (has_strong_identifiers params)) [
      | inl strong ↦ rw strong after
      | inr weak ↦ elim (Bool-cases (is_known_run params.run_id t)) [
        | inl known ↦ rw (weak, known) after
        | inr unknown ↦ rw (weak, unknown) h
      ]
    ]

pub new-IsConsistent : (route_ttl_ms : ℕ) → IsConsistent (new route_ttl_ms)
unfolding JsMap.get
new-IsConsistent route_ttl_ms = record {
  indexed = record {
    own = λ i r e. absurd (cc);
    ids = λ k i. refl;
    keys = λ k i. refl;
    runs = λ k i. refl;
  };
  ids = λ k i j tested hi hj. absurd (cc);
  keys = λ k i j tested hi hj. absurd (cc);
  runs = λ k i j tested hi hj. absurd (cc);
}
