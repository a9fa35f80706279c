-- ===== src/Sessions/Index/Found.antt =====
-- What a lookup of several texts collects (hooks/session-tracker-helpers.ts).
use openclaw_event_server_pl.Common.{
  String, Bool, true, false, ◌||◌, List, [], ◌∷◌, ◌==◌, member, add_all, member-add_all, NoRepeats,
  add_all-NoRepeats, arith, ◌≡◌, ◌∙◌, refl, subst, eq_iff, Bool-cases, Option-cases, inl, inr,
}
use openclaw_event_server_pl.Common.JsMap
use openclaw_event_server_pl.Sessions.Index.{Index, collect, collect_index_entries}
use openclaw_event_server_pl.Sessions.Index.Holds.{holds}

-- The records that a list of texts finds.
abbrev pub found_by : Index → List String → String → Bool
found_by index [] i = false
found_by index (key ∷ rest) i = holds index key i || found_by index rest i

member-collect_entries :
    (index : Index) (key i : String) (target : List String)
    → member i (collect_index_entries index key target) ≡ (holds index key i || member i target)
unfolding collect_index_entries
member-collect_entries index key i target = elim (Option-cases (JsMap.get key index)) [
  | inl absent ↦ rw (absent, collect_index_entries) refl
  | inr (current, there) ↦ rw (there, collect_index_entries) (member-add_all i current target)
]

pub member-collect :
    (index : Index) (keys : List String) (i : String) (target : List String)
    → member i (collect index keys target) ≡ (found_by index keys i || member i target)
unfolding collect
member-collect index [] i target = refl
member-collect index (key ∷ rest) i target =
    member-collect index rest i (collect_index_entries index key target)
    ∙ rw (member-collect_entries index key i target) (ground arith)

pub found_by-of_member :
    (index : Index) (keys : List String) (k i : String)
    → member k keys ≡ true
    → holds index k i ≡ true
    → found_by index keys i ≡ true
found_by-of_member index [] k i m h = absurd cc
found_by-of_member index (key ∷ rest) k i m h = elim (Bool-cases (key == k)) [
  | inl e ↦
      let same : k ≡ key = ground (arith, eq_iff key k) in
      let here : holds index key i ≡ true = subst (λ j. holds index j i ≡ true) same h in
      rw here refl
  | inr e ↦
      let later : member k rest ≡ true = ground arith in
      rw (found_by-of_member index rest k i later h) (ground arith)
]

pub collect-NoRepeats :
    (index : Index) (keys target : List String)
    → NoRepeats target
    → NoRepeats (collect index keys target)
unfolding collect collect_index_entries
collect-NoRepeats index [] target h = h
collect-NoRepeats index (key ∷ rest) target h = elim (Option-cases (JsMap.get key index)) [
  | inl absent ↦ rw (absent, collect_index_entries) (collect-NoRepeats index rest target h)
  | inr (current, there) ↦
      rw (there, collect_index_entries)
        (collect-NoRepeats index rest (add_all current target) (add_all-NoRepeats current target h))
]
