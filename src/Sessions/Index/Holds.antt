-- ===== src/Sessions/Index/Holds.antt =====
-- What an index holds after its changes (hooks/session-tracker-helpers.ts).
use openclaw_event_server_pl.Common.{
  String, Bool, true, false, not, ◌&&◌, ◌||◌, Option, none, some, List, [], ◌∷◌, if◌then◌else◌,
  get_or, ◌==◌, member, remove, member-add, member-remove, arith, ◌≡◌, ◌∙◌, ap, sym, refl, subst,
  eq_iff, eq_refl, Bool-cases, Option-cases, inl, inr,
}
use openclaw_event_server_pl.Common.JsMap.{JsMap, get-set, get-delete}
use openclaw_event_server_pl.Common.JsMap
use openclaw_event_server_pl.Sessions.Index.{
  Index, add_index_entry, remove_index_entry, replaced, add_entries, remove_entries, store_entry,
}

-- The record is found by the text.
abbrev pub holds : Index → String → String → Bool
holds index key id = member id (get_or (JsMap.get key index) [])

pub holds-add_entry :
    (index : Index) (key id k i : String)
    → holds (add_index_entry index key id) k i ≡ ((key == k && id == i) || holds index k i)
unfolding add_index_entry
holds-add_entry index key id k i =
    ap (λ o. member i (get_or o [])) (get-set key k _ index) ∙ elim (Bool-cases (key == k)) [
      | inl here ↦ ground (arith, eq_iff key k, member-add i id (get_or (JsMap.get key index) []))
      | inr other ↦ rw other refl
    ]

pub holds-add_entries :
    (keys : List String) (id : String) (index : Index) (k i : String)
    → holds (add_entries keys id index) k i ≡ ((member k keys && id == i) || holds index k i)
unfolding add_entries
holds-add_entries [] id index k i = refl
holds-add_entries (key ∷ rest) id index k i =
    holds-add_entries rest id (add_index_entry index key id) k i
    ∙ rw (holds-add_entry index key id k i) (ground arith)

-- An id that is preserved is not empty.
abbrev pub preserved : Option String → String → Bool
preserved none i = false
preserved (some p) i = if p == "" then false else p == i

member-replaced :
    (id : String) (p : Option String) (current : List String) (i : String)
    → member i (replaced id p current) ≡ (preserved p i || (not (id == i) && member i current))
unfolding replaced
member-replaced id none current i = member-remove i id current
member-replaced id (some p) current i = elim (Bool-cases (p == "")) [
  | inl e ↦ rw e (member-remove i id current)
  | inr e ↦ rw e (member-add i p (remove id current) ∙ rw (member-remove i id current) refl)
]

holds-store_entry :
    (index : Index) (key : String) (current : List String) (k i : String)
    → holds (store_entry index key current) k i
      ≡ (if key == k then member i current else holds index k i)
unfolding store_entry
holds-store_entry index key [] k i =
    ap (λ o. member i (get_or o [])) (get-delete key k index)
    ∙ elim (Bool-cases (key == k)) [ inl here ↦ rw here refl | inr other ↦ rw other refl ]
holds-store_entry index key (x ∷ xs) k i =
    ap (λ o. member i (get_or o [])) (get-set key k (x ∷ xs) index)
    ∙ elim (Bool-cases (key == k)) [ inl here ↦ rw here refl | inr other ↦ rw other refl ]

-- The record that is to be preserved is another one, and is found by the text already.
abbrev pub IsSafe : Option String → String → String → Index → Type 0
IsSafe none id key index = Unit
IsSafe (some p) id key index = ((id == p) ≡ false) × (holds index key p ≡ true)

preserve_there :
    (p id i : String) (current : List String)
    → (id == p) ≡ false
    → member p current ≡ true
    → (preserved (some p) i || (not (id == i) && member i current))
      ≡ (member i current && not (id == i))
preserve_there p id i current other kept = elim (Bool-cases (p == i)) [
  | inl e ↦
      let same : p ≡ i = ground (arith, eq_iff p i) in
      let in_it : member i current ≡ true = subst (λ j. member j current ≡ true) same kept in
      let not_id : (id == i) ≡ false = subst (λ j. (id == j) ≡ false) same other in
      rw (in_it, not_id) (ground arith)
  | inr e ↦ ground arith
]

module _ (index : Index) (key id k i : String) where
  remove_absent :
      JsMap.get key index ≡ none → holds index k i ≡ (holds index k i && not (key == k && id == i))
  remove_absent absent = elim (Bool-cases (key == k)) [
    | inl same ↦
        let e : key ≡ k = ground (arith, eq_iff key k) in
        let empty : holds index k i ≡ false = rw (← e) (rw absent refl) in rw empty refl
    | inr other ↦ rw other (ground arith)
  ]

  remove_there :
      (p : Option String) {current : List String}
      → IsSafe p id key index
      → JsMap.get key index ≡ some current
      → (if key == k then preserved p i || (not (id == i) && member i current) else holds index k i)
        ≡ (holds index k i && not (key == k && id == i))
  remove_there none {current} safe there = elim (Bool-cases (key == k)) [
    | inl same ↦
        let e : key ≡ k = ground (arith, eq_iff key k) in
        let now : holds index k i ≡ member i current = rw (← e) (rw there refl) in
        rw (now, same) (ground arith)
    | inr other ↦ rw other (ground arith)
  ]
  remove_there (some p) {current} safe there = elim (Bool-cases (key == k)) [
    | inl same ↦
        let e : key ≡ k = ground (arith, eq_iff key k) in
        let now : holds index k i ≡ member i current = rw (← e) (rw there refl) in
        let kept : member p current ≡ true =
          ap (λ o. member p (get_or o [])) (sym there) ∙ safe.1 in
        rw (now, same) (preserve_there p id i current safe.0 kept)
    | inr other ↦ rw other (ground arith)
  ]

-- Then an entry loses the record and nothing else.
pub holds-remove_entry :
    (index : Index) (key id : String) (p : Option String) (k i : String)
    → IsSafe p id key index
    → holds (remove_index_entry index key id p) k i ≡ (holds index k i && not (key == k && id == i))
unfolding remove_index_entry
holds-remove_entry index key id p k i safe = elim (Option-cases (JsMap.get key index)) [
  | inl absent ↦ rw (absent, remove_index_entry) (remove_absent index key id k i absent)
  | inr (current, there) ↦
      rw (there, remove_index_entry)
        (holds-store_entry index key (replaced id p current) k i
          ∙ rw (member-replaced id p current i) (remove_there index key id k i p safe there))
]

-- The loop over the texts of a record, all of which the preserved record has too.
abbrev pub AreSafe : Option String → String → List String → Index → Type 0
AreSafe none id keys index = Unit
AreSafe (some p) id keys index =
    ((id == p) ≡ false) × ((k : String) → member k keys ≡ true → holds index k p ≡ true)

IsSafe-of_AreSafe :
    (p : Option String) (id key : String) (rest : List String) (index : Index)
    → AreSafe p id (key ∷ rest) index
    → IsSafe p id key index
IsSafe-of_AreSafe none id key rest index safe = tt
IsSafe-of_AreSafe (some p) id key rest index safe = (safe.0, safe.1 key (rw (eq_refl key) refl))

AreSafe-rest :
    (p : Option String) (id key : String) (rest : List String) (index : Index)
    → AreSafe p id (key ∷ rest) index
    → AreSafe p id rest (remove_index_entry index key id p)
AreSafe-rest none id key rest index safe = tt
AreSafe-rest (some p) id key rest index safe = (
  safe.0,
  λ k within.
      let there : holds index k p ≡ true = safe.1 k (rw within (ground arith)) in
      holds-remove_entry index key id (some p) k p
        (IsSafe-of_AreSafe (some p) id key rest index safe)
      ∙ rw (there, safe.0) (ground arith),
)

pub holds-remove_entries :
    (keys : List String) (id : String) (p : Option String) (index : Index) (k i : String)
    → AreSafe p id keys index
    → holds (remove_entries keys id p index) k i
      ≡ (holds index k i && not (member k keys && id == i))
unfolding remove_entries
holds-remove_entries [] id p index k i safe = ground arith
holds-remove_entries (key ∷ rest) id p index k i safe =
    holds-remove_entries rest id p (remove_index_entry index key id p) k i
      (AreSafe-rest p id key rest index safe)
    ∙ rw (holds-remove_entry index key id p k i (IsSafe-of_AreSafe p id key rest index safe))
        (ground arith)
