-- ===== src/Sessions/Records/Observed.antt =====
-- The texts of an observation (hooks/session-tracker-helpers.ts, `dedupe`).
use openclaw_event_server_pl.Common.{
  String, Bool, true, false, ◌&&◌, ◌||◌, Option, none, some, List, [], ◌∷◌, ◌==◌, member, arith,
  ◌≡◌, ◌∙◌, sym, ap, refl, subst, eq_iff, eq_refl, Bool-cases, inl, inr, keep, map, member-add_all,
}
use openclaw_event_server_pl.Sessions.Keys.{
  is_non_empty_string, non_empty, dedupe, looks_like_session_key,
}
use openclaw_event_server_pl.Sessions.Records.{observed_ids, observed_keys}
use openclaw_event_server_pl.Sessions.Queries.{identified_by}

-- The text is among those that are given.
abbrev pub is_given : String → List (Option String) → Bool
is_given k [] = false
is_given k (none ∷ rest) = is_given k rest
is_given k (some v ∷ rest) = v == k || is_given k rest

pub member-non_empty :
    (k : String) (values : List (Option String))
    → member k (non_empty values) ≡ (is_given k values && is_non_empty_string (some k))
unfolding non_empty
member-non_empty k [] = refl
member-non_empty k (none ∷ rest) = member-non_empty k rest
member-non_empty k (some v ∷ rest) = elim (Bool-cases (v == k)) [
  | inl same ↦
      let e : v ≡ k = ground (arith, eq_iff v k) in
      subst
        (λ x.
          member x (non_empty (some v ∷ rest))
          ≡ (is_given x (some v ∷ rest) && is_non_empty_string (some x)))
        e (ground (arith, member-non_empty v rest, eq_refl v))
  | inr other ↦ ground (arith, member-non_empty k rest)
]

pub member-dedupe :
    (k : String) (values : List (Option String))
    → member k (dedupe values) ≡ (is_given k values && is_non_empty_string (some k))
unfolding dedupe
member-dedupe k values =
    member-add_all k (non_empty values) [] ∙ (ground (arith) ∙ member-non_empty k values)

is_given-map : (k : String) (values : List String) → is_given k (map some values) ≡ member k values
is_given-map k [] = refl
is_given-map k (v ∷ rest) = ap (λ b. v == k || b) (is_given-map k rest)

pub member-keep_iff :
    (test : String → Bool) (k : String) (s : List String)
    → member k (keep test s) ≡ (member k s && test k)
member-keep_iff test k [] = refl
member-keep_iff test k (x ∷ s) = elim (Bool-cases (x == k)) [
  | inl same ↦
      let e : x ≡ k = ground (arith, eq_iff x k) in
      subst (λ y. member y (keep test (x ∷ s)) ≡ (member y (x ∷ s) && test y)) e
        (ground (arith, member-keep_iff test x s, eq_refl x))
  | inr other ↦ ground (arith, member-keep_iff test k s)
]

pub observed_ids-identified_by :
    (k identifier : String)
    → member k (observed_ids (identified_by identifier)) ≡ true
    → identifier ≡ k
unfolding observed_ids
observed_ids-identified_by k identifier h =
    let e : (is_given k (some identifier ∷ some identifier ∷ []) && is_non_empty_string (some k))
        ≡ true =
      sym (member-dedupe k (some identifier ∷ some identifier ∷ [])) ∙ h in
    ground (arith, eq_iff identifier k)

pub observed_keys-identified_by :
    (k identifier : String)
    → member k (observed_keys (identified_by identifier)) ≡ true
    → identifier ≡ k
unfolding observed_keys
observed_keys-identified_by k identifier h =
    let ids : List String = observed_ids (identified_by identifier) in
    let more : List String = keep looks_like_session_key ids in
    let e : (is_given k (some identifier ∷ some identifier ∷ map some more)
          && is_non_empty_string (some k))
        ≡ true =
      sym (member-dedupe k (some identifier ∷ some identifier ∷ map some more)) ∙ h in
    elim (Bool-cases (identifier == k)) [
      | inl same ↦ ground (arith, eq_iff identifier k)
      | inr other ↦
          let given : is_given k (map some more) ≡ true = ground arith in
          let kept : (member k ids && looks_like_session_key k) ≡ true =
            sym (member-keep_iff looks_like_session_key k ids)
            ∙ (sym (is_given-map k more) ∙ given) in
          observed_ids-identified_by k identifier (ground arith)
    ]
