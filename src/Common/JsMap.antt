-- ===== src/Common/JsMap.antt =====
-- The `Map` of the source with text keys: an association list in insertion order, in which a key
-- stands once. `set` on a key that is present keeps its place.
use Prim.Native.String.{String}
use mathlib.Core.Path.{◌≡◌, refl, subst}
use mathlib.Core.Bool.{Bool}
use mathlib.Core.Logic.{inl, inr}
use mathlib.Core.List.{List, [], ◌∷◌}
use mathlib.Core.Option.{Option, none, some}
use native.Mathlib.Omega.{arith}
use text.Mathlib.Text.{◌==◌}
use text.Mathlib.TextEquality.{eq_iff}
use text.Mathlib.TextPositions.{eq_refl}
use openclaw_event_server_pl.Common.Tests.{if◌then◌else◌, is_some, Bool-cases}
use openclaw_event_server_pl.Common.Lists.{All}

abbrev pub JsMap {ℓ} : Type ℓ → Type ℓ
JsMap V = List (String × V)

module _ {ℓ} {V : Type ℓ} where
  unfoldable pub get : String → JsMap V → Option V
  get k [] = none
  get k ((j, v) ∷ m) = if j == k then some v else get k m

  abbrev pub has : String → JsMap V → Bool
  has k m = is_some (get k m)

  unfoldable pub set : String → V → JsMap V → JsMap V
  set k v [] = (k, v) ∷ []
  set k v ((j, w) ∷ m) = if j == k then (j, v) ∷ m else (j, w) ∷ set k v m

  unfoldable pub delete : String → JsMap V → JsMap V
  delete k [] = []
  delete k ((j, v) ∷ m) = if j == k then delete k m else (j, v) ∷ delete k m

  -- A loop over the entries that deletes those whose value fails the test.
  unfoldable pub retain : (V → Bool) → JsMap V → JsMap V
  retain p [] = []
  retain p ((j, v) ∷ m) = if p v then (j, v) ∷ retain p m else retain p m

  -- Each key stands once.
  abbrev pub IsMap : JsMap V → Type ℓ
  IsMap [] = Unit
  IsMap ((j, v) ∷ m) = (get j m ≡ none) × IsMap m

  pub get-set :
      (k j : String) (v : V) (m : JsMap V)
      → get j (set k v m) ≡ (if k == j then some v else get j m)
  unfolding get set
  get-set k j v [] = refl
  get-set k j v ((i, w) ∷ m) = ground (arith, eq_iff k j, eq_iff i k, eq_iff i j, get-set k j v m)

  pub get-set_self : (k : String) (v : V) (m : JsMap V) → get k (set k v m) ≡ some v
  get-set_self k v m = simp (get-set, eq_refl)

  pub get-delete :
      (k j : String) (m : JsMap V) → get j (delete k m) ≡ (if k == j then none else get j m)
  unfolding get delete
  get-delete k j [] = ground arith
  get-delete k j ((i, w) ∷ m) = ground (arith, eq_iff k j, eq_iff i k, eq_iff i j, get-delete k j m)

  abbrev pub filter_value : (V → Bool) → Option V → Option V
  filter_value p none = none
  filter_value p (some v) = if p v then some v else none

  pub get-retain :
      (p : V → Bool) (k : String) (m : JsMap V)
      → IsMap m
      → get k (retain p m) ≡ filter_value p (get k m)
  unfolding get retain
  get-retain p k [] h = refl
  get-retain p k ((j, v) ∷ m) h = ground (arith, eq_iff j k, get-retain p k m h.1)

  pub set-IsMap : (k : String) (v : V) (m : JsMap V) → IsMap m → IsMap (set k v m)
  unfolding set get
  set-IsMap k v [] h = ground arith
  set-IsMap k v ((j, w) ∷ m) h =
      ground (arith, eq_iff j k, eq_iff k j, set-IsMap k v m h.1, get-set k j v m)

  pub delete-IsMap : (k : String) (m : JsMap V) → IsMap m → IsMap (delete k m)
  unfolding delete
  delete-IsMap k [] h = tt
  delete-IsMap k ((j, w) ∷ m) h =
      ground (arith, delete-IsMap k m h.1, get-delete k j m, eq_iff j k, eq_iff k j)

  pub retain-IsMap : (p : V → Bool) (m : JsMap V) → IsMap m → IsMap (retain p m)
  unfolding retain
  retain-IsMap p [] h = tt
  retain-IsMap p ((j, v) ∷ m) h = ground (arith, retain-IsMap p m h.1, get-retain p j m h.1)

  -- A property of all entries.
  pub set-All {κ} :
      (P : String × V → Type κ) (k : String) (v : V) (m : JsMap V)
      → P (k, v)
      → All P m
      → All P (set k v m)
  unfolding set
  set-All P k v [] p h = (p, tt)
  set-All P k v ((j, w) ∷ m) p h = elim (Bool-cases (j == k)) [
    | inl e ↦
        let same : k ≡ j = ground (arith, eq_iff j k) in rw e (subst (λ i. P (i, v)) same p, h.1)
    | inr e ↦ rw e (h.0, set-All P k v m p h.1)
  ]

  pub get-All {κ} :
      (P : String × V → Type κ) (k : String) (v : V) (m : JsMap V)
      → All P m
      → get k m ≡ some v
      → P (k, v)
  unfolding get
  get-All P k v [] h e = absurd cc
  get-All P k v ((j, w) ∷ m) h e = elim (Bool-cases (j == k)) [
    | inl same ↦ let q : (j, w) ≡ (k, v) = ground (arith, eq_iff j k) in subst P q h.0
    | inr other ↦ get-All P k v m h.1 (ground arith)
  ]

  pub ruleset map_laws = (get-set, get-delete, get-retain, set-IsMap, delete-IsMap, retain-IsMap)
