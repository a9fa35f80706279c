-- ===== src/Common/Sets.antt =====
-- The `Set` of the source with texts: the list of its items in the order of insertion.
use Prim.Native.String.{String}
use mathlib.Core.Path.{◌≡◌, ◌∙◌, refl}
use mathlib.Core.Logic.{inl, inr}
use mathlib.Core.Bool.{Bool, false, not, ◌&&◌, ◌||◌}
use mathlib.Core.List.{List, [], ◌∷◌, ◌++◌}
use native.Mathlib.Omega.{arith}
use text.Mathlib.Text.{◌==◌}
use text.Mathlib.TextEquality.{eq_iff}
use openclaw_event_server_pl.Common.Tests.{if◌then◌else◌, Bool-cases}

-- `set.has(value)`, and `array.includes(value)`.
abbrev pub member : String → List String → Bool
member a [] = false
member a (b ∷ bs) = b == a || member a bs

unfoldable pub add : String → List String → List String
add a s = if member a s then s else s ++ a ∷ []

unfoldable pub add_all : List String → List String → List String
unfolding add
add_all [] s = s
add_all (a ∷ rest) s = add_all rest (add a s)

unfoldable pub remove : String → List String → List String
remove a [] = []
remove a (b ∷ bs) = if b == a then remove a bs else b ∷ remove a bs

member-append_one :
    (a b : String) (s : List String) → member a (s ++ b ∷ []) ≡ (member a s || b == a)
member-append_one a b [] = ground arith
member-append_one a b (c ∷ s) = ground (arith, member-append_one a b s)

pub member-add : (a b : String) (s : List String) → member a (add b s) ≡ (b == a || member a s)
unfolding add
member-add a b s = elim (Bool-cases (member b s)) [
  | inl old ↦ ground (arith, eq_iff b a)
  | inr new ↦ ground (arith, member-append_one a b s)
]

pub member-add_all :
    (a : String) (bs s : List String) → member a (add_all bs s) ≡ (member a bs || member a s)
unfolding add_all
member-add_all a [] s = refl
member-add_all a (b ∷ bs) s = ground (arith, member-add_all a bs (add b s), member-add a b s)

pub member-remove :
    (a b : String) (s : List String) → member a (remove b s) ≡ (not (b == a) && member a s)
unfolding remove
member-remove a b [] = ground arith
member-remove a b (c ∷ s) = ground (arith, member-remove a b s, eq_iff c b, eq_iff b a, eq_iff c a)

-- No item stands twice.
abbrev pub NoRepeats : List String → Type 0
NoRepeats [] = Unit
NoRepeats (a ∷ s) = (member a s ≡ false) × NoRepeats s

append_one-NoRepeats :
    (a : String) (s : List String) → member a s ≡ false → NoRepeats s → NoRepeats (s ++ a ∷ [])
append_one-NoRepeats a [] new h = (refl, tt)
append_one-NoRepeats a (b ∷ s) new h = (
  member-append_one b a s ∙ ground (arith, eq_iff a b, eq_iff b a, h.0),
  append_one-NoRepeats a s (ground arith) h.1,
)

pub add-NoRepeats : (a : String) (s : List String) → NoRepeats s → NoRepeats (add a s)
unfolding add
add-NoRepeats a s h = elim (Bool-cases (member a s)) [
  | inl old ↦ rw old h
  | inr new ↦ rw new (append_one-NoRepeats a s new h)
]

pub add_all-NoRepeats : (bs s : List String) → NoRepeats s → NoRepeats (add_all bs s)
unfolding add_all
add_all-NoRepeats [] s h = h
add_all-NoRepeats (b ∷ bs) s h = add_all-NoRepeats bs (add b s) (add-NoRepeats b s h)
