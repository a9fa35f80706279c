-- ===== src/HookBridge/Templates/Plain.antt =====
-- Texts without braces in templates (`renderGuardTemplate` of runtime/hook-bridge-tool-guard.ts).
use openclaw_event_server_pl.Common.{
  ℕ, suc, String, Bool, true, false, not, ◌&&◌, Option, none, some, append, trim, ◌==◌, ◌+◌, ◌-◌,
  starts_with, arith, ◌≡◌, ◌∙◌, ap, refl,
}
use openclaw_event_server_pl.HookBridge.Templates.{
  opens, closes, before_close, from_close, size, token_size, token_at, replace_from,
}
use Prim.Native.Char.{Char}
use text.Mathlib.TextLemmas.{nil-append, cons-append}

-- No opening brace.
abbrev pub is_plain : String → Bool
is_plain String.[] = true
is_plain (String.◌∷◌ c s) = not (opens c) && is_plain s

no_token : (c : Char) (s : String) → opens c ≡ false → token_at (String.◌∷◌ c s) ≡ none
unfolding token_at
no_token c String.[] h = refl
no_token c (String.◌∷◌ d s) h = rw h refl

keeps_char :
    (value : String → Option String) (c : Char) (s : String)
    → opens c ≡ false
    → replace_from value 0 (String.◌∷◌ c s) ≡ String.◌∷◌ c (replace_from value 0 s)
unfolding replace_from
keeps_char value c s h = rw (no_token c s h, replace_from) refl

-- A plain text in front stays.
pub replace-append_plain :
    (value : String → Option String) (pre s : String)
    → is_plain pre ≡ true
    → replace_from value 0 (append pre s) ≡ append pre (replace_from value 0 s)
unfolding replace_from
replace-append_plain value String.[] s h =
    rw (nil-append s) (rw (nil-append (replace_from value 0 s)) refl)
replace-append_plain value (String.◌∷◌ c pre) s h =
    let plain : opens c ≡ false = ground arith in
    rw (cons-append c pre s, cons-append c pre (replace_from value 0 s))
      (keeps_char value c (append pre s) plain
        ∙ ap (λ t. String.◌∷◌ c t) (replace-append_plain value pre s (ground arith)))

-- A plain text stays as it is.
pub replace_plain :
    (value : String → Option String) (s : String) → is_plain s ≡ true → replace_from value 0 s ≡ s
unfolding replace_from
replace_plain value String.[] h = refl
replace_plain value (String.◌∷◌ c s) h =
    let plain : opens c ≡ false = ground arith in
    keeps_char value c s plain ∙ ap (λ t. String.◌∷◌ c t) (replace_plain value s (ground arith))

-- A token between double braces, with what follows.
abbrev pub braced : String → String → String
braced token s = String.◌∷◌ "{" (String.◌∷◌ "{" (append token (String.◌∷◌ "}" (String.◌∷◌ "}" s))))

-- No closing brace.
abbrev pub is_open : String → Bool
is_open String.[] = true
is_open (String.◌∷◌ c s) = not (closes c) && is_open s

before_close-append :
    (token s : String)
    → is_open token ≡ true
    → before_close (append token (String.◌∷◌ "}" s)) ≡ token
unfolding before_close
before_close-append String.[] s h = rw (nil-append (String.◌∷◌ "}" s)) refl
before_close-append (String.◌∷◌ c token) s h =
    let more : closes c ≡ false = ground arith in
    rw (cons-append c token (String.◌∷◌ "}" s))
      (rw (more) (ap (λ t. String.◌∷◌ c t) (before_close-append token s (ground arith))))

from_close-append :
    (token s : String)
    → is_open token ≡ true
    → from_close (append token (String.◌∷◌ "}" s)) ≡ String.◌∷◌ "}" s
unfolding from_close
from_close-append String.[] s h = rw (nil-append (String.◌∷◌ "}" s)) refl
from_close-append (String.◌∷◌ c token) s h =
    let more : closes c ≡ false = ground arith in
    rw (cons-append c token (String.◌∷◌ "}" s)) (rw more (from_close-append token s (ground arith)))

token_at-braced :
    (token s : String)
    → is_open token ≡ true
    → (token == "") ≡ false
    → token_at (braced token s) ≡ some token
unfolding token_at starts_with
token_at-braced token s h filled =
    rw
      (
        before_close-append token (String.◌∷◌ "}" s) h,
        from_close-append token (String.◌∷◌ "}" s) h,
        filled,
      )
      refl

skips :
    (value : String → Option String) (a t : String) (n : ℕ)
    → replace_from value (size a + n) (append a t) ≡ replace_from value n t
unfolding replace_from size
skips value String.[] t n =
    let e : 0 + n ≡ n = omega arith in rw (nil-append t) (ap (λ k. replace_from value k t) e)
skips value (String.◌∷◌ c a) t n =
    let e : suc (size a) + n ≡ suc (size a + n) = omega arith in
    rw (cons-append c a t)
      (ap (λ k. replace_from value k (String.◌∷◌ c (append a t))) e ∙ skips value a t n)

replace_one :
    (value : String → Option String) (s token v : String)
    → token_at (String.◌∷◌ "{" s) ≡ some token
    → value (trim token) ≡ some v
    → replace_from value 0 (String.◌∷◌ "{" s) ≡ append v (replace_from value (size token + 4 - 1) s)
unfolding replace_from
replace_one value s token v e has =
    let size_now : token_size (token_at (String.◌∷◌ "{" s)) ≡ size token + 4 =
      ap (λ o. token_size o) e in
    rw (e, replace_from)
      (rw (has, replace_from) (ap (λ (k : ℕ). append v (replace_from value (k - 1) s)) size_now))

-- A token that has a value, in front, is replaced by it.
pub replace-braced :
    (value : String → Option String) (token v s : String)
    → is_open token ≡ true
    → (token == "") ≡ false
    → value (trim token) ≡ some v
    → replace_from value 0 (braced token s) ≡ append v (replace_from value 0 s)
unfolding replace_from
replace-braced value token v s h filled has =
    let e : size token + 4 - 1 ≡ suc (size token + 2) = omega arith in
    replace_one value (String.◌∷◌ "{" (append token (String.◌∷◌ "}" (String.◌∷◌ "}" s)))) token v
      (token_at-braced token s h filled) has
    ∙ ap (λ t. append v t)
        (ap
            (λ k.
              replace_from value k
                (String.◌∷◌ "{" (append token (String.◌∷◌ "}" (String.◌∷◌ "}" s)))))
            e
          ∙ skips value token (String.◌∷◌ "}" (String.◌∷◌ "}" s)) 2)
