-- ===== src/HookBridge/Templates.antt =====
-- runtime/hook-bridge-tool-guard.ts: the templates of block reasons. A `replace` by a regular expression for
-- double braces goes through the text from left to right; a token is what stands between two opening and
-- two closing braces, trimmed, and has no closing brace.
pub mod Plain
use openclaw_event_server_pl.Common.{
  ℕ, zero, suc, ◌+◌, ◌-◌, String, Bool, true, false, not, ◌&&◌, ◌||◌, Option, none, some, List, [],
  ◌∷◌, ◌==◌, if◌then◌else◌, append, trim, nat_eq, get_or, starts_with,
}
use openclaw_event_server_pl.Events.{Fields, get_field}
use openclaw_event_server_pl.HookBridge.Values.{read_path, text_of, to_stable_token}
use Prim.Native.Char.{Char, code}

-- Braces have the codes 123 and 125.
abbrev pub opens : Char → Bool
opens c = nat_eq (code c) 123

abbrev pub closes : Char → Bool
closes c = nat_eq (code c) 125

-- The text up to the first closing brace, and the rest from there.
before_close : String → String
before_close String.[] = ""
before_close (String.◌∷◌ c s) =
    let more = before_close s in if closes c then "" else String.◌∷◌ c more

from_close : String → String
from_close String.[] = ""
from_close (String.◌∷◌ c s) = let later = from_close s in if closes c then String.◌∷◌ c s else later

size : String → ℕ
size String.[] = 0
size (String.◌∷◌ c s) = suc (size s)

-- The untrimmed token at the start of a text, if one stands there.
closed_token : String → Option String
unfolding before_close from_close
closed_token inner =
    if not (before_close inner == "") && starts_with "}}" (from_close inner)
    then some (before_close inner)
    else none

unfoldable pub token_at : String → Option String
unfolding closed_token
token_at String.[] = none
token_at (String.◌∷◌ a String.[]) = none
token_at (String.◌∷◌ a (String.◌∷◌ b inner)) =
    if opens a && opens b then closed_token inner else none

abbrev value_at : (String → Option String) → Option String → Option String
value_at value none = none
value_at value (some raw) = value (trim raw)

abbrev token_size : Option String → ℕ
unfolding size
token_size none = 0
token_size (some raw) = size raw + 4

-- `text.replace(pattern, value)` with the flag `g`. `skip` counts the characters of a token that was
-- replaced; a token without a value is no match of the pattern.
unfoldable pub replace_from : (String → Option String) → ℕ → String → String
unfolding token_at size
replace_from value skip String.[] = ""
replace_from value (suc skip) (String.◌∷◌ c s) = replace_from value skip s
replace_from value zero (String.◌∷◌ c s) = elim (value_at value (token_at (String.◌∷◌ c s))) [
  | none ↦ String.◌∷◌ c (replace_from value 0 s)
  | some v ↦ append v (replace_from value (token_size (token_at (String.◌∷◌ c s)) - 1) s)
]

unfoldable pub replace_tokens : (String → Option String) → String → String
unfolding replace_from
replace_tokens value s = replace_from value 0 s

after_prefix : ℕ → String → String
after_prefix zero s = s
after_prefix (suc n) String.[] = ""
after_prefix (suc n) (String.◌∷◌ c s) = after_prefix n s

field_text : String → Fields → String
field_text name event = get_or (text_of (get_field name event)) ""

module _ (sort_fields : Fields → Fields) where
  unfoldable pub token_value : Fields → String → String
  unfolding after_prefix field_text
  token_value event token =
      if token == "toolName"
      then get_or (text_of (read_path event "data.toolName")) ""
      else if token == "eventType"
      then field_text "type" event
      else if token == "agentId"
      then field_text "agentId" event
      else if token == "sessionId"
      then field_text "sessionId" event
      else if token == "sessionKey"
      then field_text "sessionKey" event
      else if token == "runId"
      then field_text "runId" event
      else if token == "toolCallId"
      then field_text "toolCallId" event
      else if starts_with "path:" token
      then to_stable_token sort_fields (read_path event (trim (after_prefix 5 token)))
      else ""

  unfoldable pub render_guard_template : String → Fields → String
  unfolding replace_tokens token_value
  render_guard_template template event =
      replace_tokens (λ token. some (token_value event token)) template
