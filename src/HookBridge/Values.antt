-- ===== src/HookBridge/Values.antt =====
-- runtime/hook-bridge-utils.ts: reading an event by a dotted path, and values as text. An event is here the
-- object of its own fields. `localeCompare` and `toLowerCase` belong to the runtime: how fields are sorted
-- and what a text is in lower case are parameters.
use openclaw_event_server_pl.Common.{
  ℕ, suc, ◌+◌, String, Bool, true, false, not, ◌&&◌, ◌||◌, Option, none, some, List, [], ◌∷◌, ◌==◌,
  if◌then◌else◌, append, join, trim, split, show_nat, quote, member, get_or,
}
use openclaw_event_server_pl.Events.{
  Value, Items, Fields, undefined, null, bool, num, str, arr, obj, nil, cons, done, field,
  get_field,
}

-- A matcher is a text or a list of texts.
pub data Matcher : Type 0 where
  one : String → Matcher
  many : List String → Matcher

unfoldable pub matches_scalar_or_list : Option Matcher → Option String → Bool
matches_scalar_or_list none value = true
matches_scalar_or_list (some m) none = false
matches_scalar_or_list (some (one matcher)) (some value) = value == matcher
matches_scalar_or_list (some (many matchers)) (some value) = member value matchers

-- `text.endsWith(suffix)`.
ends_with : String → String → Bool
ends_with suffix String.[] = suffix == ""
ends_with suffix (String.◌∷◌ c s) = suffix == String.◌∷◌ c s || ends_with suffix s

unfoldable pub matches_domain_list : (String → String) → String → List String → Bool
unfolding ends_with
matches_domain_list lower host [] = false
matches_domain_list lower host (entry ∷ rest) =
    let e = lower (trim entry) in
    (not (e == "") && (lower host == e || ends_with (append "." e) (lower host)))
    || matches_domain_list lower host rest

abbrev pub has_field : String → Fields → Bool
has_field k done = false
has_field k (field j v fs) = j == k || has_field k fs

get_item : String → ℕ → Items → Value
get_item k n nil = undefined
get_item k n (cons v vs) = if show_nat n == k then v else get_item k (n + 1) vs

count_items : Items → ℕ
count_items nil = 0
count_items (cons v vs) = suc (count_items vs)

-- `current[segment]`, and `undefined` for what is no object.
unfoldable pub get_member : String → Value → Value
unfolding get_item count_items
get_member k (obj fs) = get_field k fs
get_member k (arr vs) = if k == "length" then num (count_items vs) else get_item k 0 vs
get_member k _ = undefined

unfoldable pub read_members : List String → Value → Value
unfolding get_member
read_members [] current = current
read_members (segment ∷ rest) current = read_members rest (get_member segment current)

trimmed_segments : List String → List String
trimmed_segments [] = []
trimmed_segments (s ∷ rest) =
    let more = trimmed_segments rest in if trim s == "" then more else trim s ∷ more

read_segments : List String → Fields → Value
read_segments [] event = undefined
read_segments (first ∷ rest) event = read_members rest (
    if has_field first event
    then get_field first event
    else get_member first (get_field "data" event))

-- A dot has the code 46.
unfoldable pub read_path : Fields → String → Value
unfolding read_segments trimmed_segments read_members
read_path event dotted_path = read_segments (trimmed_segments (split 46 dotted_path)) event

abbrev pub text_of : Value → Option String
text_of (str s) = some s
text_of _ = none

module _ (sort_fields : Fields → Fields) where
  mutual
    normalize_for_stable_json : Value → Value
    normalize_for_stable_json (arr vs) = arr (normalize_items vs)
    normalize_for_stable_json (obj fs) = obj (sort_fields (normalize_fields fs))
    normalize_for_stable_json v = v

    normalize_items : Items → Items
    normalize_items nil = nil
    normalize_items (cons v vs) = cons (normalize_for_stable_json v) (normalize_items vs)

    normalize_fields : Fields → Fields
    normalize_fields done = done
    normalize_fields (field k v fs) = field k (normalize_for_stable_json v) (normalize_fields fs)

  -- `JSON.stringify`: `undefined` has no form, is left out of an object and is `null` in an array.
  mutual
    json_stringify : Value → Option String
    json_stringify undefined = none
    json_stringify null = some "null"
    json_stringify (bool true) = some "true"
    json_stringify (bool false) = some "false"
    json_stringify (num n) = some (show_nat n)
    json_stringify (str s) = some (quote s)
    json_stringify (arr vs) = some (append "[" (append (join "," (json_items vs)) "]"))
    json_stringify (obj fs) = some (append "{" (append (join "," (json_fields fs)) "}"))

    json_items : Items → List String
    json_items nil = []
    json_items (cons v vs) = get_or (json_stringify v) "null" ∷ json_items vs

    json_fields : Fields → List String
    json_fields done = []
    json_fields (field k v fs) = elim (json_stringify v) [
      | none ↦ json_fields fs
      | some t ↦ append (quote k) (append ":" t) ∷ json_fields fs
    ]

  unfoldable pub stable_json_stringify : Value → Option String
  unfolding normalize_for_stable_json json_stringify
  stable_json_stringify value = json_stringify (normalize_for_stable_json value)

  -- A value that is no plain data, such as a date, does not occur.
  unfoldable pub to_stable_token : Value → String
  unfolding stable_json_stringify
  to_stable_token undefined = ""
  to_stable_token null = ""
  to_stable_token (bool true) = "true"
  to_stable_token (bool false) = "false"
  to_stable_token (num n) = show_nat n
  to_stable_token (str s) = s
  to_stable_token v = get_or (stable_json_stringify v) ""

  coalesce_value : String → Fields → String → String
  coalesce_value rule_id event name =
      if name == "ruleId"
      then rule_id
      else if name == "event.type" || name == "type"
      then get_or (text_of (get_field "type" event)) ""
      else to_stable_token (read_path event name)

  coalesce_values : String → Fields → List String → List String
  coalesce_values rule_id event [] = []
  coalesce_values rule_id event (name ∷ rest) =
      let more = coalesce_values rule_id event rest in
      let v = coalesce_value rule_id event name in if v == "" then more else v ∷ more

  abbrev default_key_fields : List String
  default_key_fields = "sessionKey" ∷ "agentId" ∷ "data.toolName" ∷ "event.type" ∷ []

  unfoldable pub build_coalesce_key : String → Fields → Option (List String) → Option String
  unfolding coalesce_values coalesce_value
  build_coalesce_key rule_id event key_fields =
      elim (coalesce_values rule_id event (get_or key_fields default_key_fields)) [
        | [] ↦ none
        | v ∷ vs ↦ some (append rule_id (append "::" (join "::" (v ∷ vs))))
      ]
