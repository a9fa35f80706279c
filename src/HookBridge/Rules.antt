-- ===== src/HookBridge/Rules.antt =====
-- runtime/hook-bridge-tool-guard.ts: whether an event meets the criteria of a rule.
use openclaw_event_server_pl.Common.{
  ℕ, String, Bool, true, false, not, ◌&&◌, ◌||◌, Option, none, some, List, [], ◌∷◌, ◌==◌,
  if◌then◌else◌, nat_eq, leb, trim, get_or, starts_with,
}
use openclaw_event_server_pl.Common.JsMap.{JsMap}
use openclaw_event_server_pl.Common.JsMap
use openclaw_event_server_pl.Events.{
  Value, Fields, undefined, null, bool, num, str, arr, obj, get_field,
}
use openclaw_event_server_pl.HookBridge.Values.{
  Matcher, matches_scalar_or_list, matches_domain_list, read_path, text_of,
}

-- What belongs to the runtime: the collation that sorts fields, lower case, the pattern of a regular
-- expression (`none`: it is malformed), and the host name of an address.
pub record Platform : Type 0 where
  pub sort_fields : Fields → Fields
  pub lower : String → String
  pub regex : String → Option (String → Bool)
  pub hostname : String → Option String

pub data TypeName : Type 0 where
  string_type : TypeName
  number_type : TypeName
  boolean_type : TypeName
  object_type : TypeName
  array_type : TypeName

-- An object of criteria is its entries; one that is absent has none.
pub record RuleWhen : Type 0 where
  pub event_type : Option Matcher
  pub tool_name : Option Matcher
  pub agent_id : Option Matcher
  pub session_id : Option Matcher
  pub session_key : Option Matcher
  pub contains : List (String × String)
  pub equals : List (String × Value)
  pub required_paths : List String
  pub type_checks : List (String × TypeName)
  pub in_list : List (String × List Value)
  pub not_in_list : List (String × List Value)
  pub matches_regex : List (String × String)
  pub not_matches_regex : List (String × String)
  pub domain_allowlist : List String
  pub domain_blocklist : List String
  pub domain_path : Option String
  pub idle_for_ms_gte : Option ℕ
  pub parent_status : Option String

-- `value.includes(part)`.
includes : String → String → Bool
includes part String.[] = part == ""
includes part (String.◌∷◌ c s) = starts_with part (String.◌∷◌ c s) || includes part s

-- `===` with a text, a number or a Boolean.
unfoldable pub same_scalar : Value → Value → Bool
same_scalar (str a) (str b) = a == b
same_scalar (num m) (num n) = nat_eq m n
same_scalar (bool true) (bool b) = b
same_scalar (bool false) (bool b) = not b
same_scalar _ _ = false

includes_value : Value → List Value → Bool
unfolding same_scalar
includes_value v [] = false
includes_value v (w ∷ ws) = same_scalar v w || includes_value v ws

unfoldable pub has_type : TypeName → Value → Bool
has_type string_type (str s) = true
has_type number_type (num n) = true
has_type boolean_type (bool b) = true
has_type object_type (obj fs) = true
has_type array_type (arr vs) = true
has_type _ _ = false

abbrev is_present : Value → Bool
is_present undefined = false
is_present null = false
is_present _ = true

-- Every entry passes.
abbrev pub all_entries {ℓ} : {A : Type ℓ} → (A → Bool) → List A → Bool
all_entries p [] = true
all_entries p (a ∷ rest) = p a && all_entries p rest

contains_text : Value → String → Bool
unfolding includes
contains_text (str s) part = includes part s
contains_text _ part = false

-- The pattern is malformed, or does not match: it fails.
matches_pattern : Platform → Value → String → Bool
matches_pattern platform (str s) pattern = elim (platform.regex pattern) [
  | none ↦ false
  | some test ↦ test s
]
matches_pattern platform _ pattern = false

-- What is no text passes, a malformed pattern fails.
avoids_pattern : Platform → Value → String → Bool
avoids_pattern platform (str s) pattern = elim (platform.regex pattern) [
  | none ↦ false
  | some test ↦ not (test s)
]
avoids_pattern platform _ pattern = true

extract_host : Platform → Value → Option String
extract_host platform (str raw) = elim (platform.hostname raw) [
  | none ↦ none
  | some host ↦ if trim raw == "" then none else some (platform.lower host)
]
extract_host platform _ = none

-- `host && matchesDomainList(host, domains)`: an empty host fails.
host_in : Platform → Option String → List String → Bool
unfolding matches_domain_list
host_in platform none domains = false
host_in platform (some host) domains =
    not (host == "") && matches_domain_list platform.lower host domains

-- An empty list asks for nothing.
domain_passes : Platform → Value → List String → Bool
unfolding host_in extract_host
domain_passes platform value [] = true
domain_passes platform value (d ∷ ds) = host_in platform (extract_host platform value) (d ∷ ds)

idle_passes : Option ℕ → Value → Bool
idle_passes none value = true
idle_passes (some least) (num n) = leb least n
idle_passes (some least) _ = false

is_same_text : Option String → String → Bool
is_same_text none s = false
is_same_text (some t) s = t == s

-- An empty status asks for nothing.
parent_passes : Option String → Value → JsMap String → Bool
unfolding is_same_text
parent_passes none value statuses = true
parent_passes (some status) (str parent) statuses =
    status == "" || is_same_text (JsMap.get parent statuses) status
parent_passes (some status) _ statuses = status == ""

-- The part of the criteria about the values at paths.
paths_pass : Platform → Fields → RuleWhen → Bool
unfolding contains_text includes_value has_type matches_pattern avoids_pattern read_path
paths_pass platform event w =
    all_entries (λ e. contains_text (read_path event e.0) e.1) w.contains
    && all_entries (λ e. same_scalar (read_path event e.0) e.1) w.equals
    && all_entries (λ path. is_present (read_path event path)) w.required_paths
    && all_entries (λ e. has_type e.1 (read_path event e.0)) w.type_checks
    && all_entries (λ e. includes_value (read_path event e.0) e.1) w.in_list
    && all_entries (λ e. not (includes_value (read_path event e.0) e.1)) w.not_in_list
    && all_entries (λ e. matches_pattern platform (read_path event e.0) e.1) w.matches_regex
    && all_entries (λ e. avoids_pattern platform (read_path event e.0) e.1) w.not_matches_regex

unfoldable pub matches_rule : Platform → Fields → RuleWhen → JsMap String → Bool
unfolding paths_pass domain_passes idle_passes parent_passes matches_scalar_or_list read_path
matches_rule platform event w parent_status_by_agent =
    let url = read_path event (get_or w.domain_path "data.params.url") in
    matches_scalar_or_list w.event_type (text_of (get_field "type" event))
    && matches_scalar_or_list w.tool_name (text_of (read_path event "data.toolName"))
    && matches_scalar_or_list w.agent_id (text_of (get_field "agentId" event))
    && matches_scalar_or_list w.session_id (text_of (get_field "sessionId" event))
    && matches_scalar_or_list w.session_key (text_of (get_field "sessionKey" event))
    && paths_pass platform event w
    && domain_passes platform url w.domain_allowlist
    && domain_passes platform url w.domain_blocklist
    && idle_passes w.idle_for_ms_gte (read_path event "data.idleForMs")
    && parent_passes w.parent_status (read_path event "data.parentAgentId") parent_status_by_agent
