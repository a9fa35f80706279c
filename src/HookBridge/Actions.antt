-- ===== src/HookBridge/Actions.antt =====
-- runtime/hook-bridge-actions.ts: which scripts may run, when an action fails, and what decision its answer
-- is. The process, the HTTP client, `realpathSync`, `resolve` and `JSON.parse` belong to the runtime.
pub mod Allowed
use openclaw_event_server_pl.Common.{
  ℕ, String, Bool, true, false, not, ◌&&◌, ◌||◌, Option, none, some, List, [], ◌∷◌, ◌==◌,
  if◌then◌else◌, nat_eq, leb, ltb, trim, get_or, or_else, append, starts_with, show_nat,
}
use openclaw_event_server_pl.Events.{
  Value, Fields, undefined, null, bool, num, str, arr, obj, get_field, fields_of, is_record,
}

pub record WebhookAction : Type 0 where
  pub url : String
  pub method : Option String
  pub auth_token : Option String
  pub timeout_ms : Option ℕ

pub record LocalScriptAction : Type 0 where
  pub path : String
  pub args : List String
  pub timeout_ms : Option ℕ
  pub max_payload_bytes : Option ℕ

pub data HookBridgeAction : Type 0 where
  webhook : WebhookAction → HookBridgeAction
  local_script : LocalScriptAction → HookBridgeAction

pub record ScriptLimits : Type 0 where
  pub allowed_action_dirs : List String
  pub timeout_ms : ℕ
  pub max_payload_bytes : ℕ

-- The file system: `resolve`, and `realpathSync` with `none` where it throws.
pub record Paths : Type 0 where
  pub resolve : String → String
  pub to_canonical_path : String → Option String

-- What a rule decides.
pub record GuardDecision : Type 0 where
  pub block : Option Bool
  pub block_reason : Option String
  pub params : Option Fields
  pub block_reason_template : Option String

-- The separator of paths is a slash.
is_within : Paths → String → String → Bool
is_within paths script_path dir = elim (paths.to_canonical_path (paths.resolve dir)) [
  | none ↦ false
  | some canonical_dir ↦
      not (canonical_dir == "")
      && (script_path == canonical_dir || starts_with (append canonical_dir "/") script_path)
]

unfoldable pub is_allowed_local_script_path : Paths → List String → String → Bool
unfolding is_within
is_allowed_local_script_path paths [] script_path = false
is_allowed_local_script_path paths (dir ∷ dirs) script_path =
    is_within paths script_path dir || is_allowed_local_script_path paths dirs script_path

-- The process that is started.
pub record ScriptRun : Type 0 where
  pub script_path : String
  pub args : List String
  pub timeout_ms : ℕ

pub data Prepared : Type 0 where
  refused : String → Prepared
  starts : ScriptRun → Prepared

-- The checks of a path that could be resolved; the size is that of the payload.
unfoldable pub checked_script :
    Paths → ScriptLimits → LocalScriptAction → Option ℕ → ℕ → String → Prepared
unfolding is_allowed_local_script_path
checked_script paths limits action default_timeout_ms payload_bytes canonical_path =
    if canonical_path == ""
    then refused (append "Script path could not be resolved: " (paths.resolve action.path))
    else if not (is_allowed_local_script_path paths limits.allowed_action_dirs canonical_path)
    then refused (append "Script path is not allowed: " (paths.resolve action.path))
    else if ltb (get_or action.max_payload_bytes limits.max_payload_bytes) payload_bytes
    then refused (
        append "Script payload exceeds maxPayloadBytes (" (
          append (show_nat payload_bytes) (
            append " > "
              (append (show_nat (get_or action.max_payload_bytes limits.max_payload_bytes)) ")"))))
    else starts (record {
      script_path = canonical_path;
      args = action.args;
      timeout_ms = get_or (or_else action.timeout_ms default_timeout_ms) limits.timeout_ms;
    })

-- `executeLocalScriptAction` up to the start of the process.
unfoldable pub prepare_local_script :
    Paths → ScriptLimits → LocalScriptAction → Option ℕ → ℕ → Prepared
unfolding checked_script
prepare_local_script paths limits action default_timeout_ms payload_bytes =
    elim (paths.to_canonical_path (paths.resolve action.path)) [
      | none ↦ refused (append "Script path could not be resolved: " (paths.resolve action.path))
      | some canonical_path ↦
          checked_script paths limits action default_timeout_ms payload_bytes canonical_path
    ]

pub record LocalScriptResult : Type 0 where
  -- `none`: the process was ended by a signal.
  pub exit_code : Option ℕ
  pub stdout : String
  pub stderr : String
  pub timed_out : Bool

-- What an action gives in the end: its answer, or that it failed with a message.
pub data ActionAnswer : Type 0 where
  answered : String → ActionAnswer
  failed : String → ActionAnswer

abbrev succeeded : Option ℕ → Bool
succeeded none = false
succeeded (some code) = nat_eq code 0

-- The name of the script and the text on its error channel are parts of the messages that are left out.
unfoldable pub local_script_ends : ℕ → LocalScriptResult → ActionAnswer
local_script_ends timeout_ms r =
    if r.timed_out
    then failed (append "Script timed out after " (append (show_nat timeout_ms) "ms"))
    else if not (succeeded r.exit_code)
    then failed (
        append "Script exited with code "
          (elim r.exit_code [ none ↦ "null" | some c ↦ show_nat c ]))
    else answered r.stdout

-- `response.ok`.
unfoldable pub webhook_ends : ℕ → String → ActionAnswer
webhook_ends status body =
    if leb 200 status && leb status 299
    then answered body
    else failed (append "Webhook action failed with status " (show_nat status))

abbrev as_bool : Value → Option Bool
as_bool (bool b) = some b
as_bool _ = none

abbrev as_text : Value → Option String
as_text (str s) = some s
as_text _ = none

-- An array counts as an object.
abbrev as_object : Value → Option Fields
as_object v = if is_record v then some (fields_of v) else none

decision_of : Fields → Option GuardDecision
decision_of value = elim (as_bool (get_field "block" value)) [
  | none ↦ elim (as_object (get_field "params" value)) [
    | none ↦ none
    | some params ↦ some (record {
      block = none;
      block_reason = as_text (get_field "blockReason" value);
      params = some params;
      block_reason_template = as_text (get_field "blockReasonTemplate" value);
    })
  ]
  | some block ↦ some (record {
    block = some block;
    block_reason = as_text (get_field "blockReason" value);
    params = as_object (get_field "params" value);
    block_reason_template = as_text (get_field "blockReasonTemplate" value);
  })
]

-- `JSON.parse` gives `none` where it throws.
unfoldable pub parse_hook_bridge_decision : (String → Option Value) → String → Option GuardDecision
unfolding decision_of
parse_hook_bridge_decision parse_json raw =
    if trim raw == "" then none else elim (parse_json (trim raw)) [
      | none ↦ none
      | some parsed ↦ if is_record parsed then decision_of (fields_of parsed) else none
    ]
