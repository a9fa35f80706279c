-- ===== src/Trackers/ToolCalls.antt =====
-- hooks/tool-hooks.ts, the ToolCallTracker: the running tool calls by their ids. A value that the host
-- passes for the parameters stays as it is; the random id of a call without one is an argument.
pub mod Lifecycle
use openclaw_event_server_pl.Common.{
  ℕ, ◌-◌, String, Option, none, some, List, [], get_or, if◌then◌else◌, ◌==◌, length,
}
use openclaw_event_server_pl.Common.JsMap.{JsMap}
use openclaw_event_server_pl.Common.JsMap
use openclaw_event_server_pl.Events.{Value}

-- The context of `startCall`; its fields are spread into the call.
pub record CallContext : Type 0 where
  pub run_id : Option String
  pub tool_call_id : Option String
  pub session_id : Option String
  pub session_key : Option String
  pub agent_id : Option String
  pub correlation_id : Option String

abbrev pub no_context : CallContext
no_context = record {
  run_id = none;
  tool_call_id = none;
  session_id = none;
  session_key = none;
  agent_id = none;
  correlation_id = none;
}

pub record ActiveCall : Type 0 where
  pub start_time : ℕ
  pub tool_name : String
  pub params : Value
  pub context : CallContext

abbrev pub Calls : Type 0
Calls = JsMap ActiveCall

-- None where the source throws; `random_uuid` is the id that the platform would draw.
unfoldable pub start_call :
    ℕ → String → String → Value → Option CallContext → Calls → Option (String × Calls)
start_call now random_uuid tool_name params context calls =
    let c = get_or context no_context in
    let call_id = get_or c.tool_call_id random_uuid in
    if tool_name == ""
    then none
    else some (
      call_id,
      JsMap.set call_id
          (record { start_time = now; tool_name = tool_name; params = params; context = c }) calls,
    )

-- What `endCall` returns: the duration and the call without its start.
pub record EndedCall : Type 0 where
  pub duration_ms : ℕ
  pub tool_name : String
  pub params : Value
  pub context : CallContext

-- The clock does not go back between the start of a call and its end.
unfoldable pub end_call : ℕ → String → Calls → Option EndedCall × Calls
end_call now call_id calls = elim (JsMap.get call_id calls) [
  | none ↦ (none, calls)
  | some call ↦ (
    some record {
      duration_ms = now - call.start_time;
      tool_name = call.tool_name;
      params = call.params;
      context = call.context;
    },
    JsMap.delete call_id calls,
  )
]

unfoldable pub get_call : String → Calls → Option (String × Value × CallContext)
get_call call_id calls = elim (JsMap.get call_id calls) [
  | none ↦ none
  | some call ↦ some (call.tool_name, call.params, call.context)
]

unfoldable pub get_active_call_count : Calls → ℕ
get_active_call_count calls = length calls

abbrev pub clear : Calls → Calls
clear calls = []
