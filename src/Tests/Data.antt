-- ===== src/Tests/Data.antt =====
-- Inputs that the tests share: events, settings, runtimes and what the operating system answers.
use openclaw_event_server_pl.Common.{ℕ, zero, suc, String, true, false, Option, none, some}
use openclaw_event_server_pl.Events.{undefined, str, obj, done, field, OpenClawEvent}
use openclaw_event_server_pl.Transport.Config.{TransportConfig, TransportMode}
use openclaw_event_server_pl.Transport.Protocol.{Host}
use openclaw_event_server_pl.Transport.Lock.{Os, Signal, sent, no_process, no_fault}
use openclaw_event_server_pl.Transport.Ownership.{Faults}
use openclaw_event_server_pl.Transport.Manager.{Setup, Env}

abbrev pub event_named : String → Option String → OpenClawEvent
event_named id tool_call = record {
  event_id = id;
  schema_version = "1.1.0";
  type = "tool.called";
  event_category = some "tool";
  event_name = some "before_tool_call";
  source = some "plugin-hook";
  timestamp = "2026-01-01T00:00:00.000Z";
  agent_id = none;
  agent_name = none;
  session_id = none;
  session_key = none;
  session_name = none;
  run_id = none;
  tool_call_id = tool_call;
  correlation_id = none;
  result = undefined;
  error = undefined;
  plugin_version = "1.0.0";
  signature = undefined;
  event_data = obj (field "toolName" (str "exec") done);
  metadata = undefined;
}

abbrev pub first_event : OpenClawEvent
first_event = event_named "e1" (some "call-1")

abbrev pub second_event : OpenClawEvent
second_event = event_named "e2" none

abbrev pub third_event : OpenClawEvent
third_event = event_named "e3" none

abbrev pub config_of : TransportMode → ℕ → TransportConfig
config_of mode max_pending = record {
  mode = mode;
  lock_path = "/tmp/lock";
  socket_path = "/tmp/sock";
  lock_stale_ms = 15000;
  heartbeat_ms = 5000;
  relay_timeout_ms = 2000;
  reconnect_backoff_ms = 1000;
  max_pending_events = max_pending;
  max_payload_bytes = 65536;
  auth_token = none;
  dedupe_ttl_ms = 1000;
  semantic_dedupe_enabled = true;
}

abbrev pub config : TransportConfig
config = config_of TransportMode.owner 2

-- Process 7 is dead, every other is alive.
abbrev pub signals : ℕ → Signal
signals (suc (suc (suc (suc (suc (suc (suc zero))))))) = no_process
signals _ = sent

abbrev pub os_of : ℕ → ℕ → Os
os_of now pid = record { now = now; pid = pid; signal = signals }

abbrev pub no_faults : Faults
no_faults = record {
  first_create = no_fault;
  unlink = false;
  second_create = no_fault;
  heartbeat = no_fault;
  release = false;
}

abbrev pub env_at : ℕ → Env
env_at now = record { os = os_of now 41; faults = no_faults }

abbrev pub host : Host
host = record { pid = 41; hostname = "alpha" }

abbrev pub setup_of : TransportMode → Setup
setup_of mode = record {
  config = config_of mode 2;
  runtime_id = "r1";
  host = host;
  windows = false;
}
