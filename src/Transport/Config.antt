-- ===== src/Transport/Config.antt =====
-- config/config-types.ts, the transport part: the settings of the single-owner transport. Times are
-- milliseconds.
use openclaw_event_server_pl.Common.{ℕ, String, Bool, Option}

pub data TransportMode : Type 0 where
  auto owner follower : TransportMode

pub record TransportConfig : Type 0 where
  pub mode : TransportMode
  pub lock_path : String
  pub socket_path : String
  pub lock_stale_ms : ℕ
  pub heartbeat_ms : ℕ
  pub relay_timeout_ms : ℕ
  pub reconnect_backoff_ms : ℕ
  pub max_pending_events : ℕ
  pub max_payload_bytes : ℕ
  pub auth_token : Option String
  pub dedupe_ttl_ms : ℕ
  pub semantic_dedupe_enabled : Bool
