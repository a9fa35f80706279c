-- ===== src/Transport/Recovery.antt =====
-- transport/manager-recovery.ts: the state updates after a failed attempt to take the lock.
use openclaw_event_server_pl.Common.{ℕ, min, max, String, Option, none, some, append, show_nat}
use openclaw_event_server_pl.Transport.Config.{TransportConfig}
use openclaw_event_server_pl.Transport.Lock.{LockFilePayload}
use openclaw_event_server_pl.Transport.Ownership.{
  AcquireResult, acquired, live_owner, busy_lock, failed,
}

unfoldable pub get_live_owner_recovery_delay_ms : TransportConfig → ℕ
get_live_owner_recovery_delay_ms config =
    max config.reconnect_backoff_ms (min config.lock_stale_ms (max config.heartbeat_ms 1000))

pub record FailureState : Type 0 where
  pub last_live_owner_conflict_key : Option String
  pub next_owner_recovery_delay_ms : ℕ

-- `${runtimeId}:${pid}` of the lock's owner.
unfoldable pub conflict_key : LockFilePayload → String
conflict_key p = append p.runtime_id (append ":" (show_nat p.pid))

-- The log line that is written once for each owner is left out. `acquired` is no failure.
unfoldable pub resolve_owner_acquire_failure : TransportConfig → AcquireResult → FailureState
resolve_owner_acquire_failure config (live_owner held) = record {
  last_live_owner_conflict_key = some (conflict_key held);
  next_owner_recovery_delay_ms = get_live_owner_recovery_delay_ms config;
}
resolve_owner_acquire_failure config busy_lock = record {
  last_live_owner_conflict_key = none;
  next_owner_recovery_delay_ms = config.reconnect_backoff_ms;
}
resolve_owner_acquire_failure config failed = record {
  last_live_owner_conflict_key = none;
  next_owner_recovery_delay_ms = config.reconnect_backoff_ms;
}
resolve_owner_acquire_failure config acquired = record {
  last_live_owner_conflict_key = none;
  next_owner_recovery_delay_ms = config.reconnect_backoff_ms;
}
