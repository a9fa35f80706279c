-- ===== src/Transport/Ownership.antt =====
-- transport/ownership.ts: taking, refreshing and giving up the owner lock. One call runs without a
-- break in its own process; `reclaim` is the part that follows the decision that a lock is stale.
pub mod Exclusion
use openclaw_event_server_pl.Common.{
  ℕ, String, Bool, true, false, not, Option, none, some, if◌then◌else◌,
}
use openclaw_event_server_pl.Transport.Config.{TransportConfig}
use openclaw_event_server_pl.Transport.Lock.{
  LockFilePayload, LockFile, Os, WriteFault, CreateResult, created, already_exists, io_error,
  read_lock_payload, is_process_alive, write_new_lock, overwrite_lock, is_lock_stale,
  remove_lock_if_owned,
}

pub data AcquireResult : Type 0 where
  acquired : AcquireResult
  live_owner : LockFilePayload → AcquireResult
  busy_lock : AcquireResult
  failed : AcquireResult

-- The errors that the calls on the file system meet.
pub record Faults : Type 0 where
  pub first_create : WriteFault
  pub unlink : Bool
  pub second_create : WriteFault
  pub heartbeat : WriteFault
  pub release : Bool

unfoldable pub build_lock_payload : Os → String → String → LockFilePayload
build_lock_payload os runtime_id socket_path = record {
  runtime_id = runtime_id;
  pid = os.pid;
  updated_at = os.now;
  socket_path = socket_path;
}

after_create : CreateResult × Option LockFile → AcquireResult × Option LockFile
after_create (created, f) = (acquired, f)
after_create (already_exists, f) = (failed, f)
after_create (io_error, f) = (failed, f)

-- The stale lock is unlinked and a new one is created; unlinking a missing file fails.
unfoldable pub reclaim :
    Os → Faults → LockFilePayload → Option LockFile → AcquireResult × Option LockFile
unfolding after_create
reclaim os faults p none = (failed, none)
reclaim os faults p (some f) =
    if faults.unlink
    then (failed, some f)
    else after_create (write_new_lock os faults.second_create p none)

-- The lock exists: is its owner alive, or the lock fresh?
unfoldable pub contend :
    Os
    → Faults
    → TransportConfig
    → LockFilePayload
    → Option LockFile
    → AcquireResult × Option LockFile
contend os faults config p f = elim (read_lock_payload f) [
  | none ↦
      if not (is_lock_stale os config.lock_stale_ms f)
      then (busy_lock, f)
      else reclaim os faults p f
  | some held ↦
      if is_process_alive os held.pid
      then (live_owner held, f)
      else if not (is_lock_stale os config.lock_stale_ms f)
      then (busy_lock, f)
      else reclaim os faults p f
]

first_attempt :
    Os
    → Faults
    → TransportConfig
    → LockFilePayload
    → CreateResult × Option LockFile
    → AcquireResult × Option LockFile
first_attempt os faults config p (created, f) = (acquired, f)
first_attempt os faults config p (already_exists, f) = contend os faults config p f
first_attempt os faults config p (io_error, f) = (failed, f)

unfoldable pub acquire_transport_lock :
    Os → Faults → TransportConfig → String → Option LockFile → AcquireResult × Option LockFile
unfolding first_attempt build_lock_payload
acquire_transport_lock os faults config runtime_id f =
    let p = build_lock_payload os runtime_id config.socket_path in
    first_attempt os faults config p (write_new_lock os faults.first_create p f)

unfoldable pub write_transport_heartbeat :
    Os → Faults → TransportConfig → String → Option LockFile → Bool × Option LockFile
unfolding build_lock_payload
write_transport_heartbeat os faults config runtime_id f =
    overwrite_lock os faults.heartbeat (build_lock_payload os runtime_id config.socket_path) f

unfoldable pub release_transport_lock : Faults → String → Option LockFile → Option LockFile
release_transport_lock faults runtime_id f = remove_lock_if_owned faults.release runtime_id f

-- The socket path is cleared, but for a pipe of Windows.
unfoldable pub prepare_transport_socket_path : Bool → Bool → Bool
prepare_transport_socket_path windows present = if windows then present else false

unfoldable pub cleanup_transport_socket_path : Bool → Bool → Bool
cleanup_transport_socket_path windows present = if windows then present else false
