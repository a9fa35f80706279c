-- ===== src/Tests/OwnershipTests.antt =====
-- Tests and examples of the owner lock.
use openclaw_event_server_pl.Common.{ℕ, none, some, ◌≡◌, refl, arith}
use openclaw_event_server_pl.Events.{get_field, fields_of}
use openclaw_event_server_pl.Transport.Lock.{
  LockFilePayload, LockFile, payload_value, parse_lock_payload, read_lock_payload, is_process_alive,
  write_new_lock, overwrite_lock, remove_lock_if_owned, is_lock_stale,
}
use openclaw_event_server_pl.Transport.Ownership.{
  acquired, live_owner, build_lock_payload, reclaim, contend, acquire_transport_lock,
  write_transport_heartbeat, release_transport_lock,
}
use openclaw_event_server_pl.Transport.Ownership.Exclusion.{acquire_excludes, reclaim_race}
use openclaw_event_server_pl.Tests.Data.{config, os_of, no_faults}

payload_of_process : ℕ → LockFilePayload
payload_of_process pid = record {
  runtime_id = "r9";
  pid = pid;
  updated_at = 100;
  socket_path = "/tmp/sock";
}

abbrev file_of : ℕ → LockFile
file_of pid = record { contents = some (payload_value (payload_of_process pid)); mtime = 100 }

broken_file : LockFile
broken_file = record { contents = none; mtime = 100 }

locks : Unit {0}
unfolding read_lock_payload parse_lock_payload payload_value get_field fields_of is_process_alive
    write_new_lock acquire_transport_lock contend is_lock_stale reclaim release_transport_lock
    remove_lock_if_owned write_transport_heartbeat overwrite_lock build_lock_payload
locks = tt

read_file : (pid : ℕ) → read_lock_payload (some (file_of pid)) ≡ some (payload_of_process pid)
unfolding locks
read_file pid = refl

fresh_acquired : (acquire_transport_lock (os_of 5 41) no_faults config "r1" none).0 ≡ acquired
unfolding locks
fresh_acquired = refl

acquire_excludes_example :
    let held = (acquire_transport_lock (os_of 5 41) no_faults config "r1" none).1 in
    acquire_transport_lock (os_of 6 42) no_faults config "r2" held
    ≡ (live_owner (build_lock_payload (os_of 5 41) "r1" "/tmp/sock"), held)
unfolding is_process_alive
acquire_excludes_example =
    acquire_excludes (os_of 5 41) (os_of 6 42) no_faults no_faults config config "r1" "r2" none
      fresh_acquired (ground arith) refl

reclaim_race_example :
    let p' = build_lock_payload (os_of 102 42) "r2" "/tmp/sock" in
    let first = acquire_transport_lock (os_of 101 41) no_faults config "r1" (some (file_of 7)) in
    let second = reclaim (os_of 102 42) no_faults p' first.1 in
    (contend (os_of 102 42) no_faults config p' (some (file_of 7))
      ≡ reclaim (os_of 102 42) no_faults p' (some (file_of 7)))
    × (first.0 ≡ acquired)
    × (second.0 ≡ acquired)
    × (read_lock_payload second.1 ≡ some p')
unfolding is_process_alive payload_of_process
reclaim_race_example =
    reclaim_race (os_of 101 41) (os_of 102 42) no_faults no_faults config config "r1" "r2"
      (file_of 7) (payload_of_process 7) (read_file 7) refl refl refl refl refl refl refl
