-- ===== src/Transport/Ownership/Exclusion.antt =====
-- Who owns the lock after an attempt to take it (transport/ownership.ts).
use openclaw_event_server_pl.Common.{
  ◌-◌, String, true, false, Option, none, some, ◌≡◌, ◌≢◌, arith, ltb, eq_iff,
}
use openclaw_event_server_pl.Transport.Config.{TransportConfig}
use openclaw_event_server_pl.Transport.Lock.{
  LockFilePayload, LockFile, Os, no_fault, before_open, read_lock_payload, is_process_alive,
  write_new_lock, overwrite_lock, is_lock_stale, remove_lock_if_owned, payload_value,
}
use openclaw_event_server_pl.Transport.Lock.Payload.{parse_lock_payload-payload_value}
use openclaw_event_server_pl.Transport.Ownership.{
  acquired, live_owner, busy_lock, Faults, build_lock_payload, reclaim, contend,
  acquire_transport_lock, write_transport_heartbeat, release_transport_lock,
}

abbrev Holds : Option LockFile → LockFilePayload → Type 0
Holds f p = read_lock_payload f ≡ some p

-- The file that a successful write leaves.
abbrev written : Os → LockFilePayload → Option LockFile
written os p = some (record { contents = some (payload_value p); mtime = os.now })

read-written : (os : Os) (p : LockFilePayload) → Holds (written os p) p
unfolding read_lock_payload
read-written os p = parse_lock_payload-payload_value p

-- A lock that is created names its creator.
reclaim_acquired :
    (os : Os) (faults : Faults) (p : LockFilePayload) (f : Option LockFile)
    → (reclaim os faults p f).0 ≡ acquired
    → Holds (reclaim os faults p f).1 p
unfolding reclaim write_new_lock
reclaim_acquired os faults p f h = ground (arith, read-written os p)

-- Whoever is told that the lock is acquired finds its own payload in the file.
pub acquired_holds :
    (os : Os) (faults : Faults) (config : TransportConfig) (id : String) (f : Option LockFile)
    → (acquire_transport_lock os faults config id f).0 ≡ acquired
    → read_lock_payload (acquire_transport_lock os faults config id f).1
      ≡ some (build_lock_payload os id config.socket_path)
unfolding acquire_transport_lock contend write_new_lock
acquired_holds os faults config id f h = ground (
  arith,
  reclaim_acquired os faults (build_lock_payload os id config.socket_path) f,
  read-written os (build_lock_payload os id config.socket_path),
)

-- A lock whose process is alive is never taken, however old it is: `lockStaleMs` plays no part.
pub live_lock_refused :
    (os : Os) (faults : Faults) (config : TransportConfig) (id : String) (f : LockFile)
    (held : LockFilePayload)
    → faults.first_create ≢ before_open
    → read_lock_payload (some f) ≡ some held
    → is_process_alive os held.pid ≡ true
    → acquire_transport_lock os faults config id (some f) ≡ (live_owner held, some f)
unfolding acquire_transport_lock write_new_lock contend
live_lock_refused os faults config id f held ne h alive = ground arith

-- A lock whose process is dead is replaced at once, however fresh it is, if no call fails.
pub dead_lock_reclaimed :
    (os : Os) (faults : Faults) (config : TransportConfig) (id : String) (f : LockFile)
    (held : LockFilePayload)
    → faults.first_create ≡ no_fault
    → faults.unlink ≡ false
    → faults.second_create ≡ no_fault
    → read_lock_payload (some f) ≡ some held
    → is_process_alive os held.pid ≡ false
    → (acquire_transport_lock os faults config id (some f)).0 ≡ acquired
unfolding acquire_transport_lock write_new_lock contend is_lock_stale reclaim
dead_lock_reclaimed os faults config id f held n1 n2 n3 h dead = ground arith

-- A lock that cannot be read is taken only when its file has not been written for `lockStaleMs`.
pub unreadable_lock :
    (os : Os) (faults : Faults) (config : TransportConfig) (id : String) (f : LockFile)
    → faults.first_create ≢ before_open
    → read_lock_payload (some f) ≡ none
    → ltb config.lock_stale_ms (os.now - f.mtime) ≡ false
    → acquire_transport_lock os faults config id (some f) ≡ (busy_lock, some f)
unfolding acquire_transport_lock write_new_lock contend is_lock_stale
unreadable_lock os faults config id f ne h fresh = ground arith

none_unread : (p : LockFilePayload) → read_lock_payload none ≢ some p
unfolding read_lock_payload
none_unread p e = cc

reclaim_held :
    (os : Os) (faults : Faults) (p held : LockFilePayload) (f : Option LockFile)
    → read_lock_payload f ≡ some held
    → faults.unlink ≡ false
    → faults.second_create ≡ no_fault
    → (reclaim os faults p f).0 ≡ acquired
unfolding reclaim write_new_lock
reclaim_held os faults p held none h u c = absurd (none_unread held h)
reclaim_held os faults p held (some f) h u c = ground arith

-- Two runtimes do not both own the lock: once one has acquired it, the attempt of any other that sees
-- its process alive is refused with the owner's name, and leaves the lock as it is.
pub acquire_excludes :
    (os os' : Os) (faults faults' : Faults) (config config' : TransportConfig) (id id' : String)
    (f : Option LockFile)
    → (acquire_transport_lock os faults config id f).0 ≡ acquired
    → faults'.first_create ≢ before_open
    → is_process_alive os' os.pid ≡ true
    → let held = (acquire_transport_lock os faults config id f).1 in
      acquire_transport_lock os' faults' config' id' held
      ≡ (live_owner (build_lock_payload os id config.socket_path), held)
acquire_excludes os os' faults faults' config config' id id' f h ne alive =
    go (acquire_transport_lock os faults config id f).1 (acquired_holds os faults config id f h)
  where
    go :
        (held : Option LockFile)
        → read_lock_payload held ≡ some (build_lock_payload os id config.socket_path)
        → acquire_transport_lock os' faults' config' id' held
          ≡ (live_owner (build_lock_payload os id config.socket_path), held)
    go none e = absurd (none_unread _ e)
    go (some g) e =
        live_lock_refused os' faults' config' id' g _ ne e (unfold build_lock_payload in alive)

-- A heartbeat that is written keeps the runtime's name and process in the lock, with the new time.
pub heartbeat_holds :
    (os : Os) (faults : Faults) (config : TransportConfig) (id : String) (f : Option LockFile)
    → (write_transport_heartbeat os faults config id f).0 ≡ true
    → read_lock_payload (write_transport_heartbeat os faults config id f).1
      ≡ some (build_lock_payload os id config.socket_path)
unfolding write_transport_heartbeat overwrite_lock
heartbeat_holds os faults config id f h =
    ground (arith, read-written os (build_lock_payload os id config.socket_path))

-- Giving up the lock leaves the lock of another runtime alone; its own, or one that cannot be read, it
-- removes unless the call fails.
pub release_owned :
    (faults : Faults) (id : String) (f : Option LockFile)
    → ((p : LockFilePayload)
        → read_lock_payload f ≡ some p
        → p.runtime_id ≢ id
        → release_transport_lock faults id f ≡ f)
      × ((p : LockFilePayload)
          → read_lock_payload f ≡ some p
          → p.runtime_id ≡ id
          → faults.release ≡ false
          → release_transport_lock faults id f ≡ none)
      × (read_lock_payload f ≡ none
          → faults.release ≡ false
          → release_transport_lock faults id f ≡ none)
unfolding release_transport_lock remove_lock_if_owned
release_owned faults id f = (
  λ p h ne. ground (arith, eq_iff p.runtime_id id),
  λ p h e ok. ground (arith, eq_iff p.runtime_id id),
  λ h ok. ground arith,
)

-- The check that a lock is stale and its removal are not one step. If a second runtime has found the
-- lock of a dead process and decided to reclaim it before the first has, then both are told that they
-- acquired the lock, and the first one's lock is gone.
pub reclaim_race :
    (os os' : Os) (faults faults' : Faults) (config config' : TransportConfig) (id id' : String)
    (f : LockFile) (dead : LockFilePayload)
    → read_lock_payload (some f) ≡ some dead
    → is_process_alive os dead.pid ≡ false
    → is_process_alive os' dead.pid ≡ false
    → faults.first_create ≡ no_fault
    → faults.unlink ≡ false
    → faults.second_create ≡ no_fault
    → faults'.unlink ≡ false
    → faults'.second_create ≡ no_fault
    → let p' = build_lock_payload os' id' config'.socket_path in
      let first = acquire_transport_lock os faults config id (some f) in
      let second = reclaim os' faults' p' first.1 in
      (contend os' faults' config' p' (some f) ≡ reclaim os' faults' p' (some f))
      × (first.0 ≡ acquired)
      × (second.0 ≡ acquired)
      × (read_lock_payload second.1 ≡ some p')
reclaim_race os os' faults faults' config config' id id' f dead h d d' n1 n2 n3 m2 m3 =
    let got = dead_lock_reclaimed os faults config id f dead n1 n2 n3 h d in
    let p' = build_lock_payload os' id' config'.socket_path in
    let taken =
      reclaim_held os' faults' p' _ _ (acquired_holds os faults config id (some f) got) m2 m3 in
    (
      unfold contend is_lock_stale in ground arith,
      got,
      taken,
      reclaim_acquired os' faults' p' _ taken,
    )
