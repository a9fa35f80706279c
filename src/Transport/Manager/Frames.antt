-- ===== src/Transport/Manager/Frames.antt =====
-- What the parts of the transport manager's handlers change, and what they leave as it is
-- (transport/manager.ts).
use openclaw_event_server_pl.Common.{Bool, true, false, Option, ◌≡◌, arith}
use openclaw_event_server_pl.Events.{OpenClawEvent}
use openclaw_event_server_pl.Transport.Protocol.{owner, follower, Route}
use openclaw_event_server_pl.Transport.Lock.{LockFile}
use openclaw_event_server_pl.Transport.Ownership.{
  AcquireResult, acquired, live_owner, busy_lock, failed, acquire_transport_lock,
}
use openclaw_event_server_pl.Transport.Manager.{
  Setup, Env, Manager, try_become_owner, after_acquire, write_heartbeat, process_owner_event,
}

-- The queue of pending events and its flush are as they were.
pub record SameFlush (m m' : Manager) : Type 0 where
  pub pending : m'.pending_events ≡ m.pending_events
  pub flight : m'.flight ≡ m.flight
  pub retry : m'.retry_timer ≡ m.retry_timer
  pub stopped : m'.stopped ≡ m.stopped
  pub closing : m'.closing ≡ m.closing

-- The ownership, its timers and its server are as they were.
pub record SameOwnership (m m' : Manager) : Type 0 where
  pub role : m'.role ≡ m.role
  pub owns_lock : m'.owns_lock ≡ m.owns_lock
  pub server : m'.server ≡ m.server
  pub heartbeat : m'.heartbeat_timer ≡ m.heartbeat_timer
  pub recovery : m'.owner_recovery_timer ≡ m.owner_recovery_timer
  pub stopped : m'.stopped ≡ m.stopped
  pub closing : m'.closing ≡ m.closing

-- A successful attempt makes the runtime the owner; a failed one makes it a follower, and changes no
-- timer and no lock of its own.
pub record Attempt (m : Manager) (r : Bool × Manager) : Type 0 where
  pub flush : SameFlush m r.1
  pub won : r.0 ≡ true → (r.1.role ≡ owner) × (r.1.owns_lock ≡ true) × (r.1.server ≡ true)
  pub lost :
      r.0 ≡ false
      → (r.1.role ≡ follower)
        × (r.1.owns_lock ≡ m.owns_lock)
        × (r.1.server ≡ m.server)
        × (r.1.heartbeat_timer ≡ m.heartbeat_timer)
        × (r.1.owner_recovery_timer ≡ m.owner_recovery_timer)

module _ (s : Setup) where
  after_acquire-Attempt :
      (env : Env) (result : AcquireResult) (f : Option LockFile) (m : Manager)
      → Attempt m (after_acquire s env (result, f) m)
  unfolding after_acquire
  after_acquire-Attempt env acquired f m = ground arith
  after_acquire-Attempt env (live_owner p) f m = ground arith
  after_acquire-Attempt env busy_lock f m = ground arith
  after_acquire-Attempt env failed f m = ground arith

  pub try_become_owner-Attempt : (env : Env) (m : Manager) → Attempt m (try_become_owner s env m)
  unfolding try_become_owner
  try_become_owner-Attempt env m =
      let r = acquire_transport_lock env.os env.faults s.config s.runtime_id m.lock_file in
      after_acquire-Attempt env r.0 r.1 m

  pub write_heartbeat-SameFlush :
      (env : Env) (m : Manager)
      → SameFlush m (write_heartbeat s env m).1 × SameOwnership m (write_heartbeat s env m).1
  unfolding write_heartbeat
  write_heartbeat-SameFlush env m = ground arith

  pub process_owner_event-frame :
      (env : Env) (e : OpenClawEvent) (route : Route) (m : Manager)
      → SameFlush m (process_owner_event s env e route m)
        × SameOwnership m (process_owner_event s env e route m)
  unfolding process_owner_event
  process_owner_event-frame env e route m = ground arith
