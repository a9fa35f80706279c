-- ===== src/Transport/Manager/Invariant.antt =====
-- What holds of a transport manager at all times (transport/manager.ts).
use openclaw_event_server_pl.Common.{
  ◌≤◌, max, Bool, true, false, Option, none, [], ◌∷◌, ◌≡◌, ◌⊎◌, inl, inr, arith, is_some, length,
  shift, if◌then◌else◌, length-append, length-shift,
}
use openclaw_event_server_pl.Events.{OpenClawEvent}
use openclaw_event_server_pl.Transport.Protocol.{owner, follower}
use openclaw_event_server_pl.Transport.Lock.{LockFile}
use openclaw_event_server_pl.Transport.Manager.{
  Setup, Env, Manager, is_follower_mode, is_flushing, initial, schedule_flush,
  schedule_owner_recovery, try_become_owner, wait_for_ownership, start, process_owner_event,
  enqueue_for_follower_relay, finish_flush, flush_loop, flush_pending_follower_events, retry_fires,
  processed, processing_fails, relayed, retry_later, relay_fails, handle_owner_failure,
  recovery_fires, finish_stop, stop,
}
use openclaw_event_server_pl.Transport.Manager.Frames.{
  SameFlush, SameOwnership, Attempt, try_become_owner-Attempt,
}

-- Who may own the transport, and that an owner-intended runtime does not give up.
pub record OwnershipInv (s : Setup) (m : Manager) : Type 0 where
  -- Only an owner holds the lock, serves the relay socket and sends heartbeats.
  pub lock_role : m.owns_lock ≡ true → m.role ≡ owner
  pub server_role : m.server ≡ true → m.role ≡ owner
  pub heartbeat_role : m.heartbeat_timer ≡ true → m.role ≡ owner
  -- An owner that is not stopped holds the lock.
  pub role_lock : m.role ≡ owner → (m.owns_lock ≡ true) ⊎ (m.stopped ≡ true)
  -- `stop` waits only when it has been called.
  pub closing_stopped : m.closing ≡ true → m.stopped ≡ true
  -- A runtime in follower mode never owns, and schedules no attempt to.
  pub follower_mode :
      is_follower_mode s.config.mode ≡ true
      → (m.role ≡ follower) × (is_some m.owner_recovery_timer ≡ false)
  -- Any other that is a follower and not stopped has a recovery attempt scheduled.
  pub recovering :
      is_follower_mode s.config.mode ≡ false
      → m.role ≡ follower
      → m.stopped ≡ false
      → is_some m.owner_recovery_timer ≡ true

-- The pending events are bounded, and are on their way unless the manager is stopped.
pub record FlushInv (s : Setup) (m : Manager) : Type 0 where
  pub bounded : length m.pending_events ≤ max 1 s.config.max_pending_events
  pub awake :
      m.stopped ≡ false
      → (m.pending_events ≡ []) ⊎ ((is_flushing m.flight ≡ true) ⊎ (is_some m.retry_timer ≡ true))

module _ (s : Setup) where
  finish_flush-FlushInv :
      (m : Manager)
      → length m.pending_events ≤ max 1 s.config.max_pending_events
      → FlushInv s (finish_flush s m)
  unfolding finish_flush
  finish_flush-FlushInv m h = ground arith

  flush_loop-FlushInv :
      (env : Env) (m : Manager)
      → length m.pending_events ≤ max 1 s.config.max_pending_events
      → FlushInv s (flush_loop s env m)
  unfolding flush_loop process_owner_event
  flush_loop-FlushInv env m h = ground (arith, finish_flush-FlushInv m)

  finish_flush-SameOwnership : (m : Manager) → SameOwnership m (finish_flush s m)
  unfolding finish_flush
  finish_flush-SameOwnership m = ground arith

  flush_loop-SameOwnership : (env : Env) (m : Manager) → SameOwnership m (flush_loop s env m)
  unfolding flush_loop process_owner_event
  flush_loop-SameOwnership env m = ground (arith, finish_flush-SameOwnership m)

  pub SameOwnership-Inv :
      (m m' : Manager) → SameOwnership m m' → OwnershipInv s m → OwnershipInv s m'
  SameOwnership-Inv m m' f v = ground arith

  pub SameFlush-Inv : (m m' : Manager) → SameFlush m m' → FlushInv s m → FlushInv s m'
  SameFlush-Inv m m' f v = ground arith

  pub start-OwnershipInv :
      (env : Env) (f : Option LockFile) (socket : Bool)
      → OwnershipInv s (start s env (initial f socket))
  unfolding start initial wait_for_ownership
  start-OwnershipInv env f socket =
      ground (arith, try_become_owner-Attempt s env (record (initial f socket) { stopped = false }))

  pub start-FlushInv :
      (env : Env) (f : Option LockFile) (socket : Bool)
      → FlushInv s (start s env (initial f socket))
  unfolding start initial wait_for_ownership
  start-FlushInv env f socket =
      ground (arith, try_become_owner-Attempt s env (record (initial f socket) { stopped = false }))

  pub enqueue-FlushInv :
      (e : OpenClawEvent) (m : Manager)
      → FlushInv s m
      → FlushInv s (enqueue_for_follower_relay s e m)
  unfolding enqueue_for_follower_relay
  enqueue-FlushInv e m v = ground (
    arith,
    length-append m.pending_events (e ∷ []),
    length-append (shift m.pending_events) (e ∷ []),
    length-shift m.pending_events,
  )

  pub enqueue-SameOwnership :
      (e : OpenClawEvent) (m : Manager) → SameOwnership m (enqueue_for_follower_relay s e m)
  unfolding enqueue_for_follower_relay
  enqueue-SameOwnership e m = ground arith

  pub failure-OwnershipInv :
      (env : Env) (m : Manager) → OwnershipInv s m → OwnershipInv s (handle_owner_failure s env m)
  unfolding handle_owner_failure
  failure-OwnershipInv env m v = ground arith

  pub failure-FlushInv :
      (env : Env) (m : Manager) → FlushInv s m → FlushInv s (handle_owner_failure s env m)
  unfolding handle_owner_failure
  failure-FlushInv env m v = ground arith

  -- The manager after an attempt, which schedules another one if it has failed.
  attempted-OwnershipInv :
      (m : Manager) (r : Bool × Manager)
      → is_follower_mode s.config.mode ≡ false
      → m.role ≡ follower
      → OwnershipInv s m
      → Attempt (record m { owner_recovery_timer = none }) r
      → OwnershipInv s
          (if r.0 then r.1 else schedule_owner_recovery s s.config.reconnect_backoff_ms r.1)
  unfolding schedule_owner_recovery
  attempted-OwnershipInv m r mode role v a = ground arith

  pub recovery-OwnershipInv :
      (env : Env) (m : Manager) → OwnershipInv s m → OwnershipInv s (recovery_fires s env m)
  unfolding recovery_fires
  recovery-OwnershipInv env m v =
      let fired = record m { owner_recovery_timer = none } in
      ground (
        arith,
        attempted-OwnershipInv m (try_become_owner s env fired),
        try_become_owner-Attempt s env fired,
      )

  pub recovery-FlushInv :
      (env : Env) (m : Manager) → FlushInv s m → FlushInv s (recovery_fires s env m)
  unfolding recovery_fires
  recovery-FlushInv env m v =
      ground (arith, try_become_owner-Attempt s env (record m { owner_recovery_timer = none }))

  -- The manager after an attempt that leaves the recovery timer alone.
  promoted-OwnershipInv :
      (m : Manager) (r : Bool × Manager)
      → is_follower_mode s.config.mode ≡ false
      → m.role ≡ follower
      → OwnershipInv s m
      → Attempt m r
      → OwnershipInv s r.1
  promoted-OwnershipInv m r mode role v a = ground arith

  retry_later-SameOwnership : (m : Manager) → SameOwnership m (retry_later s m)
  unfolding retry_later
  retry_later-SameOwnership m =
      ground (arith, finish_flush-SameOwnership (schedule_flush s.config.reconnect_backoff_ms m))

  retry_later-FlushInv :
      (m : Manager)
      → length m.pending_events ≤ max 1 s.config.max_pending_events
      → FlushInv s (retry_later s m)
  unfolding retry_later schedule_flush
  retry_later-FlushInv m h =
      finish_flush-FlushInv (schedule_flush s.config.reconnect_backoff_ms m) (ground arith)

  -- How a failed relay goes on: it tries again later, or, where it may, as the owner or later.
  abbrev After : Env → Manager → Manager → Type 0
  After env m m' =
      (m' ≡ m)
      ⊎ ((m' ≡ retry_later s m)
          ⊎ ((is_follower_mode s.config.mode ≡ false)
              × (m.role ≡ follower)
              × ((m' ≡ flush_loop s env (try_become_owner s env m).1)
                  ⊎ (m' ≡ retry_later s (try_become_owner s env m).1))))

  relay_fails_cases : (env : Env) (m : Manager) → After env m (relay_fails s env m)
  unfolding relay_fails
  relay_fails_cases env m = ground arith

  pub relay_fails-OwnershipInv :
      (env : Env) (m : Manager) → OwnershipInv s m → OwnershipInv s (relay_fails s env m)
  relay_fails-OwnershipInv env m v = elim (relay_fails_cases env m) [
    | inl e ↦ rw e v
    | inr (inl e) ↦ rw e (SameOwnership-Inv m _ (retry_later-SameOwnership m) v)
    | inr (inr (mode, role, how)) ↦ promoted mode role how
  ]
    where
      promoted :
          is_follower_mode s.config.mode ≡ false
          → m.role ≡ follower
          → (relay_fails s env m ≡ flush_loop s env (try_become_owner s env m).1)
            ⊎ (relay_fails s env m ≡ retry_later s (try_become_owner s env m).1)
          → OwnershipInv s (relay_fails s env m)
      promoted mode role how =
          let r = try_become_owner s env m in
          let v' = promoted-OwnershipInv m r mode role v (try_become_owner-Attempt s env m) in
          elim how [
            | inl e ↦ rw e (SameOwnership-Inv r.1 _ (flush_loop-SameOwnership env r.1) v')
            | inr e ↦ rw e (SameOwnership-Inv r.1 _ (retry_later-SameOwnership r.1) v')
          ]

  pub relay_fails-FlushInv :
      (env : Env) (m : Manager) → FlushInv s m → FlushInv s (relay_fails s env m)
  relay_fails-FlushInv env m v =
      let same = (try_become_owner-Attempt s env m).flush in
      elim (relay_fails_cases env m) [
        | inl e ↦ rw e v
        | inr (inl e) ↦ rw e (retry_later-FlushInv m v.bounded)
        | inr (inr (mode, role, inl e)) ↦
            rw e (flush_loop-FlushInv env _ (rw same.pending v.bounded))
        | inr (inr (mode, role, inr e)) ↦ rw e (retry_later-FlushInv _ (rw same.pending v.bounded))
      ]

  pub stop-OwnershipInv :
      (env : Env) (m : Manager) → OwnershipInv s m → OwnershipInv s (stop s env m)
  unfolding stop finish_stop
  stop-OwnershipInv env m v = ground arith

  pub stop-FlushInv : (env : Env) (m : Manager) → FlushInv s m → FlushInv s (stop s env m)
  unfolding stop finish_stop
  stop-FlushInv env m v = ground arith

  -- The handlers that touch only the flush, and those that touch only the ownership.
  pub relayed-SameOwnership : (env : Env) (m : Manager) → SameOwnership m (relayed s env m)
  unfolding relayed
  relayed-SameOwnership env m =
      ground
        (arith, flush_loop-SameOwnership env (record m { pending_events = shift m.pending_events }))

  pub relayed-FlushInv : (env : Env) (m : Manager) → FlushInv s m → FlushInv s (relayed s env m)
  unfolding relayed
  relayed-FlushInv env m v = ground (
    arith,
    flush_loop-FlushInv env (record m { pending_events = shift m.pending_events }),
    length-shift m.pending_events,
  )

  pub processed-SameOwnership : (env : Env) (m : Manager) → SameOwnership m (processed s env m)
  unfolding processed
  processed-SameOwnership env m = ground (arith, flush_loop-SameOwnership env m)

  pub processed-FlushInv : (env : Env) (m : Manager) → FlushInv s m → FlushInv s (processed s env m)
  unfolding processed
  processed-FlushInv env m v = ground (arith, flush_loop-FlushInv env m)

  pub throws-SameOwnership : (m : Manager) → SameOwnership m (processing_fails s m)
  unfolding processing_fails
  throws-SameOwnership m = ground (arith, finish_flush-SameOwnership m)

  pub throws-FlushInv : (m : Manager) → FlushInv s m → FlushInv s (processing_fails s m)
  unfolding processing_fails
  throws-FlushInv m v = ground (arith, finish_flush-FlushInv m)

  pub retry-SameOwnership : (env : Env) (m : Manager) → SameOwnership m (retry_fires s env m)
  unfolding retry_fires flush_pending_follower_events
  retry-SameOwnership env m =
      ground (arith, flush_loop-SameOwnership env (record m { retry_timer = none }))

  pub retry-FlushInv : (env : Env) (m : Manager) → FlushInv s m → FlushInv s (retry_fires s env m)
  unfolding retry_fires flush_pending_follower_events
  retry-FlushInv env m v = ground (arith, flush_loop-FlushInv env (record m { retry_timer = none }))
