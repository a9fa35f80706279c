-- ===== src/Transport/Manager/Ownership.antt =====
-- Ownership over the life of a transport manager (transport/manager.ts).
use openclaw_event_server_pl.Common.{
  true, false, none, some, ◌≡◌, arith, is_some, shift, List, [], ◌∷◌,
}
use openclaw_event_server_pl.Events.{OpenClawEvent}
use openclaw_event_server_pl.Transport.Protocol.{owner, follower}
use openclaw_event_server_pl.Transport.Lock.{LockFilePayload, read_lock_payload}
use openclaw_event_server_pl.Transport.Ownership.Exclusion.{release_owned}
use openclaw_event_server_pl.Transport.Manager.{
  Setup, Env, Manager, sending, is_auto_mode, dispatch, try_become_owner, handle_owner_failure,
  recovery_fires, heartbeat_fires, relay_arrives, stop, server_closes, finish_stop, retry_fires,
  processed, processing_fails, relayed, relay_fails, retry_later, flush_loop, finish_flush,
  process_owner_event, enqueue_for_follower_relay,
}
use openclaw_event_server_pl.Transport.Manager.Frames.{try_become_owner-Attempt}
use openclaw_event_server_pl.Transport.Manager.Invariant.{OwnershipInv}
use openclaw_event_server_pl.Transport.Manager.Steps.{
  Input, dispatches, stops, retry_timer_fires, recovery_timer_fires, heartbeat_timer_fires,
  relay_event, server_fails, server_closed, owner_event_done, owner_event_throws,
  relay_acknowledged, relay_rejected, step, steps, Reach,
}
use openclaw_event_server_pl.Transport.Manager.Always.{Reach-Inv}

-- At every time in the life of a manager, whatever the order of its inputs: only an owner holds the
-- lock, has a relay server or sends heartbeats; an owner that is not stopped holds the lock; a runtime
-- in follower mode is a follower; and any other follower that is not stopped has a recovery attempt
-- scheduled.
pub Reach-OwnershipInv : {s : Setup} {m : Manager} → Reach s m → OwnershipInv s m
Reach-OwnershipInv r = (Reach-Inv r).0

-- An owner that fails becomes a follower without server, heartbeats or lock, keeps its pending events,
-- and has a recovery attempt scheduled; the lock file is gone if it named this runtime and its removal
-- does not fail.
pub failure_demotes :
    (s : Setup) (env : Env) (m : Manager)
    → OwnershipInv s m
    → m.role ≡ owner
    → m.stopped ≡ false
    → let m' = handle_owner_failure s env m in
      (m'.role ≡ follower)
      × (m'.server ≡ false)
      × (m'.heartbeat_timer ≡ false)
      × (m'.owns_lock ≡ false)
      × (m'.pending_events ≡ m.pending_events)
      × (is_some m'.owner_recovery_timer ≡ true)
      × ((p : LockFilePayload)
          → read_lock_payload m.lock_file ≡ some p
          → p.runtime_id ≡ s.runtime_id
          → env.faults.release ≡ false
          → m'.lock_file ≡ none)
unfolding handle_owner_failure
failure_demotes s env m v role running =
    (ground arith, ground arith, ground arith, ground arith, ground arith, ground arith, released)
  where
    released :
        (p : LockFilePayload)
        → read_lock_payload m.lock_file ≡ some p
        → p.runtime_id ≡ s.runtime_id
        → env.faults.release ≡ false
        → (handle_owner_failure s env m).lock_file ≡ none
    released p h e ok =
        let gone = (release_owned env.faults s.runtime_id m.lock_file).1 p h e ok in ground arith

-- A manager that is stopped and has let go of everything.
pub record IsQuiet (m : Manager) : Type 0 where
  pub stopped : m.stopped ≡ true
  pub no_lock : m.owns_lock ≡ false
  pub no_server : m.server ≡ false
  pub no_heartbeat : m.heartbeat_timer ≡ false
  pub no_retry : is_some m.retry_timer ≡ false
  pub no_recovery : is_some m.owner_recovery_timer ≡ false
  pub closed : m.closing ≡ false

-- Once the server is closed, a stopped manager has no timer, no server and no lock.
pub stop_releases :
    (s : Setup) (env later : Env) (m : Manager)
    → m.closing ≡ false
    → IsQuiet (server_closes s later (stop s env m))
unfolding stop server_closes finish_stop
stop_releases s env later m h = ground arith

module _ (s : Setup) (not_auto : is_auto_mode s.config.mode ≡ false) where
  flush_loop-IsQuiet : (env : Env) (m : Manager) → IsQuiet m → IsQuiet (flush_loop s env m)
  unfolding flush_loop process_owner_event
  flush_loop-IsQuiet env m q = ground arith

  step-IsQuiet : (env : Env) (i : Input) (m : Manager) → IsQuiet m → IsQuiet (step s env i m)
  unfolding step
  step-IsQuiet env (dispatches e) m q =
      unfold dispatch process_owner_event enqueue_for_follower_relay in ground arith
  step-IsQuiet env stops m q = unfold stop finish_stop in ground arith
  step-IsQuiet env retry_timer_fires m q = unfold retry_fires in ground arith
  step-IsQuiet env recovery_timer_fires m q = unfold recovery_fires in ground arith
  step-IsQuiet env heartbeat_timer_fires m q = unfold heartbeat_fires in ground arith
  step-IsQuiet env (relay_event e) m q = unfold relay_arrives process_owner_event in ground arith
  step-IsQuiet env server_fails m q = unfold handle_owner_failure in ground arith
  step-IsQuiet env server_closed m q = unfold server_closes in ground arith
  step-IsQuiet env owner_event_done m q =
      unfold processed in ground (arith, flush_loop-IsQuiet env m q)
  step-IsQuiet env owner_event_throws m q = unfold processing_fails finish_flush in ground arith
  step-IsQuiet env relay_acknowledged m q =
      unfold relayed in
      ground (arith, flush_loop-IsQuiet env (record m { pending_events = shift m.pending_events }))
  step-IsQuiet env relay_rejected m q = unfold relay_fails retry_later finish_flush in ground arith

  -- In the modes `owner` and `follower` a stop is final: whatever timers, callbacks and answers still
  -- arrive, the manager sets no timer, opens no server and takes no lock again.
  pub stop_is_final :
      (inputs : List (Env × Input)) (m : Manager) → IsQuiet m → IsQuiet (steps s inputs m)
  unfolding steps
  stop_is_final [] m q = q
  stop_is_final ((env, i) ∷ inputs) m q = stop_is_final inputs _ (step-IsQuiet env i m q)

-- In the mode `auto` it is not: if the relay that is under way when the manager is stopped fails, and
-- the lock is free, then the stopped manager takes the lock, opens its server and leaves both behind.
pub stop_undone_in_auto :
    (s : Setup) (env : Env) (m : Manager) (e : OpenClawEvent)
    → is_auto_mode s.config.mode ≡ true
    → IsQuiet m
    → m.role ≡ follower
    → m.flight ≡ sending e
    → (try_become_owner s env m).0 ≡ true
    → let m' = step s env relay_rejected m in
      (m'.stopped ≡ true) × (m'.owns_lock ≡ true) × (m'.server ≡ true) × (m'.role ≡ owner)
unfolding step relay_fails process_owner_event
stop_undone_in_auto s env m e auto q role flight won =
    ground (arith, try_become_owner-Attempt s env m)
