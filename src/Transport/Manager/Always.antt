-- ===== src/Transport/Manager/Always.antt =====
-- The invariants of the transport manager, kept by every input (transport/manager.ts).
use openclaw_event_server_pl.Common.{none, arith}
use openclaw_event_server_pl.Transport.Protocol.{local, relay, clone_event_with_transport_metadata}
use openclaw_event_server_pl.Events.{OpenClawEvent}
use openclaw_event_server_pl.Transport.Manager.{
  Setup, Env, Manager, dispatch, heartbeat_fires, write_heartbeat, relay_arrives, server_closes,
  finish_stop,
}
use openclaw_event_server_pl.Transport.Manager.Frames.{
  write_heartbeat-SameFlush, process_owner_event-frame,
}
use openclaw_event_server_pl.Transport.Manager.Invariant.{
  OwnershipInv, FlushInv, SameOwnership-Inv, SameFlush-Inv, start-OwnershipInv, start-FlushInv,
  enqueue-FlushInv, enqueue-SameOwnership, failure-OwnershipInv, failure-FlushInv,
  recovery-OwnershipInv, recovery-FlushInv, relay_fails-OwnershipInv, relay_fails-FlushInv,
  stop-OwnershipInv, stop-FlushInv, relayed-SameOwnership, relayed-FlushInv,
  processed-SameOwnership, processed-FlushInv, throws-SameOwnership, throws-FlushInv,
  retry-SameOwnership, retry-FlushInv,
}
use openclaw_event_server_pl.Transport.Manager.Steps.{
  Input, dispatches, stops, retry_timer_fires, recovery_timer_fires, heartbeat_timer_fires,
  relay_event, server_fails, server_closed, owner_event_done, owner_event_throws,
  relay_acknowledged, relay_rejected, step, Reach, started, next,
}

abbrev Inv : Setup → Manager → Type 0
Inv s m = OwnershipInv s m × FlushInv s m

module _ (s : Setup) where
  dispatch-Inv :
      (env : Env) (e : OpenClawEvent) (m : Manager) → Inv s m → Inv s (dispatch s env e m)
  unfolding dispatch
  dispatch-Inv env e m v =
      let annotated = clone_event_with_transport_metadata s.host s.runtime_id m.role local none e in
      let frame = process_owner_event-frame s env annotated local m in
      ground (
        arith,
        SameOwnership-Inv s m _ (enqueue-SameOwnership s annotated m) v.0,
        enqueue-FlushInv s annotated m v.1,
        SameOwnership-Inv s m _ frame.1 v.0,
        SameFlush-Inv s m _ frame.0 v.1,
      )

  relay_arrives-Inv :
      (env : Env) (e : OpenClawEvent) (m : Manager) → Inv s m → Inv s (relay_arrives s env e m)
  unfolding relay_arrives
  relay_arrives-Inv env e m v =
      let frame = process_owner_event-frame s env _ relay m in
      (SameOwnership-Inv s m _ frame.1 v.0, SameFlush-Inv s m _ frame.0 v.1)

  heartbeat-Inv : (env : Env) (m : Manager) → Inv s m → Inv s (heartbeat_fires s env m)
  unfolding heartbeat_fires
  heartbeat-Inv env m v =
      let m' = (write_heartbeat s env m).1 in
      let frame = write_heartbeat-SameFlush s env m in
      let o = SameOwnership-Inv s m m' frame.1 v.0 in
      let f = SameFlush-Inv s m m' frame.0 v.1 in
      ground (arith, o, f, failure-OwnershipInv s env m' o, failure-FlushInv s env m' f)

  server_closes-Inv : (env : Env) (m : Manager) → Inv s m → Inv s (server_closes s env m)
  unfolding server_closes finish_stop
  server_closes-Inv env m v = ground arith

  -- Every input keeps the invariants.
  step-Inv : (env : Env) (i : Input) (m : Manager) → Inv s m → Inv s (step s env i m)
  unfolding step
  step-Inv env (dispatches e) m v = dispatch-Inv env e m v
  step-Inv env stops m v = (stop-OwnershipInv s env m v.0, stop-FlushInv s env m v.1)
  step-Inv env retry_timer_fires m v =
      (SameOwnership-Inv s m _ (retry-SameOwnership s env m) v.0, retry-FlushInv s env m v.1)
  step-Inv env recovery_timer_fires m v =
      (recovery-OwnershipInv s env m v.0, recovery-FlushInv s env m v.1)
  step-Inv env heartbeat_timer_fires m v = heartbeat-Inv env m v
  step-Inv env (relay_event e) m v = relay_arrives-Inv env e m v
  step-Inv env server_fails m v = (failure-OwnershipInv s env m v.0, failure-FlushInv s env m v.1)
  step-Inv env server_closed m v = server_closes-Inv env m v
  step-Inv env owner_event_done m v = (
    SameOwnership-Inv s m _ (processed-SameOwnership s env m) v.0,
    processed-FlushInv s env m v.1,
  )
  step-Inv env owner_event_throws m v =
      (SameOwnership-Inv s m _ (throws-SameOwnership s m) v.0, throws-FlushInv s m v.1)
  step-Inv env relay_acknowledged m v =
      (SameOwnership-Inv s m _ (relayed-SameOwnership s env m) v.0, relayed-FlushInv s env m v.1)
  step-Inv env relay_rejected m v =
      (relay_fails-OwnershipInv s env m v.0, relay_fails-FlushInv s env m v.1)

pub Reach-Inv : {s : Setup} {m : Manager} → Reach s m → Inv s m
Reach-Inv {s} (started env f socket) =
    (start-OwnershipInv s env f socket, start-FlushInv s env f socket)
Reach-Inv {s} (next {m} r env i) = step-Inv s env i m (Reach-Inv r)
