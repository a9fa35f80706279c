-- ===== src/Transport/Manager/Relay.antt =====
-- The pending events over the life of a transport manager (transport/manager.ts).
use openclaw_event_server_pl.Common.{
  ℕ, zero, suc, ◌≤◌, ◌<◌, true, false, none, ◌≡◌, ◌≢◌, refl, arith, is_some, shift, List, [], ◌∷◌,
  ◌++◌, length, length-shift, leb, ap, ◌∙◌, if◌then◌else◌, ◌⊎◌, inl, inr,
}
use openclaw_event_server_pl.Events.{OpenClawEvent}
use openclaw_event_server_pl.Transport.Protocol.{
  owner, follower, local, clone_event_with_transport_metadata,
}
use openclaw_event_server_pl.Transport.Manager.{
  Setup, Env, Manager, sending, resting, processing, is_auto_mode, dispatch,
  enqueue_for_follower_relay, processed, relayed, relay_fails, retry_later, flush_loop,
  finish_flush, process_owner_event,
}
use openclaw_event_server_pl.Transport.Manager.Invariant.{FlushInv}
use openclaw_event_server_pl.Transport.Manager.Steps.{
  dispatches, owner_event_done, relay_acknowledged, relay_rejected, step, Reach,
}
use openclaw_event_server_pl.Transport.Manager.Always.{Reach-Inv}

-- At every time in the life of a manager there are at most `maxPendingEvents` pending events, or one
-- where that is 0; and as long as the manager is not stopped, pending events are being flushed or a
-- timer is set that will flush them.
pub Reach-FlushInv : {s : Setup} {m : Manager} → Reach s m → FlushInv s m
Reach-FlushInv r = (Reach-Inv r).1

-- What a follower puts into its queue.
abbrev pub annotated : Setup → OpenClawEvent → OpenClawEvent
annotated s e = clone_event_with_transport_metadata s.host s.runtime_id follower local none e

-- What a follower's dispatch does to the queue; it leaves the flush in flight as it is.
dispatch_pending :
    (s : Setup) (env : Env) (m : Manager) (e : OpenClawEvent)
    → m.role ≡ follower
    → let m' = dispatch s env e m in
      (m'.pending_events
        ≡ (if leb s.config.max_pending_events (length m.pending_events)
            then shift m.pending_events
            else m.pending_events)
          ++ annotated s e ∷ [])
      × (m'.role ≡ follower)
      × (m'.flight ≡ m.flight)
unfolding dispatch enqueue_for_follower_relay
dispatch_pending s env m e role = ground arith

-- An acknowledgement that a follower receives takes the first event out of the queue.
relayed_pending :
    (s : Setup) (env : Env) (m : Manager) (a : OpenClawEvent)
    → m.role ≡ follower
    → m.flight ≡ sending a
    → (relayed s env m).pending_events ≡ shift m.pending_events
unfolding relayed flush_loop finish_flush
relayed_pending s env m a role flight = ground arith

acknowledged_pending :
    (s : Setup) (env later : Env) (m : Manager) (e a : OpenClawEvent)
    → m.role ≡ follower
    → m.flight ≡ sending a
    → (relayed s later (dispatch s env e m)).pending_events
      ≡ shift (
          (if leb s.config.max_pending_events (length m.pending_events)
            then shift m.pending_events
            else m.pending_events)
          ++ annotated s e ∷ [])
acknowledged_pending s env later m e a role flight =
    let d = dispatch_pending s env m e role in
    relayed_pending s later (dispatch s env e m) a d.1 (d.2 ∙ flight) ∙ ap shift d.0

-- A follower's event that is dispatched while another is being relayed goes to the end of the queue,
-- and the acknowledgement removes the event that was relayed, if the queue had room.
pub acknowledged_in_order :
    (s : Setup) (env later : Env) (m : Manager) (e a : OpenClawEvent) (rest : List OpenClawEvent)
    → m.role ≡ follower
    → m.flight ≡ sending a
    → m.pending_events ≡ a ∷ rest
    → length m.pending_events < s.config.max_pending_events
    → (step s later relay_acknowledged (step s env (dispatches e) m)).pending_events
      ≡ rest ++ annotated s e ∷ []
unfolding step
acknowledged_in_order s env later m e a rest role flight pending room =
    ground (arith, acknowledged_pending s env later m e a role flight)

-- If the queue was full, the dispatched event pushes out the one that is being relayed, and the
-- acknowledgement then removes the next one, which was never relayed.
pub overflow_drops_unsent :
    (s : Setup) (env later : Env) (m : Manager) (e a b : OpenClawEvent) (rest : List OpenClawEvent)
    → m.role ≡ follower
    → m.flight ≡ sending a
    → m.pending_events ≡ a ∷ b ∷ rest
    → s.config.max_pending_events ≤ length m.pending_events
    → (step s later relay_acknowledged (step s env (dispatches e) m)).pending_events
      ≡ rest ++ annotated s e ∷ []
unfolding step
overflow_drops_unsent s env later m e a b rest role flight pending full =
    ground (arith, acknowledged_pending s env later m e a role flight)

-- Outside the mode `auto` a relay that fails keeps every pending event, ends the flush, and leaves a
-- timer set that starts the next one.
pub failed_relay_kept :
    (s : Setup) (env : Env) (m : Manager) (a : OpenClawEvent)
    → is_auto_mode s.config.mode ≡ false
    → m.stopped ≡ false
    → m.flight ≡ sending a
    → let m' = step s env relay_rejected m in
      (m'.pending_events ≡ m.pending_events)
      × (m'.flight ≡ resting)
      × (is_some m'.retry_timer ≡ true)
unfolding step relay_fails retry_later finish_flush
failed_relay_kept s env m a mode running flight = ground arith

-- The events that an owner has not yet taken out of its queue, after `n` ends of processing.
unfoldable pub after_processing : Setup → Env → ℕ → Manager → Manager
unfolding step
after_processing s env zero m = m
after_processing s env (suc n) m = after_processing s env n (step s env owner_event_done m)

flush_step :
    (s : Setup) (env : Env) (m : Manager)
    → m.role ≡ owner
    → m.stopped ≡ false
    → m.flight ≡ processing
    → let m' = step s env owner_event_done m in
      (m'.role ≡ owner)
      × (m'.stopped ≡ false)
      × (m'.pending_events ≡ shift m.pending_events)
      × ((m.pending_events ≡ []) × (m'.flight ≡ resting)
          ⊎ (m.pending_events ≢ []) × (m'.flight ≡ processing))
unfolding step processed flush_loop process_owner_event finish_flush
flush_step s env m role running flight = ground arith

rest_stays :
    (s : Setup) (env : Env) (n : ℕ) (m : Manager)
    → m.flight ≡ resting
    → after_processing s env n m ≡ m
unfolding after_processing
rest_stays s env zero m flight = refl
rest_stays s env (suc n) m flight =
    let same : step s env owner_event_done m ≡ m = unfold step processed in ground arith in
    rw same (rest_stays s env n m flight)

-- An owner empties its queue: after the event in hand, each end of processing takes one pending event,
-- and with one more end than there are pending events the queue is empty and the flush is over.
pub owner_drains :
    (s : Setup) (env : Env) (n : ℕ) (m : Manager)
    → m.role ≡ owner
    → m.stopped ≡ false
    → m.flight ≡ processing
    → length m.pending_events ≤ n
    → let m' = after_processing s env (suc n) m in (m'.pending_events ≡ []) × (m'.flight ≡ resting)
unfolding after_processing
owner_drains s env zero m role running flight few =
    ground (arith, flush_step s env m role running flight)
owner_drains s env (suc n) m role running flight few =
    let (role', running', pending', how) = flush_step s env m role running flight in
    elim how [
      | inl (empty, over) ↦
          rw (rest_stays s env (suc n) (step s env owner_event_done m) over) (ground arith, over)
      | inr (more, busy) ↦
          owner_drains s env n (step s env owner_event_done m) role' running' busy
            (ground (arith, ap length pending', length-shift m.pending_events))
    ]
