-- ===== src/Tests/ManagerTests.antt =====
-- Tests and examples of the transport manager.
use openclaw_event_server_pl.Common.{true, false, none, List, [], ◌∷◌, ◌≡◌, refl, arith, is_some}
use openclaw_event_server_pl.Events.{OpenClawEvent}
use openclaw_event_server_pl.Transport.Config.{TransportMode}
use openclaw_event_server_pl.Transport.Protocol.{owner}
use openclaw_event_server_pl.Transport.Lock.{write_new_lock}
use openclaw_event_server_pl.Transport.Ownership.{acquire_transport_lock}
use openclaw_event_server_pl.Transport.Manager.{
  Setup, Manager, sending, resting, processing, initial, start, try_become_owner,
}
use openclaw_event_server_pl.Transport.Manager.Invariant.{OwnershipInv, FlushInv}
use openclaw_event_server_pl.Transport.Manager.Steps.{
  dispatches, server_fails, relay_acknowledged, relay_rejected, step, steps, Reach, started, next,
}
use openclaw_event_server_pl.Transport.Manager.Ownership.{
  Reach-OwnershipInv, IsQuiet, stop_is_final, stop_undone_in_auto,
}
use openclaw_event_server_pl.Transport.Manager.Relay.{
  Reach-FlushInv, annotated, overflow_drops_unsent, failed_relay_kept,
}
use openclaw_event_server_pl.Tests.Data.{first_event, second_event, third_event, env_at, setup_of}

abbrev owning : Setup
owning = setup_of TransportMode.owner

abbrev following : Setup
following = setup_of TransportMode.follower

abbrev automatic : Setup
automatic = setup_of TransportMode.auto

abbrev begun : Manager
begun = start owning (env_at 5) (initial none false)

abbrev failed_once : Manager
failed_once = step owning (env_at 20) server_fails begun

failed_once-Reach : Reach owning failed_once
failed_once-Reach = next (started (env_at 5) none false) (env_at 20) server_fails

Reach-OwnershipInv_example : OwnershipInv owning failed_once
Reach-OwnershipInv_example = Reach-OwnershipInv failed_once-Reach

Reach-FlushInv_example : FlushInv owning failed_once
Reach-FlushInv_example = Reach-FlushInv failed_once-Reach

-- A manager in the middle of a flush.
abbrev relaying : List OpenClawEvent → Manager
relaying pending = record (initial none false) {
  pending_events = pending;
  flight = sending first_event;
}

abbrev flushing_owner : Manager
flushing_owner = record (initial none false) {
  role = owner;
  owns_lock = true;
  pending_events = second_event ∷ third_event ∷ [];
  flight = processing;
}

flushing_owner-Inv : OwnershipInv owning flushing_owner
unfolding initial
flushing_owner-Inv = ground arith

-- A stopped follower whose last relay is still under way.
abbrev stopped_relaying : Manager
stopped_relaying = record (relaying (first_event ∷ [])) { stopped = true }

stopped_relaying-IsQuiet : IsQuiet stopped_relaying
unfolding initial
stopped_relaying-IsQuiet = ground arith

stop_is_final_example : IsQuiet (
    steps following
      ((env_at 40, relay_rejected) ∷ (env_at 41, dispatches second_event) ∷ [])
      stopped_relaying)
stop_is_final_example =
    stop_is_final following refl
      ((env_at 40, relay_rejected) ∷ (env_at 41, dispatches second_event) ∷ []) stopped_relaying
      stopped_relaying-IsQuiet

stop_undone_in_auto_example :
    let m' = step automatic (env_at 40) relay_rejected stopped_relaying in
    (m'.stopped ≡ true) × (m'.owns_lock ≡ true) × (m'.server ≡ true) × (m'.role ≡ owner)
unfolding initial try_become_owner acquire_transport_lock write_new_lock
stop_undone_in_auto_example =
    stop_undone_in_auto automatic (env_at 40) stopped_relaying first_event refl
      stopped_relaying-IsQuiet refl refl refl

overflow_drops_unsent_example :
    (step following (env_at 50) relay_acknowledged (
      step following
        (env_at 40)
        (dispatches third_event)
        (relaying (first_event ∷ second_event ∷ [])))).pending_events
    ≡ annotated following third_event ∷ []
unfolding initial
overflow_drops_unsent_example =
    overflow_drops_unsent following (env_at 40) (env_at 50)
      (relaying (first_event ∷ second_event ∷ [])) third_event first_event second_event [] refl refl
      refl (omega arith)

failed_relay_kept_example :
    let m' = step following (env_at 40) relay_rejected (relaying (first_event ∷ [])) in
    (m'.pending_events ≡ first_event ∷ []) × (m'.flight ≡ resting) × (is_some m'.retry_timer ≡ true)
unfolding initial
failed_relay_kept_example =
    failed_relay_kept following (env_at 40) (relaying (first_event ∷ [])) first_event refl refl refl
