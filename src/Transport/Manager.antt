-- ===== src/Transport/Manager.antt =====
-- transport/manager.ts: the transport manager of one runtime. Its methods and callbacks are functions
-- on its state, which also holds the files that it works on and a record of the calls that it makes
-- out of itself. What waits for an `await` is in `flight`, and each answer is a step of its own.
pub mod Steps
pub mod Frames
pub mod Invariant
pub mod Always
pub mod Ownership
pub mod Relay
use openclaw_event_server_pl.Common.{
  ℕ, suc, String, Bool, true, false, not, ◌&&◌, ◌||◌, Option, none, some, List, [], ◌∷◌, ◌++◌, leb,
  nat_eq, if◌then◌else◌, is_some, get_or, length, shift,
}
use openclaw_event_server_pl.Events.{OpenClawEvent}
use openclaw_event_server_pl.Transport.Config.{TransportConfig, TransportMode}
use openclaw_event_server_pl.Transport.Protocol.{
  TransportRole, owner, follower, Route, local, relay, Host, clone_event_with_transport_metadata,
}
use openclaw_event_server_pl.Transport.Dedupe.{Seen, no_events, should_process_transport_event}
use openclaw_event_server_pl.Transport.Lock.{LockFile, Os}
use openclaw_event_server_pl.Transport.Ownership.{
  AcquireResult, acquired, Faults, acquire_transport_lock, write_transport_heartbeat,
  release_transport_lock, prepare_transport_socket_path, cleanup_transport_socket_path,
}
use openclaw_event_server_pl.Transport.Recovery.{resolve_owner_acquire_failure}

-- What a flush of the pending events waits for.
pub data Flight : Type 0 where
  resting : Flight
  sending : OpenClawEvent → Flight
  processing : Flight

-- What does not change: the settings, the runtime's name, its host, and whether that is Windows.
pub record Setup : Type 0 where
  pub config : TransportConfig
  pub runtime_id : String
  pub host : Host
  pub windows : Bool

-- What the operating system answers during one step.
pub record Env : Type 0 where
  pub os : Os
  pub faults : Faults

pub record Manager : Type 0 where
  pub seen : Seen
  pub role : TransportRole
  pub server : Bool
  -- An interval that is active.
  pub heartbeat_timer : Bool
  -- Timers that are set, with their delays.
  pub retry_timer : Option ℕ
  pub owner_recovery_timer : Option ℕ
  pub pending_events : List OpenClawEvent
  -- `flushing` is that the flight does not rest.
  pub flight : Flight
  pub stopped : Bool
  pub owns_lock : Bool
  pub next_owner_recovery_delay_ms : Option ℕ
  pub last_live_owner_conflict_key : Option String
  -- `stop` waits for the server to close.
  pub closing : Bool
  pub lock_file : Option LockFile
  pub socket_file : Bool
  -- The calls of `onOwnerEvent` and of `onRoleChange`, oldest first.
  pub owner_events : List OpenClawEvent
  pub role_changes : List TransportRole

abbrev pub role_eq : TransportRole → TransportRole → Bool
role_eq owner owner = true
role_eq owner follower = false
role_eq follower owner = false
role_eq follower follower = true

abbrev pub is_follower_mode : TransportMode → Bool
is_follower_mode TransportMode.auto = false
is_follower_mode TransportMode.owner = false
is_follower_mode TransportMode.follower = true

abbrev pub is_auto_mode : TransportMode → Bool
is_auto_mode TransportMode.auto = true
is_auto_mode TransportMode.owner = false
is_auto_mode TransportMode.follower = false

abbrev pub is_flushing : Flight → Bool
is_flushing resting = false
is_flushing (sending e) = true
is_flushing processing = true

-- A manager as it is constructed, over the files that it finds.
unfoldable pub initial : Option LockFile → Bool → Manager
initial lock_file socket_file = record {
  seen = no_events;
  role = follower;
  server = false;
  heartbeat_timer = false;
  retry_timer = none;
  owner_recovery_timer = none;
  pending_events = [];
  flight = resting;
  stopped = false;
  owns_lock = false;
  next_owner_recovery_delay_ms = none;
  last_live_owner_conflict_key = none;
  closing = false;
  lock_file = lock_file;
  socket_file = socket_file;
  owner_events = [];
  role_changes = [];
}

unfoldable pub set_role : TransportRole → Manager → Manager
set_role role m =
    if role_eq m.role role
    then m
    else record m { role = role; role_changes = m.role_changes ++ role ∷ [] }

unfoldable pub schedule_flush : ℕ → Manager → Manager
schedule_flush delay_ms m =
    if is_some m.retry_timer || m.stopped then m else record m { retry_timer = some delay_ms }

module _ (s : Setup) where
  unfoldable pub schedule_owner_recovery : ℕ → Manager → Manager
  schedule_owner_recovery delay_ms m =
      if is_follower_mode s.config.mode || m.stopped || is_some m.owner_recovery_timer
      then m
      else record m { owner_recovery_timer = some delay_ms }

  unfoldable pub release_lock : Env → Manager → Manager
  release_lock env m = record m {
    lock_file = release_transport_lock env.faults s.runtime_id m.lock_file;
    owns_lock = false;
  }

  unfoldable pub handle_owner_acquire_failure : AcquireResult → Manager → Manager
  handle_owner_acquire_failure result m =
      let failure = resolve_owner_acquire_failure s.config result in
      record m {
        last_live_owner_conflict_key = failure.last_live_owner_conflict_key;
        next_owner_recovery_delay_ms = some failure.next_owner_recovery_delay_ms;
      }

  unfoldable pub start_owner_server : Manager → Manager
  start_owner_server m = if m.server then m else record m {
    server = true;
    socket_file = prepare_transport_socket_path s.windows m.socket_file;
  }

  unfoldable pub write_heartbeat : Env → Manager → Bool × Manager
  write_heartbeat env m =
      if m.owns_lock
      then (let r = write_transport_heartbeat env.os env.faults s.config s.runtime_id m.lock_file in
          (r.0, record m { lock_file = r.1 }))
      else (false, m)

  -- The interval starts only if a first heartbeat is written.
  unfoldable pub start_heartbeat : Env → Manager → Manager
  unfolding write_heartbeat
  start_heartbeat env m = let r = write_heartbeat env m in record r.1 { heartbeat_timer = r.0 }

  -- The lock is acquired.
  unfoldable pub take_ownership : Env → Manager → Manager
  unfolding set_role start_owner_server start_heartbeat
  take_ownership env m = start_heartbeat env (
      start_owner_server (
        set_role owner (record m {
          next_owner_recovery_delay_ms = none;
          last_live_owner_conflict_key = none;
          owner_recovery_timer = none;
        })))

  after_acquire : Env → AcquireResult × Option LockFile → Manager → Bool × Manager
  unfolding take_ownership handle_owner_acquire_failure set_role
  after_acquire env (acquired, f) m =
      (true, take_ownership env (record m { lock_file = f; owns_lock = true }))
  after_acquire env (result, f) m =
      (false, set_role follower (handle_owner_acquire_failure result (record m { lock_file = f })))

  unfoldable pub try_become_owner : Env → Manager → Bool × Manager
  unfolding after_acquire
  try_become_owner env m =
      after_acquire env (acquire_transport_lock env.os env.faults s.config s.runtime_id m.lock_file)
        m

  -- `start()` after a failed attempt.
  wait_for_ownership : Manager → Manager
  unfolding set_role schedule_owner_recovery
  wait_for_ownership m =
      let waiting = set_role follower m in
      schedule_owner_recovery
        (get_or waiting.next_owner_recovery_delay_ms s.config.reconnect_backoff_ms) waiting

  unfoldable pub start : Env → Manager → Manager
  unfolding try_become_owner wait_for_ownership set_role
  start env m =
      let begun = record m { stopped = false } in
      if is_follower_mode s.config.mode
      then set_role follower begun
      else let r = try_become_owner env begun in if r.0 then r.1 else wait_for_ownership r.1

  unfoldable pub process_owner_event : Env → OpenClawEvent → Route → Manager → Manager
  process_owner_event env e route m =
      let r = should_process_transport_event s.config env.os.now e m.seen in
      if r.0
      then record m {
        seen = r.1;
        owner_events =
            m.owner_events
            ++ clone_event_with_transport_metadata s.host s.runtime_id owner route
                (some s.runtime_id) e
              ∷ [];
      }
      else record m { seen = r.1 }

  -- The oldest pending event makes room when the queue is full.
  unfoldable pub enqueue_for_follower_relay : OpenClawEvent → Manager → Manager
  unfolding schedule_flush
  enqueue_for_follower_relay e m = schedule_flush 0 (record m {
    pending_events =
        (if leb s.config.max_pending_events (length m.pending_events)
          then shift m.pending_events
          else m.pending_events)
        ++ e ∷ [];
  })

  unfoldable pub dispatch : Env → OpenClawEvent → Manager → Manager
  unfolding process_owner_event enqueue_for_follower_relay
  dispatch env e m =
      let annotated = clone_event_with_transport_metadata s.host s.runtime_id m.role local none e in
      if role_eq m.role owner
      then process_owner_event env annotated local m
      else enqueue_for_follower_relay annotated m

  -- The `finally` of a flush.
  unfoldable pub finish_flush : Manager → Manager
  unfolding schedule_flush
  finish_flush m =
      let rested = record m { flight = resting } in
      if not (nat_eq (length m.pending_events) 0) && not (is_some m.retry_timer) && not m.stopped
      then schedule_flush s.config.reconnect_backoff_ms rested
      else rested

  flush_next : Env → OpenClawEvent → List OpenClawEvent → Manager → Manager
  unfolding process_owner_event
  flush_next env e rest m =
      if role_eq m.role owner
      then process_owner_event env e local (record m { pending_events = rest; flight = processing })
      else record m { flight = sending e }

  -- The head of the `while` loop, up to the next `await`.
  unfoldable pub flush_loop : Env → Manager → Manager
  unfolding finish_flush flush_next
  flush_loop env m = elim m.pending_events [
    | [] ↦ finish_flush m
    | e ∷ rest ↦ if m.stopped then finish_flush m else flush_next env e rest m
  ]

  unfoldable pub flush_pending_follower_events : Env → Manager → Manager
  unfolding flush_loop
  flush_pending_follower_events env m =
      if is_flushing m.flight || m.stopped then m else flush_loop env m

  unfoldable pub retry_fires : Env → Manager → Manager
  unfolding flush_pending_follower_events
  retry_fires env m =
      if is_some m.retry_timer
      then flush_pending_follower_events env (record m { retry_timer = none })
      else m

  -- The call of `onOwnerEvent` for a pending event has ended, or has thrown.
  unfoldable pub processed : Env → Manager → Manager
  unfolding flush_loop
  processed env m = elim m.flight [ processing ↦ flush_loop env m | _ ↦ m ]

  unfoldable pub processing_fails : Manager → Manager
  unfolding finish_flush
  processing_fails m = elim m.flight [ processing ↦ finish_flush m | _ ↦ m ]

  -- The owner has acknowledged the event.
  unfoldable pub relayed : Env → Manager → Manager
  unfolding flush_loop
  relayed env m = elim m.flight [
    | sending e ↦ flush_loop env (record m { pending_events = shift m.pending_events })
    | _ ↦ m
  ]

  -- The flush gives up for now.
  retry_later : Manager → Manager
  unfolding finish_flush schedule_flush
  retry_later m = finish_flush (schedule_flush s.config.reconnect_backoff_ms m)

  unfoldable pub relay_fails : Env → Manager → Manager
  unfolding flush_loop retry_later try_become_owner
  relay_fails env m = elim m.flight [
    | sending e ↦
        if is_auto_mode s.config.mode && role_eq m.role follower
        then (let r = try_become_owner env m in if r.0 then flush_loop env r.1 else retry_later r.1)
        else retry_later m
    | _ ↦ m
  ]

  unfoldable pub handle_owner_failure : Env → Manager → Manager
  unfolding release_lock set_role schedule_owner_recovery schedule_flush
  handle_owner_failure env m =
      if m.stopped || not (role_eq m.role owner)
      then m
      else let closed = record m {
        server = false;
        socket_file =
            if m.server
            then cleanup_transport_socket_path s.windows m.socket_file
            else m.socket_file;
        heartbeat_timer = false;
      } in
        let released = if closed.owns_lock then release_lock env closed else closed in
        let waiting =
          schedule_owner_recovery s.config.reconnect_backoff_ms (set_role follower released) in
        if nat_eq (length waiting.pending_events) 0
        then waiting
        else schedule_flush s.config.reconnect_backoff_ms waiting

  unfoldable pub recovery_fires : Env → Manager → Manager
  unfolding try_become_owner schedule_owner_recovery
  recovery_fires env m =
      if is_some m.owner_recovery_timer
      then (let fired = record m { owner_recovery_timer = none } in
          if fired.stopped || role_eq fired.role owner
          then fired
          else let r = try_become_owner env fired in
            if r.0 then r.1 else schedule_owner_recovery s.config.reconnect_backoff_ms r.1)
      else m

  unfoldable pub heartbeat_fires : Env → Manager → Manager
  unfolding write_heartbeat handle_owner_failure
  heartbeat_fires env m =
      if m.heartbeat_timer
      then (let r = write_heartbeat env m in if r.0 then r.1 else handle_owner_failure env r.1)
      else m

  -- `onEvent` of the relay server.
  unfoldable pub relay_arrives : Env → OpenClawEvent → Manager → Manager
  unfolding process_owner_event
  relay_arrives env e m =
      process_owner_event env
        (clone_event_with_transport_metadata s.host s.runtime_id owner relay (some s.runtime_id) e)
        relay m

  -- The part of `stop()` after the server is closed. A second `stop()` in the meantime has no server and
  -- leaves the cleanup of the socket path to the first one.
  unfoldable pub finish_stop : Env → Bool → Manager → Manager
  unfolding release_lock
  finish_stop env had_server m =
      let released = if m.owns_lock then release_lock env m else m in
      record released {
        closing = not had_server && m.closing;
        socket_file =
            if had_server
            then cleanup_transport_socket_path s.windows released.socket_file
            else released.socket_file;
      }

  unfoldable pub stop : Env → Manager → Manager
  unfolding finish_stop
  stop env m =
      let halted = record m {
        stopped = true;
        owner_recovery_timer = none;
        retry_timer = none;
        heartbeat_timer = false;
        server = false;
      } in
      if m.server then record halted { closing = true } else finish_stop env false halted

  unfoldable pub server_closes : Env → Manager → Manager
  unfolding finish_stop
  server_closes env m = if m.closing then finish_stop env true m else m
