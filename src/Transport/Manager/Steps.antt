-- ===== src/Transport/Manager/Steps.antt =====
-- The life of a transport manager as a sequence of calls, callbacks and answers
-- (transport/manager.ts). `start` is called once, on a fresh manager.
use openclaw_event_server_pl.Common.{Bool, List, [], ◌∷◌, Option}
use openclaw_event_server_pl.Events.{OpenClawEvent}
use openclaw_event_server_pl.Transport.Lock.{LockFile}
use openclaw_event_server_pl.Transport.Manager.{
  Setup, Env, Manager, initial, start, dispatch, retry_fires, processed, processing_fails, relayed,
  relay_fails, handle_owner_failure, recovery_fires, heartbeat_fires, relay_arrives, stop,
  server_closes,
}

pub data Input : Type 0 where
  -- Calls of the plugin.
  dispatches : OpenClawEvent → Input
  stops : Input
  -- Timers.
  retry_timer_fires : Input
  recovery_timer_fires : Input
  heartbeat_timer_fires : Input
  -- The relay server: an event, its close or a fatal error, and the end of the close that `stop` began.
  relay_event : OpenClawEvent → Input
  server_fails : Input
  server_closed : Input
  -- Answers that a flush waits for.
  owner_event_done : Input
  owner_event_throws : Input
  relay_acknowledged : Input
  relay_rejected : Input

unfoldable pub step : Setup → Env → Input → Manager → Manager
step s env (dispatches e) m = dispatch s env e m
step s env stops m = stop s env m
step s env retry_timer_fires m = retry_fires s env m
step s env recovery_timer_fires m = recovery_fires s env m
step s env heartbeat_timer_fires m = heartbeat_fires s env m
step s env (relay_event e) m = relay_arrives s env e m
step s env server_fails m = handle_owner_failure s env m
step s env server_closed m = server_closes s env m
step s env owner_event_done m = processed s env m
step s env owner_event_throws m = processing_fails s m
step s env relay_acknowledged m = relayed s env m
step s env relay_rejected m = relay_fails s env m

-- A sequence of inputs, each with what the operating system answers.
unfoldable pub steps : Setup → List (Env × Input) → Manager → Manager
unfolding step
steps s [] m = m
steps s ((env, i) ∷ rest) m = steps s rest (step s env i m)

-- From the start, in any order of inputs and with any answers of the operating system.
pub data Reach (s : Setup) : Manager → Type 0 where
  started :
      (env : Env) (f : Option LockFile) (socket : Bool) → Reach s (start s env (initial f socket))
  next : {m : Manager} → Reach s m → (env : Env) (i : Input) → Reach s (step s env i m)
