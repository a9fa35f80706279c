-- ===== src/Broadcast/WebSocket/Retrying.antt =====
-- The retry timer of the server of broadcast/websocketServer.ts, among all other calls.
use openclaw_event_server_pl.Common.{
  ℕ, suc, String, Bool, true, false, not, ◌||◌, none, List, [], ◌∷◌, arith, ◌≡◌, refl, sym, subst,
  ◌⊎◌, inl, inr, Bool-cases, Option-cases, nat_eq, is_some,
}
use openclaw_event_server_pl.Broadcast.WebSocket.{
  Access, Request, Broadcaster, Attempt, start, on_error, retry_fires, on_listening, on_close, stop,
  stopped, handle_connection, client_leaves, Authorization, allowed, denied, authorize_request,
  is_current,
}
use openclaw_event_server_pl.Broadcast.WebSocket.Timer.{
  IsSound, untimed, no_server, timer_of_current, retry_fires_unset, retry_fires_set,
  try_start_next_port-IsSound,
}

pub data Call : Type 0 where
  starts : (ℕ → Attempt) → Call
  reports_error : (ℕ → Attempt) → ℕ → ℕ → Bool → Call
  retries : (ℕ → Attempt) → Call
  listens : ℕ → ℕ → Call
  closes : ℕ → Call
  stops : Call
  stop_ends : Call
  connects : Access → Request → ℕ → Call
  leaves : ℕ → Call

unfoldable pub step : Call → Broadcaster → Broadcaster
unfolding start on_error retry_fires on_listening on_close stop stopped handle_connection
    client_leaves
step (starts attempt) b = start attempt b
step (reports_error attempt generation server address_in_use) b =
    on_error attempt generation server address_in_use b
step (retries attempt) b = retry_fires attempt b
step (listens generation server) b = on_listening generation server b
step (closes server) b = on_close server b
step stops b = stop b
step stop_ends b = stopped b
step (connects access request client) b = handle_connection access request client b
step (leaves client) b = client_leaves client b

unfoldable pub run : List Call → Broadcaster → Broadcaster
unfolding step
run [] b = b
run (call ∷ calls) b = run calls (step call b)

Authorization-cases :
    (a : Authorization) → (a ≡ allowed) ⊎ ((reason : String) × (a ≡ denied reason))
Authorization-cases allowed = inl refl
Authorization-cases (denied reason) = inr (reason, refl)

start-IsSound : (attempt : ℕ → Attempt) (b : Broadcaster) → IsSound b → IsSound (start attempt b)
unfolding start
start-IsSound attempt b sound = elim (Bool-cases (b.is_running || is_some b.wss)) [
  | inl busy ↦ rw busy sound
  | inr idle ↦ rw idle (
      try_start_next_port-IsSound attempt (suc b.startup_generation)
        (record b {
          startup_retry_timer = none;
          candidate_ports = b.configured_ports;
          startup_generation = suc b.startup_generation;
        })
        refl (no_server b.wss (ground (arith, idle))))
]

on_error-IsSound :
    (attempt : ℕ → Attempt) (generation server : ℕ) (address_in_use : Bool) (b : Broadcaster)
    → IsSound b
    → IsSound (on_error attempt generation server address_in_use b)
unfolding on_error
on_error-IsSound attempt generation server address_in_use b sound =
    elim (Bool-cases
      (not (nat_eq generation b.startup_generation) || not (is_current b.wss server))) [
        | inl stale ↦ rw stale sound
        | inr own ↦
            let idle = timer_of_current b server sound (ground (arith, own)) in
            elim (Bool-cases address_in_use) [
              | inl taken ↦
                  rw (own, taken)
                    (try_start_next_port-IsSound attempt generation (record b { wss = none }) idle
                      refl)
              | inr failed ↦ rw (own, failed) (untimed (record b { is_running = false }) idle)
            ]
      ]

retry_fires-IsSound :
    (attempt : ℕ → Attempt) (b : Broadcaster) → IsSound b → IsSound (retry_fires attempt b)
unfolding retry_fires
retry_fires-IsSound attempt b sound = elim (Option-cases b.startup_retry_timer) [
  | inl idle ↦ subst IsSound (sym (retry_fires_unset attempt b idle)) sound
  | inr (generation, timer) ↦
      subst IsSound (sym (retry_fires_set attempt b generation timer))
        (elim (Bool-cases
          (not (nat_eq generation b.startup_generation) || is_some b.wss || b.is_running)) [
            | inl stale ↦ rw stale (untimed (record b { startup_retry_timer = none }) refl)
            | inr fresh ↦ rw fresh (
                try_start_next_port-IsSound attempt generation
                  (record b { startup_retry_timer = none; candidate_ports = b.configured_ports })
                  refl (no_server b.wss (ground (arith, fresh))))
          ])
]

on_listening-IsSound :
    (generation server : ℕ) (b : Broadcaster)
    → IsSound b
    → IsSound (on_listening generation server b)
unfolding on_listening
on_listening-IsSound generation server b sound =
    elim (Bool-cases
      (not (nat_eq generation b.startup_generation) || not (is_current b.wss server))) [
        | inl stale ↦ rw stale sound
        | inr own ↦ rw own (
            untimed (record b { is_running = true })
              (timer_of_current b server sound (ground (arith, own))))
      ]

on_close-IsSound : (server : ℕ) (b : Broadcaster) → IsSound b → IsSound (on_close server b)
unfolding on_close
on_close-IsSound server b sound = elim (Bool-cases (is_current b.wss server)) [
  | inr stale ↦ rw stale sound
  | inl own ↦ rw own (
      untimed (record b { wss = none; is_running = false; clients = [] })
        (timer_of_current b server sound own))
]

stop-timer : (b : Broadcaster) → (stop b).startup_retry_timer ≡ none
unfolding stop
stop-timer b = elim (Option-cases b.wss) [
  | inl closed ↦ rw (closed, stop) refl
  | inr (server, there) ↦ rw (there, stop) refl
]

handle_connection-IsSound :
    (access : Access) (request : Request) (client : ℕ) (b : Broadcaster)
    → IsSound b
    → IsSound (handle_connection access request client b)
unfolding handle_connection
handle_connection-IsSound access request client b sound =
    elim (Authorization-cases (authorize_request access request)) [
      | inl let_in ↦ rw (let_in, handle_connection) sound
      | inr (reason, refused) ↦ rw (refused, handle_connection) sound
    ]

step-IsSound : (call : Call) (b : Broadcaster) → IsSound b → IsSound (step call b)
unfolding step
step-IsSound (starts attempt) b sound = start-IsSound attempt b sound
step-IsSound (reports_error attempt generation server address_in_use) b sound =
    on_error-IsSound attempt generation server address_in_use b sound
step-IsSound (retries attempt) b sound = retry_fires-IsSound attempt b sound
step-IsSound (listens generation server) b sound = on_listening-IsSound generation server b sound
step-IsSound (closes server) b sound = on_close-IsSound server b sound
step-IsSound stops b sound = untimed (stop b) (stop-timer b)
step-IsSound stop_ends b sound =
    λ generation timer. let s = sound generation timer in (s.0, s.1, refl)
step-IsSound (connects access request client) b sound =
    handle_connection-IsSound access request client b sound
step-IsSound (leaves client) b sound = sound

-- After any calls, in any order and with any state of the ports, from a state of which it holds: while a
-- retry is waited for, there is no server, nothing runs, and the retry is one of the latest start.
pub run-IsSound : (calls : List Call) (b : Broadcaster) → IsSound b → IsSound (run calls b)
unfolding run
run-IsSound [] b sound = sound
run-IsSound (call ∷ calls) b sound = run-IsSound calls (step call b) (step-IsSound call b sound)
