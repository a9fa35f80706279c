-- ===== src/Broadcast/WebSocket/Timer.antt =====
-- What a retry timer that is set says of the server of broadcast/websocketServer.ts, in the startup.
use openclaw_event_server_pl.Common.{
  ℕ, suc, true, false, not, ◌||◌, Option, none, some, List, [], ◌∷◌, arith, ◌≡◌, refl,
  if◌then◌else◌, ◌⊎◌, inl, inr, Bool-cases, Option-cases, nat_eq, is_some,
}
use openclaw_event_server_pl.Broadcast.WebSocket.{
  Broadcaster, Attempt, constructed, throws_in_use, throws_other, try_ports, try_start_next_port,
  retry_fires, schedule_retry, is_current,
}

-- A timer that is set is one of the present start, and while it is set there is no server.
abbrev pub IsSound : Broadcaster → Type 0
IsSound b =
    (generation : ℕ)
    → b.startup_retry_timer ≡ some generation
    → (generation ≡ b.startup_generation) × (b.wss ≡ none) × (b.is_running ≡ false)

pub untimed : (b : Broadcaster) → b.startup_retry_timer ≡ none → IsSound b
untimed b idle generation timer = absurd (cc)

-- With a server, there is no timer.
timer-none :
    (b : Broadcaster) (server : ℕ) → IsSound b → b.wss ≡ some server → b.startup_retry_timer ≡ none
timer-none b server sound there = elim (Option-cases b.startup_retry_timer) [
  | inl idle ↦ idle
  | inr (generation, timer) ↦ absurd (let s = sound generation timer in cc)
]

pub no_server : (wss : Option ℕ) → is_some wss ≡ false → wss ≡ none
no_server none h = refl
no_server (some server) h = absurd (cc)

pub timer_of_current :
    (b : Broadcaster) (server : ℕ)
    → IsSound b
    → is_current b.wss server ≡ true
    → b.startup_retry_timer ≡ none
timer_of_current b server sound own = elim (Option-cases b.wss) [
  | inl closed ↦ absurd (let e = rw closed at own in cc)
  | inr (current, there) ↦ timer-none b current sound there
]

Attempt-cases : (a : Attempt) → (a ≡ constructed) ⊎ (a ≡ throws_in_use) ⊎ (a ≡ throws_other)
Attempt-cases constructed = inl refl
Attempt-cases throws_in_use = inr (inl refl)
Attempt-cases throws_other = inr (inr refl)

pub retry_fires_unset :
    (attempt : ℕ → Attempt) (b : Broadcaster)
    → b.startup_retry_timer ≡ none
    → retry_fires attempt b ≡ b
unfolding retry_fires
retry_fires_unset attempt b idle = simp (retry_fires, idle)

pub retry_fires_set :
    (attempt : ℕ → Attempt) (b : Broadcaster) (generation : ℕ)
    → b.startup_retry_timer ≡ some generation
    → retry_fires attempt b ≡ (
        if not (nat_eq generation b.startup_generation) || is_some b.wss || b.is_running
        then record b { startup_retry_timer = none }
        else try_start_next_port attempt generation
            (record b { startup_retry_timer = none; candidate_ports = b.configured_ports }))
unfolding retry_fires
retry_fires_set attempt b generation timer = simp (retry_fires, timer)

schedule_retry-IsSound :
    (generation : ℕ) (b : Broadcaster)
    → b.startup_retry_timer ≡ none
    → b.wss ≡ none
    → b.is_running ≡ false
    → IsSound (schedule_retry generation b)
unfolding schedule_retry
schedule_retry-IsSound generation b idle closed rests =
    elim (Bool-cases (nat_eq generation b.startup_generation)) [
      | inl same ↦
          let current : generation ≡ b.startup_generation = ground (arith, same) in
          rw (same, idle) (λ set_for timer. (cc, closed, rests))
      | inr other ↦ rw other (untimed b idle)
    ]

try_ports-IsSound :
    (attempt : ℕ → Attempt) (generation : ℕ) (ports : List ℕ) (b : Broadcaster)
    → b.startup_retry_timer ≡ none
    → b.wss ≡ none
    → IsSound (try_ports attempt generation ports b)
unfolding try_ports
try_ports-IsSound attempt generation [] b idle closed =
    schedule_retry-IsSound generation (record b { candidate_ports = []; is_running = false }) idle
      closed refl
try_ports-IsSound attempt generation (p ∷ rest) b idle closed = elim (Attempt-cases (attempt p)) [
  | inl free ↦
      rw (free, try_ports)
        (untimed
          (record b {
            candidate_ports = rest;
            port = p;
            wss = some b.next_server;
            next_server = suc b.next_server;
          })
          idle)
  | inr (inl taken) ↦
      rw (taken, try_ports)
        (try_ports-IsSound attempt generation rest
          (record b { candidate_ports = rest; port = p; wss = none }) idle refl)
  | inr (inr failed) ↦
      rw (failed, try_ports) (untimed (record b { candidate_ports = rest; port = p }) idle)
]

pub try_start_next_port-IsSound :
    (attempt : ℕ → Attempt) (generation : ℕ) (b : Broadcaster)
    → b.startup_retry_timer ≡ none
    → b.wss ≡ none
    → IsSound (try_start_next_port attempt generation b)
unfolding try_start_next_port
try_start_next_port-IsSound attempt generation b idle closed =
    elim (Bool-cases (nat_eq generation b.startup_generation)) [
      | inl same ↦ rw same (try_ports-IsSound attempt generation b.candidate_ports b idle closed)
      | inr other ↦ rw other (untimed b idle)
    ]
