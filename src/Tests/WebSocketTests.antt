-- ===== src/Tests/WebSocketTests.antt =====
-- Tests and examples of the WebSocket server: who may connect, ports, retries and stops.
use openclaw_event_server_pl.Common.{
  Bool, ℕ, true, false, none, some, [], ◌∷◌, ◌≡◌, ◌≢◌, refl, nat_eq, trim, starts_with,
}
use openclaw_event_server_pl.Broadcast.WebSocket.{
  on_error, Access, Request, Broadcaster, Attempt, constructed, throws_in_use, allowed, denied,
  authorize_request, extract_token, normalize_ip, start, retry_fires, on_listening, broadcast,
  handle_connection,
}
use openclaw_event_server_pl.Broadcast.WebSocket.Admission.{
  Admitted, authorize_request-Admitted, padded_token_refused,
}
use openclaw_event_server_pl.Broadcast.WebSocket.Startup.{
  report, reports, RunsOn, start_reaches_free, retry_reaches_free,
}
use openclaw_event_server_pl.Broadcast.WebSocket.Timer.{IsSound}
use openclaw_event_server_pl.Broadcast.WebSocket.Retrying.{
  starts, stops, listens, stop_ends, retries, reports_error, run, run-IsSound,
}

abbrev local_client : Request
local_client = record {
  origin = some "http://localhost";
  remote_address = some "::ffff:127.0.0.1";
  token_header = none;
  authorization = some "Bearer secret ";
  url_token = some "other";
}

abbrev guarded : Access
guarded = record {
  require_auth = true;
  auth_token = some "secret";
  allowed_origins = [];
  allowed_ips = "127.0.0.1" ∷ [];
}

admissions :
    (extract_token local_client ≡ some "secret")
    × (normalize_ip local_client.remote_address ≡ some "127.0.0.1")
    × (authorize_request guarded local_client ≡ allowed)
    × (authorize_request guarded (record local_client { remote_address = some "10.0.0.1" })
        ≡ denied "ip not allowed")
    × (authorize_request guarded (record local_client { authorization = none })
        ≡ denied "invalid auth token")
unfolding extract_token normalize_ip authorize_request starts_with trim
admissions = (refl, refl, refl, refl, refl)

authorize_request-Admitted_example : Admitted guarded local_client
authorize_request-Admitted_example = authorize_request-Admitted guarded local_client admissions.2

padded_token_refused_example :
    authorize_request (record guarded { auth_token = some "secret\n" }) local_client ≢ allowed
unfolding trim
padded_token_refused_example =
    padded_token_refused (record guarded { auth_token = some "secret\n" }) local_client "secret\n"
      refl refl refl

abbrev idle : Broadcaster
idle = record {
  configured_ports = 9011 ∷ 9012 ∷ [];
  candidate_ports = [];
  port = 9011;
  wss = none;
  startup_retry_timer = none;
  startup_generation = 0;
  is_running = false;
  clients = [];
  next_server = 0;
}

abbrev constructs : ℕ → Attempt
constructs p = constructed

abbrev all_throw : ℕ → Attempt
all_throw p = throws_in_use

abbrev all_taken : ℕ → Bool
all_taken p = true

abbrev first_taken : ℕ → Bool
first_taken p = nat_eq p 9011

abbrev waiting : Broadcaster
waiting = reports constructs all_taken 2 (start constructs idle)

-- The retry comes to the second port; a client is let in and reached.
retried :
    broadcast
      (λ client. true)
      (handle_connection guarded local_client 7 (
        report constructs first_taken
          (report constructs first_taken (retry_fires constructs waiting))))
    ≡ 7 ∷ []
unfolding broadcast handle_connection authorize_request on_listening on_error retry_fires start
    starts_with trim
retried = refl

-- Ports that the constructor refuses are passed over at once.
all_refused : (start all_throw idle).startup_retry_timer ≡ some 1
unfolding start
all_refused = refl

start_reaches_free_example :
    RunsOn 9012
      (report constructs first_taken (reports constructs first_taken 1 (start constructs idle)))
start_reaches_free_example =
    start_reaches_free constructs (λ p. refl) first_taken idle (9011 ∷ []) 9012 [] (refl, refl) refl
      (refl, tt) refl

retry_reaches_free_example :
    (waiting.startup_retry_timer ≡ some waiting.startup_generation)
    × (waiting.wss ≡ none)
    × RunsOn 9012 (
        report constructs first_taken
          (reports constructs first_taken 1 (retry_fires constructs waiting)))
retry_reaches_free_example =
    retry_reaches_free constructs (λ p. refl) all_taken first_taken idle (9011 ∷ []) 9012 []
      (refl, refl) refl (refl, (refl, tt)) (refl, tt) refl

-- Nothing is set in the idle state.
idle-IsSound : IsSound idle
idle-IsSound generation timer = absurd (cc)

run-IsSound_example : IsSound (
    run
      (starts all_throw
        ∷ retries constructs
        ∷ listens 1 0
        ∷ reports_error constructs 1 0 true
        ∷ stops
        ∷ stop_ends
        ∷ [])
      idle)
run-IsSound_example =
    run-IsSound
      (starts all_throw
        ∷ retries constructs
        ∷ listens 1 0
        ∷ reports_error constructs 1 0 true
        ∷ stops
        ∷ stop_ends
        ∷ [])
      idle idle-IsSound

abbrev starting : Broadcaster
starting = record idle { wss = some 0; startup_generation = 1; next_server = 1 }
