-- ===== src/Broadcast/WebSocket.antt =====
-- broadcast/websocketServer.ts: the class BroadcastWebSocketServer. The server objects are numbered as they
-- are created; what they report (listening, an error, closed) and the end of a timer or of a stop are calls
-- of their own. How a port answers and the parser of addresses belong to the runtime.
pub mod Admission
pub mod Startup
pub mod Timer
pub mod Retrying
pub mod Stopping
use openclaw_event_server_pl.Common.{
  ℕ, suc, ◌+◌, String, Bool, true, false, not, ◌&&◌, ◌||◌, Option, none, some, List, [], ◌∷◌, ◌++◌,
  ◌==◌, if◌then◌else◌, nat_eq, is_some, member, keep, trim, starts_with,
}

pub record Request : Type 0 where
  pub origin : Option String
  pub remote_address : Option String
  pub token_header : Option String
  pub authorization : Option String
  -- The parameter `token` of the address; none, if the address cannot be parsed.
  pub url_token : Option String

pub record Access : Type 0 where
  pub require_auth : Bool
  pub auth_token : Option String
  pub allowed_origins : List String
  pub allowed_ips : List String

pub data Authorization : Type 0 where
  allowed : Authorization
  denied : String → Authorization

abbrev is_empty : List String → Bool
is_empty [] = true
is_empty (s ∷ rest) = false

-- A missing or empty text is none.
abbrev pub given : Option String → Option String
given none = none
given (some s) = if s == "" then none else some s

-- An empty list allows all.
abbrev pub is_listed : Option String → List String → Bool
is_listed none listed = is_empty listed
is_listed (some s) listed = is_empty listed || member s listed

drop_prefix : String → String → String
drop_prefix String.[] s = s
drop_prefix (String.◌∷◌ a p) String.[] = ""
drop_prefix (String.◌∷◌ a p) (String.◌∷◌ c s) = drop_prefix p s

unfoldable pub normalize_ip : Option String → Option String
unfolding drop_prefix
normalize_ip none = none
normalize_ip (some value) =
    if value == ""
    then none
    else if starts_with "::ffff:" value
    then some (drop_prefix "::ffff:" value)
    else some value

abbrev not_blank : Option String → Option String
not_blank none = none
not_blank (some s) = if trim s == "" then none else some (trim s)

bearer : Option String → Option String → Option String
unfolding drop_prefix
bearer none otherwise = otherwise
bearer (some header) otherwise =
    if starts_with "Bearer " header then some (trim (drop_prefix "Bearer " header)) else otherwise

unfoldable pub extract_token : Request → Option String
unfolding bearer
extract_token request = elim (not_blank request.token_header) [
  | none ↦ bearer request.authorization (not_blank request.url_token)
  | some token ↦ some token
]

-- The token of the request, against the one of the server.
unfoldable pub check_token : Option String → Option String → Authorization
check_token none token = denied "auth token missing on server"
check_token (some expected) none =
    if trim expected == ""
    then denied "auth token missing on server"
    else denied "invalid auth token"
check_token (some expected) (some token) =
    if trim expected == ""
    then denied "auth token missing on server"
    else if token == expected
    then allowed
    else denied "invalid auth token"

unfoldable pub authorize_request : Access → Request → Authorization
unfolding normalize_ip extract_token check_token
authorize_request access request =
    if not (is_listed (given request.origin) access.allowed_origins)
    then denied "origin not allowed"
    else if not (is_listed (given (normalize_ip request.remote_address)) access.allowed_ips)
    then denied "ip not allowed"
    else if not access.require_auth
    then allowed
    else check_token access.auth_token (extract_token request)

pub record Broadcaster : Type 0 where
  pub configured_ports : List ℕ
  pub candidate_ports : List ℕ
  pub port : ℕ
  pub wss : Option ℕ
  -- The generation that the timer was set for.
  pub startup_retry_timer : Option ℕ
  pub startup_generation : ℕ
  pub is_running : Bool
  pub clients : List ℕ
  pub next_server : ℕ

-- What the constructor of a server does on a port. A port that it takes may still turn out to be in use, by
-- an error that the server reports later (`on_error`).
pub data Attempt : Type 0 where
  constructed : Attempt
  throws_in_use : Attempt
  throws_other : Attempt

unfoldable pub schedule_retry : ℕ → Broadcaster → Broadcaster
schedule_retry generation b =
    if not (nat_eq generation b.startup_generation) || is_some b.startup_retry_timer
    then b
    else record b { startup_retry_timer = some generation }

abbrev is_current : Option ℕ → ℕ → Bool
is_current none server = false
is_current (some current) server = nat_eq current server

module _ (attempt : ℕ → Attempt) where
  -- The rounds of `tryStartNextPort`, over the candidates that are left. An error of another kind is
  -- thrown on, and leaves the state as it is.
  unfoldable pub try_ports : ℕ → List ℕ → Broadcaster → Broadcaster
  unfolding schedule_retry
  try_ports generation [] b =
      schedule_retry generation (record b { candidate_ports = []; is_running = false })
  try_ports generation (p ∷ rest) b = elim (attempt p) [
    | constructed ↦ record b {
      candidate_ports = rest;
      port = p;
      wss = some b.next_server;
      next_server = suc b.next_server;
    }
    | throws_in_use ↦
        try_ports generation rest (record b { candidate_ports = rest; port = p; wss = none })
    | throws_other ↦ record b { candidate_ports = rest; port = p }
  ]

  unfoldable pub try_start_next_port : ℕ → Broadcaster → Broadcaster
  unfolding try_ports
  try_start_next_port generation b =
      if nat_eq generation b.startup_generation then try_ports generation b.candidate_ports b else b

  unfoldable pub start : Broadcaster → Broadcaster
  unfolding try_start_next_port
  start b =
      if b.is_running || is_some b.wss
      then b
      else try_start_next_port (suc b.startup_generation) (record b {
        startup_retry_timer = none;
        candidate_ports = b.configured_ports;
        startup_generation = suc b.startup_generation;
      })

  -- The server reports an error, of an address in use or another.
  unfoldable pub on_error : ℕ → ℕ → Bool → Broadcaster → Broadcaster
  unfolding try_start_next_port
  on_error generation server address_in_use b =
      if not (nat_eq generation b.startup_generation) || not (is_current b.wss server)
      then b
      else if address_in_use
      then try_start_next_port generation (record b { wss = none })
      else record b { is_running = false }

  -- The callback of the timer that is set.
  unfoldable pub retry_fires : Broadcaster → Broadcaster
  unfolding try_start_next_port
  retry_fires b = elim b.startup_retry_timer [
    | none ↦ b
    | some generation ↦
        if not (nat_eq generation b.startup_generation) || is_some b.wss || b.is_running
        then record b { startup_retry_timer = none }
        else try_start_next_port generation
            (record b { startup_retry_timer = none; candidate_ports = b.configured_ports })
  ]

-- A stale server is closed instead.
unfoldable pub on_listening : ℕ → ℕ → Broadcaster → Broadcaster
on_listening generation server b =
    if not (nat_eq generation b.startup_generation) || not (is_current b.wss server)
    then b
    else record b { is_running = true }

unfoldable pub on_close : ℕ → Broadcaster → Broadcaster
on_close server b =
    if is_current b.wss server then record b { wss = none; is_running = false; clients = [] } else b

unfoldable pub stop : Broadcaster → Broadcaster
stop b = elim b.wss [
  | none ↦ record b { startup_retry_timer = none }
  | some server ↦ record b {
    startup_generation = suc b.startup_generation;
    startup_retry_timer = none;
    wss = none;
    clients = [];
  }
]

-- The closing of the server that `stop` waits for has ended, or has thrown.
unfoldable pub stopped : Broadcaster → Broadcaster
stopped b = record b { is_running = false }

unfoldable pub handle_connection : Access → Request → ℕ → Broadcaster → Broadcaster
unfolding authorize_request
handle_connection access request client b = elim (authorize_request access request) [
  | allowed ↦ record b { clients = b.clients ++ client ∷ [] }
  | denied reason ↦ b
]

-- A client has closed its connection or has failed.
unfoldable pub client_leaves : ℕ → Broadcaster → Broadcaster
client_leaves client b = record b { clients = keep (λ c. not (nat_eq c client)) b.clients }

-- To whom an event is sent: the clients that are open.
unfoldable pub broadcast : (ℕ → Bool) → Broadcaster → List ℕ
broadcast is_open b = if not b.is_running || not (is_some b.wss) then [] else keep is_open b.clients
