-- ===== src/Broadcast/WebSocket/Startup.antt =====
-- How the server of broadcast/websocketServer.ts comes to a port, retries and stops.
use openclaw_event_server_pl.Common.{
  ℕ, zero, suc, Bool, true, false, not, ◌||◌, Option, none, some, List, [], ◌∷◌, ◌++◌, arith, ◌≡◌,
  refl, sym, ap, ◌∙◌, All, nat_eq, length, append-nil, if◌then◌else◌, subst,
}
use openclaw_event_server_pl.Broadcast.WebSocket.{
  Broadcaster, Attempt, constructed, try_ports, try_start_next_port, start, on_error, retry_fires,
  on_listening, schedule_retry, is_current,
}

nat_eq_refl : (n : ℕ) → nat_eq n n ≡ true
nat_eq_refl n = ground arith

abbrev pub reported : (ℕ → Attempt) → (ℕ → Bool) → Broadcaster → Option ℕ → Broadcaster
reported attempt taken b none = b
reported attempt taken b (some server) =
    if taken b.port
    then on_error attempt b.startup_generation server true b
    else on_listening b.startup_generation server b

-- The server that is there reports, where there is one: an error, if its port is taken, else that it listens.
abbrev pub report : (ℕ → Attempt) → (ℕ → Bool) → Broadcaster → Broadcaster
report attempt taken b = reported attempt taken b b.wss

abbrev pub reports : (ℕ → Attempt) → (ℕ → Bool) → ℕ → Broadcaster → Broadcaster
reports attempt taken zero b = b
reports attempt taken (suc n) b = reports attempt taken n (report attempt taken b)

-- It waits with a timer for the next round, over these ports.
abbrev pub Waits : List ℕ → Broadcaster → Type 0
Waits ports b =
    (b.startup_retry_timer ≡ some b.startup_generation)
    × (b.wss ≡ none)
    × (b.is_running ≡ false)
    × (b.configured_ports ≡ ports)

-- A server is there on the port, of which no report has come; these candidates are left.
abbrev Tries : List ℕ → ℕ → List ℕ → Broadcaster → Type 0
Tries ports p rest b =
    ((server : ℕ) × (b.wss ≡ some server))
    × (b.port ≡ p)
    × (b.candidate_ports ≡ rest)
    × (b.startup_retry_timer ≡ none)
    × (b.is_running ≡ false)
    × (b.configured_ports ≡ ports)

abbrev At : List ℕ → List ℕ → Broadcaster → Type 0
At ports [] b = Waits ports b
At ports (p ∷ rest) b = Tries ports p rest b

-- It is closed, and neither runs nor starts.
abbrev pub IsIdle : Broadcaster → Type 0
IsIdle b = (b.is_running ≡ false) × (b.wss ≡ none)

-- It runs on the port, with a server.
abbrev pub RunsOn : ℕ → Broadcaster → Type 0
RunsOn p b = (b.is_running ≡ true) × (b.port ≡ p) × ((server : ℕ) × (b.wss ≡ some server))

abbrev pub AreTaken : (ℕ → Bool) → List ℕ → Type 0
AreTaken taken ports = All (λ p. taken p ≡ true) ports

abbrev started : Broadcaster → Broadcaster
started b = record b {
  startup_retry_timer = none;
  candidate_ports = b.configured_ports;
  startup_generation = suc b.startup_generation;
}

start-rounds :
    (attempt : ℕ → Attempt) (b : Broadcaster)
    → IsIdle b
    → start attempt b ≡ try_ports attempt (suc b.startup_generation) b.configured_ports (started b)
unfolding start try_start_next_port
start-rounds attempt b idle = rw (idle.0, idle.1, nat_eq_refl (suc b.startup_generation)) refl

retry-rounds :
    (attempt : ℕ → Attempt) (b : Broadcaster)
    → b.startup_retry_timer ≡ some b.startup_generation
    → b.wss ≡ none
    → b.is_running ≡ false
    → retry_fires attempt b
      ≡ try_ports attempt b.startup_generation b.configured_ports
          (record b { startup_retry_timer = none; candidate_ports = b.configured_ports })
unfolding retry_fires try_start_next_port
retry-rounds attempt b timer closed rests =
    rw (timer, nat_eq_refl b.startup_generation, closed, rests) refl

-- A start whose first port is taken by the constructor makes a new server.
pub start-wss :
    (attempt : ℕ → Attempt) (b : Broadcaster) (p : ℕ) (rest : List ℕ)
    → IsIdle b
    → b.configured_ports ≡ p ∷ rest
    → attempt p ≡ constructed
    → (start attempt b).wss ≡ some b.next_server
unfolding try_ports
start-wss attempt b p rest idle ports free =
    rw (start-rounds attempt b idle) (rw ports (rw (free, try_ports) refl))

not_stale :
    (b : Broadcaster) (server : ℕ)
    → b.wss ≡ some server
    → (not (nat_eq b.startup_generation b.startup_generation) || not (is_current b.wss server))
      ≡ false
not_stale b server there =
    let own : is_current b.wss server ≡ true =
      ap (λ o. is_current o server) there ∙ nat_eq_refl server in
    ground (arith, own)

module _ (attempt : ℕ → Attempt) (constructs : (p : ℕ) → attempt p ≡ constructed) where
  try_ports-At :
      (generation : ℕ) (candidates : List ℕ) (b : Broadcaster)
      → generation ≡ b.startup_generation
      → b.startup_retry_timer ≡ none
      → IsIdle b
      → At b.configured_ports candidates (try_ports attempt generation candidates b)
  unfolding try_ports schedule_retry
  try_ports-At generation [] b current idle closed =
      let e : nat_eq generation b.startup_generation ≡ true = ground (arith, current) in
      rw (e, idle) (ap (λ (n : ℕ). some n) current, closed.1, refl, refl)
  try_ports-At generation (p ∷ rest) b current idle closed =
      rw (constructs p, try_ports) ((b.next_server, refl), refl, refl, idle, closed.0, refl)

  report-next :
      (taken : ℕ → Bool) (server : ℕ) (b : Broadcaster)
      → b.wss ≡ some server
      → taken b.port ≡ true
      → report attempt taken b
        ≡ try_ports attempt b.startup_generation b.candidate_ports (record b { wss = none })
  unfolding on_error try_start_next_port
  report-next taken server b there busy =
      let off = not_stale b server there in
      ap (reported attempt taken b) there ∙ rw (busy, off, nat_eq_refl b.startup_generation) refl

  report-At :
      (taken : ℕ → Bool) (ports : List ℕ) (p : ℕ) (rest : List ℕ) (b : Broadcaster)
      → taken p ≡ true
      → At ports (p ∷ rest) b
      → At ports rest (report attempt taken b)
  report-At taken ports p rest b busy h =
      let (there, port, candidates, idle, rests, configured) = h in
      let e : taken b.port ≡ true = ap taken port ∙ busy in
      let next =
        try_ports attempt b.startup_generation b.candidate_ports (record b { wss = none }) in
      let there' : At b.configured_ports b.candidate_ports next =
        try_ports-At b.startup_generation b.candidate_ports (record b { wss = none }) refl idle
          (rests, refl) in
      rw (report-next taken there.0 b there.1 e) (
        subst (λ ports. At ports rest next) configured
          (subst (λ candidates. At b.configured_ports candidates next) candidates there'))

  reports-At :
      (taken : ℕ → Bool) (ports busy rest : List ℕ) (b : Broadcaster)
      → AreTaken taken busy
      → At ports (busy ++ rest) b
      → At ports rest (reports attempt taken (length busy) b)
  reports-At taken ports [] rest b all h = h
  reports-At taken ports (p ∷ busy) rest b all h =
      reports-At taken ports busy rest (report attempt taken b) all.1
        (report-At taken ports p (busy ++ rest) b all.0 h)

  report-listens :
      (taken : ℕ → Bool) (server : ℕ) (b : Broadcaster)
      → b.wss ≡ some server
      → taken b.port ≡ false
      → report attempt taken b ≡ record b { is_running = true }
  unfolding on_listening
  report-listens taken server b there free =
      let off = not_stale b server there in
      ap (reported attempt taken b) there ∙ rw (free, off) refl

  reports-RunsOn :
      (taken : ℕ → Bool) (ports busy : List ℕ) (p : ℕ) (rest : List ℕ) (b : Broadcaster)
      → AreTaken taken busy
      → taken p ≡ false
      → At ports (busy ++ p ∷ rest) b
      → RunsOn p (report attempt taken (reports attempt taken (length busy) b))
  reports-RunsOn taken ports busy p rest b all free h =
      let b' = reports attempt taken (length busy) b in
      let here = reports-At taken ports busy (p ∷ rest) b all h in
      let e : taken b'.port ≡ false = ap taken here.1 ∙ free in
      rw (report-listens taken here.0.0 b' here.0.1 e) (refl, here.1, here.0)

  start-At :
      (b : Broadcaster) → IsIdle b → At b.configured_ports b.configured_ports (start attempt b)
  start-At b idle =
      rw (start-rounds attempt b idle)
        (try_ports-At (suc b.startup_generation) b.configured_ports (started b) refl refl idle)

  retry-At :
      (ports : List ℕ) (b : Broadcaster) → Waits ports b → At ports ports (retry_fires attempt b)
  retry-At ports b waits =
      rw (retry-rounds attempt b waits.0 waits.1 waits.2, waits.3)
        (try_ports-At b.startup_generation ports
          (record b {
            startup_retry_timer = none;
            candidate_ports = ports;
            configured_ports = ports;
          })
          refl refl (waits.2, waits.1))

  -- Where the constructor takes every port and the servers of the ports before the first free one report that
  -- these are in use, an idle broadcaster that is started listens on the first free port, after one report
  -- for each port before it and its own.
  pub start_reaches_free :
      (taken : ℕ → Bool) (b : Broadcaster) (busy : List ℕ) (p : ℕ) (rest : List ℕ)
      → IsIdle b
      → b.configured_ports ≡ busy ++ p ∷ rest
      → AreTaken taken busy
      → taken p ≡ false
      → RunsOn p (report attempt taken (reports attempt taken (length busy) (start attempt b)))
  start_reaches_free taken b busy p rest idle ports all free =
      reports-RunsOn taken b.configured_ports busy p rest (start attempt b) all free (
        subst (λ candidates. At b.configured_ports candidates (start attempt b)) ports
          (start-At b idle))

  reports-Waits :
      (taken : ℕ → Bool) (b : Broadcaster)
      → IsIdle b
      → AreTaken taken b.configured_ports
      → Waits b.configured_ports
          (reports attempt taken (length b.configured_ports) (start attempt b))
  reports-Waits taken b idle all =
      reports-At taken b.configured_ports b.configured_ports [] (start attempt b) all (
        subst (λ candidates. At b.configured_ports candidates (start attempt b))
          (sym (append-nil b.configured_ports)) (start-At b idle))

  -- Where the constructor takes every port and the servers of all ports report that these are in use, an idle
  -- broadcaster that is started sets the retry timer and has no server left; and when the timer ends, it
  -- listens on the first port that is free by then, after one report for each port before it and its own.
  pub retry_reaches_free :
      (before after : ℕ → Bool) (b : Broadcaster) (busy : List ℕ) (p : ℕ) (rest : List ℕ)
      → IsIdle b
      → b.configured_ports ≡ busy ++ p ∷ rest
      → AreTaken before b.configured_ports
      → AreTaken after busy
      → after p ≡ false
      → let waiting = reports attempt before (length b.configured_ports) (start attempt b) in
        (waiting.startup_retry_timer ≡ some waiting.startup_generation)
        × (waiting.wss ≡ none)
        × RunsOn p (
            report attempt after
              (reports attempt after (length busy) (retry_fires attempt waiting)))
  retry_reaches_free before after b busy p rest idle ports all all' free =
      let waiting = reports attempt before (length b.configured_ports) (start attempt b) in
      let waits = reports-Waits before b idle all in
      (
        waits.0,
        waits.1,
        reports-RunsOn after b.configured_ports busy p rest (retry_fires attempt waiting) all' free
            (subst (λ candidates. At b.configured_ports candidates (retry_fires attempt waiting))
              ports (retry-At b.configured_ports waiting waits)),
      )
