-- ===== src/Transport/Dedupe.antt =====
-- transport/manager-dedupe.ts: the two maps of markers by which the owner drops repeated events.
-- A marker is the time at which it expires; the time of each call is an argument.
pub mod Window
use openclaw_event_server_pl.Common.{
  ℕ, ◌+◌, Bool, true, false, none, some, List, [], ◌∷◌, ltb, if◌then◌else◌,
}
use openclaw_event_server_pl.Common.JsMap.{JsMap}
use openclaw_event_server_pl.Common.JsMap
use openclaw_event_server_pl.Events.{OpenClawEvent}
use openclaw_event_server_pl.Transport.Config.{TransportConfig}
use openclaw_event_server_pl.Transport.Protocol.{build_semantic_key}

pub record Seen : Type 0 where
  pub event_ids : JsMap ℕ
  pub semantic_keys : JsMap ℕ

abbrev pub no_events : Seen
no_events = record { event_ids = []; semantic_keys = [] }

-- A marker that has expired is deleted.
unfoldable pub prune_transport_dedupe_entries : ℕ → Seen → Seen
prune_transport_dedupe_entries now seen = record {
  event_ids = JsMap.retain (ltb now) seen.event_ids;
  semantic_keys = JsMap.retain (ltb now) seen.semantic_keys;
}

-- The part after the check of the event id.
check_semantic_key : TransportConfig → ℕ → OpenClawEvent → Seen → Bool × Seen
check_semantic_key config now e seen =
    if config.semantic_dedupe_enabled
    then elim (build_semantic_key e) [
      | none ↦ (true, seen)
      | some key ↦ if JsMap.has key seen.semantic_keys then (false, seen) else (
        true,
        record seen {
          semantic_keys = JsMap.set key (now + config.dedupe_ttl_ms) seen.semantic_keys;
        },
      )
    ]
    else (true, seen)

check_event_id : TransportConfig → ℕ → OpenClawEvent → Seen → Bool × Seen
unfolding check_semantic_key
check_event_id config now e seen =
    if JsMap.has e.event_id seen.event_ids
    then (false, seen)
    else check_semantic_key config now e (record seen {
      event_ids = JsMap.set e.event_id (now + config.dedupe_ttl_ms) seen.event_ids;
    })

unfoldable pub should_process_transport_event :
    TransportConfig → ℕ → OpenClawEvent → Seen → Bool × Seen
unfolding check_event_id
should_process_transport_event config now e seen =
    check_event_id config now e (prune_transport_dedupe_entries now seen)

-- The events that reach the owner, with their times, one after the other.
unfoldable pub seen_after : TransportConfig → List (ℕ × OpenClawEvent) → Seen → Seen
seen_after config [] seen = seen
seen_after config ((now, e) ∷ rest) seen =
    seen_after config rest (should_process_transport_event config now e seen).1
