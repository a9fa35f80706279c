-- ===== src/Transport/Dedupe/Window.antt =====
-- The time window of the owner's dedupe (transport/manager-dedupe.ts).
use openclaw_event_server_pl.Common.{
  ℕ, ◌+◌, ◌≤◌, ◌<◌, ◌≡◌, refl, String, Bool, true, false, not, ◌&&◌, Option, none, some, List, [],
  ◌∷◌, arith, ltb, is_some, eq_iff, All, Option-cases, inl, inr, lt→ltb, ◌∙◌,
}
use openclaw_event_server_pl.Common.JsMap.{
  JsMap, IsMap, filter_value, get-set, get-set_self, get-retain, set-IsMap, retain-IsMap,
}
use openclaw_event_server_pl.Common.JsMap
use openclaw_event_server_pl.Events.{OpenClawEvent}
use openclaw_event_server_pl.Transport.Config.{TransportConfig}
use openclaw_event_server_pl.Transport.Protocol.{build_semantic_key}
use openclaw_event_server_pl.Transport.Dedupe.{
  Seen, no_events, prune_transport_dedupe_entries, should_process_transport_event, seen_after,
}

-- Both maps hold a key once.
pub record IsSeen (seen : Seen) : Type 0 where
  pub ids : IsMap seen.event_ids
  pub keys : IsMap seen.semantic_keys

-- A marker that has not expired.
abbrev pub is_live : ℕ → String → JsMap ℕ → Bool
is_live now k m = is_some (filter_value (ltb now) (JsMap.get k m))

-- The key is one of a live marker; an event without a key has none.
abbrev pub is_live_key : ℕ → Option String → JsMap ℕ → Bool
is_live_key now none m = false
is_live_key now (some key) m = is_live now key m

prune-IsSeen :
    (now : ℕ) (seen : Seen) → IsSeen seen → IsSeen (prune_transport_dedupe_entries now seen)
unfolding prune_transport_dedupe_entries
prune-IsSeen now seen v = record {
  ids = retain-IsMap (ltb now) seen.event_ids v.ids;
  keys = retain-IsMap (ltb now) seen.semantic_keys v.keys;
}

pub should_process-IsSeen :
    (config : TransportConfig) (now : ℕ) (e : OpenClawEvent) (seen : Seen)
    → IsSeen seen
    → IsSeen (should_process_transport_event config now e seen).1
unfolding should_process_transport_event prune_transport_dedupe_entries
should_process-IsSeen config now e seen v = grind (arith, retain-IsMap, set-IsMap)

-- An event is processed exactly when its id has no live marker and, if semantic dedupe is on and
-- the event has a key, the key has none either.
pub should_process_lem :
    (config : TransportConfig) (now : ℕ) (e : OpenClawEvent) (seen : Seen)
    → IsSeen seen
    → (should_process_transport_event config now e seen).0 ≡ (
        not (is_live now e.event_id seen.event_ids)
        && not (
            config.semantic_dedupe_enabled
            && is_live_key now (build_semantic_key e) seen.semantic_keys))
unfolding should_process_transport_event prune_transport_dedupe_entries
should_process_lem config now e seen v = elim (Option-cases (build_semantic_key e)) [
  | inl none_e ↦ rw none_e (ground (arith, id_kept))
  | inr (key, e1) ↦
      rw e1 (ground (arith, id_kept, get-retain (ltb now) key seen.semantic_keys v.keys))
]
  where
    id_kept :
        JsMap.get e.event_id (JsMap.retain (ltb now) seen.event_ids)
        ≡ filter_value (ltb now) (JsMap.get e.event_id seen.event_ids)
    id_kept = get-retain (ltb now) e.event_id seen.event_ids v.ids

-- The marker of an id that is processed is set to the end of its window.
processed-marker :
    (config : TransportConfig) (now : ℕ) (e : OpenClawEvent) (seen : Seen)
    → (should_process_transport_event config now e seen).0 ≡ true
    → JsMap.get e.event_id (should_process_transport_event config now e seen).1.event_ids
      ≡ some (now + config.dedupe_ttl_ms)
unfolding should_process_transport_event
processed-marker config now e seen h = ground (
  arith,
  get-set_self e.event_id (now + config.dedupe_ttl_ms)
      (prune_transport_dedupe_entries now seen).event_ids,
)

-- Until a marker expires, no call takes it away or moves it.
marker_stays :
    (config : TransportConfig) (now : ℕ) (e : OpenClawEvent) (seen : Seen) (id : String) (x : ℕ)
    → IsSeen seen
    → JsMap.get id seen.event_ids ≡ some x
    → now < x
    → JsMap.get id (should_process_transport_event config now e seen).1.event_ids ≡ some x
unfolding should_process_transport_event prune_transport_dedupe_entries
marker_stays config now e seen id x v h before = ground (
  arith,
  get-retain (ltb now) id seen.event_ids v.ids,
  eq_iff e.event_id id,
  get-set e.event_id id (now + config.dedupe_ttl_ms) (JsMap.retain (ltb now) seen.event_ids),
)

history-IsSeen :
    (config : TransportConfig) (h : List (ℕ × OpenClawEvent)) (seen : Seen)
    → IsSeen seen
    → IsSeen (seen_after config h seen)
unfolding seen_after
history-IsSeen config [] seen v = v
history-IsSeen config ((now, e) ∷ h) seen v =
    history-IsSeen config h _ (should_process-IsSeen config now e seen v)

history-marker :
    (config : TransportConfig) (h : List (ℕ × OpenClawEvent)) (seen : Seen) (id : String) (x : ℕ)
    → IsSeen seen
    → JsMap.get id seen.event_ids ≡ some x
    → All (λ c. c.0 < x) h
    → JsMap.get id (seen_after config h seen).event_ids ≡ some x
unfolding seen_after
history-marker config [] seen id x v m all = m
history-marker config ((now, e) ∷ h) seen id x v m all =
    history-marker config h _ id x (should_process-IsSeen config now e seen v)
      (marker_stays config now e seen id x v m all.0) all.1

-- Once an event is processed at time `now`, an event with the same id is dropped at each time before
-- `now + dedupeTtlMs`, whatever other events arrive before that time in between.
pub duplicate_dropped :
    (config : TransportConfig) (now later : ℕ) (e again : OpenClawEvent) (seen : Seen)
    (between : List (ℕ × OpenClawEvent))
    → IsSeen seen
    → (should_process_transport_event config now e seen).0 ≡ true
    → again.event_id ≡ e.event_id
    → All (λ c. c.0 < now + config.dedupe_ttl_ms) between
    → later < now + config.dedupe_ttl_ms
    → (should_process_transport_event config later again
        (seen_after config between (should_process_transport_event config now e seen).1)).0
      ≡ false
duplicate_dropped config now later e again seen between v first same within before =
    let v' = should_process-IsSeen config now e seen v in
    let marked =
      history-marker config between _ e.event_id _ v' (processed-marker config now e seen first)
        within in
    should_process_lem config later again _ (history-IsSeen config between _ v')
    ∙ rw (same, marked, lt→ltb _ _ before)

-- No marker lies beyond the bound.
abbrev pub Within : ℕ → JsMap ℕ → Type 0
Within b m = (k : String) (x : ℕ) → JsMap.get k m ≡ some x → x ≤ b

retain-Within :
    (b now : ℕ) (m : JsMap ℕ) → IsMap m → Within b m → Within b (JsMap.retain (ltb now) m)
retain-Within b now m v h k x e = ground (arith, get-retain (ltb now) k m v, h k x)

set-Within : (b x : ℕ) (k : String) (m : JsMap ℕ) → x ≤ b → Within b m → Within b (JsMap.set k x m)
set-Within b x k m le h j y e = ground (arith, get-set k j x m, h j y)

-- The states that a call may leave: the markers kept, the id's added, the key's added too.
should_process_cases {ℓ} :
    (P : Seen → Type ℓ) (config : TransportConfig) (now : ℕ) (e : OpenClawEvent) (seen : Seen)
    → let kept = prune_transport_dedupe_entries now seen in
      let marked = record kept {
        event_ids = JsMap.set e.event_id (now + config.dedupe_ttl_ms) kept.event_ids;
      } in
      P kept
      → P marked
      → ((key : String)
          → P (record marked {
            semantic_keys = JsMap.set key (now + config.dedupe_ttl_ms) kept.semantic_keys;
          }))
      → P (should_process_transport_event config now e seen).1
unfolding should_process_transport_event
should_process_cases P config now e seen pk pm ps = elim (Option-cases (build_semantic_key e)) [
  | inl none_e ↦ rw none_e (ground arith)
  | inr (key, e1) ↦ rw e1 (ground (arith, ps key))
]

should_process-Within :
    (config : TransportConfig) (now b : ℕ) (e : OpenClawEvent) (seen : Seen)
    → IsSeen seen
    → now + config.dedupe_ttl_ms ≤ b
    → Within b seen.event_ids × Within b seen.semantic_keys
    → let after = (should_process_transport_event config now e seen).1 in
      Within b after.event_ids × Within b after.semantic_keys
should_process-Within config now b e seen v le h =
    let ids = retain-Within b now seen.event_ids v.ids h.0 in
    let keys = retain-Within b now seen.semantic_keys v.keys h.1 in
    let ids' = set-Within b (now + config.dedupe_ttl_ms) e.event_id _ le ids in
    should_process_cases (λ s. Within b s.event_ids × Within b s.semantic_keys) config now e seen
      (unfold prune_transport_dedupe_entries in (ids, keys))
      (unfold prune_transport_dedupe_entries in (ids', keys))
      (λ key.
        unfold prune_transport_dedupe_entries in
        (ids', set-Within b (now + config.dedupe_ttl_ms) key _ le keys))

history-Within :
    (config : TransportConfig) (b : ℕ) (h : List (ℕ × OpenClawEvent)) (seen : Seen)
    → IsSeen seen
    → All (λ c. c.0 + config.dedupe_ttl_ms ≤ b) h
    → Within b seen.event_ids × Within b seen.semantic_keys
    → let after = seen_after config h seen in
      Within b after.event_ids × Within b after.semantic_keys
unfolding seen_after
history-Within config b [] seen v all w = w
history-Within config b ((now, e) ∷ h) seen v all w =
    history-Within config b h _ (should_process-IsSeen config now e seen v) all.1
      (should_process-Within config now b e seen v all.0 w)

is_live-Within :
    (b now : ℕ) (k : String) (m : JsMap ℕ) → Within b m → b ≤ now → is_live now k m ≡ false
is_live-Within b now k m w le = elim (Option-cases (JsMap.get k m)) [
  | inl none_e ↦ rw none_e
  | inr (x, e) ↦ rw e (ground (arith, w k x e))
]

is_live_key-Within :
    (b now : ℕ) (k : Option String) (m : JsMap ℕ)
    → Within b m
    → b ≤ now
    → is_live_key now k m ≡ false
is_live_key-Within b now none m w le = refl
is_live_key-Within b now (some k) m w le = is_live-Within b now k m w le

none-Within : {b : ℕ} → Within b []
unfolding JsMap.get
none-Within k x e = cc

-- Dedupe forgets: starting from no markers, an event is processed whatever its id and key, once the
-- windows of all earlier events are over.
pub expired_processed :
    (config : TransportConfig) (later : ℕ) (e : OpenClawEvent) (h : List (ℕ × OpenClawEvent))
    → All (λ c. c.0 + config.dedupe_ttl_ms ≤ later) h
    → (should_process_transport_event config later e (seen_after config h no_events)).0 ≡ true
expired_processed config later e h all =
    let start : IsSeen no_events = record { ids = tt; keys = tt } in
    let seen = history-IsSeen config h no_events start in
    let w = history-Within config later h no_events start all (none-Within, none-Within) in
    should_process_lem config later e _ seen
    ∙ ground (
      arith,
      is_live-Within later later e.event_id _ w.0,
      is_live_key-Within later later (build_semantic_key e) _ w.1,
    )
