-- ===== src/Trackers/AgentRuns/Snapshots.antt =====
-- Which snapshot a run sees (hooks/agent-run-tracker.ts).
use openclaw_event_server_pl.Common.{
  ℕ, String, Option, none, some, ◌≡◌, inl, inr, refl, ◌==◌, ◌∙◌, Bool-cases, if◌then◌else◌, eq_refl,
  get_or,
}
use openclaw_event_server_pl.Common.JsMap.{JsMap, get-set, get-set_self, get-delete}
use openclaw_event_server_pl.Common.JsMap
use openclaw_event_server_pl.Trackers.AgentRuns.{
  AgentRunSnapshot, RunIds, Snapshots, to_tracker_key, observe_before_model_resolve, resolved,
  built, observe_before_prompt_build, get_snapshot, clear_snapshot, empty_snapshot, on_snapshot,
}

get_snapshot_at :
    (q : RunIds) (s : Snapshots) (other : String)
    → to_tracker_key q ≡ some other
    → get_snapshot q s ≡ JsMap.get other s
unfolding get_snapshot
get_snapshot_at q s other o = rw (o, get_snapshot) refl

on_snapshot_at :
    (p : RunIds) (f : AgentRunSnapshot → AgentRunSnapshot) (s : Snapshots) (key : String)
    → to_tracker_key p ≡ some key
    → on_snapshot p f s ≡ JsMap.set key (f (get_or (JsMap.get key s) empty_snapshot)) s
unfolding on_snapshot
on_snapshot_at p f s key k = rw (k, on_snapshot) refl

on_snapshot-get :
    (p : RunIds) (f : AgentRunSnapshot → AgentRunSnapshot) (s : Snapshots) (key other : String)
    → to_tracker_key p ≡ some key
    → JsMap.get other (on_snapshot p f s) ≡ (
        if key == other
        then some (f (get_or (JsMap.get key s) empty_snapshot))
        else JsMap.get other s)
on_snapshot-get p f s key other k = rw (on_snapshot_at p f s key k) (get-set key other _ s)

-- Two changes by the same ids.
twice-get :
    (p : RunIds) (f g : AgentRunSnapshot → AgentRunSnapshot) (s : Snapshots) (key other : String)
    → to_tracker_key p ≡ some key
    → JsMap.get other (on_snapshot p g (on_snapshot p f s)) ≡ (
        if key == other
        then some (g (f (get_or (JsMap.get key s) empty_snapshot)))
        else JsMap.get other s)
twice-get p f g s key other k =
    let once : JsMap.get key (on_snapshot p f s)
        ≡ some (f (get_or (JsMap.get key s) empty_snapshot)) =
      on_snapshot-get p f s key key k ∙ rw (eq_refl key) refl in
    on_snapshot-get p g (on_snapshot p f s) key other k
    ∙ rw once (elim (Bool-cases (key == other)) [
      | inl e ↦ rw e refl
      | inr e ↦ rw e (on_snapshot-get p f s key other k ∙ rw e refl)
    ])

combined :
    (p q : RunIds) (f g : AgentRunSnapshot → AgentRunSnapshot) (s : Snapshots) (key other : String)
    → to_tracker_key p ≡ some key
    → to_tracker_key q ≡ some other
    → get_snapshot q (on_snapshot p g (on_snapshot p f s)) ≡ (
        if key == other
        then some (g (f (get_or (JsMap.get key s) empty_snapshot)))
        else get_snapshot q s)
combined p q f g s key other k o =
    get_snapshot_at q (on_snapshot p g (on_snapshot p f s)) other o
    ∙ twice-get p f g s key other k
    ∙ rw (get_snapshot_at q s other o) refl

clear-get :
    (q : RunIds) (s : Snapshots) (other : String)
    → to_tracker_key q ≡ some other
    → get_snapshot q (clear_snapshot q s) ≡ none
unfolding clear_snapshot
clear-get q s other o =
    get_snapshot_at q (clear_snapshot q s) other o
    ∙ rw (o, clear_snapshot) (get-delete other other s ∙ rw (eq_refl other) refl)

-- The two observations of one run, in either order, are joined in one snapshot: all ids with the same
-- key see the three values, the latest of each, and every other key keeps its snapshot. Clearing by any
-- ids with the key takes the snapshot away.
pub phases_combine :
    (p q : RunIds) (key other : String) (resolve_length build_length messages : ℕ) (s : Snapshots)
    → to_tracker_key p ≡ some key
    → to_tracker_key q ≡ some other
    → let joined : Option AgentRunSnapshot =
        if key == other
        then some record {
          before_model_resolve_prompt_length = some resolve_length;
          before_prompt_build_prompt_length = some build_length;
          before_prompt_build_message_count = some messages;
        }
        else get_snapshot q s in
      let resolve_first =
        observe_before_prompt_build p build_length messages
          (observe_before_model_resolve p resolve_length s) in
      let build_first =
        observe_before_model_resolve p resolve_length
          (observe_before_prompt_build p build_length messages s) in
      (get_snapshot q resolve_first ≡ joined)
      × (get_snapshot q build_first ≡ joined)
      × (get_snapshot q (clear_snapshot q s) ≡ none)
unfolding observe_before_model_resolve observe_before_prompt_build
phases_combine p q key other n b m s k o = (
  combined p q (resolved n) (built b m) s key other k o,
  combined p q (built b m) (resolved n) s key other k o,
  clear-get q s other o,
)
