-- ===== src/HookBridge/Evaluation/Calls.antt =====
-- The calls of the guard in any order (runtime/hook-bridge.ts): evaluations start and the actions that they
-- await end while others go on.
use openclaw_event_server_pl.Common.{
  ℕ, ◌+◌, ◌-◌, ◌<◌, ◌≤◌, String, true, some, List, [], ◌∷◌, arith, ◌≡◌, sym, subst,
}
use openclaw_event_server_pl.Common.JsMap.{get-set_self, set-IsMap}
use openclaw_event_server_pl.Common.JsMap
use openclaw_event_server_pl.Events.{Fields}
use openclaw_event_server_pl.HookBridge.Guard.{
  Guard, ToolCall, BlockedState, record_tool_guard_decision,
}
use openclaw_event_server_pl.HookBridge.Evaluation.{
  GuardSetup, Waiting, ActionResult, finished, evaluate_before_tool_call, resume, backoff_reason,
  throws, judge_answer, answer_failed, proceed, failure,
}
use openclaw_event_server_pl.HookBridge.Evaluation.Backoff.{scope_of, refusal, evaluate_blocked}
use openclaw_event_server_pl.HookBridge.Evaluation.Persistence.{
  IsBlockedSince, resume-IsBlockedSince, evaluate-IsBlockedSince,
}

pub data GuardCall : Type 0 where
  -- A tool call with the event that is built for it, and the time.
  evaluates : ToolCall → Fields → ℕ → GuardCall
  -- The end of an awaited action, and the time.
  answers : Waiting → ActionResult → ℕ → GuardCall

unfoldable pub step : GuardSetup → GuardCall → Guard → Guard
step s (evaluates c event now) g = (evaluate_before_tool_call s c event now g).0
step s (answers w result now) g = (resume s w result now g).0

unfoldable pub run : GuardSetup → List GuardCall → Guard → Guard
unfolding step
run s [] g = g
run s (call ∷ rest) g = run s rest (step s call g)

-- Evaluations start within the backoff of the block, and only those end that did not start before it.
abbrev pub IsTimely : ℕ → ℕ → GuardCall → Type 0
IsTimely time backoff (evaluates c event now) = (time ≤ now) × (now < time + backoff)
IsTimely time backoff (answers w result now) = time ≤ w.call.now_ms

abbrev pub AreTimely : ℕ → ℕ → List GuardCall → Type 0
AreTimely time backoff [] = Unit
AreTimely time backoff (call ∷ rest) = IsTimely time backoff call × AreTimely time backoff rest

step-IsBlockedSince :
    (s : GuardSetup) (scope : String) (time : ℕ) (call : GuardCall) (g : Guard)
    → IsTimely time s.config.retry_backoff_ms call
    → IsBlockedSince scope time g
    → IsBlockedSince scope time (step s call g)
unfolding step
step-IsBlockedSince s scope time (evaluates c event now) g timely h =
    evaluate-IsBlockedSince scope time s c event now g timely.0 timely.1 h
step-IsBlockedSince s scope time (answers w result now) g timely h =
    resume-IsBlockedSince scope time s w result now g timely h

run-IsBlockedSince :
    (s : GuardSetup) (scope : String) (time : ℕ) (calls : List GuardCall) (g : Guard)
    → AreTimely time s.config.retry_backoff_ms calls
    → IsBlockedSince scope time g
    → IsBlockedSince scope time (run s calls g)
unfolding run
run-IsBlockedSince s scope time [] g timely h = h
run-IsBlockedSince s scope time (call ∷ rest) g timely h =
    run-IsBlockedSince s scope time rest (step s call g) timely.1
      (step-IsBlockedSince s scope time call g timely.0 h)

-- Once a scope is blocked, a tool call of that scope is blocked during the whole backoff, whatever other
-- evaluations start and end in between, if those that end did not start before the block.
pub blocked_scope_stays_blocked :
    (s : GuardSetup) (c : ToolCall) (event : Fields) (time now : ℕ) (calls : List GuardCall)
    (g : Guard)
    → s.config.enabled ≡ true
    → IsBlockedSince (scope_of s c) time g
    → AreTimely time s.config.retry_backoff_ms calls
    → time ≤ now
    → now < time + s.config.retry_backoff_ms
    → (reason : String) × ((evaluate_before_tool_call s c event now (run s calls g)).1
        ≡ finished (some (refusal reason)))
blocked_scope_stays_blocked s c event time now calls g is_on h timely from soon =
    let h' : IsBlockedSince (scope_of s c) time (run s calls g) =
      run-IsBlockedSince s (scope_of s c) time calls g timely h in
    (
      backoff_reason s (s.config.retry_backoff_ms - (now - h'.state.blocked_at_ms)) event,
      evaluate_blocked s c event now (run s calls g) (record {
        is_on = is_on;
        accepts = h'.accepts;
        is_map = h'.is_map;
        state = h'.state;
        there = h'.there;
        recent = ground (arith, h'.since);
      }),
    )

abbrev block_of : GuardSetup → Waiting → String → BlockedState
block_of s w message = record {
  blocked_at_ms = w.call.now_ms;
  reason = (failure s w message).block_reason;
}

failed-IsBlockedSince :
    (s : GuardSetup) (w : Waiting) (message : String) (clock : ℕ) (g : Guard)
    → s.config.blocks_on_error ≡ true
    → g.accepting_events ≡ true
    → JsMap.IsMap g.blocked_retry_state_by_scope
    → IsBlockedSince w.call.scope_key w.call.now_ms (resume s w (throws message) clock g).0
unfolding resume judge_answer answer_failed proceed record_tool_guard_decision
failed-IsBlockedSince s w message clock g strict accepts is_map = rw strict (record {
  accepts = accepts;
  is_map = set-IsMap w.call.scope_key (block_of s w message) g.blocked_retry_state_by_scope is_map;
  state = block_of s w message;
  there = get-set_self w.call.scope_key (block_of s w message) g.blocked_retry_state_by_scope;
  since = omega arith;
})

-- Where the guard is on and accepts calls and errors block, an action that fails blocks every later tool call
-- of its scope for the whole backoff, counted from the start of its evaluation, whatever other evaluations
-- start and end in between, if those that end did not start before it. Whether it is a dry run plays no part.
pub failed_action_blocks_scope :
    (s : GuardSetup) (w : Waiting) (message : String) (clock : ℕ) (g : Guard) (c : ToolCall)
    (event : Fields) (now : ℕ) (calls : List GuardCall)
    → s.config.enabled ≡ true
    → s.config.blocks_on_error ≡ true
    → g.accepting_events ≡ true
    → JsMap.IsMap g.blocked_retry_state_by_scope
    → scope_of s c ≡ w.call.scope_key
    → AreTimely w.call.now_ms s.config.retry_backoff_ms calls
    → w.call.now_ms ≤ now
    → now < w.call.now_ms + s.config.retry_backoff_ms
    → (reason : String) × ((evaluate_before_tool_call s c event now
          (run s calls (resume s w (throws message) clock g).0)).1
        ≡ finished (some (refusal reason)))
failed_action_blocks_scope s w message clock g c event now calls is_on strict accepts is_map same
      timely from soon =
    blocked_scope_stays_blocked s c event w.call.now_ms now calls
      (resume s w (throws message) clock g).0 is_on
      (subst (λ scope. IsBlockedSince scope w.call.now_ms (resume s w (throws message) clock g).0)
        (sym same) (failed-IsBlockedSince s w message clock g strict accepts is_map))
      timely from soon
