-- ===== src/HookBridge/Evaluation/Backoff.antt =====
-- The backoff of the tool guard (`evaluateBeforeToolCall` of runtime/hook-bridge.ts).
use openclaw_event_server_pl.Common.{
  ℕ, ◌-◌, ◌<◌, String, Bool, true, false, not, ◌&&◌, ◌||◌, Option, none, some, append, arith, ◌≡◌,
  ◌∙◌, ap, refl, get_or, ◌==◌, if◌then◌else◌, show_nat, nat_eq, ltb, leb, starts_with, trim,
}
use openclaw_event_server_pl.Common.JsMap.{JsMap, get-retain}
use openclaw_event_server_pl.Common.JsMap
use openclaw_event_server_pl.Events.{Fields}
use openclaw_event_server_pl.HookBridge.Templates.{
  render_guard_template, replace_tokens, replace_from, token_value,
}
use openclaw_event_server_pl.HookBridge.Templates.Plain.{
  is_plain, braced, replace-append_plain, replace_plain, replace-braced,
}
use text.Mathlib.TextLemmas.{nil-append}
use openclaw_event_server_pl.HookBridge.Guard.{
  Guard, ToolCall, BlockedState, GuardOutcome, tool_and_params, backoff_source,
  cleanup_tool_guard_state,
}
use openclaw_event_server_pl.HookBridge.Evaluation.{
  GuardSetup, Evaluated, finished, refuses, evaluate_before_tool_call, build_tool_guard_scope_key,
  backoff_reason, backing_off, check_backoff,
}

-- The key of the call's scope.
abbrev pub scope_of : GuardSetup → ToolCall → String
scope_of s c =
    build_tool_guard_scope_key s c.tool_name c.params (get_or s.config.scope_key_by tool_and_params)

abbrev pub refusal : String → GuardOutcome
refusal reason = record (refuses reason) { matched = true; decision_source = some backoff_source }

-- The guard is on, and the scope was blocked less than a backoff ago.
pub record IsBlocked (s : GuardSetup) (c : ToolCall) (now : ℕ) (g : Guard) : Type 0 where
  pub is_on : s.config.enabled ≡ true
  pub accepts : g.accepting_events ≡ true
  pub is_map : JsMap.IsMap g.blocked_retry_state_by_scope
  pub state : BlockedState
  pub there : JsMap.get (scope_of s c) g.blocked_retry_state_by_scope ≡ some state
  pub recent : now - state.blocked_at_ms < s.config.retry_backoff_ms

kept_blocked :
    (s : GuardSetup) (c : ToolCall) (now : ℕ) (g : Guard) (h : IsBlocked s c now g)
    → JsMap.get
        (scope_of s c)
        (cleanup_tool_guard_state now s.config.retry_backoff_ms g).blocked_retry_state_by_scope
      ≡ some h.state
unfolding cleanup_tool_guard_state
kept_blocked s c now g h =
    let on : nat_eq s.config.retry_backoff_ms 0 ≡ false = ground (arith, h.recent) in
    let young : leb s.config.retry_backoff_ms (now - h.state.blocked_at_ms) ≡ false =
      ground (arith, h.recent) in
    rw on (
      get-retain _ (scope_of s c) g.blocked_retry_state_by_scope h.is_map
      ∙ rw h.there (rw young refl))

pub evaluate_blocked :
    (s : GuardSetup) (c : ToolCall) (event : Fields) (now : ℕ) (g : Guard) (h : IsBlocked s c now g)
    → (evaluate_before_tool_call s c event now g).1
      ≡ finished (
          some (
            refusal
              (backoff_reason s (s.config.retry_backoff_ms - (now - h.state.blocked_at_ms)) event)))
unfolding evaluate_before_tool_call check_backoff
evaluate_blocked s c event now g h =
    let on : nat_eq s.config.retry_backoff_ms 0 ≡ false = ground (arith, h.recent) in
    let young : ltb (now - h.state.blocked_at_ms) s.config.retry_backoff_ms ≡ true =
      ground (arith, h.recent) in
    let cleaned : Guard = cleanup_tool_guard_state now s.config.retry_backoff_ms g in
    let call : Evaluated = record { tool_event = event; scope_key = scope_of s c; now_ms = now } in
    let off : (not s.config.enabled || not g.accepting_events) ≡ false =
      ground (arith, h.is_on, h.accepts) in
    let due : (not (nat_eq s.config.retry_backoff_ms 0)
          && ltb (now - h.state.blocked_at_ms) s.config.retry_backoff_ms)
        ≡ true =
      ground (arith, on, young) in
    let waits : backing_off s now (JsMap.get (scope_of s c) cleaned.blocked_retry_state_by_scope)
        ≡ some (s.config.retry_backoff_ms - (now - h.state.blocked_at_ms)) =
      ap (backing_off s now) (kept_blocked s c now g h)
      ∙ ap
          (λ (b : Bool).
            if b then some (s.config.retry_backoff_ms - (now - h.state.blocked_at_ms)) else none)
          due in
    ap
      (λ (b : Bool).
        (if b
          then (g, finished none)
          else check_backoff s call cleaned (
              backing_off s now (JsMap.get (scope_of s c) cleaned.blocked_retry_state_by_scope))).1)
      off
    ∙ ap (λ (o : Option ℕ). (check_backoff s call cleaned o).1) waits

abbrev remaining_value : ℕ → String → Option String
remaining_value ms token = if token == "retryBackoffRemainingMs" then some (show_nat ms) else none

-- The first pass takes the placeholder for an unknown token, which is empty.
rendered :
    (sort_fields : Fields → Fields) (event : Fields) (pre post : String)
    → is_plain pre ≡ true
    → is_plain post ≡ true
    → render_guard_template sort_fields (append pre (braced "retryBackoffRemainingMs" post)) event
      ≡ append pre post
unfolding render_guard_template replace_tokens token_value starts_with trim
rendered sort_fields event pre post plain plain' =
    let value : String → Option String = λ token. some (token_value sort_fields event token) in
    replace-append_plain value pre (braced "retryBackoffRemainingMs" post) plain
    ∙ ap (append pre) (
        replace-braced value "retryBackoffRemainingMs" "" post refl refl refl
        ∙ (nil-append (replace_from value 0 post) ∙ replace_plain value post plain'))

-- A reason for the backoff that names how long it still takes, between texts without opening braces, is
-- told with an empty text in that place: how long it takes is never told.
pub remaining_time_is_erased :
    (s : GuardSetup) (c : ToolCall) (event : Fields) (now : ℕ) (g : Guard) (pre post : String)
    → IsBlocked s c now g
    → s.config.retry_backoff_reason ≡ some (append pre (braced "retryBackoffRemainingMs" post))
    → is_plain pre ≡ true
    → is_plain post ≡ true
    → (evaluate_before_tool_call s c event now g).1 ≡ finished (some (refusal (append pre post)))
unfolding backoff_reason replace_tokens
remaining_time_is_erased s c event now g pre post h reason plain plain' =
    let ms : ℕ = s.config.retry_backoff_ms - (now - h.state.blocked_at_ms) in
    let told : backoff_reason s ms event ≡ append pre post =
      ap
        (λ o. replace_tokens (remaining_value ms) (
          render_guard_template s.platform.sort_fields
            (get_or o "Retry blocked. Back off briefly before retrying this tool call.") event))
        reason
      ∙ (ap (replace_tokens (remaining_value ms))
            (rendered s.platform.sort_fields event pre post plain plain')
          ∙ (replace-append_plain (remaining_value ms) pre post plain
              ∙ ap (append pre) (replace_plain (remaining_value ms) post plain'))) in
    evaluate_blocked s c event now g h ∙ ap (λ r. finished (some (refusal r))) told
