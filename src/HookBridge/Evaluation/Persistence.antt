-- ===== src/HookBridge/Evaluation/Persistence.antt =====
-- What other calls do to a scope that is blocked (runtime/hook-bridge.ts).
use openclaw_event_server_pl.Common.{
  ℕ, ◌+◌, ◌-◌, ◌<◌, ◌≤◌, String, Bool, true, false, not, ◌||◌, Option, none, some, List, [], ◌∷◌,
  arith, ◌≡◌, ◌⊎◌, ◌∙◌, sym, ap, refl, subst, Bool-cases, Option-cases, inl, inr, ◌==◌,
  if◌then◌else◌, nat_eq, ltb, leb, is_some, trim,
}
use openclaw_event_server_pl.Common.JsMap.{JsMap, get-retain, get-set, set-IsMap, retain-IsMap}
use openclaw_event_server_pl.Common.JsMap
use openclaw_event_server_pl.Events.{Fields}
use openclaw_event_server_pl.HookBridge.Actions.{GuardDecision}
use openclaw_event_server_pl.HookBridge.Guard.{
  Guard, ToolGuardRule, ToolGuardConfig, ToolCall, Approval, BlockedState, GuardOutcome,
  DecisionSource, rule_source, action_source, is_true, cleanup_tool_guard_state,
  record_tool_guard_decision, sort_rules,
}
use openclaw_event_server_pl.HookBridge.Evaluation.{
  GuardSetup, Evaluated, Waiting, ActionResult, no_decision, decides, throws, Verdict, goes_on,
  ends, Step, at_once, awaits, evaluate_before_tool_call, resume, run_rules, try_rule, run_action,
  enforce, judge_answer, answer_failed, check_backoff, check_cache, proceed, applies,
  missing_action, dry_run, triggered, stops_on_match, decided, failure,
}

abbrev verdict_guard : Verdict → Guard
verdict_guard (goes_on g) = g
verdict_guard (ends g outcome) = g

abbrev step_guard : Step → Guard
step_guard (at_once v) = verdict_guard v
step_guard (awaits g action_id) = g

pub Step-cases :
    (v : Step)
    → ((g : Guard) × (v ≡ at_once (goes_on g)))
      ⊎ (((g : Guard) × (outcome : Option GuardOutcome) × (v ≡ at_once (ends g outcome)))
          ⊎ ((g : Guard) × (action_id : String) × (v ≡ awaits g action_id)))
Step-cases (at_once (goes_on g)) = inl (g, refl)
Step-cases (at_once (ends g outcome)) = inr (inl (g, outcome, refl))
Step-cases (awaits g action_id) = inr (inr (g, action_id, refl))

-- The scope was blocked at the time or later, and the guard accepts calls.
pub record IsBlockedSince (scope : String) (time : ℕ) (g : Guard) : Type 0 where
  pub accepts : g.accepting_events ≡ true
  pub is_map : JsMap.IsMap g.blocked_retry_state_by_scope
  pub state : BlockedState
  pub there : JsMap.get scope g.blocked_retry_state_by_scope ≡ some state
  pub since : time ≤ state.blocked_at_ms

module _ (scope : String) (time : ℕ) where
  set-IsBlockedSince :
      (key : String) (st : BlockedState) (g : Guard)
      → time ≤ st.blocked_at_ms
      → IsBlockedSince scope time g
      → IsBlockedSince scope time (record g {
        blocked_retry_state_by_scope = JsMap.set key st g.blocked_retry_state_by_scope;
      })
  set-IsBlockedSince key st g later h = elim (Bool-cases (key == scope)) [
    | inl same ↦ record {
      accepts = h.accepts;
      is_map = set-IsMap key st g.blocked_retry_state_by_scope h.is_map;
      state = st;
      there = get-set key scope st g.blocked_retry_state_by_scope ∙ rw same refl;
      since = later;
    }
    | inr other ↦ record {
      accepts = h.accepts;
      is_map = set-IsMap key st g.blocked_retry_state_by_scope h.is_map;
      state = h.state;
      there = get-set key scope st g.blocked_retry_state_by_scope ∙ rw other h.there;
      since = h.since;
    }
  ]

  -- The other fields of the state do not matter.
  same_blocks-IsBlockedSince :
      (g g' : Guard)
      → g'.accepting_events ≡ g.accepting_events
      → g'.blocked_retry_state_by_scope ≡ g.blocked_retry_state_by_scope
      → IsBlockedSince scope time g
      → IsBlockedSince scope time g'
  same_blocks-IsBlockedSince g g' accepts same h = record {
    accepts = accepts ∙ h.accepts;
    is_map = subst JsMap.IsMap (sym same) h.is_map;
    state = h.state;
    there = ap (JsMap.get scope) same ∙ h.there;
    since = h.since;
  }

  record_decision-IsBlockedSince :
      (key : String) (outcome : GuardOutcome) (config : ToolGuardConfig) (now : ℕ) (g : Guard)
      → time ≤ now
      → IsBlockedSince scope time g
      → IsBlockedSince scope time (record_tool_guard_decision key outcome config now g)
  unfolding record_tool_guard_decision
  record_decision-IsBlockedSince key outcome config now g later h =
      elim (Bool-cases (is_true outcome.block)) [
        | inl blocks ↦ rw blocks (set-IsBlockedSince key _ g later h)
        | inr allows ↦ rw allows (elim (Bool-cases (nat_eq config.approval_cache_ttl_ms 0)) [
          | inl never ↦ rw never h
          | inr cached ↦ rw cached (same_blocks-IsBlockedSince g _ refl refl h)
        ])
      ]

  abbrev Keeps : Verdict → Type 0
  Keeps v = IsBlockedSince scope time (verdict_guard v)

  abbrev StepKeeps : Step → Type 0
  StepKeeps v = IsBlockedSince scope time (step_guard v)

  if-Keeps : (b : Bool) (v w : Verdict) → Keeps v → Keeps w → Keeps (if b then v else w)
  if-Keeps true v w hv hw = hv
  if-Keeps false v w hv hw = hw

  if-StepKeeps :
      (b : Bool) (v w : Step) → StepKeeps v → StepKeeps w → StepKeeps (if b then v else w)
  if-StepKeeps true v w hv hw = hv
  if-StepKeeps false v w hv hw = hw

  module _ (s : GuardSetup) where
    dry_run-Keeps :
        (r : ToolGuardRule) (action_id : Option String) (g : Guard)
        → IsBlockedSince scope time g
        → Keeps (dry_run s r action_id g)
    dry_run-Keeps r action_id g h = if-Keeps (stops_on_match s r) _ _ h h

    enforce-Keeps :
        (call : Evaluated) (r : ToolGuardRule) (action_id : Option String) (source : DecisionSource)
        (d : GuardDecision) (g : Guard)
        → time ≤ call.now_ms
        → IsBlockedSince scope time g
        → Keeps (enforce s call r action_id source d g)
    unfolding enforce
    enforce-Keeps call r action_id source d g later h =
        if-Keeps s.config.dry_run _ _ (dry_run-Keeps r action_id g h) (
          record_decision-IsBlockedSince call.scope_key (decided s call r action_id source d)
            s.config call.now_ms g later h)

    missing_action-Keeps :
        (reason : String) (g : Guard)
        → IsBlockedSince scope time g
        → Keeps (missing_action s reason g)
    missing_action-Keeps reason g h = if-Keeps s.config.blocks_on_error _ _ h h

    run_action-StepKeeps :
        (r : ToolGuardRule) (g : Guard) → IsBlockedSince scope time g → StepKeeps (run_action s r g)
    unfolding run_action
    run_action-StepKeeps r g h = elim (Option-cases r.action) [
      | inl absent ↦ rw (absent, run_action) (missing_action-Keeps _ g h)
      | inr (action_id, given) ↦
          rw (given, run_action)
            (if-StepKeeps (trim action_id == "") _ _ (missing_action-Keeps _ g h) (
              if-StepKeeps (is_some (JsMap.get action_id s.actions)) _ _ h
                (missing_action-Keeps _ g h)))
    ]

    try_rule-StepKeeps :
        (call : Evaluated) (r : ToolGuardRule) (clock : ℕ) (g : Guard)
        → time ≤ call.now_ms
        → IsBlockedSince scope time g
        → StepKeeps (try_rule s call r clock g)
    unfolding try_rule
    try_rule-StepKeeps call r clock g later h =
        let h' : IsBlockedSince scope time (triggered s r clock g) =
          same_blocks-IsBlockedSince g (triggered s r clock g) refl refl h in
        if-StepKeeps (not (applies s call r clock g)) _ _ h (elim (Option-cases r.decision) [
          | inl absent ↦ rw (absent, try_rule) (run_action-StepKeeps r (triggered s r clock g) h')
          | inr (d, given) ↦
              rw (given, try_rule)
                (enforce-Keeps call r none rule_source d (triggered s r clock g) later h')
        ])

    run_rules-IsBlockedSince :
        (call : Evaluated) (rules : List ToolGuardRule) (clock : ℕ) (g : Guard)
        → time ≤ call.now_ms
        → IsBlockedSince scope time g
        → IsBlockedSince scope time (run_rules s call rules clock g).0
    unfolding run_rules
    run_rules-IsBlockedSince call [] clock g later h = h
    run_rules-IsBlockedSince call (r ∷ rest) clock g later h =
        let kept : StepKeeps (try_rule s call r clock g) =
          try_rule-StepKeeps call r clock g later h in
        elim (Step-cases (try_rule s call r clock g)) [
          | inl (g', e) ↦
              rw (e, run_rules)
                (run_rules-IsBlockedSince call rest clock g' later (subst StepKeeps e kept))
          | inr other ↦ elim other [
            | inl (g', outcome, e) ↦ rw (e, run_rules) (subst StepKeeps e kept)
            | inr (g', action_id, e) ↦ rw (e, run_rules) (subst StepKeeps e kept)
          ]
        ]

    judge_answer-Keeps :
        (w : Waiting) (result : ActionResult) (g : Guard)
        → time ≤ w.call.now_ms
        → IsBlockedSince scope time g
        → Keeps (judge_answer s w result g)
    unfolding judge_answer answer_failed
    judge_answer-Keeps w no_decision g later h = dry_run-Keeps w.rule (some w.action_id) g h
    judge_answer-Keeps w (decides d) g later h =
        enforce-Keeps w.call w.rule (some w.action_id) action_source d g later h
    judge_answer-Keeps w (throws message) g later h =
        if-Keeps s.config.blocks_on_error _ _
          (record_decision-IsBlockedSince w.call.scope_key (failure s w message) s.config
            w.call.now_ms g later h)
          (dry_run-Keeps w.rule (some w.action_id) g h)

    proceed-IsBlockedSince :
        (call : Evaluated) (rest : List ToolGuardRule) (clock : ℕ) (v : Verdict)
        → time ≤ call.now_ms
        → Keeps v
        → IsBlockedSince scope time (proceed s call rest clock v).0
    unfolding proceed
    proceed-IsBlockedSince call rest clock (goes_on g) later h =
        run_rules-IsBlockedSince call rest clock g later h
    proceed-IsBlockedSince call rest clock (ends g outcome) later h = h

    pub resume-IsBlockedSince :
        (w : Waiting) (result : ActionResult) (clock : ℕ) (g : Guard)
        → time ≤ w.call.now_ms
        → IsBlockedSince scope time g
        → IsBlockedSince scope time (resume s w result clock g).0
    unfolding resume
    resume-IsBlockedSince w result clock g later h =
        proceed-IsBlockedSince w.call w.rest clock (judge_answer s w result g) later
          (judge_answer-Keeps w result g later h)

    cleanup-IsBlockedSince :
        (now : ℕ) (g : Guard)
        → time ≤ now
        → now < time + s.config.retry_backoff_ms
        → IsBlockedSince scope time g
        → IsBlockedSince scope time (cleanup_tool_guard_state now s.config.retry_backoff_ms g)
    unfolding cleanup_tool_guard_state
    cleanup-IsBlockedSince now g from soon h =
        let on : nat_eq s.config.retry_backoff_ms 0 ≡ false = ground arith in
        let is_young : BlockedState → Bool =
          λ blocked. not (leb s.config.retry_backoff_ms (now - blocked.blocked_at_ms)) in
        let young : is_young h.state ≡ true = ground (arith, h.since) in
        let blocks : (if nat_eq s.config.retry_backoff_ms 0
              then []
              else JsMap.retain is_young g.blocked_retry_state_by_scope)
            ≡ JsMap.retain is_young g.blocked_retry_state_by_scope =
          rw on refl in
        record {
          accepts = h.accepts;
          is_map =
              subst JsMap.IsMap (sym blocks)
                (retain-IsMap is_young g.blocked_retry_state_by_scope h.is_map);
          state = h.state;
          there =
              ap (JsMap.get scope) blocks
              ∙ (get-retain is_young scope g.blocked_retry_state_by_scope h.is_map
                  ∙ rw h.there (rw young refl));
          since = h.since;
        }

    check_cache-IsBlockedSince :
        (call : Evaluated) (g : Guard) (cached : Option Approval)
        → time ≤ call.now_ms
        → IsBlockedSince scope time g
        → IsBlockedSince scope time (check_cache s call g cached).0
    unfolding check_cache
    check_cache-IsBlockedSince call g none later h =
        run_rules-IsBlockedSince call (sort_rules s.config.rules) call.now_ms g later h
    check_cache-IsBlockedSince call g (some cached) later h =
        elim (Bool-cases (ltb call.now_ms cached.expires_at_ms)) [
          | inl fresh ↦ rw fresh h
          | inr stale ↦
              rw stale
                (run_rules-IsBlockedSince call (sort_rules s.config.rules) call.now_ms g later h)
        ]

    check_backoff-IsBlockedSince :
        (call : Evaluated) (g : Guard) (remaining : Option ℕ)
        → time ≤ call.now_ms
        → IsBlockedSince scope time g
        → IsBlockedSince scope time (check_backoff s call g remaining).0
    unfolding check_backoff
    check_backoff-IsBlockedSince call g none later h =
        check_cache-IsBlockedSince call g (JsMap.get call.scope_key g.approval_cache_by_scope) later
          h
    check_backoff-IsBlockedSince call g (some ms) later h = h

    pub evaluate-IsBlockedSince :
        (c : ToolCall) (event : Fields) (now : ℕ) (g : Guard)
        → time ≤ now
        → now < time + s.config.retry_backoff_ms
        → IsBlockedSince scope time g
        → IsBlockedSince scope time (evaluate_before_tool_call s c event now g).0
    unfolding evaluate_before_tool_call
    evaluate-IsBlockedSince c event now g from soon h =
        elim (Bool-cases (not s.config.enabled || not g.accepting_events)) [
          | inl off ↦ rw off h
          | inr on ↦ rw on (
              check_backoff-IsBlockedSince _
                (cleanup_tool_guard_state now s.config.retry_backoff_ms g) _ from
                (cleanup-IsBlockedSince now g from soon h))
        ]
