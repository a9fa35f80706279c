-- ===== src/HookBridge/Evaluation/DryRun.antt =====
-- The dry run of the tool guard (`evaluateBeforeToolCall` of runtime/hook-bridge.ts).
use openclaw_event_server_pl.Common.{
  ℕ, String, true, false, Option, none, some, List, [], ◌∷◌, ◌==◌, ◌≡◌, refl, subst, Bool-cases,
  Option-cases, inl, inr, is_some, trim,
}
use openclaw_event_server_pl.Common.JsMap.{JsMap, get-set_self}
use openclaw_event_server_pl.Common.JsMap
use openclaw_event_server_pl.HookBridge.Actions.{GuardDecision}
use openclaw_event_server_pl.HookBridge.Guard.{
  Guard, ToolGuardRule, DecisionSource, rule_source, action_source, GuardOutcome, is_true,
}
use openclaw_event_server_pl.HookBridge.Evaluation.{
  GuardSetup, Evaluated, Waiting, Progress, finished, awaiting, ActionResult, no_decision, decides,
  throws, Verdict, goes_on, ends, Step, at_once, awaits, resume, run_rules, try_rule, run_action,
  enforce, judge_answer, answer_failed, proceed, applies, missing_action, dry_run, triggered,
  stops_on_match,
}
use openclaw_event_server_pl.HookBridge.Evaluation.Persistence.{Step-cases}

abbrev pub Allows : Option GuardOutcome → Type 0
Allows none = Unit
Allows (some o) = is_true o.block ≡ false

-- Neither blocks nor approvals are recorded.
abbrev pub RecordsNothing : Guard → Guard → Type 0
RecordsNothing before g =
    (g.blocked_retry_state_by_scope ≡ before.blocked_retry_state_by_scope)
    × (g.approval_cache_by_scope ≡ before.approval_cache_by_scope)

abbrev HarmlessVerdict : Guard → Verdict → Type 0
HarmlessVerdict before (goes_on g) = RecordsNothing before g
HarmlessVerdict before (ends g outcome) = RecordsNothing before g × Allows outcome

abbrev HarmlessStep : Guard → Step → Type 0
HarmlessStep before (at_once v) = HarmlessVerdict before v
HarmlessStep before (awaits g action_id) = RecordsNothing before g

abbrev pub Harmless : Guard → Guard × Progress → Type 0
Harmless before (g, finished outcome) = RecordsNothing before g × Allows outcome
Harmless before (g, awaiting w) = RecordsNothing before g

module _ (s : GuardSetup) (dry : s.config.dry_run ≡ true)
    (lenient : s.config.blocks_on_error ≡ false) where
  dry_run-HarmlessVerdict :
      (before g : Guard) (r : ToolGuardRule) (action_id : Option String)
      → RecordsNothing before g
      → HarmlessVerdict before (dry_run s r action_id g)
  dry_run-HarmlessVerdict before g r action_id h = elim (Bool-cases (stops_on_match s r)) [
    | inl stops ↦ rw stops (h, refl)
    | inr on ↦ rw on h
  ]

  enforce-HarmlessVerdict :
      (before g : Guard) (call : Evaluated) (r : ToolGuardRule) (action_id : Option String)
      (source : DecisionSource) (d : GuardDecision)
      → RecordsNothing before g
      → HarmlessVerdict before (enforce s call r action_id source d g)
  unfolding enforce
  enforce-HarmlessVerdict before g call r action_id source d h =
      rw dry (dry_run-HarmlessVerdict before g r action_id h)

  missing_action-HarmlessVerdict :
      (before g : Guard) (reason : String)
      → RecordsNothing before g
      → HarmlessVerdict before (missing_action s reason g)
  missing_action-HarmlessVerdict before g reason h = rw lenient h

  run_action-HarmlessStep :
      (before g : Guard) (r : ToolGuardRule)
      → RecordsNothing before g
      → HarmlessStep before (run_action s r g)
  unfolding run_action
  run_action-HarmlessStep before g r h = elim (Option-cases r.action) [
    | inl absent ↦ rw (absent, run_action) (missing_action-HarmlessVerdict before g _ h)
    | inr (action_id, given) ↦ elim (Bool-cases (trim action_id == "")) [
      | inl blank ↦ rw (given, run_action) (rw blank (missing_action-HarmlessVerdict before g _ h))
      | inr named ↦ elim (Bool-cases (is_some (JsMap.get action_id s.actions))) [
        | inl known ↦ rw (given, run_action) (rw (named, known) h)
        | inr unknown ↦
            rw (given, run_action)
              (rw (named, unknown) (missing_action-HarmlessVerdict before g _ h))
      ]
    ]
  ]

  try_rule-HarmlessStep :
      (before g : Guard) (call : Evaluated) (r : ToolGuardRule) (clock : ℕ)
      → RecordsNothing before g
      → HarmlessStep before (try_rule s call r clock g)
  unfolding try_rule
  try_rule-HarmlessStep before g call r clock h = elim (Bool-cases (applies s call r clock g)) [
    | inr skips ↦ rw skips h
    | inl meets ↦ elim (Option-cases r.decision) [
      | inl absent ↦
          rw (meets, absent, try_rule) (run_action-HarmlessStep before (triggered s r clock g) r h)
      | inr (d, given) ↦
          rw (meets, given, try_rule)
            (enforce-HarmlessVerdict before (triggered s r clock g) call r none rule_source d h)
    ]
  ]

  run_rules-Harmless :
      (before g : Guard) (call : Evaluated) (rules : List ToolGuardRule) (clock : ℕ)
      → RecordsNothing before g
      → Harmless before (run_rules s call rules clock g)
  unfolding run_rules
  run_rules-Harmless before g call [] clock h = (h, tt)
  run_rules-Harmless before g call (r ∷ rest) clock h =
      let kept : HarmlessStep before (try_rule s call r clock g) =
        try_rule-HarmlessStep before g call r clock h in
      elim (Step-cases (try_rule s call r clock g)) [
        | inl (g', e) ↦
            rw (e, run_rules)
              (run_rules-Harmless before g' call rest clock (subst (HarmlessStep before) e kept))
        | inr other ↦ elim other [
          | inl (g', outcome, e) ↦ rw (e, run_rules) (subst (HarmlessStep before) e kept)
          | inr (g', action_id, e) ↦ rw (e, run_rules) (subst (HarmlessStep before) e kept)
        ]
      ]

  proceed-Harmless :
      (before : Guard) (call : Evaluated) (rest : List ToolGuardRule) (clock : ℕ) (v : Verdict)
      → HarmlessVerdict before v
      → Harmless before (proceed s call rest clock v)
  unfolding proceed
  proceed-Harmless before call rest clock (goes_on g) h =
      run_rules-Harmless before g call rest clock h
  proceed-Harmless before call rest clock (ends g outcome) h = h

  judge_answer-HarmlessVerdict :
      (g : Guard) (w : Waiting) (result : ActionResult)
      → HarmlessVerdict g (judge_answer s w result g)
  unfolding judge_answer answer_failed
  judge_answer-HarmlessVerdict g w no_decision =
      dry_run-HarmlessVerdict g g w.rule (some w.action_id) (refl, refl)
  judge_answer-HarmlessVerdict g w (decides d) =
      enforce-HarmlessVerdict g g w.call w.rule (some w.action_id) action_source d (refl, refl)
  judge_answer-HarmlessVerdict g w (throws message) =
      rw lenient (dry_run-HarmlessVerdict g g w.rule (some w.action_id) (refl, refl))

  -- In a dry run that lets errors pass, what the rules and the answers of their actions say blocks nothing,
  -- and neither a block nor an approval is recorded.
  pub dry_run-Harmless :
      (g : Guard) (call : Evaluated) (rules : List ToolGuardRule) (clock : ℕ) (w : Waiting)
      (result : ActionResult)
      → Harmless g (run_rules s call rules clock g) × Harmless g (resume s w result clock g)
  unfolding resume
  dry_run-Harmless g call rules clock w result = (
    run_rules-Harmless g g call rules clock (refl, refl),
    proceed-Harmless g w.call w.rest clock (judge_answer s w result g)
        (judge_answer-HarmlessVerdict g w result),
  )
