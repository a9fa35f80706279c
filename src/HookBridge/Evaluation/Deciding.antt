-- ===== src/HookBridge/Evaluation/Deciding.antt =====
-- Which rule of the tool guard decides (`evaluateBeforeToolCall` of runtime/hook-bridge.ts).
use openclaw_event_server_pl.Common.{
  ℕ, ◌<◌, ◌≤◌, Bool, true, false, Option, none, some, List, [], ◌∷◌, ◌++◌, arith, ◌≡◌, ◌∙◌, ap,
  refl, subst, Bool-cases, inl, inr, if◌then◌else◌, get_or, ltb, All,
}
use openclaw_event_server_pl.HookBridge.Actions.{GuardDecision}
use openclaw_event_server_pl.HookBridge.Guard.{
  Guard, ToolGuardRule, rule_source, insert_rule, sort_rules, record_tool_guard_decision,
}
use openclaw_event_server_pl.HookBridge.Evaluation.{
  GuardSetup, Evaluated, finished, run_rules, try_rule, enforce, applies, decided, Verdict, goes_on,
  ends, at_once, dry_run, triggered,
}

abbrev pub priority_of : ToolGuardRule → ℕ
priority_of r = get_or r.priority 0

abbrev AllAtMost : ℕ → List ToolGuardRule → Type 0
AllAtMost p rules = All (λ r. priority_of r ≤ p) rules

abbrev IsSorted : List ToolGuardRule → Type 0
IsSorted [] = Unit
IsSorted (r ∷ rest) = AllAtMost (priority_of r) rest × IsSorted rest

-- A property of all rules survives the sorting.
module _ (P : ToolGuardRule → Type 0) where
  insert_rule-All :
      (r : ToolGuardRule) (rules : List ToolGuardRule)
      → P r
      → All P rules
      → All P (insert_rule r rules)
  unfolding insert_rule
  insert_rule-All r [] p h = (p, tt)
  insert_rule-All r (x ∷ rest) p h = elim (Bool-cases (ltb (priority_of r) (priority_of x))) [
    | inl later ↦ rw later (h.0, insert_rule-All r rest p h.1)
    | inr here ↦ rw here (p, h)
  ]

  sort_rules-All : (rules : List ToolGuardRule) → All P rules → All P (sort_rules rules)
  unfolding sort_rules
  sort_rules-All [] h = tt
  sort_rules-All (r ∷ rest) h = insert_rule-All r (sort_rules rest) h.0 (sort_rules-All rest h.1)

AllAtMost-mono :
    (p q : ℕ) (rules : List ToolGuardRule) → p ≤ q → AllAtMost p rules → AllAtMost q rules
AllAtMost-mono p q [] le h = tt
AllAtMost-mono p q (r ∷ rest) le h = (omega arith, AllAtMost-mono p q rest le h.1)

insert_rule-IsSorted :
    (r : ToolGuardRule) (rules : List ToolGuardRule)
    → IsSorted rules
    → IsSorted (insert_rule r rules)
unfolding insert_rule
insert_rule-IsSorted r [] h = (tt, tt)
insert_rule-IsSorted r (x ∷ rest) h = elim (Bool-cases (ltb (priority_of r) (priority_of x))) [
  | inl later ↦ rw later (
    insert_rule-All (λ q. priority_of q ≤ priority_of x) r rest (ground arith) h.0,
    insert_rule-IsSorted r rest h.1,
  )
  | inr here ↦
      let le : priority_of x ≤ priority_of r = ground arith in
      rw here ((le, AllAtMost-mono (priority_of x) (priority_of r) rest le h.0), h)
]

sort_rules-IsSorted : (rules : List ToolGuardRule) → IsSorted (sort_rules rules)
unfolding sort_rules
sort_rules-IsSorted [] = tt
sort_rules-IsSorted (r ∷ rest) = insert_rule-IsSorted r (sort_rules rest) (sort_rules-IsSorted rest)

module _ (meets : ToolGuardRule → Bool) where
  -- The first rule that passes the test.
  first_meeting : List ToolGuardRule → Option ToolGuardRule
  first_meeting [] = none
  first_meeting (r ∷ rest) = let later = first_meeting rest in if meets r then some r else later

  first_meeting-All :
      (P : ToolGuardRule → Type 0) (rules : List ToolGuardRule) (y : ToolGuardRule)
      → All P rules
      → first_meeting rules ≡ some y
      → (meets y ≡ true) × P y
  unfolding first_meeting
  first_meeting-All P [] y h e = absurd (cc)
  first_meeting-All P (r ∷ rest) y h e = elim (Bool-cases (meets r)) [
    | inl meets_it ↦
        let same : some r ≡ some y = rw meets_it at e in
        subst (λ q. (meets q ≡ true) × P q) (ap (λ o. get_or o r) same) (meets_it, h.0)
    | inr misses_it ↦ first_meeting-All P rest y h.1 (rw misses_it at e)
  ]

  insert-skipped :
      (x : ToolGuardRule) (rules : List ToolGuardRule)
      → meets x ≡ false
      → first_meeting (insert_rule x rules) ≡ first_meeting rules
  unfolding first_meeting insert_rule
  insert-skipped x [] h = rw h refl
  insert-skipped x (r ∷ rest) h = elim (Bool-cases (ltb (priority_of x) (priority_of r))) [
    | inl later ↦ rw (later) (ap (λ o. if meets r then some r else o) (insert-skipped x rest h))
    | inr here ↦ rw here (rw h refl)
  ]

  -- A rule of a lower priority than the first stays behind it.
  insert-behind :
      (x y : ToolGuardRule) (rules : List ToolGuardRule)
      → IsSorted rules
      → first_meeting rules ≡ some y
      → priority_of x < priority_of y
      → first_meeting (insert_rule x rules) ≡ some y
  unfolding first_meeting insert_rule
  insert-behind x y [] sorted e lt = absurd (cc)
  insert-behind x y (r ∷ rest) sorted e lt =
      elim (Bool-cases (ltb (priority_of x) (priority_of r))) [
        | inl later ↦ rw later (elim (Bool-cases (meets r)) [
          | inl meets_it ↦ rw meets_it (rw meets_it at e)
          | inr misses_it ↦ rw misses_it (insert-behind x y rest sorted.1 (rw misses_it at e) lt)
        ])
        | inr here ↦
            let top : (meets y ≡ true) × (priority_of y ≤ priority_of r) =
              first_meeting-All (λ q. priority_of q ≤ priority_of r) (r ∷ rest) y
                (omega arith, sorted.0) e in
            absurd (ground (arith, top.1))
      ]

  -- A rule that meets the test goes before those of the same or a lower priority.
  insert-ahead :
      (x : ToolGuardRule) (rules : List ToolGuardRule)
      → meets x ≡ true
      → All (λ q. meets q ≡ true → priority_of q ≤ priority_of x) rules
      → first_meeting (insert_rule x rules) ≡ some x
  unfolding first_meeting insert_rule
  insert-ahead x [] h all = rw h refl
  insert-ahead x (r ∷ rest) h all = elim (Bool-cases (ltb (priority_of x) (priority_of r))) [
    | inl later ↦ rw later (elim (Bool-cases (meets r)) [
      | inl meets_it ↦ let le = all.0 meets_it in absurd (ground arith)
      | inr misses_it ↦ rw misses_it (insert-ahead x rest h all.1)
    ])
    | inr here ↦ rw here (rw h refl)
  ]

  first_meeting-sort_rules :
      (before after : List ToolGuardRule) (r : ToolGuardRule)
      → meets r ≡ true
      → All (λ q. meets q ≡ true → priority_of q < priority_of r) before
      → All (λ q. meets q ≡ true → priority_of q ≤ priority_of r) after
      → first_meeting (sort_rules (before ++ r ∷ after)) ≡ some r
  unfolding sort_rules
  first_meeting-sort_rules [] after r h lower at_most =
      insert-ahead r (sort_rules after) h
        (sort_rules-All (λ q. meets q ≡ true → priority_of q ≤ priority_of r) after at_most)
  first_meeting-sort_rules (x ∷ before) after r h lower at_most =
      let ih = first_meeting-sort_rules before after r h lower.1 at_most in
      elim (Bool-cases (meets x)) [
        | inl meets_it ↦
            insert-behind x r (sort_rules (before ++ r ∷ after))
              (sort_rules-IsSorted (before ++ r ∷ after)) ih (lower.0 meets_it)
        | inr misses_it ↦ insert-skipped x (sort_rules (before ++ r ∷ after)) misses_it ∙ ih
      ]

module _ (s : GuardSetup) (call : Evaluated) (clock : ℕ) (g : Guard)
    (wet : s.config.dry_run ≡ false) where
  abbrev meets_call : ToolGuardRule → Bool
  meets_call r = applies s call r clock g

  enforced : ToolGuardRule → GuardDecision → Verdict
  enforced r d =
      ends
        (record_tool_guard_decision call.scope_key (decided s call r none rule_source d) s.config
          call.now_ms (triggered s r clock g))
        (some (decided s call r none rule_source d))

  try_rule-decides :
      (r : ToolGuardRule) (d : GuardDecision)
      → meets_call r ≡ true
      → r.decision ≡ some d
      → try_rule s call r clock g ≡ at_once (enforced r d)
  unfolding try_rule enforce enforced
  try_rule-decides r d meets decides =
      rw (meets, decides, try_rule)
        (ap
          (λ (b : Bool).
            at_once (if b then dry_run s r none (triggered s r clock g) else enforced r d))
          wet)

  try_rule-skips :
      (r : ToolGuardRule) → meets_call r ≡ false → try_rule s call r clock g ≡ at_once (goes_on g)
  unfolding try_rule
  try_rule-skips r skips = rw skips refl

  run_rules-first :
      (rules : List ToolGuardRule) (r : ToolGuardRule) (d : GuardDecision)
      → first_meeting meets_call rules ≡ some r
      → r.decision ≡ some d
      → (run_rules s call rules clock g).1 ≡ finished (some (decided s call r none rule_source d))
  unfolding run_rules first_meeting enforced
  run_rules-first [] r d first decides = absurd (cc)
  run_rules-first (x ∷ rest) r d first decides = elim (Bool-cases (meets_call x)) [
    | inl meets_it ↦
        let same : some x ≡ some r = rw meets_it at first in
        let is_x : x ≡ r = ap (λ o. get_or o x) same in
        let given : x.decision ≡ some d = ap (λ (q : ToolGuardRule). q.decision) is_x ∙ decides in
        subst
          (λ q.
            (run_rules s call (x ∷ rest) clock g).1
            ≡ finished (some (decided s call q none rule_source d)))
          is_x (rw (try_rule-decides x d meets_it given, run_rules) refl)
    | inr misses_it ↦
        rw (try_rule-skips x misses_it, run_rules)
          (run_rules-first rest r d (rw misses_it at first) decides)
  ]

  -- Where decisions are enforced, a rule that applies to a call and has a decision decides it, if every
  -- rule that applies and stands before it in the configuration has a lower priority, and none that stands
  -- after it a higher one.
  pub priority_decides :
      (before after : List ToolGuardRule) (r : ToolGuardRule) (d : GuardDecision)
      → applies s call r clock g ≡ true
      → r.decision ≡ some d
      → All (λ q. applies s call q clock g ≡ true → priority_of q < priority_of r) before
      → All (λ q. applies s call q clock g ≡ true → priority_of q ≤ priority_of r) after
      → (run_rules s call (sort_rules (before ++ r ∷ after)) clock g).1
        ≡ finished (some (decided s call r none rule_source d))
  priority_decides before after r d meets decides lower at_most =
      run_rules-first (sort_rules (before ++ r ∷ after)) r d
        (first_meeting-sort_rules meets_call before after r meets lower at_most) decides
