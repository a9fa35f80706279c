-- ===== src/Trackers/Subagents/Idling.antt =====
-- When a subagent is reported as idle (hooks/subagent-tracker.ts).
use openclaw_event_server_pl.Common.{
  ℕ, String, Bool, true, false, Option, none, some, List, [], ◌∷◌, arith, ◌≡◌, ◌⊎◌, inl, inr, refl,
  ◌==◌, ◌∙◌, sym, ap, subst, All, Bool-cases, if◌then◌else◌, eq_iff, eq_refl,
}
use openclaw_event_server_pl.Common.JsMap.{JsMap, IsMap, get-set}
use openclaw_event_server_pl.Common.JsMap
use openclaw_event_server_pl.Trackers.Subagents.{
  SubagentRecord, Subagents, register_spawn, acted, ended, observe_activity, mark_ended, is_due,
  evaluate_idle_transitions, on_record, get_by_child_session_key,
}
use openclaw_event_server_pl.Trackers.Subagents.Keyed.{
  Call, spawns, acts, ends, evaluates, clears, step, run, IsKeyed, evaluate_cons, evaluate-get,
  on_record_cases, evaluated_at,
}

-- The record of the key is among the reported ones.
abbrev pub Reported : String → List SubagentRecord → Type 0
Reported key [] = ⊥
Reported key (r ∷ rs) = (r.child_session_key ≡ key) ⊎ Reported key rs

-- An evaluation reports a subagent exactly if its record is due.
pub Reported-due :
    (idle_after now : ℕ) (t : Subagents) (key : String)
    → IsKeyed t
    → Reported key (evaluate_idle_transitions idle_after now t).1
    → (r : SubagentRecord) × (JsMap.get key t ≡ some r) × (is_due idle_after now r ≡ true)
unfolding JsMap.get
Reported-due idle_after now [] key v h = absurd (unfold evaluate_idle_transitions in h)
Reported-due idle_after now ((k, r) ∷ t) key v h =
    let rest : IsKeyed t = record { once = v.once.1; kept = v.kept.1 } in
    elim (Bool-cases (is_due idle_after now r)) [
      | inl due ↦
          elim (reported
            (record r { idle_emitted_at = some now }
              ∷ (evaluate_idle_transitions idle_after now t).1)
            (all ∙ rw due refl)) [
              | inl e ↦
                  let same : k ≡ key = sym v.kept.0.0 ∙ e in (r, rw (same, eq_refl key) refl, due)
              | inr more ↦ later (Reported-due idle_after now t key rest more)
            ]
      | inr rests ↦
          later (Reported-due idle_after now t key rest (reported _ (all ∙ rw rests refl)))
    ]
  where
    all : (evaluate_idle_transitions idle_after now ((k, r) ∷ t)).1 ≡ (
        if is_due idle_after now r
        then record r { idle_emitted_at = some now }
          ∷ (evaluate_idle_transitions idle_after now t).1
        else (evaluate_idle_transitions idle_after now t).1)
    all = (evaluate_cons idle_after now k r t).1

    reported :
        (xs : List SubagentRecord)
        → (evaluate_idle_transitions idle_after now ((k, r) ∷ t)).1 ≡ xs
        → Reported key xs
    reported xs e = subst (Reported key) e h

    later :
        ((x : SubagentRecord) × (JsMap.get key t ≡ some x) × (is_due idle_after now x ≡ true))
        → (x : SubagentRecord) × (JsMap.get key ((k, r) ∷ t) ≡ some x)
          × (is_due idle_after now x ≡ true)
    later (x, g, due) = (x, ground (arith, g, v.once.0, eq_iff k key), due)

pub due-Reported :
    (idle_after now : ℕ) (t : Subagents) (key : String) (r : SubagentRecord)
    → IsKeyed t
    → JsMap.get key t ≡ some r
    → is_due idle_after now r ≡ true
    → Reported key (evaluate_idle_transitions idle_after now t).1
unfolding JsMap.get
due-Reported idle_after now [] key r v g due = absurd cc
due-Reported idle_after now ((k, s) ∷ t) key r v g due =
    rw (evaluate_cons idle_after now k s t).1 (elim (Bool-cases (k == key)) [
      | inl here ↦
          let same : s ≡ r = ground arith in
          let k_key : k ≡ key = ground (arith, eq_iff k key) in
          rw (same, due) (inl (sym (ap (λ x. x.child_session_key) same) ∙ v.kept.0.0 ∙ k_key))
      | inr there ↦
          let more : Reported key (evaluate_idle_transitions idle_after now t).1 =
            due-Reported idle_after now t key r (record { once = v.once.1; kept = v.kept.1 })
              (ground arith) due in
          elim (Bool-cases (is_due idle_after now s)) [
            | inl first ↦ rw first (inr more)
            | inr rests ↦ rw rests more
          ]
    ])

-- The call leaves the record of the key alone, but for its end and its being reported.
abbrev pub Spares : String → Call → Type 0
Spares key (spawns now p) = (p.child_session_key == key) ≡ false
Spares key (acts none now) = Unit
Spares key (acts (some k) now) = (k == key) ≡ false
Spares key _ = Unit

-- The record of the key, if there is one, has a mark.
abbrev pub Marked : (SubagentRecord → Bool) → String → Subagents → Type 0
Marked mark key t = (r : SubagentRecord) → JsMap.get key t ≡ some r → mark r ≡ true

-- A mark that an end and an evaluation keep.
pub record IsLasting (mark : SubagentRecord → Bool) : Type 0 where
  pub ended :
      (r : SubagentRecord) (now : ℕ)
      → mark r ≡ true
      → mark (record r { ended_at = some now }) ≡ true
  pub evaluated :
      (r : SubagentRecord) (now : ℕ)
      → mark r ≡ true
      → mark (record r { idle_emitted_at = some now }) ≡ true

pub some_inj {ℓ} : {A : Type ℓ} {x y : A} → some x ≡ some y → x ≡ y
some_inj h = cc

module _ (mark : SubagentRecord → Bool) (lasting : IsLasting mark) where
  set-Marked :
      (key k : String) (r : SubagentRecord) (t : Subagents)
      → (k == key) ≡ false
      → Marked mark key t
      → Marked mark key (JsMap.set k r t)
  set-Marked key k r t other h x g = h x (sym (get-set k key r t ∙ rw other refl) ∙ g)

  ended_mark :
      (k key : String) (now : ℕ) (r : SubagentRecord) (t : Subagents)
      → JsMap.get k t ≡ some r
      → Marked mark key t
      → Marked mark key (JsMap.set k (record r { ended_at = some now }) t)
  ended_mark k key now r t g h = λ x f. elim (Bool-cases (k == key)) [
    | inl e ↦
        let k_key : k ≡ key = ground (arith, eq_iff k key) in
        let was : mark r ≡ true = h r (rw (← k_key) g) in
        let same : record r { ended_at = some now } ≡ x =
          some_inj (sym (get-set k key _ t ∙ rw e refl) ∙ f) in
        subst (λ y. mark y ≡ true) same (lasting.ended r now was)
    | inr e ↦ set-Marked key k _ t e h x f
  ]

  evaluated_mark :
      (idle_after now : ℕ) (x : SubagentRecord) (o : Option SubagentRecord)
      → ((r : SubagentRecord) → o ≡ some r → mark r ≡ true)
      → evaluated_at idle_after now o ≡ some x
      → mark x ≡ true
  evaluated_mark idle_after now x none h e = absurd cc
  evaluated_mark idle_after now x (some r) h e = elim (Bool-cases (is_due idle_after now r)) [
    | inl due ↦
        let same : record r { idle_emitted_at = some now } ≡ x = some_inj (sym (rw due refl) ∙ e) in
        subst (λ y. mark y ≡ true) same (lasting.evaluated r now (h r refl))
    | inr rests ↦
        let same : r ≡ x = some_inj (sym (rw rests refl) ∙ e) in
        subst (λ y. mark y ≡ true) same (h r refl)
  ]

  step-Marked :
      (c : Call) (key : String) (t : Subagents)
      → Spares key c
      → Marked mark key t
      → Marked mark key (step c t)
  unfolding step
  step-Marked (spawns now p) key t other h =
      unfold register_spawn in set-Marked key p.child_session_key _ t other h
  step-Marked (acts none now) key t other h =
      unfold observe_activity on_record get_by_child_session_key in h
  step-Marked (acts (some k) now) key t other h =
      unfold observe_activity in
      elim (on_record_cases k (acted now) t) [
        | inl e ↦ rw e h
        | inr (r, g, e) ↦ rw e (set-Marked key k _ t other h)
      ]
  step-Marked (ends none now) key t other h =
      unfold mark_ended on_record get_by_child_session_key in h
  step-Marked (ends (some k) now) key t other h =
      unfold mark_ended in
      elim (on_record_cases k (ended now) t) [
        | inl e ↦ rw e h
        | inr (r, g, e) ↦ rw e (ended_mark k key now r t g h)
      ]
  step-Marked (evaluates idle_after now) key t other h = λ x g.
      evaluated_mark idle_after now x (JsMap.get key t) h
        (sym (evaluate-get idle_after now t key) ∙ g)
  step-Marked clears key t other h = unfold JsMap.get in λ x g. absurd cc

  pub run-Marked :
      (cs : List Call) (key : String) (t : Subagents)
      → All (Spares key) cs
      → Marked mark key t
      → Marked mark key (run cs t)
  unfolding run
  run-Marked [] key t all h = h
  run-Marked (c ∷ cs) key t all h = run-Marked cs key (step c t) all.1 (step-Marked c key t all.0 h)
