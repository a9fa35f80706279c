-- ===== src/Trackers/Subagents/Keyed.antt =====
-- The records of the subagents by their keys, whatever happens (hooks/subagent-tracker.ts).
use openclaw_event_server_pl.Common.{
  ℕ, String, Option, none, some, List, [], ◌∷◌, arith, ◌≡◌, ◌⊎◌, inl, inr, refl, ◌==◌, ◌∙◌, ap, All,
  Option-cases, Bool-cases, if◌then◌else◌,
}
use openclaw_event_server_pl.Common.JsMap.{JsMap, IsMap, get-set, set-IsMap, set-All, get-All}
use openclaw_event_server_pl.Common.JsMap
use openclaw_event_server_pl.Trackers.Subagents.{
  SubagentRecord, Spawn, Subagents, register_spawn, merged, acted, clear, observe_activity,
  mark_ended, is_due, is_truthy, evaluate_idle_transitions, on_record, get_by_child_session_key,
}

-- What may happen to the tracker, each with its time.
pub data Call : Type 0 where
  spawns : ℕ → Spawn → Call
  acts : Option String → ℕ → Call
  ends : Option String → ℕ → Call
  evaluates : ℕ → ℕ → Call
  clears : Call

unfoldable pub step : Call → Subagents → Subagents
step (spawns now p) t = (register_spawn now p t).1
step (acts key now) t = observe_activity key now t
step (ends key now) t = mark_ended key now t
step (evaluates idle_after now) t = (evaluate_idle_transitions idle_after now t).0
step clears t = clear t

unfoldable pub run : List Call → Subagents → Subagents
unfolding step
run [] t = t
run (c ∷ cs) t = run cs (step c t)

abbrev pub IsKept : String × SubagentRecord → Type 0
IsKept e = (e.1.child_session_key ≡ e.0) × (e.1.subagent_key ≡ e.0)

-- Each key stands once and names its own record.
pub record IsKeyed (t : Subagents) : Type 0 where
  pub once : IsMap t
  pub kept : All IsKept t

-- A record after an evaluation.
abbrev pub evaluated : ℕ → ℕ → SubagentRecord → SubagentRecord
evaluated idle_after now r =
    if is_due idle_after now r then record r { idle_emitted_at = some now } else r

pub evaluate_cons :
    (idle_after now : ℕ) (k : String) (r : SubagentRecord) (t : Subagents)
    → let later = evaluate_idle_transitions idle_after now t in
      let all = evaluate_idle_transitions idle_after now ((k, r) ∷ t) in
      (all.0 ≡ (k, evaluated idle_after now r) ∷ later.0)
      × (all.1 ≡ (
          if is_due idle_after now r
          then record r { idle_emitted_at = some now } ∷ later.1
          else later.1))
unfolding evaluate_idle_transitions
evaluate_cons idle_after now k r t = elim (Bool-cases (is_due idle_after now r)) [
  | inl due ↦ rw due (refl, refl)
  | inr rests ↦ rw rests (refl, refl)
]

abbrev pub evaluated_at : ℕ → ℕ → Option SubagentRecord → Option SubagentRecord
evaluated_at idle_after now none = none
evaluated_at idle_after now (some r) = some (evaluated idle_after now r)

pub evaluate-get :
    (idle_after now : ℕ) (t : Subagents) (key : String)
    → JsMap.get key (evaluate_idle_transitions idle_after now t).0
      ≡ evaluated_at idle_after now (JsMap.get key t)
unfolding JsMap.get
evaluate-get idle_after now [] key = unfold evaluate_idle_transitions in refl
evaluate-get idle_after now ((k, r) ∷ t) key = elim (Bool-cases (k == key)) [
  | inl e ↦ rw ((evaluate_cons idle_after now k r t).0, e) refl
  | inr e ↦ rw ((evaluate_cons idle_after now k r t).0, e) (evaluate-get idle_after now t key)
]

evaluated-IsKept :
    (idle_after now : ℕ) (k : String) (r : SubagentRecord)
    → IsKept (k, r)
    → IsKept (k, evaluated idle_after now r)
evaluated-IsKept idle_after now k r h = elim (Bool-cases (is_due idle_after now r)) [
  | inl due ↦ rw due h
  | inr rests ↦ rw rests h
]

pub evaluate-IsKeyed :
    (idle_after now : ℕ) (t : Subagents)
    → IsKeyed t
    → IsKeyed (evaluate_idle_transitions idle_after now t).0
evaluate-IsKeyed idle_after now [] v = unfold evaluate_idle_transitions in v
evaluate-IsKeyed idle_after now ((k, r) ∷ t) v =
    let rest = evaluate-IsKeyed idle_after now t (record { once = v.once.1; kept = v.kept.1 }) in
    let absent : JsMap.get k (evaluate_idle_transitions idle_after now t).0 ≡ none =
      evaluate-get idle_after now t k ∙ ap (evaluated_at idle_after now) v.once.0 in
    rw (evaluate_cons idle_after now k r t).0 (record {
      once = (absent, rest.once);
      kept = (evaluated-IsKept idle_after now k r v.kept.0, rest.kept);
    })

set-IsKeyed :
    (k : String) (r : SubagentRecord) (t : Subagents)
    → IsKept (k, r)
    → IsKeyed t
    → IsKeyed (JsMap.set k r t)
set-IsKeyed k r t h v = record {
  once = set-IsMap k r t v.once;
  kept = set-All IsKept k r t h v.kept;
}

pub on_record_cases :
    (key : String) (f : SubagentRecord → SubagentRecord) (t : Subagents)
    → (on_record (some key) f t ≡ t)
      ⊎ ((r : SubagentRecord) × (JsMap.get key t ≡ some r)
          × (on_record (some key) f t ≡ JsMap.set key (f r) t))
unfolding on_record get_by_child_session_key
on_record_cases key f t = elim (Bool-cases (key == "")) [
  | inl e ↦ inl (ground arith)
  | inr e ↦ elim (Option-cases (JsMap.get key t)) [
    | inl absent ↦ inl (ground arith)
    | inr (r, g) ↦ inr (r, g, ground arith)
  ]
]

on_record-IsKeyed :
    (key : Option String) (f : SubagentRecord → SubagentRecord) (t : Subagents)
    → ((k : String) (r : SubagentRecord) → IsKept (k, r) → IsKept (k, f r))
    → IsKeyed t
    → IsKeyed (on_record key f t)
on_record-IsKeyed none f t h v = unfold on_record get_by_child_session_key in v
on_record-IsKeyed (some key) f t h v = elim (on_record_cases key f t) [
  | inl e ↦ rw e v
  | inr (r, g, e) ↦ rw e (set-IsKeyed key (f r) t (h key r (get-All IsKept key r t v.kept g)) v)
]

merged-IsKept :
    (now : ℕ) (p : Spawn) (o : Option SubagentRecord) → IsKept (p.child_session_key, merged now p o)
unfolding merged
merged-IsKept now p none = (refl, refl)
merged-IsKept now p (some r) = (refl, refl)

acted-IsKept : (now : ℕ) (k : String) (r : SubagentRecord) → IsKept (k, r) → IsKept (k, acted now r)
acted-IsKept now k r h = elim (Bool-cases (is_truthy r.ended_at)) [
  | inl over ↦ rw over h
  | inr live ↦ rw live h
]

pub step-IsKeyed : (c : Call) (t : Subagents) → IsKeyed t → IsKeyed (step c t)
unfolding step
step-IsKeyed (spawns now p) t v =
    unfold register_spawn in
    set-IsKeyed p.child_session_key _ t (merged-IsKept now p (JsMap.get p.child_session_key t)) v
step-IsKeyed (acts key now) t v =
    unfold observe_activity in on_record-IsKeyed key _ t (acted-IsKept now) v
step-IsKeyed (ends key now) t v = unfold mark_ended in on_record-IsKeyed key _ t (λ k r h. h) v
step-IsKeyed (evaluates idle_after now) t v = evaluate-IsKeyed idle_after now t v
step-IsKeyed clears t v = record { once = tt; kept = tt }

-- Whatever happens to the tracker, it has at most one record for a key, and a record carries the key
-- that it is found by.
pub run-IsKeyed : (cs : List Call) (t : Subagents) → IsKeyed t → IsKeyed (run cs t)
unfolding run
run-IsKeyed [] t v = v
run-IsKeyed (c ∷ cs) t v = run-IsKeyed cs (step c t) (step-IsKeyed c t v)
