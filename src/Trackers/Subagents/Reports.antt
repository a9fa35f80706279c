-- ===== src/Trackers/Subagents/Reports.antt =====
-- Reports of idle subagents over the life of the tracker (hooks/subagent-tracker.ts).
use openclaw_event_server_pl.Common.{
  ℕ, ◌+◌, ◌≤◌, String, Bool, true, false, Option, none, some, List, arith, ◌≡◌, ◌⊎◌, inl, inr, refl,
  ◌==◌, ◌∙◌, sym, ap, subst, All, Option-cases, is_some, ◌↔◌,
}
use openclaw_event_server_pl.Common.JsMap.{JsMap, IsMap, get-set, get-set_self}
use openclaw_event_server_pl.Common.JsMap
use openclaw_event_server_pl.Trackers.Subagents.{
  SubagentRecord, Spawn, Subagents, register_spawn, merged, mark_ended, is_due,
  evaluate_idle_transitions, ended, on_record, get_by_child_session_key,
}
use openclaw_event_server_pl.Trackers.Subagents.Keyed.{
  Call, run, step, spawns, ends, IsKeyed, evaluate-get, step-IsKeyed, evaluated_at,
  evaluate-IsKeyed, run-IsKeyed,
}
use openclaw_event_server_pl.Trackers.Subagents.Idling.{
  Reported, Spares, Marked, IsLasting, Reported-due, due-Reported, run-Marked, some_inj,
}

abbrev was_reported : SubagentRecord → Bool
was_reported r = is_some r.idle_emitted_at

abbrev has_ended : SubagentRecord → Bool
has_ended r = is_some r.ended_at

was_reported-IsLasting : IsLasting was_reported
was_reported-IsLasting = record { ended = λ r now h. h; evaluated = λ r now h. refl }

has_ended-IsLasting : IsLasting has_ended
has_ended-IsLasting = record { ended = λ r now h. refl; evaluated = λ r now h. h }

evaluate-Marked :
    (idle_after now : ℕ) (t : Subagents) (key : String)
    → IsKeyed t
    → Reported key (evaluate_idle_transitions idle_after now t).1
    → Marked was_reported key (evaluate_idle_transitions idle_after now t).0
evaluate-Marked idle_after now t key v h x g =
    let (r, at_key, due) = Reported-due idle_after now t key v h in
    let same : record r { idle_emitted_at = some now } ≡ x = some_inj (
      rw due refl
      ∙ sym (ap (evaluated_at idle_after now) at_key)
      ∙ sym (evaluate-get idle_after now t key)
      ∙ g) in
    subst (λ y. was_reported y ≡ true) same refl

-- A marked record is not due.
mark_silences :
    (idle_after now : ℕ) (t : Subagents) (key : String)
    → IsKeyed t
    → (Marked was_reported key t ⊎ Marked has_ended key t)
    → ¬ Reported key (evaluate_idle_transitions idle_after now t).1
mark_silences idle_after now t key v (inl h) reported =
    let (r, g, due) = Reported-due idle_after now t key v reported in let m = h r g in ground arith
mark_silences idle_after now t key v (inr h) reported =
    let (r, g, due) = Reported-due idle_after now t key v reported in let m = h r g in ground arith

-- Once a subagent is reported as idle, it is not reported again at any evaluation, whatever happens
-- in between but an activity or a spawn of its own.
pub reports_once :
    (idle_after now idle_again later : ℕ) (t : Subagents) (key : String) (between : List Call)
    → IsKeyed t
    → Reported key (evaluate_idle_transitions idle_after now t).1
    → All (Spares key) between
    → ¬ Reported key
        (evaluate_idle_transitions idle_again later
          (run between (evaluate_idle_transitions idle_after now t).0)).1
reports_once idle_after now idle_again later t key between v h spared =
    mark_silences idle_again later _ key
      (run-IsKeyed between _ (evaluate-IsKeyed idle_after now t v))
      (inl (
        run-Marked was_reported was_reported-IsLasting between key _ spared
          (evaluate-Marked idle_after now t key v h)))

ended-Marked :
    (now : ℕ) (t : Subagents) (key : String)
    → (key == "") ≡ false
    → Marked has_ended key (mark_ended (some key) now t)
unfolding mark_ended on_record get_by_child_session_key
ended-Marked now t key named x g = elim (Option-cases (JsMap.get key t)) [
  | inl absent ↦ ground arith
  | inr (r, h) ↦
      let same : ended now r ≡ x =
        some_inj (sym (get-set_self key (ended now r) t) ∙ ground arith) in
      subst (λ y. has_ended y ≡ true) same refl
]

-- A subagent that has ended, at whatever time, is not reported as idle, whatever happens afterwards
-- but an activity or a spawn of its own.
pub ended_is_silent :
    (now idle_after later : ℕ) (t : Subagents) (key : String) (after : List Call)
    → (key == "") ≡ false
    → IsKeyed t
    → All (Spares key) after
    → ¬ Reported key
        (evaluate_idle_transitions idle_after later (run after (mark_ended (some key) now t))).1
unfolding step
ended_is_silent now idle_after later t key after named v spared =
    mark_silences idle_after later _ key
      (run-IsKeyed after _ (step-IsKeyed (ends (some key) now) t v))
      (inr (
        run-Marked has_ended has_ended-IsLasting after key _ spared (ended-Marked now t key named)))

merged-fresh :
    (now : ℕ) (p : Spawn) (o : Option SubagentRecord)
    → ((merged now p o).ended_at ≡ none)
      × ((merged now p o).idle_emitted_at ≡ none)
      × ((merged now p o).last_active_at ≡ now)
unfolding merged
merged-fresh now p none = (refl, refl, refl)
merged-fresh now p (some r) = (refl, refl, refl)

due_lem :
    (idle_after later : ℕ) {now : ℕ} (r : SubagentRecord)
    → r.ended_at ≡ none
    → r.idle_emitted_at ≡ none
    → r.last_active_at ≡ now
    → (is_due idle_after later r ≡ true) ↔ (now + idle_after ≤ later)
due_lem idle_after later r e i l = rw (e, i, l) ((λ h. ground arith), (λ h. ground arith))

spawn-get :
    (now : ℕ) (p : Spawn) (t : Subagents)
    → JsMap.get p.child_session_key (register_spawn now p t).1 ≡ some (register_spawn now p t).0
unfolding register_spawn
spawn-get now p t = get-set_self p.child_session_key _ t

spawn-fresh :
    (now : ℕ) (p : Spawn) (t : Subagents)
    → let r = (register_spawn now p t).0 in
      (r.ended_at ≡ none) × (r.idle_emitted_at ≡ none) × (r.last_active_at ≡ now)
unfolding register_spawn
spawn-fresh now p t = merged-fresh now p (JsMap.get p.child_session_key t)

-- A subagent that is spawned, for the first time or again, after it was reported or after its end, is
-- reported by an evaluation exactly if that comes `idleAfterMs` or more later; until then the tracker
-- holds the record that the spawn returns, with no end and no report.
pub spawned-Reported :
    (now idle_after later : ℕ) (t : Subagents) (p : Spawn)
    → IsKeyed t
    → let r = register_spawn now p t in
      (JsMap.get p.child_session_key r.1 ≡ some r.0)
      × (r.0.ended_at ≡ none)
      × (r.0.idle_emitted_at ≡ none)
      × (Reported p.child_session_key (evaluate_idle_transitions idle_after later r.1).1
          ↔ now + idle_after ≤ later)
spawned-Reported now idle_after later t p v =
    let r = register_spawn now p t in
    let keyed : IsKeyed r.1 = unfold step in step-IsKeyed (spawns now p) t v in
    let found = spawn-get now p t in
    let fresh = spawn-fresh now p t in
    (
      found,
      fresh.0,
      fresh.1,
      (
        (λ h.
            let (x, g, due) = Reported-due idle_after later r.1 p.child_session_key keyed h in
            let same : r.0 ≡ x = some_inj (sym found ∙ g) in
            (due_lem idle_after later r.0 fresh.0 fresh.1 fresh.2).0
              (subst (λ y. is_due idle_after later y ≡ true) (sym same) due)),
        λ le.
            due-Reported idle_after later r.1 p.child_session_key r.0 keyed found
              ((due_lem idle_after later r.0 fresh.0 fresh.1 fresh.2).1 le),
      ),
    )
