-- ===== src/Trackers/Status/Transitions.antt =====
-- When a change of status is reported (hooks/status-reducer.ts).
use openclaw_event_server_pl.Common.{
  ℕ, ◌+◌, ◌≤◌, String, Bool, true, false, Option, none, some, [], ◌∷◌, arith, ◌≡◌, ◌⊎◌, inl, inr,
  refl, ◌==◌, sym, ap, ◌∙◌, eq_iff, Bool-cases, if◌then◌else◌, get_or,
}
use openclaw_event_server_pl.Common.JsMap.{JsMap, IsMap, get-set_self, set-IsMap}
use openclaw_event_server_pl.Common.JsMap
use openclaw_event_server_pl.Trackers.Status.{
  AgentSyntheticStatus, sleeping, idle, working, offline, error, SessionActivity, AgentState,
  Windows, Agents, Transition, status_eq, differs, get_latest_session_activity, compute_status,
  evaluate_transitions, observe_activity, created,
}
use openclaw_event_server_pl.Trackers.Status.Deriving.{
  Says, ActiveWithin, QuietFor, compute_status-Says,
}

status_eq_refl : (s : AgentSyntheticStatus) → status_eq s s ≡ true
status_eq_refl sleeping = refl
status_eq_refl idle = refl
status_eq_refl working = refl
status_eq_refl offline = refl
status_eq_refl error = refl

status_eq→eq : (s t : AgentSyntheticStatus) → status_eq s t ≡ true → s ≡ t
status_eq→eq s t h = ground arith

-- What is reported of an agent, and its state afterwards.
abbrev pub reported : Windows → ℕ → AgentState → Option Transition
reported w now a =
    let next = compute_status w a now in
    if differs a.last_status next.status then some next else none

abbrev pub recorded : Windows → ℕ → AgentState → AgentState
recorded w now a = record a { last_status = some (compute_status w a now).status }

abbrev pub report_at : Windows → ℕ → Option AgentState → Option Transition
report_at w now none = none
report_at w now (some a) = reported w now a

abbrev pub record_at : Windows → ℕ → Option AgentState → Option AgentState
record_at w now none = none
record_at w now (some a) = some (recorded w now a)

not_differs :
    (o : Option AgentSyntheticStatus) (s : AgentSyntheticStatus) → differs o s ≡ false → o ≡ some s
not_differs none s h = absurd cc
not_differs (some t) s h = ap some (sym (status_eq→eq s t (ground arith)))

unchanged :
    (a : AgentState) (o : Option AgentSyntheticStatus)
    → a.last_status ≡ o
    → record a { last_status = o } ≡ a
unchanged a o h = rw (← h) refl

-- An agent that is not reported has the status that was recorded.
quiet-recorded :
    (w : Windows) (now : ℕ) (a : AgentState)
    → differs a.last_status (compute_status w a now).status ≡ false
    → recorded w now a ≡ a
quiet-recorded w now a h = unchanged a _ (not_differs a.last_status _ h)

-- The head of the agents is recorded and reported, and the rest is evaluated.
evaluate_cons :
    (w : Windows) (now : ℕ) (k : String) (a : AgentState) (rest : Agents)
    → let later = evaluate_transitions w now rest in
      ((evaluate_transitions w now ((k, a) ∷ rest)).0 ≡ (k, recorded w now a) ∷ later.0)
      × ((evaluate_transitions w now ((k, a) ∷ rest)).1 ≡ (
          if differs a.last_status (compute_status w a now).status
          then (k, compute_status w a now) ∷ later.1
          else later.1))
unfolding evaluate_transitions
evaluate_cons w now k a rest =
    elim (Bool-cases (differs a.last_status (compute_status w a now).status)) [
      | inl new ↦ rw new (refl, refl)
      | inr old ↦ ground (arith, quiet-recorded w now a old)
    ]

absent-reported :
    (w : Windows) (now : ℕ) (agents : Agents) (id : String)
    → JsMap.get id agents ≡ none
    → JsMap.get id (evaluate_transitions w now agents).1 ≡ none
unfolding JsMap.get
absent-reported w now [] id h = unfold evaluate_transitions in refl
absent-reported w now ((k, a) ∷ rest) id h =
    ground (arith, (evaluate_cons w now k a rest).1, absent-reported w now rest id)

-- An evaluation reports an agent exactly if its status is not the one recorded at the last
-- evaluation, with the status that it has now; that status is recorded, and nothing else of the
-- agents changes.
pub evaluate_transitions_lem :
    (w : Windows) (now : ℕ) (agents : Agents) (id : String)
    → IsMap agents
    → let r = evaluate_transitions w now agents in
      (JsMap.get id r.0 ≡ record_at w now (JsMap.get id agents))
      × (JsMap.get id r.1 ≡ report_at w now (JsMap.get id agents))
unfolding JsMap.get
evaluate_transitions_lem w now [] id v = unfold evaluate_transitions in (refl, refl)
evaluate_transitions_lem w now ((k, a) ∷ rest) id v =
    let here = evaluate_cons w now k a rest in
    let there = evaluate_transitions_lem w now rest id v.1 in
    ground (arith, here.0, here.1, there.0, there.1, eq_iff k id, absent-reported w now rest k v.0)

recorded-quiet :
    (w : Windows) (now : ℕ) (a : AgentState)
    → let b = recorded w now a in
      (compute_status w b now ≡ compute_status w a now)
      × (differs b.last_status (compute_status w b now).status ≡ false)
unfolding compute_status get_latest_session_activity
recorded-quiet w now a = (refl, rw (status_eq_refl (compute_status w a now).status) refl)

same_pair {ℓ κ} :
    {A : Type ℓ} {B : Type κ} {a : A} {b : B} {p : A × B} → p.0 ≡ a → p.1 ≡ b → p ≡ (a, b)
same_pair h k = cc

-- A second evaluation at the same time reports nothing and changes nothing.
pub evaluate_twice :
    (w : Windows) (now : ℕ) (agents : Agents)
    → let once = (evaluate_transitions w now agents).0 in
      evaluate_transitions w now once ≡ (once, [])
evaluate_twice w now [] = unfold evaluate_transitions in refl
evaluate_twice w now ((k, a) ∷ rest) =
    let once = (evaluate_transitions w now rest).0 in
    let again = recorded w now a in
    let quiet = (recorded-quiet w now a).1 in
    let ih = evaluate_twice w now rest in
    rw (evaluate_cons w now k a rest).0 (
      same_pair
        ((evaluate_cons w now k again once).0 ∙ rw (quiet-recorded w now again quiet, ih) refl)
        ((evaluate_cons w now k again once).1 ∙ rw (quiet, ih) refl))

-- Without activity a status only decays.
abbrev pub Decays : AgentSyntheticStatus → AgentSyntheticStatus → Type 0
Decays working t = (t ≡ working) ⊎ ((t ≡ idle) ⊎ (t ≡ sleeping))
Decays idle t = (t ≡ idle) ⊎ (t ≡ sleeping)
Decays s t = t ≡ s

stays-quiet :
    (window now later : ℕ) (a : AgentState)
    → now ≤ later
    → QuietFor window now a
    → QuietFor window later a
stays-quiet window now later a le h ref s g = omega (arith, h ref s g)

-- Quiet and active within the same window exclude each other.
quiet-active {ℓ} :
    {R : Type ℓ} (window now : ℕ) (a : AgentState)
    → QuietFor window now a
    → ActiveWithin window now a
    → R
quiet-active window now a q (ref, s, g, le) = absurd (omega (arith, q ref s g))

disagree : {R : Type 0} {b : Bool} → b ≡ true → b ≡ false → R
disagree h k = absurd cc

Says-Decays :
    (w : Windows) (now later : ℕ) (a : AgentState) (s t : AgentSyntheticStatus)
    → now ≤ later
    → Says w now a s
    → Says w later a t
    → Decays s t
Says-Decays w now later a offline offline le h k = refl
Says-Decays w now later a offline error le h k = disagree h k.0
Says-Decays w now later a offline working le h k = disagree h k.0
Says-Decays w now later a offline idle le h k = disagree h k.0
Says-Decays w now later a offline sleeping le h k = disagree h k.0
Says-Decays w now later a error offline le h k = disagree k h.0
Says-Decays w now later a error error le h k = refl
Says-Decays w now later a error working le h k = disagree h.1 k.1
Says-Decays w now later a error idle le h k = disagree h.1 k.1
Says-Decays w now later a error sleeping le h k = disagree h.1 k.1
Says-Decays w now later a working offline le h k = disagree k h.0
Says-Decays w now later a working error le h k = disagree k.1 h.1
Says-Decays w now later a working working le h k = inl refl
Says-Decays w now later a working idle le h k = inr (inl refl)
Says-Decays w now later a working sleeping le h k = inr (inr refl)
Says-Decays w now later a idle offline le h k = disagree k h.0
Says-Decays w now later a idle error le h k = disagree k.1 h.1
Says-Decays w now later a idle working le h k =
    quiet-active _ later a (stays-quiet _ now later a le h.2) k.2
Says-Decays w now later a idle idle le h k = inl refl
Says-Decays w now later a idle sleeping le h k = inr refl
Says-Decays w now later a sleeping offline le h k = disagree k h.0
Says-Decays w now later a sleeping error le h k = disagree k.1 h.1
Says-Decays w now later a sleeping working le h k =
    quiet-active _ later a (stays-quiet _ now later a le h.2) k.2
Says-Decays w now later a sleeping idle le h k =
    quiet-active _ later a (stays-quiet _ now later a le h.3) k.3
Says-Decays w now later a sleeping sleeping le h k = refl

-- While nothing is observed of an agent, its status stays or goes from working to idle or sleeping,
-- or from idle to sleeping.
pub compute_status-Decays :
    (w : Windows) (now later : ℕ) (a : AgentState)
    → IsMap a.sessions
    → now ≤ later
    → Decays (compute_status w a now).status (compute_status w a later).status
compute_status-Decays w now later a v le =
    Says-Decays w now later a _ _ le (compute_status-Says w a now v)
      (compute_status-Says w a later v)

active-working :
    (w : Windows) (now : ℕ) (a : AgentState) (s : AgentSyntheticStatus)
    → a.is_offline ≡ false
    → a.has_agent_error ≡ false
    → ActiveWithin w.working_window_ms now a
    → Says w now a s
    → s ≡ working
active-working w now a offline online sound act h = disagree h online
active-working w now a error online sound act h = disagree h.1 sound
active-working w now a working online sound act h = refl
active-working w now a idle online sound act h = quiet-active _ now a h.2 act
active-working w now a sleeping online sound act h = quiet-active _ now a h.2 act

abbrev pub sessions_of : Agents → String → JsMap SessionActivity
sessions_of agents id = (get_or (JsMap.get id agents) created).sessions

abbrev active_agent : Agents → String → String → ℕ → AgentState
active_agent agents id ref at_ms = record (get_or (JsMap.get id agents) created) {
  sessions =
      JsMap.set ref (record { session_ref = ref; last_active_at = at_ms }) (sessions_of agents id);
  is_offline = false;
}

-- Activity in a named session makes an agent that is in no error working for the length of the
-- working window, whatever its other sessions are and though it was offline.
pub activity_wakes :
    (w : Windows) (agents : Agents) (id ref : String) (at_ms now : ℕ)
    → (ref == "") ≡ false
    → IsMap (sessions_of agents id)
    → (get_or (JsMap.get id agents) created).has_agent_error ≡ false
    → now ≤ at_ms + w.working_window_ms
    → (a : AgentState) × (JsMap.get id (observe_activity id (some ref) at_ms agents) ≡ some a)
      × ((compute_status w a now).status ≡ working)
activity_wakes w agents id ref at_ms now named v sound le =
    let a = active_agent agents id ref at_ms in
    let act : ActiveWithin w.working_window_ms now a =
      (ref, _, get-set_self ref _ (sessions_of agents id), le) in
    (
      a,
      unfold observe_activity in rw named (get-set_self id a agents),
      active-working w now a _ refl sound act
          (compute_status-Says w a now (set-IsMap ref _ (sessions_of agents id) v)),
    )
