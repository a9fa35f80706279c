-- ===== src/Trackers/Status/Deriving.antt =====
-- Which status an agent has (hooks/status-reducer.ts).
use openclaw_event_server_pl.Common.{
  ℕ, ◌+◌, ◌≤◌, ◌<◌, String, true, false, Option, none, some, [], ◌∷◌, arith, ◌≡◌, ◌⊎◌, inl, inr,
  refl, ◌==◌, sym, ◌∙◌, eq_iff, Option-cases, Bool-cases, eq_refl, leb, length, subst,
}
use openclaw_event_server_pl.Common.JsMap.{JsMap, IsMap}
use openclaw_event_server_pl.Common.JsMap
use openclaw_event_server_pl.Trackers.Status.{
  AgentSyntheticStatus, sleeping, idle, working, offline, error, SessionActivity, AgentState,
  Windows, later_of, latest_of, get_latest_session_activity, compute_status, by_age,
}

-- The agent has a session that was active within the window.
abbrev pub ActiveWithin : ℕ → ℕ → AgentState → Type 0
ActiveWithin window now a =
    (ref : String) × (s : SessionActivity) × (JsMap.get ref a.sessions ≡ some s)
    × (now ≤ s.last_active_at + window)

abbrev pub QuietFor : ℕ → ℕ → AgentState → Type 0
QuietFor window now a =
    (ref : String) (s : SessionActivity)
    → JsMap.get ref a.sessions ≡ some s
    → s.last_active_at + window < now

-- What each status says of the agent.
abbrev pub Says : Windows → ℕ → AgentState → AgentSyntheticStatus → Type 0
Says w now a offline = a.is_offline ≡ true
Says w now a error = (a.is_offline ≡ false) × (a.has_agent_error ≡ true)
Says w now a working =
    (a.is_offline ≡ false) × (a.has_agent_error ≡ false) × ActiveWithin w.working_window_ms now a
Says w now a idle =
    (a.is_offline ≡ false)
    × (a.has_agent_error ≡ false)
    × QuietFor w.working_window_ms now a
    × ActiveWithin w.sleeping_window_ms now a
Says w now a sleeping =
    (a.is_offline ≡ false)
    × (a.has_agent_error ≡ false)
    × QuietFor w.working_window_ms now a
    × QuietFor w.sleeping_window_ms now a

abbrev Reaches : Option ℕ → ℕ → Type 0
Reaches none x = ⊥
Reaches (some l) x = x ≤ l

later_of-new : (o : Option ℕ) (x : ℕ) → Reaches (later_of o x) x
unfolding later_of
later_of-new none x = omega arith
later_of-new (some l) x = ground arith

later_of-old : (o : Option ℕ) (x y : ℕ) → Reaches o y → Reaches (later_of o x) y
unfolding later_of
later_of-old none x y h = absurd h
later_of-old (some l) x y h = ground arith

later_of-cases : (o : Option ℕ) (x : ℕ) → (later_of o x ≡ o) ⊎ (later_of o x ≡ some x)
unfolding later_of
later_of-cases none x = inr refl
later_of-cases (some l) x = ground arith

-- The latest is no earlier than what was seen before the loop.
latest_of-grows :
    (m : JsMap SessionActivity) (x : ℕ) (o : Option ℕ) → Reaches o x → Reaches (latest_of m o) x
unfolding latest_of
latest_of-grows [] x o h = h
latest_of-grows ((k, s) ∷ m) x o h = latest_of-grows m x _ (later_of-old o s.last_active_at x h)

latest_of-Reaches :
    (m : JsMap SessionActivity) (o : Option ℕ) (ref : String) (s : SessionActivity)
    → JsMap.get ref m ≡ some s
    → Reaches (latest_of m o) s.last_active_at
unfolding latest_of JsMap.get
latest_of-Reaches [] o ref s h = absurd cc
latest_of-Reaches ((k, t) ∷ m) o ref s h = elim (Bool-cases (k == ref)) [
  | inl e ↦
      let same : t ≡ s = ground arith in
      rw (← same) (latest_of-grows m t.last_active_at _ (later_of-new o t.last_active_at))
  | inr e ↦ let kept : JsMap.get ref m ≡ some s = ground arith in latest_of-Reaches m _ ref s kept
]

-- The latest is the time of a session, or what was seen before the loop.
latest_of-attained :
    (m : JsMap SessionActivity) (o : Option ℕ) (l : ℕ)
    → IsMap m
    → latest_of m o ≡ some l
    → (o ≡ some l)
      ⊎ ((ref : String) × (s : SessionActivity) × (JsMap.get ref m ≡ some s)
          × (s.last_active_at ≡ l))
unfolding latest_of JsMap.get
latest_of-attained [] o l v h = inl h
latest_of-attained ((k, t) ∷ m) o l v h = elim (latest_of-attained m _ l v.1 h) [
  | inl e ↦ elim (later_of-cases o t.last_active_at) [
    | inl same ↦ inl (sym same ∙ e)
    | inr new ↦ inr (k, t, rw (eq_refl k), (let same = sym new ∙ e in cc))
  ]
  | inr (ref, s, g, e) ↦ inr (ref, s, ground (arith, eq_iff k ref, v.0), e)
]

by_age-Says :
    (w : Windows) (a : AgentState) (now n latest : ℕ)
    → a.is_offline ≡ false
    → a.has_agent_error ≡ false
    → IsMap a.sessions
    → get_latest_session_activity a ≡ some latest
    → Says w now a (by_age w n now latest).status
unfolding by_age get_latest_session_activity
by_age-Says w a now n latest online sound v e =
    elim (latest_of-attained a.sessions none latest v e) [
      | inl absent ↦ absurd cc
      | inr (ref, s, g, at_latest) ↦ elim (Bool-cases (leb now (latest + w.working_window_ms))) [
        | inl recent ↦ rw recent (online, sound, (ref, s, g, ground arith))
        | inr old ↦ elim (Bool-cases (leb now (latest + w.sleeping_window_ms))) [
          | inl rested ↦ rw (old, rested) (online, sound, quiet _ old, (ref, s, g, ground arith))
          | inr asleep ↦ rw (old, asleep) (online, sound, quiet _ old, quiet _ asleep)
        ]
      ]
    ]
  where
    quiet : (window : ℕ) → leb now (latest + window) ≡ false → QuietFor window now a
    quiet window late ref s g =
        let reached : Reaches (some latest) s.last_active_at =
          subst (λ o. Reaches o s.last_active_at) e (latest_of-Reaches a.sessions none ref s g) in
        ground arith

no_sessions-QuietFor :
    (window now : ℕ) (a : AgentState) → get_latest_session_activity a ≡ none → QuietFor window now a
unfolding get_latest_session_activity
no_sessions-QuietFor window now a e ref s g =
    let reached : Reaches none s.last_active_at =
      subst (λ o. Reaches o s.last_active_at) e (latest_of-Reaches a.sessions none ref s g) in
    absurd reached

-- The status of an agent is `offline` exactly if it is marked so, else `error` exactly if it is marked
-- so, else `working` exactly if one of its sessions was active within the working window, else `idle`
-- exactly if one was active within the sleeping window, and else `sleeping`.
pub compute_status-Says :
    (w : Windows) (a : AgentState) (now : ℕ)
    → IsMap a.sessions
    → Says w now a (compute_status w a now).status
unfolding compute_status
compute_status-Says w a now v = elim (Bool-cases a.is_offline) [
  | inl off ↦ says offline (ground arith) off
  | inr online ↦ elim (Bool-cases a.has_agent_error) [
    | inl bad ↦ says error (ground arith) (online, bad)
    | inr sound ↦ elim (Option-cases (get_latest_session_activity a)) [
      | inl e ↦
          says sleeping (ground arith)
            (online, sound, no_sessions-QuietFor _ now a e, no_sessions-QuietFor _ now a e)
      | inr (latest, e) ↦
          says (by_age w (length a.sessions) now latest).status (ground arith)
            (by_age-Says w a now (length a.sessions) latest online sound v e)
    ]
  ]
]
  where
    says :
        (s : AgentSyntheticStatus)
        → (compute_status w a now).status ≡ s
        → Says w now a s
        → Says w now a (compute_status w a now).status
    says s e h = subst (Says w now a) (sym e) h
