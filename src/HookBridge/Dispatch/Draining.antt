-- ===== src/HookBridge/Dispatch/Draining.antt =====
-- How the engine comes to rest (runtime/hook-bridge-dispatch-engine.ts).
use openclaw_event_server_pl.Common.{
  ℕ, zero, suc, ◌+◌, ◌<◌, Bool, some, List, [], ◌∷◌, length, get_elem?, arith, ◌≡◌, inl, inr, refl,
  ap, ◌∙◌,
}
use openclaw_event_server_pl.HookBridge.Dispatch.{
  Engine, Setup, HookTask, pump_workers, start_workers, next_round, action_ends,
  resolve_drain_if_idle,
}
use openclaw_event_server_pl.HookBridge.Dispatch.Invariant.{IsEngine, take_task_lem, queue_cases}
use openclaw_event_server_pl.HookBridge.Dispatch.Always.{
  last_round, more_rounds, length-removed, action_ends-IsEngine,
}

-- The tasks that are not done.
abbrev pub open_tasks : Engine → ℕ
open_tasks e = length e.queue + length e.executing

there_is : (k : ℕ) (ts : List HookTask) → k < length ts → (t : HookTask) × (get_elem? ts k ≡ some t)
there_is k [] h = absurd (omega arith)
there_is zero (t ∷ ts) h = (t, refl)
there_is (suc k) (t ∷ ts) h = there_is k ts (omega (arith, h))

open_tasks-resolve : (e : Engine) → open_tasks (resolve_drain_if_idle e) ≡ open_tasks e
unfolding resolve_drain_if_idle
open_tasks-resolve e = ground arith

module _ (s : Setup) where
  -- The ends of actions, each with its time, its place among the awaited ones, and its success.
  unfoldable pub finish : List (ℕ × ℕ × Bool) → Engine → Engine
  finish [] e = e
  finish ((now, k, success) ∷ rest) e = finish rest (action_ends s now k success e)

  -- Each of the ends is one of an action that is awaited by then.
  unfoldable pub AreAwaited : List (ℕ × ℕ × Bool) → Engine → Type 0
  AreAwaited [] e = Unit
  AreAwaited ((now, k, success) ∷ rest) e =
      (k < length e.executing) × AreAwaited rest (action_ends s now k success e)

  start_nothing :
      (now : ℕ) (tasks : List HookTask) (e : Engine) → tasks ≡ [] → start_workers s now tasks e ≡ e
  unfolding start_workers
  start_nothing now [] e h = refl
  start_nothing now (t ∷ ts) e h = absurd cc

  idle_pump :
      (now : ℕ) (e : Engine) → e.queue ≡ [] → open_tasks (pump_workers s now e) ≡ open_tasks e
  unfolding pump_workers
  idle_pump now e q =
      open_tasks-resolve (start_workers s now e.queue e)
      ∙ ap open_tasks (start_nothing now e.queue e q)

  open_tasks-next_round : (now : ℕ) (e : Engine) → open_tasks (next_round s now e) ≡ open_tasks e
  open_tasks-next_round now e = elim (queue_cases e.queue) [
    | inl empty ↦ rw (last_round s now e empty) (idle_pump now _ empty)
    | inr (task, rest, q) ↦
        let t = take_task_lem s now task rest e in
        let len : length e.queue ≡ suc (length rest) = ap length q in
        rw (more_rounds s now task rest e q) (rw t.0 (omega (arith, t.2, len)))
  ]

  open_tasks-action_ends :
      (now k : ℕ) (success : Bool) (e : Engine)
      → k < length e.executing
      → open_tasks (action_ends s now k success e) + 1 ≡ open_tasks e
  unfolding action_ends
  open_tasks-action_ends now k success e lt =
      let (task, there) = there_is k e.executing lt in
      rw (there, action_ends)
        (rw (open_tasks-next_round now _) (omega (arith, length-removed k e.executing task there)))

  -- With at least one worker allowed, as many ends of awaited actions as there are tasks in the queue
  -- and at work, in whatever order and with whatever success, leave the engine idle, and whoever waited
  -- for that is told.
  pub finish_drains :
      (ends : List (ℕ × ℕ × Bool)) (e : Engine)
      → 0 < s.runtime.concurrency
      → IsEngine s e
      → length ends ≡ open_tasks e
      → AreAwaited ends e
      → let r = finish ends e in
        (length r.queue ≡ 0) × (r.running_workers ≡ 0) × (r.drain_resolvers ≡ 0)
  unfolding finish AreAwaited
  finish_drains [] e pos v n a =
      let c = v.sound.counted in
      (omega (arith, n), omega (arith, n, c), ground (arith, v.waited, n, c))
  finish_drains ((now, k, success) ∷ rest) e pos v n a =
      finish_drains rest _ pos (action_ends-IsEngine s now k success e v)
        (omega (arith, n, open_tasks-action_ends now k success e a.0)) a.1

  -- While there are tasks, there is an action to end.
  pub tasks_awaited :
      (e : Engine)
      → 0 < s.runtime.concurrency
      → IsEngine s e
      → 0 < open_tasks e
      → 0 < length e.executing
  tasks_awaited e pos v n = ground (arith, v.busy, v.sound.counted)
