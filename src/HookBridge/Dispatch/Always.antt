-- ===== src/HookBridge/Dispatch/Always.antt =====
-- The life of the engine as a sequence of calls and ends of actions
-- (runtime/hook-bridge-dispatch-engine.ts).
use openclaw_event_server_pl.Common.{
  ℕ, zero, suc, ◌+◌, ◌-◌, ◌≤◌, ◌<◌, max, Bool, some, List, [], ◌∷◌, ◌++◌, length, get_elem?, take,
  drop, arith, ◌≡◌, ◌⊎◌, inl, inr, Option-cases, ◌∙◌, ap, sym,
}
use openclaw_event_server_pl.HookBridge.Dispatch.{
  Engine, Setup, HookTask, take_task, pump_workers, enqueue_task, stop, next_round, action_ends,
  wait_for_drain,
}
use openclaw_event_server_pl.HookBridge.Dispatch.Invariant.{
  IsEngine, take_task_lem, pump_workers-IsEngine, queue_cases,
}
use openclaw_event_server_pl.HookBridge.Dispatch.Admission.{enqueue_task-IsEngine}

-- What may happen to the engine.
pub data Call : Type 0 where
  enqueues : ℕ → HookTask → Call
  ends : ℕ → ℕ → Bool → Call
  stops : ℕ → Call

pub length-removed :
    (k : ℕ) (ts : List HookTask) (task : HookTask)
    → get_elem? ts k ≡ some task
    → length (take k ts ++ drop (suc k) ts) + 1 ≡ length ts
length-removed k [] task h = absurd cc
length-removed zero (t ∷ ts) task h = omega arith
length-removed (suc k) (t ∷ ts) task h = omega (arith, length-removed k ts task h)

idle_or_not :
    (e : Engine)
    → (wait_for_drain e ≡ e)
      ⊎ ((wait_for_drain e ≡ record e { drain_resolvers = e.drain_resolvers + 1 })
          × ((0 < e.running_workers) ⊎ (0 < length e.queue)))
unfolding wait_for_drain
idle_or_not e = ground arith

module _ (s : Setup) where
  unfoldable pub step : Call → Engine → Engine
  step (enqueues now task) e = enqueue_task s now task e
  step (ends now k success) e = action_ends s now k success e
  step (stops now) e = stop s now e

  unfoldable pub run : List Call → Engine → Engine
  unfolding step
  run [] e = e
  run (c ∷ cs) e = run cs (step c e)

  pub last_round :
      (now : ℕ) (e : Engine)
      → e.queue ≡ []
      → next_round s now e
        ≡ pump_workers s now (record e { running_workers = e.running_workers - 1 })
  unfolding next_round
  last_round now e q = ground arith

  pub more_rounds :
      (now : ℕ) (task : HookTask) (rest : List HookTask) (e : Engine)
      → e.queue ≡ task ∷ rest
      → next_round s now e ≡ take_task s now task rest e
  unfolding next_round
  more_rounds now task rest e q = ground arith

  next_round-IsEngine :
      (now : ℕ) (e : Engine)
      → length e.queue ≤ max 1 s.runtime.max_pending_events
      → e.running_workers ≡ length e.executing + 1
      → e.running_workers ≤ s.runtime.concurrency
      → (length e.queue ≡ 0) ⊎ (e.running_workers ≡ s.runtime.concurrency)
      → IsEngine s (next_round s now e)
  next_round-IsEngine now e b n l busy = elim (queue_cases e.queue) [
    | inl empty ↦ rw (last_round now e empty) (
        pump_workers-IsEngine s now (record e { running_workers = e.running_workers - 1 })
          (record { bounded = b; counted = omega (arith, n); limited = omega (arith, l) }))
    | inr (task, rest, q) ↦
        let t = take_task_lem s now task rest e in
        let len : length e.queue ≡ suc (length rest) = ap length q in
        rw (more_rounds now task rest e q) (record {
          sound = record {
            bounded = rw t.0 (omega (arith, b, len));
            counted = rw (t.1, t.2) n;
            limited = rw t.1 l;
          };
          busy = rw t.1 (ground (arith, busy, len));
          waited = inr (inl (rw t.1 (omega (arith, n))));
        })
  ]

  pub action_ends-IsEngine :
      (now k : ℕ) (success : Bool) (e : Engine)
      → IsEngine s e
      → IsEngine s (action_ends s now k success e)
  unfolding action_ends
  action_ends-IsEngine now k success e v = elim (Option-cases (get_elem? e.executing k)) [
    | inl absent ↦ rw (absent, action_ends) v
    | inr (task, there) ↦
        rw (there, action_ends)
          (next_round-IsEngine now _ v.sound.bounded
            (v.sound.counted ∙ sym (length-removed k e.executing task there)) v.sound.limited
            v.busy)
  ]

  wait_for_drain-IsEngine : (e : Engine) → IsEngine s e → IsEngine s (wait_for_drain e)
  unfolding wait_for_drain
  wait_for_drain-IsEngine e v = elim (idle_or_not e) [
    | inl idle ↦ rw idle v
    | inr (busy, work) ↦ rw busy (record {
      sound = record {
        bounded = v.sound.bounded;
        counted = v.sound.counted;
        limited = v.sound.limited;
      };
      busy = v.busy;
      waited = inr work;
    })
  ]

  step-IsEngine : (c : Call) (e : Engine) → IsEngine s e → IsEngine s (step c e)
  unfolding step
  step-IsEngine (enqueues now task) e v = enqueue_task-IsEngine s now task e v
  step-IsEngine (ends now k success) e v = action_ends-IsEngine now k success e v
  step-IsEngine (stops now) e v =
      unfold stop in wait_for_drain-IsEngine _ (pump_workers-IsEngine s now e v.sound)

  -- Whatever happens to the engine, in any order: the queue never holds more than `maxPendingEvents`
  -- tasks (or one, where that is 0), there are never more workers than `concurrency`, each of them awaits
  -- one action, a task waits in the queue only while all workers are at work, and nobody waits for the
  -- end of an engine that is idle.
  pub run-IsEngine : (cs : List Call) (e : Engine) → IsEngine s e → IsEngine s (run cs e)
  unfolding run
  run-IsEngine [] e v = v
  run-IsEngine (c ∷ cs) e v = run-IsEngine cs (step c e) (step-IsEngine c e v)
