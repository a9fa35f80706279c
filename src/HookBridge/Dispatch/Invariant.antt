-- ===== src/HookBridge/Dispatch/Invariant.antt =====
-- What holds of the engine at all times, and what starting workers does to it
-- (runtime/hook-bridge-dispatch-engine.ts).
use openclaw_event_server_pl.Common.{
  ℕ, suc, ◌+◌, ◌≤◌, ◌<◌, max, List, [], ◌∷◌, ltb, length, arith, ◌≡◌, ◌⊎◌, inl, inr, refl,
  Bool-cases, length-append, ◌∙◌, ap, ltb→lt,
}
use openclaw_event_server_pl.HookBridge.Dispatch.{
  Engine, Setup, HookTask, pressure, forget, take_task, start_workers, pump_workers,
  resolve_drain_if_idle,
}

pub queue_cases :
    (q : List HookTask) → (q ≡ []) ⊎ ((t : HookTask) × (ts : List HookTask) × (q ≡ t ∷ ts))
queue_cases [] = inl refl
queue_cases (t ∷ ts) = inr (t, ts, refl)

module _ (s : Setup) where
  -- The part of the invariant that holds before the workers are started.
  pub record IsCounted (e : Engine) : Type 0 where
    pub bounded : length e.queue ≤ max 1 s.runtime.max_pending_events
    pub counted : e.running_workers ≡ length e.executing
    pub limited : e.running_workers ≤ s.runtime.concurrency

  pub record IsEngine (e : Engine) : Type 0 where
    pub sound : IsCounted e
    -- A task waits only while all workers are at work.
    pub busy : (length e.queue ≡ 0) ⊎ (e.running_workers ≡ s.runtime.concurrency)
    -- Nobody waits for an engine that is idle.
    pub waited : (e.drain_resolvers ≡ 0) ⊎ ((0 < e.running_workers) ⊎ (0 < length e.queue))

  -- A task that is taken leaves the queue and is awaited.
  pub take_task_lem :
      (now : ℕ) (task : HookTask) (rest : List HookTask) (e : Engine)
      → let r = take_task s now task rest e in
        (r.queue ≡ rest)
        × (r.running_workers ≡ e.running_workers)
        × (length r.executing ≡ length e.executing + 1)
        × (r.drain_resolvers ≡ e.drain_resolvers)
  unfolding take_task pressure forget
  take_task_lem now task rest e =
      (refl, refl, length-append e.executing (task ∷ []) ∙ omega arith, refl)

  abbrev joined : Engine → Engine
  joined e = record e { running_workers = e.running_workers + 1 }

  joined-IsCounted :
      (now : ℕ) (task : HookTask) (rest : List HookTask) (e : Engine)
      → e.queue ≡ task ∷ rest
      → e.running_workers < s.runtime.concurrency
      → IsCounted e
      → IsCounted (take_task s now task rest (joined e))
  joined-IsCounted now task rest e q lt c =
      let t = take_task_lem now task rest (joined e) in
      record {
        bounded =
            let len : length e.queue ≡ suc (length rest) = ap length q in
            rw t.0 (omega (arith, c.bounded, len));
        counted = rw (t.1, t.2) (omega (arith, c.counted));
        limited = rw t.1 (omega (arith, lt));
      }

  start_workers-IsCounted :
      (now : ℕ) (tasks : List HookTask) (e : Engine)
      → e.queue ≡ tasks
      → IsCounted e
      → let r = start_workers s now tasks e in
        IsCounted r × ((length r.queue ≡ 0) ⊎ (r.running_workers ≡ s.runtime.concurrency))
  unfolding start_workers
  start_workers-IsCounted now [] e q c = (c, inl (ap length q))
  start_workers-IsCounted now (task ∷ rest) e q c =
      elim (Bool-cases (ltb e.running_workers s.runtime.concurrency)) [
        | inl free ↦ rw free (
            start_workers-IsCounted now rest _ (take_task_lem now task rest (joined e)).0
              (joined-IsCounted now task rest e q (ltb→lt _ _ free) c))
        | inr busy ↦ rw busy (c, inr (ground (arith, c.limited)))
      ]

  idle_cases :
      (e : Engine)
      → (resolve_drain_if_idle e ≡ e) × ((0 < e.running_workers) ⊎ (0 < length e.queue))
        ⊎ (resolve_drain_if_idle e ≡ record e { drain_resolvers = 0 })
  unfolding resolve_drain_if_idle
  idle_cases e = ground arith

  pub pump_workers-IsEngine : (now : ℕ) (e : Engine) → IsCounted e → IsEngine (pump_workers s now e)
  unfolding pump_workers
  pump_workers-IsEngine now e c =
      let started = start_workers-IsCounted now e.queue e refl c in
      let r = start_workers s now e.queue e in
      elim (idle_cases r) [
        | inl (same, work) ↦
            rw (same, pump_workers)
              (record { sound = started.0; busy = started.1; waited = inr work })
        | inr idle ↦
            rw (idle, pump_workers)
              (record {
                sound = record {
                  bounded = started.0.bounded;
                  counted = started.0.counted;
                  limited = started.0.limited;
                };
                busy = started.1;
                waited = inl refl;
              })
      ]
