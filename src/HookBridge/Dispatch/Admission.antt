-- ===== src/HookBridge/Dispatch/Admission.antt =====
-- A task that is enqueued: merged, dropped or queued (runtime/hook-bridge-dispatch-engine.ts).
use openclaw_event_server_pl.Common.{
  ℕ, suc, ◌+◌, ◌≤◌, max, String, Bool, true, false, not, some, List, [], ◌∷◌, ltb, leb, ◌==◌,
  if◌then◌else◌, length, get_or, arith, ◌≡◌, ◌⊎◌, inl, inr, refl, Bool-cases, Option-cases,
  length-append, ◌∙◌, ap, sym, subst,
}
use openclaw_event_server_pl.HookBridge.Dispatch.{
  Engine, Setup, DropPolicy, HookTask, RuleCoalesce, pressure, forget, make_room, drop_head,
  push_task, admit, enqueue_task, try_coalesce_task, change_task, drop_newest, drop_oldest,
  merge_task, coalesce_with, coalesce_by, new_key,
}
use openclaw_event_server_pl.Common.JsMap
use openclaw_event_server_pl.HookBridge.Dispatch.Invariant.{
  IsCounted, IsEngine, pump_workers-IsEngine, queue_cases,
}

length-change_task :
    (task : HookTask) (ts : List HookTask) → length (change_task task ts) ≡ length ts
unfolding change_task
length-change_task task [] = refl
length-change_task task (t ∷ ts) = ground (arith, length-change_task task ts)

-- The counts of one state are those of the other.
record SameCounts (p q : Engine) : Type 0 where
  queued : length p.queue ≡ length q.queue
  workers : p.running_workers ≡ q.running_workers
  awaited : length p.executing ≡ length q.executing
  waiting : p.drain_resolvers ≡ q.drain_resolvers

same_counts : {e : Engine} → SameCounts e e
same_counts = record { queued = refl; workers = refl; awaited = refl; waiting = refl }

some_inj {ℓ} : {A : Type ℓ} {x y : A} → some x ≡ some y → x ≡ y
some_inj h = cc

pub policy_cases : (p : DropPolicy) → (p ≡ drop_newest) ⊎ (p ≡ drop_oldest)
policy_cases drop_newest = inl refl
policy_cases drop_oldest = inr refl

pick-SameCounts :
    (b : Bool) (p q : Bool × HookTask × Engine) (e : Engine)
    → SameCounts p.2 e
    → SameCounts q.2 e
    → SameCounts (if b then p else q).2 e
pick-SameCounts true p q e h k = h
pick-SameCounts false p q e h k = k

module _ (s : Setup) where
  coalesce_with-SameCounts :
      (now : ℕ) (c : RuleCoalesce) (task : HookTask) (key : String) (existing : HookTask)
      (e : Engine)
      → SameCounts (coalesce_with s now c task key existing e).2 e
  unfolding coalesce_with new_key
  coalesce_with-SameCounts now c task key existing e =
      elim (Bool-cases (ltb (existing.enqueued_at + get_or c.window_ms 10000) now)) [
        | inl late ↦
            rw (late, coalesce_with)
              (record { queued = refl; workers = refl; awaited = refl; waiting = refl })
        | inr in_time ↦
            rw (in_time, coalesce_with)
              (record {
                queued = length-change_task (merge_task c task existing) e.queue;
                workers = refl;
                awaited = refl;
                waiting = refl;
              })
      ]

  coalesce_by-SameCounts :
      (now : ℕ) (c : RuleCoalesce) (task : HookTask) (key : String) (e : Engine)
      → SameCounts (coalesce_by s now c task key e).2 e
  unfolding coalesce_by new_key
  coalesce_by-SameCounts now c task key e =
      elim (Option-cases (JsMap.get key e.queued_task_id_by_coalesce_key)) [
        | inl new ↦ rw (new, coalesce_by) same_counts
        | inr (id, known) ↦ elim (Bool-cases (id == "")) [
          | inl empty ↦ rw (known, empty, coalesce_by) same_counts
          | inr named ↦ elim (Option-cases (JsMap.get id e.queued_task_by_id)) [
            | inl gone ↦
                rw (known, named, gone, coalesce_by)
                  (record { queued = refl; workers = refl; awaited = refl; waiting = refl })
            | inr (existing, there) ↦
                rw (known, named, there, coalesce_by)
                  (coalesce_with-SameCounts now c task key existing e)
          ]
        ]
      ]

  -- Whether or not a task is merged, the counts stay.
  try_coalesce-SameCounts :
      (now : ℕ) (task : HookTask) (e : Engine) → SameCounts (try_coalesce_task s now task e).2 e
  unfolding try_coalesce_task
  try_coalesce-SameCounts now task e = elim (Option-cases task.coalesce) [
    | inl plain ↦ rw (plain, try_coalesce_task) same_counts
    | inr (c, merges) ↦
        rw (merges, try_coalesce_task)
          (pick-SameCounts (not c.enabled) _ _ e same_counts
            (elim (Option-cases (s.build_coalesce_key task.rule_id task.event c)) [
              | inl unkeyed ↦ rw unkeyed same_counts
              | inr (key, keyed) ↦ rw keyed (
                  pick-SameCounts (key == "") _ _ e same_counts
                    (coalesce_by-SameCounts now c task key e))
            ]))
  ]

  SameCounts-IsEngine : (p q : Engine) → SameCounts p q → IsEngine s q → IsEngine s p
  SameCounts-IsEngine p q h v = record {
    sound = record {
      bounded = rw h.queued v.sound.bounded;
      counted = rw (h.workers, h.awaited) v.sound.counted;
      limited = rw h.workers v.sound.limited;
    };
    busy = rw (h.queued, h.workers) v.busy;
    waited = rw (h.queued, h.workers, h.waiting) v.waited;
  }

  -- The engine has room for one more task, and is otherwise as before.
  record HasRoom (room e : Engine) : Type 0 where
    free : length room.queue + 1 ≤ max 1 s.runtime.max_pending_events
    workers : room.running_workers ≡ e.running_workers
    awaited : room.executing ≡ e.executing

  HasRoom-at : (p e room : Engine) → some p ≡ some room → HasRoom p e → HasRoom room e
  HasRoom-at p e room h r = subst (λ x. HasRoom x e) (some_inj h) r

  pub room_of_oldest :
      (task t : HookTask) (rest : List HookTask) (e : Engine)
      → leb s.runtime.max_pending_events (length e.queue) ≡ true
      → s.runtime.drop_policy ≡ drop_oldest
      → e.queue ≡ t ∷ rest
      → make_room s task e ≡ some (drop_head t rest e)
  unfolding make_room
  room_of_oldest task t rest e full oldest q = ground arith

  make_room-HasRoom :
      (task : HookTask) (e room : Engine)
      → IsCounted s e
      → make_room s task e ≡ some room
      → HasRoom room e
  unfolding make_room drop_head forget
  make_room-HasRoom task e room c h =
      elim (Bool-cases (leb s.runtime.max_pending_events (length e.queue))) [
        | inr free ↦
            HasRoom-at e e room (ground arith)
              (record { free = ground arith; workers = refl; awaited = refl })
        | inl full ↦ elim (policy_cases s.runtime.drop_policy) [
          | inl newest ↦ absurd (ground arith)
          | inr oldest ↦ elim (queue_cases e.queue) [
            | inl empty ↦
                HasRoom-at e e room (ground arith)
                  (record { free = ground arith; workers = refl; awaited = refl })
            | inr (t, rest, q) ↦
                let shorter : length e.queue ≡ suc (length rest) = ap length q in
                HasRoom-at (drop_head t rest e) e room
                  (sym (room_of_oldest task t rest e full oldest q) ∙ h)
                  (record {
                    free = omega (arith, c.bounded, shorter);
                    workers = refl;
                    awaited = refl;
                  })
          ]
        ]
      ]

  admit-IsEngine :
      (now : ℕ) (task : HookTask) (e : Engine) → IsEngine s e → IsEngine s (admit s now task e)
  unfolding admit pressure push_task
  admit-IsEngine now task e v = elim (Option-cases (make_room s task e)) [
    | inl full ↦
        rw (full, admit)
          (SameCounts-IsEngine _ e
            (record { queued = refl; workers = refl; awaited = refl; waiting = refl }) v)
    | inr (room, h) ↦
        let r = make_room-HasRoom task e room v.sound h in
        rw (h, admit)
          (pump_workers-IsEngine s now (pressure s now (push_task s task room)) (record {
            bounded = omega (arith, r.free, length-append room.queue (task ∷ []));
            counted = rw (r.workers, r.awaited) v.sound.counted;
            limited = rw r.workers v.sound.limited;
          }))
  ]

  pub enqueue_task-IsEngine :
      (now : ℕ) (task : HookTask) (e : Engine)
      → IsEngine s e
      → IsEngine s (enqueue_task s now task e)
  unfolding enqueue_task
  enqueue_task-IsEngine now task e v =
      let r = try_coalesce_task s now task e in
      let kept : IsEngine s r.2 =
        SameCounts-IsEngine r.2 e (try_coalesce-SameCounts now task e) v in
      elim (Bool-cases r.0) [
        | inl merged ↦ subst (IsEngine s) (ground arith) kept
        | inr alone ↦ subst (IsEngine s) (ground arith) (admit-IsEngine now r.1 r.2 kept)
      ]
