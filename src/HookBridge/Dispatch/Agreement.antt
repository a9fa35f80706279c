-- ===== src/HookBridge/Dispatch/Agreement.antt =====
-- The queue and the two maps agree whatever is enqueued (runtime/hook-bridge-dispatch-engine.ts).
use openclaw_event_server_pl.Common.{
  ℕ, String, none, some, List, [], ◌∷◌, leb, length, arith, ◌≡◌, ◌⊎◌, inl, inr, refl, Bool-cases,
  Option-cases, ◌∙◌, sym, ap, subst,
}
use openclaw_event_server_pl.Common.JsMap.{JsMap, IsMap, get-set, get-set_self, get-delete}
use openclaw_event_server_pl.Common.JsMap
use openclaw_event_server_pl.HookBridge.Dispatch.{
  Engine, Setup, HookTask, forget, push_task, pressure, stop, make_room, drop_head, admit,
  enqueue_task, try_coalesce_task,
}
use openclaw_event_server_pl.HookBridge.Dispatch.Invariant.{queue_cases}
use openclaw_event_server_pl.HookBridge.Dispatch.Always.{Call, enqueues, ends, stops, step, run}
use openclaw_event_server_pl.HookBridge.Dispatch.Admission.{policy_cases, room_of_oldest}
use openclaw_event_server_pl.HookBridge.Dispatch.Merging.{
  reindex, wait-IsIndexed, push_task-IsIndexed, pump_workers-IsIndexed, action_ends-IsIndexed,
}
use openclaw_event_server_pl.HookBridge.Dispatch.Indexed.{
  entries, IsIndexed, forget-IsIndexed, some_inj,
}
use openclaw_event_server_pl.HookBridge.Dispatch.Coalescing.{try_coalesce-IsKept}

absent_in_rest :
    (t : HookTask) (rest : List HookTask) (id : String)
    → JsMap.get id (entries (t ∷ rest)) ≡ none
    → JsMap.get id (entries rest) ≡ none
unfolding JsMap.get
absent_in_rest t rest id h = ground arith

module _ (s : Setup) where
  make_room_cases :
      (task : HookTask) (e room : Engine)
      → make_room s task e ≡ some room
      → (room ≡ e)
        ⊎ ((t : HookTask) × (rest : List HookTask) × (e.queue ≡ t ∷ rest)
            × (room ≡ drop_head t rest e))
  unfolding make_room
  make_room_cases task e room h =
      elim (Bool-cases (leb s.runtime.max_pending_events (length e.queue))) [
        | inr free ↦ inl (some_inj (sym h ∙ ground arith))
        | inl full ↦ elim (policy_cases s.runtime.drop_policy) [
          | inl newest ↦ absurd (ground arith)
          | inr oldest ↦ elim (queue_cases e.queue) [
            | inl empty ↦ inl (some_inj (sym h ∙ ground arith))
            | inr (t, rest, q) ↦
                inr (t, rest, q, some_inj (sym h ∙ room_of_oldest s task t rest e full oldest q))
          ]
        ]
      ]

  -- Making room keeps the maps in step, and a new id new.
  room_kept :
      (task : HookTask) (e room : Engine)
      → JsMap.get task.task_id (entries e.queue) ≡ none
      → IsIndexed e
      → make_room s task e ≡ some room
      → IsIndexed room × (JsMap.get task.task_id (entries room.queue) ≡ none)
  room_kept task e room new v h = elim (make_room_cases task e room h) [
    | inl same ↦ rw same (v, new)
    | inr (t, rest, q, shorter) ↦
        let forgotten = forget-IsIndexed t rest e q v in
        let all : entries e.queue ≡ entries (t ∷ rest) = ap entries q in
        rw shorter (
          unfold drop_head in
              reindex _ (forget t (record e { queue = rest })) refl refl refl forgotten,
          unfold drop_head forget in
              absent_in_rest t rest task.task_id (sym (ap (JsMap.get task.task_id) all) ∙ new),
        )
  ]

  admit-IsIndexed :
      (now : ℕ) (task : HookTask) (e : Engine)
      → JsMap.get task.task_id (entries e.queue) ≡ none
      → IsIndexed e
      → IsIndexed (admit s now task e)
  unfolding admit pressure
  admit-IsIndexed now task e new v = elim (Option-cases (make_room s task e)) [
    | inl full ↦ rw (full, admit) (reindex _ e refl refl refl v)
    | inr (room, h) ↦
        let r = room_kept task e room new v h in
        rw (h, admit)
          (pump_workers-IsIndexed s now _ (
            reindex _ (push_task s task room) refl refl refl
              (push_task-IsIndexed s task room r.1 r.0)))
  ]

  enqueue_task-IsIndexed :
      (now : ℕ) (task : HookTask) (e : Engine)
      → JsMap.get task.task_id (entries e.queue) ≡ none
      → IsIndexed e
      → IsIndexed (enqueue_task s now task e)
  unfolding enqueue_task
  enqueue_task-IsIndexed now task e new v =
      let r = try_coalesce_task s now task e in
      let k = try_coalesce-IsKept s now task e v in
      elim (Bool-cases r.0) [
        | inl merged ↦ subst IsIndexed (ground arith) k.indexed
        | inr alone ↦
            let new' : JsMap.get r.1.task_id (entries r.2.queue) ≡ none =
              rw (k.id, k.queue alone) new in
            subst IsIndexed (ground arith) (admit-IsIndexed now r.1 r.2 new' k.indexed)
      ]

  -- Each task that is enqueued has an id that no queued task has.
  unfoldable pub AreFresh : List Call → Engine → Type 0
  AreFresh [] e = Unit
  AreFresh (enqueues now task ∷ rest) e =
      (JsMap.get task.task_id (entries e.queue) ≡ none)
      × AreFresh rest (step s (enqueues now task) e)
  AreFresh (c ∷ rest) e = AreFresh rest (step s c e)

  -- Whatever happens to the engine, in any order, while the enqueued tasks have ids of their own: the
  -- map by id holds exactly the queued tasks, also after merges, each id stands once in the queue, and
  -- a coalescing key never leads to a task that is no longer queued or has another key.
  pub run-IsIndexed :
      (cs : List Call) (e : Engine) → AreFresh cs e → IsIndexed e → IsIndexed (run s cs e)
  unfolding AreFresh run step
  run-IsIndexed [] e fresh v = v
  run-IsIndexed (enqueues now task ∷ cs) e fresh v =
      run-IsIndexed cs _ fresh.1 (enqueue_task-IsIndexed now task e fresh.0 v)
  run-IsIndexed (ends now k success ∷ cs) e fresh v =
      run-IsIndexed cs _ fresh (action_ends-IsIndexed s now k success e v)
  run-IsIndexed (stops now ∷ cs) e fresh v =
      run-IsIndexed cs _ fresh (unfold stop in wait-IsIndexed _ (pump_workers-IsIndexed s now e v))
