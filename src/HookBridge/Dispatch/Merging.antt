-- ===== src/HookBridge/Dispatch/Merging.antt =====
-- The queue and the two maps agree over the life of the engine, also when tasks are merged
-- (runtime/hook-bridge-dispatch-engine.ts).
use openclaw_event_server_pl.Common.{
  ℕ, ◌+◌, ◌-◌, String, Bool, true, false, Option, none, some, List, [], ◌∷◌, ◌++◌, ltb, ◌==◌,
  if◌then◌else◌, get_elem?, arith, ◌≡◌, ◌⊎◌, inl, inr, refl, Bool-cases, Option-cases, ◌∙◌, sym, ap,
  subst, eq_iff, eq_refl,
}
use openclaw_event_server_pl.Common.JsMap.{JsMap, IsMap, get-set, get-set_self, get-delete}
use openclaw_event_server_pl.Common.JsMap
use openclaw_event_server_pl.HookBridge.Dispatch.{
  Engine, Setup, HookTask, forget, change_task, push_task, take_task, pressure, start_workers,
  pump_workers, resolve_drain_if_idle, wait_for_drain, next_round, action_ends,
}
use openclaw_event_server_pl.HookBridge.Dispatch.Invariant.{queue_cases}
use openclaw_event_server_pl.HookBridge.Dispatch.Always.{last_round, more_rounds}
use openclaw_event_server_pl.HookBridge.Dispatch.Indexed.{
  entries, IsIndexed, forget-IsIndexed, get-change_task, change_task-IsMap, change_at, get-push,
  push-IsMap, some_inj,
}

-- What the invariant speaks of is the same.
pub reindex :
    (p q : Engine)
    → p.queue ≡ q.queue
    → p.queued_task_by_id ≡ q.queued_task_by_id
    → p.queued_task_id_by_coalesce_key ≡ q.queued_task_id_by_coalesce_key
    → IsIndexed q
    → IsIndexed p
reindex p q a b c v = record {
  once = rw a v.once;
  same = λ id. rw (a, b) (v.same id);
  keyed = λ key id h. rw a (v.keyed key id (rw (← c) h));
  unnamed = rw c v.unnamed;
}

resolve-IsIndexed : (e : Engine) → IsIndexed e → IsIndexed (resolve_drain_if_idle e)
unfolding resolve_drain_if_idle
resolve-IsIndexed e v = reindex _ e (ground arith) (ground arith) (ground arith) v

pub wait-IsIndexed : (e : Engine) → IsIndexed e → IsIndexed (wait_for_drain e)
unfolding wait_for_drain
wait-IsIndexed e v = reindex _ e (ground arith) (ground arith) (ground arith) v

-- A task that is found by an id has it.
pub entries-id :
    (ts : List HookTask) (id : String) (t : HookTask)
    → JsMap.get id (entries ts) ≡ some t
    → t.task_id ≡ id
unfolding JsMap.get
entries-id [] id t h = absurd cc
entries-id (u ∷ us) id t h = elim (Bool-cases (u.task_id == id)) [
  | inl e ↦
      let same : u ≡ t = ground arith in
      ap (λ x. x.task_id) (sym same) ∙ ground (arith, eq_iff u.task_id id)
  | inr e ↦ entries-id us id t (ground arith)
]

-- A new task at the end of the queue, without a key.
pushed-keyed :
    (task : HookTask) (e : Engine) (key id : String)
    → JsMap.get task.task_id (entries e.queue) ≡ none
    → (t : HookTask) × (JsMap.get id (entries e.queue) ≡ some t) × (t.coalesce_key ≡ some key)
    → (t : HookTask) × (JsMap.get id (entries (e.queue ++ task ∷ [])) ≡ some t)
      × (t.coalesce_key ≡ some key)
pushed-keyed task e key id new (t, g, k) = elim (Bool-cases (task.task_id == id)) [
  | inl here ↦
      let task_id : task.task_id ≡ id = ground (arith, eq_iff task.task_id id) in
      absurd (let gone = sym (ap (λ i. JsMap.get i (entries e.queue)) task_id) ∙ new in cc)
  | inr there ↦ (t, get-push task e.queue id new ∙ rw there g, k)
]

change_other :
    (m : HookTask) (id : String) (o : Option HookTask)
    → (m.task_id == id) ≡ false
    → change_at m id o ≡ o
change_other m id none h = refl
change_other m id (some t) h = rw h refl

-- A queued task that is changed, with its id and its key as they were.
pub change-IsIndexed :
    (m existing : HookTask) (e p : Engine)
    → JsMap.get existing.task_id (entries e.queue) ≡ some existing
    → m.task_id ≡ existing.task_id
    → m.coalesce_key ≡ existing.coalesce_key
    → p.queue ≡ change_task m e.queue
    → p.queued_task_by_id ≡ JsMap.set existing.task_id m e.queued_task_by_id
    → p.queued_task_id_by_coalesce_key ≡ e.queued_task_id_by_coalesce_key
    → IsIndexed e
    → IsIndexed p
change-IsIndexed m existing e p there id key a b c v =
    let q_entries : entries p.queue ≡ entries (change_task m e.queue) = ap entries a in
    let find = λ (i : String). ap (JsMap.get i) q_entries ∙ get-change_task m e.queue i in
    record {
      once = subst IsMap (sym q_entries) (change_task-IsMap m e.queue v.once);
      same = λ i.
          ap (JsMap.get i) b
          ∙ get-set existing.task_id i m e.queued_task_by_id
          ∙ elim (Bool-cases (existing.task_id == i)) [
            | inl here ↦
                rw here (sym (find i ∙ ap (change_at m i) (at_id i here) ∙ rw (id, here) refl))
            | inr other ↦ rw other (v.same i ∙ sym (find i ∙ change_other m i _ (rw id other)))
          ];
      keyed = λ k i h.
          let (t, g, tk) = v.keyed k i (sym (ap (JsMap.get k) c) ∙ h) in
          elim (Bool-cases (existing.task_id == i)) [
            | inl here ↦
                let same : existing ≡ t = some_inj (sym (at_id i here) ∙ g) in
                (
                  m,
                  find i ∙ ap (change_at m i) (at_id i here) ∙ rw (id, here) refl,
                  key ∙ ap (λ x. x.coalesce_key) same ∙ tk,
                )
            | inr other ↦ (t, find i ∙ change_other m i _ (rw id other) ∙ g, tk)
          ];
      unnamed = ap (JsMap.get "") c ∙ v.unnamed;
    }
  where
    at_id :
        (i : String)
        → (existing.task_id == i) ≡ true
        → JsMap.get i (entries e.queue) ≡ some existing
    at_id i here =
        let same : existing.task_id ≡ i = ground (arith, eq_iff existing.task_id i) in
        subst (λ j. JsMap.get j (entries e.queue) ≡ some existing) same there

module _ (s : Setup) where
  pushed_keys :
      (task : HookTask) (e : Engine)
      → ((push_task s task e).queued_task_id_by_coalesce_key ≡ e.queued_task_id_by_coalesce_key)
        ⊎ ((k : String) × (task.coalesce_key ≡ some k)
            × ((k == "") ≡ false)
            × ((push_task s task e).queued_task_id_by_coalesce_key
                ≡ JsMap.set k task.task_id e.queued_task_id_by_coalesce_key))
  unfolding push_task
  pushed_keys task e = elim (Option-cases task.coalesce_key) [
    | inl plain ↦ inl (ground arith)
    | inr (k, has_key) ↦ elim (Bool-cases (k == "")) [
      | inl empty ↦ inl (ground arith)
      | inr named ↦ inr (k, has_key, named, ground arith)
    ]
  ]

  pub push_task-IsIndexed :
      (task : HookTask) (e : Engine)
      → JsMap.get task.task_id (entries e.queue) ≡ none
      → IsIndexed e
      → IsIndexed (push_task s task e)
  unfolding push_task
  push_task-IsIndexed task e new v = record {
    once = push-IsMap task e.queue new v.once;
    same = λ id.
        get-set task.task_id id task e.queued_task_by_id
        ∙ rw (v.same id) (sym (get-push task e.queue id new));
    keyed = λ key id h. elim (pushed_keys task e) [
      | inl old ↦ pushed-keyed task e key id new (v.keyed key id (sym (ap (JsMap.get key) old) ∙ h))
      | inr (k, has_key, named, e') ↦
          let h' : (if k == key
                then some task.task_id
                else JsMap.get key e.queued_task_id_by_coalesce_key)
              ≡ some id =
            sym (ap (JsMap.get key) e' ∙ get-set k key task.task_id _) ∙ h in
          elim (Bool-cases (k == key)) [
            | inl own ↦
                let k_key : k ≡ key = ground (arith, eq_iff k key) in
                let task_id : task.task_id ≡ id = some_inj (sym (rw own refl) ∙ h') in
                (
                  task,
                  get-push task e.queue id new ∙ rw (task_id, eq_refl id) refl,
                  has_key ∙ ap some k_key,
                )
            | inr other ↦ pushed-keyed task e key id new (v.keyed key id (sym (rw other refl) ∙ h'))
          ]
    ];
    unnamed = elim (pushed_keys task e) [
      | inl old ↦ ap (JsMap.get "") old ∙ v.unnamed
      | inr (k, has_key, named, e') ↦
          ap (JsMap.get "") e' ∙ get-set k "" task.task_id _ ∙ rw named v.unnamed
    ];
  }

  take_task-queue :
      (now : ℕ) (t : HookTask) (rest : List HookTask) (e : Engine)
      → (take_task s now t rest e).queue ≡ rest
  unfolding take_task pressure forget
  take_task-queue now t rest e = refl

  take_task-IsIndexed :
      (now : ℕ) (t : HookTask) (rest : List HookTask) (e : Engine)
      → e.queue ≡ t ∷ rest
      → IsIndexed e
      → IsIndexed (take_task s now t rest e)
  unfolding take_task pressure
  take_task-IsIndexed now t rest e q v =
      reindex _ (forget t (record e { queue = rest })) refl refl refl
        (forget-IsIndexed t rest e q v)

  start_workers-IsIndexed :
      (now : ℕ) (tasks : List HookTask) (e : Engine)
      → e.queue ≡ tasks
      → IsIndexed e
      → IsIndexed (start_workers s now tasks e)
  unfolding start_workers
  start_workers-IsIndexed now [] e q v = v
  start_workers-IsIndexed now (t ∷ rest) e q v =
      let joined = record e { running_workers = e.running_workers + 1 } in
      elim (Bool-cases (ltb e.running_workers s.runtime.concurrency)) [
        | inl free ↦ rw free (
            start_workers-IsIndexed now rest _ ((take_task-queue now t rest joined))
              (take_task-IsIndexed now t rest joined q (reindex joined e refl refl refl v)))
        | inr busy ↦ rw busy v
      ]

  pub pump_workers-IsIndexed :
      (now : ℕ) (e : Engine) → IsIndexed e → IsIndexed (pump_workers s now e)
  unfolding pump_workers
  pump_workers-IsIndexed now e v =
      resolve-IsIndexed _ (start_workers-IsIndexed now e.queue e refl v)

  next_round-IsIndexed : (now : ℕ) (e : Engine) → IsIndexed e → IsIndexed (next_round s now e)
  next_round-IsIndexed now e v = elim (queue_cases e.queue) [
    | inl empty ↦ rw (last_round s now e empty) (
        pump_workers-IsIndexed now (record e { running_workers = e.running_workers - 1 })
          (reindex (record e { running_workers = e.running_workers - 1 }) e refl refl refl v))
    | inr (t, rest, q) ↦ rw (more_rounds s now t rest e q) (take_task-IsIndexed now t rest e q v)
  ]

  pub action_ends-IsIndexed :
      (now k : ℕ) (success : Bool) (e : Engine)
      → IsIndexed e
      → IsIndexed (action_ends s now k success e)
  unfolding action_ends
  action_ends-IsIndexed now k success e v = elim (Option-cases (get_elem? e.executing k)) [
    | inl absent ↦ rw (absent, action_ends) v
    | inr (task, there) ↦
        rw (there, action_ends) (next_round-IsIndexed now _ (reindex _ e refl refl refl v))
  ]
