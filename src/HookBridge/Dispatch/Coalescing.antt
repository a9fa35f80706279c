-- ===== src/HookBridge/Dispatch/Coalescing.antt =====
-- What merging a task leaves of the queue and the maps (runtime/hook-bridge-dispatch-engine.ts).
use openclaw_event_server_pl.Common.{
  ℕ, String, Bool, true, false, not, none, some, ◌==◌, if◌then◌else◌, arith, ◌≡◌, inl, inr, refl,
  Bool-cases, Option-cases, ◌∙◌, sym, subst, eq_iff,
}
use openclaw_event_server_pl.Common.JsMap.{JsMap, IsMap, get-set, get-set_self, get-delete}
use openclaw_event_server_pl.Common.JsMap
use openclaw_event_server_pl.HookBridge.Dispatch.{
  Engine, Setup, HookTask, RuleCoalesce, merge_task, try_coalesce_task, coalesce_by, coalesce_with,
  new_key, is_latest,
}
use openclaw_event_server_pl.HookBridge.Dispatch.Merging.{change-IsIndexed, entries-id}
use openclaw_event_server_pl.HookBridge.Dispatch.Indexed.{entries, IsIndexed}

true_false {ℓ} : {A : Type ℓ} → true ≡ false → A
true_false h = absurd cc

-- A key is taken away.
delete-IsIndexed :
    (key : String) (e : Engine)
    → IsIndexed e
    → IsIndexed (record e {
      queued_task_id_by_coalesce_key = JsMap.delete key e.queued_task_id_by_coalesce_key;
    })
delete-IsIndexed key e v = record {
  once = v.once;
  same = v.same;
  keyed = λ k id h.
      v.keyed k id
        (ground (arith, h, get-delete key k e.queued_task_id_by_coalesce_key, eq_iff key k));
  unnamed =
      ground (arith, v.unnamed, get-delete key "" e.queued_task_id_by_coalesce_key, eq_iff key "");
}

-- The maps agree afterwards, and a task that is not merged leaves the queue and keeps its id.
pub record IsKept (task : HookTask) (e : Engine) (r : Bool × HookTask × Engine) : Type 0 where
  pub indexed : IsIndexed r.2
  pub queue : r.0 ≡ false → r.2.queue ≡ e.queue
  pub id : r.1.task_id ≡ task.task_id

unmerged : (task : HookTask) (e : Engine) → IsIndexed e → IsKept task e (false, task, e)
unmerged task e v = record { indexed = v; queue = λ h. refl; id = refl }

merge_task-same :
    (c : RuleCoalesce) (task existing : HookTask)
    → ((merge_task c task existing).task_id ≡ existing.task_id)
      × ((merge_task c task existing).coalesce_key ≡ existing.coalesce_key)
unfolding merge_task
merge_task-same c task existing = elim (Bool-cases (is_latest c)) [
  | inl l ↦ rw (l, merge_task) (refl, refl)
  | inr f ↦ rw (f, merge_task) (refl, refl)
]

pick-IsKept :
    (b : Bool) (task : HookTask) (e : Engine) (p q : Bool × HookTask × Engine)
    → IsKept task e p
    → IsKept task e q
    → IsKept task e (if b then p else q)
pick-IsKept true task e p q h k = h
pick-IsKept false task e p q h k = k

module _ (s : Setup) where
  new_key-IsKept :
      (task : HookTask) (key : String) (e : Engine)
      → IsIndexed e
      → IsKept task e (new_key s task key e)
  unfolding new_key
  new_key-IsKept task key e v = record {
    indexed = delete-IsIndexed key e v;
    queue = λ h. refl;
    id = refl;
  }

  coalesce_with-IsKept :
      (now : ℕ) (c : RuleCoalesce) (task : HookTask) (key : String) (existing : HookTask)
      (e : Engine)
      → JsMap.get existing.task_id (entries e.queue) ≡ some existing
      → IsIndexed e
      → IsKept task e (coalesce_with s now c task key existing e)
  unfolding coalesce_with
  coalesce_with-IsKept now c task key existing e there v =
      let m = merge_task-same c task existing in
      pick-IsKept _ task e _ _ (new_key-IsKept task key e v) (record {
        indexed =
            change-IsIndexed (merge_task c task existing) existing e _ there m.0 m.1 refl refl refl
              v;
        queue = λ h. true_false h;
        id = refl;
      })

  coalesce_by-IsKept :
      (now : ℕ) (c : RuleCoalesce) (task : HookTask) (key : String) (e : Engine)
      → IsIndexed e
      → IsKept task e (coalesce_by s now c task key e)
  unfolding coalesce_by
  coalesce_by-IsKept now c task key e v =
      let fresh : IsKept task e (false, record task { coalesce_key = some key }, e) = record {
        indexed = v;
        queue = λ h. refl;
        id = refl;
      } in
      elim (Option-cases (JsMap.get key e.queued_task_id_by_coalesce_key)) [
        | inl new ↦ rw (new, coalesce_by) fresh
        | inr (id, known) ↦ elim (Bool-cases (id == "")) [
          | inl empty ↦ rw (known, empty, coalesce_by) fresh
          | inr named ↦ elim (Option-cases (JsMap.get id e.queued_task_by_id)) [
            | inl gone ↦ rw (known, named, gone, coalesce_by) (new_key-IsKept task key e v)
            | inr (existing, there) ↦
                let found = sym (v.same id) ∙ there in
                let own = entries-id e.queue id existing found in
                rw (known, named, there, coalesce_by)
                  (coalesce_with-IsKept now c task key existing e
                    (subst (λ i. JsMap.get i (entries e.queue) ≡ some existing) (sym own) found) v)
          ]
        ]
      ]

  abbrev coalesce_keyed : ℕ → HookTask → Engine → RuleCoalesce → Bool × HookTask × Engine
  coalesce_keyed now task e c = elim (s.build_coalesce_key task.rule_id task.event c) [
    | none ↦ (false, task, e)
    | some key ↦ if key == "" then (false, task, e) else coalesce_by s now c task key e
  ]

  coalesce_keyed-IsKept :
      (now : ℕ) (task : HookTask) (e : Engine) (c : RuleCoalesce)
      → IsIndexed e
      → IsKept task e (coalesce_keyed now task e c)
  coalesce_keyed-IsKept now task e c v =
      elim (Option-cases (s.build_coalesce_key task.rule_id task.event c)) [
        | inl unkeyed ↦ rw (unkeyed, coalesce_keyed) (unmerged task e v)
        | inr (key, keyed) ↦
            rw (keyed, coalesce_keyed)
              (pick-IsKept (key == "") task e _ _ (unmerged task e v)
                (coalesce_by-IsKept now c task key e v))
      ]

  plain_task :
      (now : ℕ) (task : HookTask) (e : Engine)
      → task.coalesce ≡ none
      → try_coalesce_task s now task e ≡ (false, task, e)
  unfolding try_coalesce_task
  plain_task now task e h = ground arith

  ruled_task :
      (now : ℕ) (task : HookTask) (e : Engine) (c : RuleCoalesce)
      → task.coalesce ≡ some c
      → try_coalesce_task s now task e
        ≡ (if not c.enabled then (false, task, e) else coalesce_keyed now task e c)
  unfolding try_coalesce_task
  ruled_task now task e c h = ground arith

  pub try_coalesce-IsKept :
      (now : ℕ) (task : HookTask) (e : Engine)
      → IsIndexed e
      → IsKept task e (try_coalesce_task s now task e)
  unfolding try_coalesce_task
  try_coalesce-IsKept now task e v = elim (Option-cases task.coalesce) [
    | inl plain ↦ subst (IsKept task e) (sym (plain_task now task e plain)) (unmerged task e v)
    | inr (c, merges) ↦ subst (IsKept task e) (sym (ruled_task now task e c merges)) (
        pick-IsKept (not c.enabled) task e _ _ (unmerged task e v)
          (coalesce_keyed-IsKept now task e c v))
  ]
