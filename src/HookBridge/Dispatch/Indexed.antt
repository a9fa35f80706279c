-- ===== src/HookBridge/Dispatch/Indexed.antt =====
-- The queue and the two maps of the engine agree (runtime/hook-bridge-dispatch-engine.ts).
use openclaw_event_server_pl.Common.{
  String, Option, none, some, List, [], ◌∷◌, ◌++◌, ◌==◌, if◌then◌else◌, arith, ◌≡◌, inl, inr, refl,
  Bool-cases, Option-cases, ◌∙◌, sym, ap, subst, eq_iff, eq_refl, ◌≢◌,
}
use openclaw_event_server_pl.Common.JsMap.{JsMap, IsMap, get-set, get-set_self, get-delete}
use openclaw_event_server_pl.Common.JsMap
use openclaw_event_server_pl.HookBridge.Dispatch.{
  Engine, HookTask, release_key, forget, change_task,
}

-- The queue as a map by the ids of its tasks.
abbrev pub entries : List HookTask → JsMap HookTask
entries [] = []
entries (t ∷ ts) = (t.task_id, t) ∷ entries ts

-- Each id stands once in the queue, and the map by id holds exactly the queued tasks; a key leads to a
-- queued task with that key, and the empty text is no key.
pub record IsIndexed (e : Engine) : Type 0 where
  pub once : IsMap (entries e.queue)
  pub same : (id : String) → JsMap.get id e.queued_task_by_id ≡ JsMap.get id (entries e.queue)
  pub keyed :
      (key id : String)
      → JsMap.get key e.queued_task_id_by_coalesce_key ≡ some id
      → (t : HookTask) × (JsMap.get id (entries e.queue) ≡ some t) × (t.coalesce_key ≡ some key)
  pub unnamed : JsMap.get "" e.queued_task_id_by_coalesce_key ≡ none

-- A key that is still there after the release was there before.
release_key-get :
    (t : HookTask) (keys : JsMap String) (key id : String)
    → JsMap.get key (release_key t keys) ≡ some id
    → JsMap.get key keys ≡ some id
unfolding release_key
release_key-get t keys key id h = elim (Option-cases t.coalesce_key) [
  | inl plain ↦ ground arith
  | inr (k, has_key) ↦ elim (Option-cases (JsMap.get k keys)) [
    | inl absent ↦ ground arith
    | inr (j, there) ↦ ground (arith, get-delete k key keys, eq_iff k key)
  ]
]

-- The task's own key no longer leads to it.
release_key-own :
    (t : HookTask) (keys : JsMap String) (key : String)
    → JsMap.get "" keys ≡ none
    → t.coalesce_key ≡ some key
    → JsMap.get key (release_key t keys) ≢ some t.task_id
unfolding release_key
release_key-own t keys key u has_key h = elim (Option-cases (JsMap.get key keys)) [
  | inl absent ↦ ground arith
  | inr (j, there) ↦
      ground (arith, get-delete key key keys, eq_refl key, eq_iff j t.task_id, eq_iff key "")
]

pub some_inj {ℓ} : {A : Type ℓ} {x y : A} → some x ≡ some y → x ≡ y
some_inj h = cc

get-head :
    (t : HookTask) (ts : List HookTask) (id : String)
    → JsMap.get id (entries (t ∷ ts))
      ≡ (if t.task_id == id then some t else JsMap.get id (entries ts))
unfolding JsMap.get
get-head t ts id = refl

-- The entries without the head.
get-rest :
    (t : HookTask) (ts : List HookTask) (id : String)
    → IsMap (entries (t ∷ ts))
    → JsMap.get id (entries ts)
      ≡ (if t.task_id == id then none else JsMap.get id (entries (t ∷ ts)))
get-rest t ts id v = elim (Bool-cases (t.task_id == id)) [
  | inl e ↦
      let here : t.task_id ≡ id = ground (arith, eq_iff t.task_id id) in
      rw e (subst (λ i. JsMap.get i (entries ts) ≡ none) here v.0)
  | inr e ↦ rw e (sym (get-head t ts id ∙ rw e refl))
]

release_key-unnamed :
    (t : HookTask) (keys : JsMap String)
    → JsMap.get "" keys ≡ none
    → JsMap.get "" (release_key t keys) ≡ none
release_key-unnamed t keys u = elim (Option-cases (JsMap.get "" (release_key t keys))) [
  | inl e ↦ e
  | inr (id, e) ↦ absurd (let old = release_key-get t keys "" id e in cc)
]

pub forget-IsIndexed :
    (t : HookTask) (rest : List HookTask) (e : Engine)
    → e.queue ≡ t ∷ rest
    → IsIndexed e
    → IsIndexed (forget t (record e { queue = rest }))
unfolding forget
forget-IsIndexed t rest e q v =
    let all : entries e.queue ≡ entries (t ∷ rest) = ap entries q in
    let once : IsMap (entries (t ∷ rest)) = subst IsMap all v.once in
    record {
      once = once.1;
      same = λ id.
          get-delete t.task_id id e.queued_task_by_id
          ∙ rw (v.same id ∙ ap (JsMap.get id) all) (sym (get-rest t rest id once));
      keyed = λ key id h.
          let old = release_key-get t e.queued_task_id_by_coalesce_key key id h in
          let (u, g, k) = v.keyed key id old in
          let g' : JsMap.get id (entries (t ∷ rest)) ≡ some u = sym (ap (JsMap.get id) all) ∙ g in
          elim (Bool-cases (t.task_id == id)) [
            | inl here ↦ absurd (
                let t_id : t.task_id ≡ id = ground (arith, eq_iff t.task_id id) in
                let same : some t ≡ some u = sym (get-head t rest id ∙ rw here refl) ∙ g' in
                let own : t.coalesce_key ≡ some key =
                  ap (λ x. x.coalesce_key) (some_inj same) ∙ k in
                release_key-own t e.queued_task_id_by_coalesce_key key v.unnamed own (
                  subst
                    (λ i. JsMap.get key (release_key t e.queued_task_id_by_coalesce_key) ≡ some i)
                    (sym t_id) h))
            | inr there ↦ (u, get-rest t rest id once ∙ rw there g', k)
          ];
      unnamed = release_key-unnamed t e.queued_task_id_by_coalesce_key v.unnamed;
    }

abbrev pub change_at : HookTask → String → Option HookTask → Option HookTask
change_at m id none = none
change_at m id (some t) = if m.task_id == id then some m else some t

pub get-change_task :
    (m : HookTask) (ts : List HookTask) (id : String)
    → JsMap.get id (entries (change_task m ts)) ≡ change_at m id (JsMap.get id (entries ts))
unfolding change_task JsMap.get
get-change_task m [] id = refl
get-change_task m (t ∷ ts) id = elim (Bool-cases (t.task_id == m.task_id)) [
  | inl e ↦ rw e (
      ground (
        arith,
        eq_iff t.task_id id,
        eq_iff m.task_id id,
        eq_iff t.task_id m.task_id,
        get-change_task m ts id,
      ))
  | inr e ↦ rw e (
      ground (
        arith,
        eq_iff t.task_id id,
        eq_iff m.task_id id,
        eq_iff t.task_id m.task_id,
        get-change_task m ts id,
      ))
]

pub change_task-IsMap :
    (m : HookTask) (ts : List HookTask) → IsMap (entries ts) → IsMap (entries (change_task m ts))
unfolding change_task
change_task-IsMap m [] v = tt
change_task-IsMap m (t ∷ ts) v =
    let absent = get-change_task m ts t.task_id ∙ ap (change_at m t.task_id) v.0 in
    let rest = change_task-IsMap m ts v.1 in
    elim (Bool-cases (t.task_id == m.task_id)) [
      | inl e ↦
          let same : t.task_id ≡ m.task_id = ground (arith, eq_iff t.task_id m.task_id) in
          rw e (subst (λ i. JsMap.get i (entries (change_task m ts)) ≡ none) same absent, rest)
      | inr e ↦ rw e (absent, rest)
    ]

pub get-push :
    (t : HookTask) (ts : List HookTask) (id : String)
    → JsMap.get t.task_id (entries ts) ≡ none
    → JsMap.get id (entries (ts ++ t ∷ []))
      ≡ (if t.task_id == id then some t else JsMap.get id (entries ts))
unfolding JsMap.get
get-push t [] id h = refl
get-push t (u ∷ us) id h =
    ground (
      arith,
      eq_iff u.task_id id,
      eq_iff t.task_id id,
      eq_iff u.task_id t.task_id,
      get-push t us id,
    )

pub push-IsMap :
    (t : HookTask) (ts : List HookTask)
    → JsMap.get t.task_id (entries ts) ≡ none
    → IsMap (entries ts)
    → IsMap (entries (ts ++ t ∷ []))
unfolding JsMap.get
push-IsMap t [] h v = (refl, tt)
push-IsMap t (u ∷ us) h v = ground (
  arith,
  eq_iff u.task_id t.task_id,
  eq_iff t.task_id u.task_id,
  get-push t us u.task_id,
  push-IsMap t us,
)
