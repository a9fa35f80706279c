-- ===== src/Trackers/ToolCalls/Lifecycle.antt =====
-- A tool call from its start to its end (hooks/tool-hooks.ts).
use openclaw_event_server_pl.Common.{
  ℕ, ◌-◌, String, false, Option, none, some, List, [], ◌∷◌, ◌≡◌, inl, inr, refl, ◌==◌, ◌∙◌, ap, All,
  Option-cases, Bool-cases, eq_refl, get_or,
}
use openclaw_event_server_pl.Common.JsMap.{
  JsMap, IsMap, get-set, get-set_self, get-delete, set-IsMap, delete-IsMap,
}
use openclaw_event_server_pl.Common.JsMap
use openclaw_event_server_pl.Events.{Value}
use openclaw_event_server_pl.Trackers.ToolCalls.{
  CallContext, no_context, ActiveCall, Calls, EndedCall, start_call, end_call, get_call,
}

-- What may happen to the tracker: a call with an id of its own starts, or a call ends.
pub data Call : Type 0 where
  starts : ℕ → String → String → Value → Option CallContext → Call
  ends : ℕ → String → Call

abbrev after_start : Option (String × Calls) → Calls → Calls
after_start none calls = calls
after_start (some r) calls = r.1

unfoldable pub step : Call → Calls → Calls
step (starts now uuid tool params context) calls =
    after_start (start_call now uuid tool params context calls) calls
step (ends now id) calls = (end_call now id calls).1

unfoldable pub run : List Call → Calls → Calls
unfolding step
run [] calls = calls
run (c ∷ cs) calls = run cs (step c calls)

-- The call is about another id.
abbrev pub Spares : String → Call → Type 0
Spares id (starts now uuid tool params context) =
    (get_or (get_or context no_context).tool_call_id uuid == id) ≡ false
Spares id (ends now other) = (other == id) ≡ false

abbrev ended : ℕ → ActiveCall → EndedCall
ended now call = record {
  duration_ms = now - call.start_time;
  tool_name = call.tool_name;
  params = call.params;
  context = call.context;
}

end_call_found :
    (now : ℕ) (id : String) (calls : Calls) (call : ActiveCall)
    → JsMap.get id calls ≡ some call
    → end_call now id calls ≡ (some (ended now call), JsMap.delete id calls)
unfolding end_call
end_call_found now id calls call g = rw (g, end_call) refl

end_call_absent :
    (now : ℕ) (id : String) (calls : Calls)
    → JsMap.get id calls ≡ none
    → end_call now id calls ≡ (none, calls)
unfolding end_call
end_call_absent now id calls g = rw (g, end_call) refl

step-get :
    (c : Call) (id : String) (calls : Calls)
    → Spares id c
    → JsMap.get id (step c calls) ≡ JsMap.get id calls
unfolding step
step-get (starts now uuid tool params context) id calls other =
    unfold start_call in
    elim (Bool-cases (tool == "")) [
      | inl e ↦ rw e refl
      | inr e ↦ rw e (get-set _ id _ calls ∙ rw other refl)
    ]
step-get (ends now k) id calls other = elim (Option-cases (JsMap.get k calls)) [
  | inl absent ↦ rw (end_call_absent now k calls absent, step) refl
  | inr (call, g) ↦
      rw (end_call_found now k calls call g, step) (get-delete k id calls ∙ rw other refl)
]

run-get :
    (cs : List Call) (id : String) (calls : Calls)
    → All (Spares id) cs
    → JsMap.get id (run cs calls) ≡ JsMap.get id calls
unfolding run
run-get [] id calls h = refl
run-get (c ∷ cs) id calls h = run-get cs id (step c calls) h.1 ∙ step-get c id calls h.0

-- A call that is started returns its own id, or the random one if it has none; ending that id after
-- whatever happens to other calls gives the time since the start with the name, parameters and
-- context as they were, and ending it again gives nothing.
pub start-end :
    (now later again : ℕ) (uuid tool : String) (params : Value) (context : Option CallContext)
    (calls : Calls) (between : List Call)
    → (tool == "") ≡ false
    → let id = get_or (get_or context no_context).tool_call_id uuid in
      All (Spares id) between
      → (started : Calls) × (start_call now uuid tool params context calls ≡ some (id, started))
        × (let ended = end_call later id (run between started) in
            (ended.0
              ≡ some record {
                duration_ms = later - now;
                tool_name = tool;
                params = params;
                context = get_or context no_context;
              })
            × ((end_call again id ended.1).0 ≡ none)
            × (get_call id ended.1 ≡ none))
start-end now later again uuid tool params context calls between named spared =
    let c = get_or context no_context in
    let id = get_or c.tool_call_id uuid in
    let call : ActiveCall = record {
      start_time = now;
      tool_name = tool;
      params = params;
      context = c;
    } in
    let started = JsMap.set id call calls in
    let found : JsMap.get id (run between started) ≡ some call =
      run-get between id started spared ∙ get-set_self id call calls in
    let removed : JsMap.get id (JsMap.delete id (run between started)) ≡ none =
      get-delete id id (run between started) ∙ rw (eq_refl id) refl in
    (
      started,
      unfold start_call in rw named refl,
      rw (end_call_found later id (run between started) call found) (
        refl,
        ap (λ r. r.0) (end_call_absent again id _ removed),
        unfold get_call in rw (removed, get_call) refl,
      ),
    )
