-- ===== src/HookBridge/Actions/Allowed.antt =====
-- Which scripts are started (`executeLocalScriptAction` of runtime/hook-bridge-actions.ts).
use openclaw_event_server_pl.Common.{
  ℕ, ◌≤◌, String, true, false, not, ◌&&◌, ◌||◌, Option, some, List, [], ◌∷◌, ◌==◌, arith, ◌≡◌, ◌∙◌,
  ap, refl, subst, Bool-cases, Option-cases, inl, inr, get_or, member, append, starts_with, eq_refl,
  ltb,
}
use openclaw_event_server_pl.HookBridge.Actions.{
  Paths, ScriptLimits, LocalScriptAction, ScriptRun, Prepared, refused, starts,
  prepare_local_script, is_allowed_local_script_path, is_within, checked_script,
}

-- The script lies in the directory, or is it, when both are resolved.
abbrev pub LiesIn : Paths → String → String → Type 0
LiesIn paths script_path dir =
    (base : String) × (paths.to_canonical_path (paths.resolve dir) ≡ some base)
    × ((script_path == base || starts_with (append base "/") script_path) ≡ true)

is_within-LiesIn :
    (paths : Paths) (script_path dir : String)
    → is_within paths script_path dir ≡ true
    → LiesIn paths script_path dir
unfolding is_within
is_within-LiesIn paths script_path dir h =
    elim (Option-cases (paths.to_canonical_path (paths.resolve dir))) [
      | inl absent ↦ let e : false ≡ true = rw (absent, is_within) at h in absurd (cc)
      | inr (base, there) ↦
          let e : (not (base == "")
                && (script_path == base || starts_with (append base "/") script_path))
              ≡ true =
            rw (there, is_within) at h in
          (base, there, ground (arith, e))
    ]

abbrev path_of : String → Prepared → String
path_of otherwise (refused message) = otherwise
path_of otherwise (starts run) = run.script_path

allowed-LiesIn :
    (paths : Paths) (dirs : List String) (script_path : String)
    → is_allowed_local_script_path paths dirs script_path ≡ true
    → (dir : String) × (member dir dirs ≡ true) × LiesIn paths script_path dir
unfolding is_allowed_local_script_path
allowed-LiesIn paths [] script_path h = absurd (cc)
allowed-LiesIn paths (dir ∷ rest) script_path h =
    elim (Bool-cases (is_within paths script_path dir)) [
      | inl here ↦ (dir, rw (eq_refl dir) refl, is_within-LiesIn paths script_path dir here)
      | inr other ↦
          let (dir', within, lies) = allowed-LiesIn paths rest script_path (ground arith) in
          (dir', rw within (ground arith), lies)
    ]

checked_is_allowed :
    (paths : Paths) (limits : ScriptLimits) (action : LocalScriptAction)
    (default_timeout_ms : Option ℕ) (payload_bytes : ℕ) (path : String) (run : ScriptRun)
    → checked_script paths limits action default_timeout_ms payload_bytes path ≡ starts run
    → (path ≡ run.script_path)
      × ((dir : String) × (member dir limits.allowed_action_dirs ≡ true)
          × LiesIn paths run.script_path dir)
      × (payload_bytes ≤ get_or action.max_payload_bytes limits.max_payload_bytes)
unfolding checked_script
checked_is_allowed paths limits action default_timeout_ms payload_bytes path run h =
    elim (Bool-cases (path == "")) [
      | inl empty ↦ absurd (let e = rw empty at h in cc)
      | inr filled ↦
          elim (Bool-cases (is_allowed_local_script_path paths limits.allowed_action_dirs path)) [
            | inr outside ↦ absurd (let e = rw (filled, outside) at h in cc)
            | inl inside ↦
                elim (Bool-cases
                  (ltb (get_or action.max_payload_bytes limits.max_payload_bytes) payload_bytes)) [
                    | inl large ↦ absurd (let e = rw (filled, inside, large) at h in cc)
                    | inr fits ↦
                        let same : path ≡ run.script_path =
                          ap (path_of path) (rw (filled, inside, fits) at h) in
                        (
                          same,
                          subst
                              (λ q.
                                (dir : String) × (member dir limits.allowed_action_dirs ≡ true)
                                × LiesIn paths q dir)
                              same (allowed-LiesIn paths limits.allowed_action_dirs path inside),
                          ground (arith, fits),
                        )
                  ]
          ]
    ]

-- A script that is started is the resolved path of its action, lies in one of the allowed directories, and
-- its payload is within the limit of the action, or the common one.
pub started_is_allowed :
    (paths : Paths) (limits : ScriptLimits) (action : LocalScriptAction)
    (default_timeout_ms : Option ℕ) (payload_bytes : ℕ) (run : ScriptRun)
    → prepare_local_script paths limits action default_timeout_ms payload_bytes ≡ starts run
    → (paths.to_canonical_path (paths.resolve action.path) ≡ some run.script_path)
      × ((dir : String) × (member dir limits.allowed_action_dirs ≡ true)
          × LiesIn paths run.script_path dir)
      × (payload_bytes ≤ get_or action.max_payload_bytes limits.max_payload_bytes)
unfolding prepare_local_script
started_is_allowed paths limits action default_timeout_ms payload_bytes run h =
    elim (Option-cases (paths.to_canonical_path (paths.resolve action.path))) [
      | inl absent ↦ absurd (let e = rw (absent, prepare_local_script) at h in cc)
      | inr (path, there) ↦
          let e : checked_script paths limits action default_timeout_ms payload_bytes path
              ≡ starts run =
            rw (there, prepare_local_script) at h in
          let (named, lies, fits) =
            checked_is_allowed paths limits action default_timeout_ms payload_bytes path run e in
          (there ∙ ap (λ (p : String). some p) named, lies, fits)
    ]
