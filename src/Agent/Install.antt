-- ===== src/Agent/Install.antt =====
-- `AnalysisOrchestrator._permit_install` in backend/src/core/agent/orchestrator.py: the gate on the
-- libraries that generated code imports. What the runtime lacks, which backend runs and how pip ends
-- are given.
pub mod Consented
use wizard_w.Prelude.{
  ◌<>◌, ℕ, String, Bool, true, false, ◌&&◌, ◌||◌, not, ltb, ◌==◌, nat_eq, List, [], ◌∷◌, ◌++◌,
  Option, none, some, if◌then◌else◌,
}
use wizard_w.Prelude.Text.{Text, codes}
use wizard_w.Config.{Settings}
use wizard_w.Permissions.{PermissionState}
use wizard_w.Agent.State.{RunState, note}
use wizard_w.Agent.Permit.{Parked, permit}

-- What the runtime reports: the modules it lacks, whether it is the container, and the error that
-- pip would end with, if any.
pub record Runtime : Type 0 where
  pub missing : List String
  pub docker : Bool
  pub pip_error : Option Text

-- Whether the code may run, the modules that pip was called for, the run, and the session's permissions.
pub record Installed : Type 0 where
  pub allowed : Bool
  pub pip_for : Option (List String)
  pub run : RunState
  pub permissions : PermissionState

abbrev pub none_missing : List String → Bool
none_missing [] = true
none_missing (x ∷ xs) = false

-- `<` of two texts, by their code points
unfoldable pub is_before : Text → Text → Bool
is_before [] [] = false
is_before [] (d ∷ t) = true
is_before (c ∷ s) [] = false
is_before (c ∷ s) (d ∷ t) = ltb c d || (c == d && is_before s t)

unfoldable pub insert_name : String → List String → List String
unfolding is_before
insert_name name [] = name ∷ []
insert_name name (other ∷ names) =
    if is_before (codes other) (codes name)
    then other ∷ insert_name name names
    else name ∷ other ∷ names

-- `sorted(missing)`
unfoldable pub sorted_names : List String → List String
unfolding insert_name
sorted_names [] = []
sorted_names (name ∷ names) = insert_name name (sorted_names names)

-- `", ".join(names)`
unfoldable pub joined_names : List String → String
joined_names [] = ""
joined_names (name ∷ []) = name
joined_names (name ∷ other ∷ names) = name <> (", " <> joined_names (other ∷ names))

abbrev pub install_subject : List String → String
install_subject missing = joined_names (sorted_names missing)

-- The part after the consent.
unfoldable pub install : Runtime → Text → RunState → PermissionState → Installed
install runtime subject run p =
    if runtime.docker
    then record { allowed = true; pip_for = none; run = run; permissions = p }
    else elim runtime.pip_error [
      | none ↦ record { allowed = true; pip_for = some runtime.missing; run = run; permissions = p }
      | some detail ↦ record {
        allowed = false;
        pip_for = some runtime.missing;
        run = record run {
          warnings =
              run.warnings
              ++ (note (codes "Could not install " ++ (subject ++ (codes ": " ++ detail))) ∷ []);
        };
        permissions = p;
      }
    ]

unfoldable pub permit_install : Settings → Runtime → Parked → RunState → PermissionState → Installed
unfolding install
permit_install s runtime parked run p =
    if none_missing runtime.missing || not s.sandbox_allow_runtime_pip
    then record { allowed = true; pip_for = none; run = run; permissions = p }
    else (let subject = install_subject runtime.missing in
        let (granted, run', p') = permit s parked run p "library_install" subject in
        if granted
        then install runtime (codes subject) run' p'
        else record { allowed = false; pip_for = none; run = run'; permissions = p' })
