-- ===== src/Execution/Consented.antt =====
-- Consent to the paths that blocked a program.
use wizard_w.Prelude.{
  ◌≡◌, ◌≢◌, refl, true, List, [], ◌∷◌, ◌++◌, arith, all, contains, contains-append,
}
use wizard_w.Prelude.Text.{Text, text_eq}
use wizard_w.Security.Path.{allowed_path_roots, granted_root, is_path_allowed}
use wizard_w.Security.Path.Granted.{is_plain, granted_root-opens}
use wizard_w.Security.Guard.{guard_roots}
use wizard_w.Security.Guard.Rescan.{contains-unique}
use wizard_w.Security.Repair.{repair}
use wizard_w.Execution.{Machine, execute}
use wizard_w.Execution.Runs.{granted_execution_runs}

new_root :
    (base : Text) (granted new : List Text) (root : Text)
    → contains root new ≡ true
    → contains root (guard_roots (base ∷ (granted ++ new))) ≡ true
unfolding guard_roots
new_root base granted new root h = ground (
  arith,
  h,
  contains-unique root (base ∷ ((granted ++ new) ++ allowed_path_roots)),
  contains-append root (granted ++ new) allowed_path_roots,
  contains-append root granted new,
)

opened :
    (base : Text) (granted new paths : List Text)
    → all is_plain paths ≡ true
    → all (λ path. contains (granted_root path) new) paths ≡ true
    → all (is_path_allowed (guard_roots (base ∷ (granted ++ new)))) paths ≡ true
opened base granted new [] plain covered = refl
opened base granted new (path ∷ paths) plain covered = ground (
  arith,
  plain,
  covered,
  granted_root-opens (guard_roots (base ∷ (granted ++ new))) path,
  new_root base granted new (granted_root path),
  opened base granted new paths,
)

-- Where an execution was blocked over paths that the user may allow, and the root that consent grants
-- for each of them is among the new roots, the next execution of the same code runs it. The paths begin
-- at the root of the file system and are written as `posixpath.normpath` writes them, without backslashes
-- and `://`.
pub consented_execution-runs :
    (m : Machine) (granted new : List Text) (code : Text)
    → (execute m granted code).0.blocked_paths ≢ []
    → all is_plain (execute m granted code).0.blocked_paths ≡ true
    → all (λ path. contains (granted_root path) new) (execute m granted code).0.blocked_paths ≡ true
    → (execute m (granted ++ new) code).1 ≡ (repair m.parse code).1 ∷ []
consented_execution-runs m granted new code some_paths plain covered =
    granted_execution_runs m granted new code some_paths
      (opened m.workspace granted new (execute m granted code).0.blocked_paths plain covered)
