-- ===== src/Execution/Runs.antt =====
-- What is run, and when.
use wizard_w.Prelude.{
  ◌≡◌, ◌≢◌, refl, Bool, true, false, List, [], ◌∷◌, ◌++◌, Option, none, some, arith, if◌then◌else◌,
  contains, all, Bool-cases, inl, inr,
}
use wizard_w.Prelude.Text.{Text, text_eq}
use wizard_w.Security.Path.{is_path_allowed}
use wizard_w.Security.Tree.{Node, everywhere}
use wizard_w.Security.Guard.{program, GuardVerdict, scan, only_paths, guard_roots}
use wizard_w.Security.Guard.Accepts.{harmless, scan-ok_iff}
use wizard_w.Security.Guard.Rescan.{granted_paths-accepted}
use wizard_w.Security.Repair.{repair}
use wizard_w.Execution.{
  Machine, ExecutionResult, guard, blocked_result, run_prepared, run_accepted, execute,
}

-- The guard's verdict on the repaired code.
abbrev verdict : Machine → List Text → Text → GuardVerdict
verdict m allowed_roots code = scan m.parse (m.workspace ∷ allowed_roots) (repair m.parse code).1

run-of :
    (m : Machine) (allowed_roots : List Text) (code : Text)
    → (execute m allowed_roots code).1
      ≡ (if (verdict m allowed_roots code).ok then (repair m.parse code).1 ∷ [] else [])
unfolding execute guard run_accepted
run-of m allowed_roots code = ground arith

-- Whatever an execution hands to a runtime is the repaired code, a program that Python's parser reads
-- and in which no node has a finding under the session's workspace and the granted roots.
pub execute_runs_accepted :
    (m : Machine) (allowed_roots : List Text) (code ran : Text)
    → contains ran (execute m allowed_roots code).1 ≡ true
    → (ran ≡ (repair m.parse code).1)
      × (tree : Node) × (m.parse ran ≡ program tree)
      × (everywhere (harmless (guard_roots (m.workspace ∷ allowed_roots))) tree ≡ true)
execute_runs_accepted m allowed_roots code ran h =
    let repaired = (repair m.parse code).1 in
    elim (Bool-cases (verdict m allowed_roots code).ok) [
      | inl accepted ↦
          let same : ran ≡ repaired =
            ground (arith, run-of m allowed_roots code, text_eq.decides repaired ran) in
          let (present, tree, parsed, clean) =
            (scan-ok_iff m.parse (m.workspace ∷ allowed_roots) repaired).0 accepted in
          (same, tree, rw same parsed, clean)
      | inr refused ↦ absurd (ground (arith, run-of m allowed_roots code))
    ]

run_prepared-paths : (m : Machine) (prepared : Text) → (run_prepared m prepared).blocked_paths ≡ []
unfolding run_prepared
run_prepared-paths m prepared = of_runtime m.runtime
  where
    of_runtime :
        (r : Option (Text → Text × Option Text))
        → (run_prepared (record m { runtime = r }) prepared).blocked_paths ≡ []
    of_runtime none = refl
    of_runtime (some run_code) = refl

blocked_result-paths :
    (v : GuardVerdict) (prepared : Text)
    → (blocked_result v prepared).blocked_paths ≢ []
    → (only_paths v ≡ true) × ((blocked_result v prepared).blocked_paths ≡ v.paths)
unfolding blocked_result
blocked_result-paths v prepared h = elim (Bool-cases v.syntax_error) [
  | inl malformed ↦ absurd (h (ground arith))
  | inr readable ↦ elim (Bool-cases (only_paths v)) [
    | inl only ↦ (only, ground arith)
    | inr mixed ↦ absurd (h (ground arith))
  ]
]

abbrev Listed : GuardVerdict → ExecutionResult → Type 0
Listed v r = r.blocked_paths ≢ [] → (only_paths v ≡ true) × (r.blocked_paths ≡ v.paths)

choice-Listed :
    (v : GuardVerdict) (b : Bool) (p q : ExecutionResult × List Text)
    → Listed v p.0
    → Listed v q.0
    → Listed v (if◌then◌else◌ {A = ExecutionResult × List Text} b p q).0
choice-Listed v true p q f g = f
choice-Listed v false p q f g = g

accepted-paths :
    (m : Machine) (v : GuardVerdict) (prepared : Text)
    → (run_accepted m v prepared).0.blocked_paths ≢ []
    → (only_paths v ≡ true) × ((run_accepted m v prepared).0.blocked_paths ≡ v.paths)
unfolding run_accepted
accepted-paths m v prepared =
    choice-Listed v v.ok (run_prepared m prepared, prepared ∷ []) (blocked_result v prepared, [])
      (λ h. absurd (h (run_prepared-paths m prepared))) (blocked_result-paths v prepared)

-- Paths are listed only for a blocked_result that is about paths alone, and are all that it is about.
listed_paths :
    (m : Machine) (allowed_roots : List Text) (code : Text)
    → (execute m allowed_roots code).0.blocked_paths ≢ []
    → (only_paths (verdict m allowed_roots code) ≡ true)
      × ((execute m allowed_roots code).0.blocked_paths ≡ (verdict m allowed_roots code).paths)
unfolding execute guard
listed_paths m allowed_roots code some_paths =
    accepted-paths m (verdict m allowed_roots code) (repair m.parse code).1 some_paths

-- Where an execution was blocked over paths that the user may allow, and every one of them lies in the
-- roots once the new ones are added, the next execution of the same code runs it.
pub granted_execution_runs :
    (m : Machine) (granted new : List Text) (code : Text)
    → (execute m granted code).0.blocked_paths ≢ []
    → all
        (is_path_allowed (guard_roots (m.workspace ∷ (granted ++ new))))
        (execute m granted code).0.blocked_paths
      ≡ true
    → (execute m (granted ++ new) code).1 ≡ (repair m.parse code).1 ∷ []
granted_execution_runs m granted new code some_paths covered =
    let (only, same) = listed_paths m granted code some_paths in
    let accepted =
      granted_paths-accepted m.parse m.workspace granted new (repair m.parse code).1 only
        (rw (← same) covered) in
    ground (arith, run-of m (granted ++ new) code, accepted)
