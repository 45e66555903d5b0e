-- ===== src/Tests/Guarded.antt =====
-- Programs and paths before the guard.
use wizard_w.Prelude.{
  ◌≡◌, ◌≢◌, ◌↔◌, ◌⊎◌, refl, true, false, List, [], ◌∷◌, ◌++◌, none, some, all, contains, map,
}
use wizard_w.Prelude.Text.{Text, codes, text_eq, list_beq, strip, lstrip, occurs, starts_with}
use wizard_w.Prelude.Split.{split_on, join}
use wizard_w.Security.Path.{
  allowed_path_roots, dot_dot, slash, target, normpath, rstrip_slashes, is_path_allowed,
  granted_root, is_abs, fold_backslashes,
}
use wizard_w.Security.Path.Granted.{is_plain}
use wizard_w.Security.Path.Inside.{is_path_allowed-inside}
use wizard_w.Security.Path.Relative.{granted_relative-blocked}
use wizard_w.Security.Tree.{
  Node, imports, attribute, name, call, text, other, nil, cons, everywhere,
}
use wizard_w.Security.Guard.{
  Parsed, program, is_nil, scan, only_paths, guard_roots, outside, imported_modules,
}
use wizard_w.Security.Guard.Words.{
  banned_modules, banned_calls, banned_names, banned_attributes, path_arg_functions,
  path_arg_methods,
}
use wizard_w.Security.Repair.{repair, missing_alias_imports, healed, strip_markdown_fences}
use wizard_w.Security.Repair.Healed.{repair-imports_aliases}
use wizard_w.Execution.{Machine, execute, guard, run_accepted, blocked_result, run_prepared}
use wizard_w.Execution.Runs.{execute_runs_accepted}
use wizard_w.Execution.Consented.{consented_execution-runs}
use wizard_w.Security.Guard.Accepts.{harmless, scan-ok_iff, accepted_imports-permitted}
use wizard_w.Security.Guard.Rescan.{only_paths-outside}

abbrev winding : Text
winding = codes "charts/../out.csv"

winding_allowed : is_path_allowed allowed_path_roots winding ≡ true
unfolding is_path_allowed list_beq occurs join split_on
winding_allowed = refl

winding_absolute : is_abs (target allowed_path_roots winding) ≡ true
unfolding target list_beq
winding_absolute = refl

is_path_allowed-inside_example :
    (root : Text) × (contains root allowed_path_roots ≡ true)
    × ((normpath (target allowed_path_roots winding) ≡ rstrip_slashes root)
        ⊎ ((rest : Text) × (normpath (target allowed_path_roots winding)
              ≡ rstrip_slashes root ++ (slash ∷ rest))
            × (contains dot_dot (split_on slash rest) ≡ false)))
is_path_allowed-inside_example =
    is_path_allowed-inside allowed_path_roots winding winding_absolute winding_allowed

-- `import pandas` and `pandas.DataFrame().to_csv("/data/out.csv")`
abbrev export_tree : Node
export_tree = other (
    cons (imports (codes "pandas" ∷ [])) (
      cons
        (call
          (attribute (call (attribute (name (codes "pandas")) (codes "DataFrame")) nil nil)
            (codes "to_csv"))
          (cons (text (codes "/data/out.csv")) nil) nil)
        nil))

abbrev parse_export : Text → Parsed
parse_export code = program export_tree

abbrev some_code : Text
some_code = codes "..."

abbrev workspace : Text
workspace = codes "/workspace"

abbrev granted : List Text
granted = codes "/data" ∷ []

accepted_with_root : (scan parse_export (workspace ∷ granted) some_code).ok ≡ true
unfolding scan is_path_allowed list_beq occurs join split_on banned_modules banned_calls
    banned_names banned_attributes path_arg_functions path_arg_methods
accepted_with_root = refl

imports_pandas : contains (codes "pandas") (imported_modules parse_export some_code) ≡ true
unfolding imported_modules list_beq split_on
imports_pandas = refl

offers_path : only_paths (scan parse_export (workspace ∷ []) some_code) ≡ true
unfolding scan only_paths is_path_allowed list_beq occurs join split_on banned_modules banned_calls
    banned_names banned_attributes path_arg_functions path_arg_methods
offers_path = refl

scan-ok_iff_example : ((scan parse_export (workspace ∷ granted) some_code).ok ≡ true) ↔ (
    (is_nil (strip some_code) ≡ false)
    × (tree : Node) × (parse_export some_code ≡ program tree)
    × (everywhere (harmless (guard_roots (workspace ∷ granted))) tree ≡ true))
scan-ok_iff_example = scan-ok_iff parse_export (workspace ∷ granted) some_code

accepted_imports-permitted_example : contains (codes "pandas") banned_modules ≡ false
accepted_imports-permitted_example =
    accepted_imports-permitted parse_export (workspace ∷ granted) some_code (codes "pandas")
      accepted_with_root imports_pandas

only_paths-outside_example :
    (scan parse_export (workspace ∷ []) some_code).violations
    ≡ map outside (scan parse_export (workspace ∷ []) some_code).paths
only_paths-outside_example = only_paths-outside parse_export (workspace ∷ []) some_code offers_path

abbrev climbing : Text
climbing = codes "../x.csv"

climbing-ne-nil : climbing ≢ []
climbing-ne-nil h = cc

climbing_relative : is_abs (fold_backslashes climbing) ≡ false
unfolding fold_backslashes
climbing_relative = refl

climbing_absolute : is_abs (target (workspace ∷ []) climbing) ≡ true
unfolding target list_beq
climbing_absolute = refl

climbing_blocked : is_path_allowed (workspace ∷ ([] ++ allowed_path_roots)) climbing ≡ false
unfolding is_path_allowed list_beq occurs join split_on
climbing_blocked = refl

granted_relative-blocked_example :
    is_path_allowed (workspace ∷ ([] ++ (granted_root climbing ∷ allowed_path_roots))) climbing
    ≡ false
granted_relative-blocked_example =
    granted_relative-blocked workspace [] allowed_path_roots climbing climbing-ne-nil
      climbing_relative climbing_absolute climbing_blocked

abbrev machine : Machine
machine = record {
  parse = parse_export;
  workspace = workspace;
  runtime = some (λ code. (codes "done", none));
  in_process = λ code. (false, [], none);
}

ran_with_root : contains some_code (execute machine granted some_code).1 ≡ true
unfolding execute guard run_accepted blocked_result run_prepared only_paths repair
    strip_markdown_fences strip lstrip missing_alias_imports healed scan guard_roots starts_with
    is_path_allowed list_beq occurs join split_on banned_modules banned_calls banned_names
    banned_attributes path_arg_functions path_arg_methods
ran_with_root = refl

execute_runs_accepted_example :
    (some_code ≡ (repair parse_export some_code).1)
    × (tree : Node) × (parse_export some_code ≡ program tree)
    × (everywhere (harmless (guard_roots (workspace ∷ granted))) tree ≡ true)
execute_runs_accepted_example =
    execute_runs_accepted machine granted some_code some_code ran_with_root

blocked_first : (execute machine [] some_code).0.blocked_paths ≢ []
unfolding execute guard run_accepted blocked_result run_prepared only_paths repair
    strip_markdown_fences strip lstrip missing_alias_imports healed scan guard_roots starts_with
    is_path_allowed list_beq occurs join split_on banned_modules banned_calls banned_names
    banned_attributes path_arg_functions path_arg_methods
blocked_first h = cc

blocked_plain : all is_plain (execute machine [] some_code).0.blocked_paths ≡ true
unfolding execute guard run_accepted blocked_result run_prepared only_paths repair
    strip_markdown_fences strip lstrip missing_alias_imports healed scan guard_roots starts_with
    is_path_allowed list_beq occurs join split_on banned_modules banned_calls banned_names
    banned_attributes path_arg_functions path_arg_methods normpath fold_backslashes
blocked_plain = refl

root_granted :
    all
      (λ path. contains (granted_root path) granted)
      (execute machine [] some_code).0.blocked_paths
    ≡ true
unfolding execute guard run_accepted blocked_result run_prepared only_paths repair
    strip_markdown_fences strip lstrip missing_alias_imports healed scan guard_roots starts_with
    is_path_allowed list_beq occurs join split_on banned_modules banned_calls banned_names
    banned_attributes path_arg_functions path_arg_methods granted_root
root_granted = refl

consented_execution-runs_example :
    (execute machine ([] ++ granted) some_code).1 ≡ (repair parse_export some_code).1 ∷ []
consented_execution-runs_example =
    consented_execution-runs machine [] granted some_code blocked_first blocked_plain root_granted

abbrev plotting : Text
plotting = codes "plt.plot(pd.x)"

plotting_reads : (repair parse_export plotting).0 ≡ true
unfolding repair
plotting_reads = refl

repair-imports_aliases_example :
    (split_on 10 (repair parse_export plotting).1
      ≡ missing_alias_imports (strip_markdown_fences plotting)
        ++ split_on 10 (strip_markdown_fences plotting))
    × (missing_alias_imports (repair parse_export plotting).1 ≡ [])
repair-imports_aliases_example = repair-imports_aliases parse_export plotting plotting_reads
