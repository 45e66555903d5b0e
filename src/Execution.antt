-- ===== src/Execution.antt =====
-- backend/src/core/execution.py, `CodeExecutor.guard` and `execute`: generated code is repaired and
-- scanned, and only then handed to a runtime. The workspace of the session, Python's parser, the
-- runtimes and the interpreter in this process are given; an execution lists the code that it ran.
pub mod Runs
pub mod Consented
use wizard_w.Prelude.{
  Bool, true, false, not, List, [], ◌∷◌, ◌++◌, Option, none, some, if◌then◌else◌,
}
use wizard_w.Prelude.Text.{Text, codes, text_eq, starts_with}
use wizard_w.Security.Guard.{Parsed, GuardReason, GuardVerdict, scan, only_paths}
use wizard_w.Security.Repair.{repair}

-- What an execution reports.
pub data Output : Type 0 where
  unreadable : GuardReason → Output
  blocked_by : GuardReason → Output
  printed : Text → Output

pub record ExecutionResult : Type 0 where
  pub output : Output
  pub code_text : Text
  pub image : Option Text
  pub ok : Bool
  pub blocked : Bool
  pub blocked_paths : List Text
  pub retryable_error : Bool

pub record Machine : Type 0 where
  pub parse : Text → Parsed
  pub workspace : Text
  -- the runtime of the session, where one can be had
  pub runtime : Option (Text → Text × Option Text)
  -- `exec` in this process: whether it raised, what it printed, and a chart
  pub in_process : Text → Bool × Text × Option Text

unfoldable pub guard : Machine → List Text → Text → GuardVerdict × Text
guard m allowed_roots code =
    let repaired = (repair m.parse code).1 in
    (scan m.parse (m.workspace ∷ allowed_roots) repaired, repaired)

abbrev pub error_prefix : Text
error_prefix = codes "Error executing code:"

unfoldable pub blocked_result : GuardVerdict → Text → ExecutionResult
blocked_result verdict prepared =
    if verdict.syntax_error
    then record {
      output = unreadable verdict.reason;
      code_text = prepared;
      image = none;
      ok = false;
      blocked = false;
      blocked_paths = [];
      retryable_error = true;
    }
    else record {
      output = blocked_by verdict.reason;
      code_text = prepared;
      image = none;
      ok = false;
      blocked = true;
      blocked_paths = if only_paths verdict then verdict.paths else [];
      retryable_error = false;
    }

abbrev pub finished : Text → Text → Option Text → Bool → ExecutionResult
finished prepared output image failed = record {
  output = printed output;
  code_text = prepared;
  image = image;
  ok = not failed;
  blocked = false;
  blocked_paths = [];
  retryable_error = failed;
}

unfoldable pub run_prepared : Machine → Text → ExecutionResult
run_prepared m prepared = elim m.runtime [
  | some run_code ↦
      let (output, image) = run_code prepared in
      finished prepared output image (starts_with error_prefix output)
  | none ↦
      let (raised, output, image) = m.in_process prepared in finished prepared output image raised
]

-- The result, and the code that was run.
unfoldable pub run_accepted : Machine → GuardVerdict → Text → ExecutionResult × List Text
run_accepted m verdict prepared =
    if verdict.ok
    then (run_prepared m prepared, prepared ∷ [])
    else (blocked_result verdict prepared, [])

unfoldable pub execute : Machine → List Text → Text → ExecutionResult × List Text
execute m allowed_roots code =
    let (verdict, prepared) = guard m allowed_roots code in run_accepted m verdict prepared
