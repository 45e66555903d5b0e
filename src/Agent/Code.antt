-- ===== src/Agent/Code.antt =====
-- `AnalysisOrchestrator._act_code` in backend/src/core/agent/orchestrator.py: one code action, which
-- corrects and runs the code until it passes, is refused or has failed too often. The methods that
-- it calls (`_generate`, `_permit_install`, `_permit_paths`, `_execute`, `assumptions_from_code`, and
-- the wording of a warning) are those of an `Effects`, any at all; the events are left out.
pub mod Retries
use wizard_w.Prelude.{
  ℕ, zero, suc, ◌+◌, ◌≡◌, Bool, true, false, ◌&&◌, not, List, [], ◌∷◌, ◌++◌, Option, none, some,
  map, if◌then◌else◌, ltb,
}
use wizard_w.Prelude.Text.{Text, codes}
use wizard_w.Config.{Settings}
use wizard_w.Agent.State.{
  code, correcting, Decision, Step, Investigation, record_step, note_assumption, is_empty, Warning,
  note, RunState,
}

-- The fields of `ExecutionResult` that `_act_code` reads.
pub record Result : Type 0 where
  pub output : Text
  pub image : Option Text
  pub ok : Bool
  pub blocked : Bool
  pub blocked_paths : List Text
  pub warnings : List Text

pub record Effects : Type 0 where
  pub generate : Text → RunState → RunState
  pub permit_install : Text → RunState → Bool × RunState
  pub permit_paths : List Text → RunState → Bool × RunState
  pub execute : RunState → Result × RunState
  pub assumptions_from_code : Text → List Text
  pub sentence : Warning → Text

-- What an investigation holds, the index of the iteration, the number of retries, and the flag that
-- ends the turn: the fields that only the loops of the agent write.
abbrev pub kept : RunState → Investigation × (ℕ × (ℕ × Bool))
kept s = (s.investigation, (s.iterations_used, (s.retry_count, s.blocked)))

pub record IsFramed (e : Effects) : Type 0 where
  pub generate_keeps : (goal : Text) (s : RunState) → kept (e.generate goal s) ≡ kept s
  pub install_keeps : (text : Text) (s : RunState) → kept (e.permit_install text s).1 ≡ kept s
  pub paths_keep : (paths : List Text) (s : RunState) → kept (e.permit_paths paths s).1 ≡ kept s
  pub execute_keeps : (s : RunState) → kept (e.execute s).1 ≡ kept s

abbrev pub has_error : RunState → Bool
has_error s = elim s.error [ none ↦ false | some message ↦ not (is_empty message) ]

abbrev pub is_nil : List Text → Bool
is_nil [] = true
is_nil (x ∷ xs) = false

abbrev or_text : Text → Text → Text
or_text [] other = other
or_text (c ∷ s) other = c ∷ s

abbrev or_image : Option Text → Option Text → Option Text
or_image (some (c ∷ s)) other = some (c ∷ s)
or_image _ other = other

-- A step of the current iteration, recorded.
unfoldable pub recorded : Text → Text → Bool → Text → RunState → RunState
unfolding record_step
recorded goal observation ok text s = record s {
  investigation =
      record_step
        (record {
          index = s.iterations_used;
          kind = code;
          goal = goal;
          observation = observation;
          ok = ok;
          code_text = text;
        })
        s.investigation;
}

unfoldable pub last_warning : (Warning → Text) → List Warning → Text
last_warning sentence [] = codes "Permission declined."
last_warning sentence (w ∷ []) = sentence w
last_warning sentence (w ∷ x ∷ ws) = last_warning sentence (x ∷ ws)

unfoldable pub noting : List Text → Investigation → Investigation
unfolding note_assumption
noting [] i = i
noting (n ∷ ns) i = noting ns (note_assumption n i)

-- What the body of the `while` loop comes to: a `return`, or another round.
pub data Round : Type 0 where
  finished again : RunState → Round

-- The branch of a result that is `ok`.
unfoldable pub passed : Effects → Text → Result → RunState → RunState
unfolding recorded noting
passed e goal result s =
    let s' = record s {
      error = none;
      output = result.output;
      image = or_image result.image s.image;
      warnings = s.warnings ++ map note result.warnings;
      investigation = noting (e.assumptions_from_code s.code_text) s.investigation;
    } in
    recorded goal result.output true s.code_text s'

-- The part after the first `_execute`, with the second one where a path was allowed.
unfoldable pub executed : Effects → Result × RunState → Result × RunState
executed e (result, s) =
    if result.blocked && not (is_nil result.blocked_paths)
    then (let (allowed, s') = e.permit_paths result.blocked_paths s in
        if allowed then e.execute s' else (result, s'))
    else (result, s)

-- The branch of a result that is neither `ok` nor blocked.
unfoldable pub failed : Settings → Text → Result → RunState → Round
unfolding recorded
failed settings goal result s =
    let s' = record s {
      failed_code = s.code_text;
      failed_error = result.output;
      error = some result.output;
      retry_count = s.retry_count + 1;
      from_cache = false;
    } in
    if ltb settings.max_correction_retries s'.retry_count
    then finished
        (recorded goal result.output false s'.code_text (record s' { output = result.output }))
    else again (record s' { phase = correcting })

unfoldable pub judged : Settings → Effects → Text → Result × RunState → Round
unfolding passed failed
judged settings e goal (result, s) =
    if result.blocked
    then finished (record s { blocked = true; output = result.output; answer_text = result.output })
    else if result.ok
    then finished (passed e goal result s)
    else failed settings goal result s

-- One round of the `while` loop.
unfoldable pub round : Settings → Effects → Text → RunState → Round
unfolding executed judged recorded last_warning
round settings e goal s =
    let s' = e.generate goal s in
    if has_error s' && is_empty s'.code_text
    then finished (recorded goal (elim s'.error [ none ↦ [] | some message ↦ message ]) false [] s')
    else (let (permitted, s'') = e.permit_install s'.code_text s' in
        if permitted
        then judged settings e goal (executed e (e.execute s''))
        else finished
            (recorded goal (last_warning e.sentence s''.warnings) false s''.code_text s''))

-- The loop, on fuel; `none` is a loop that has not ended yet.
unfoldable pub rounds : Settings → Effects → Text → ℕ → RunState → Option RunState
unfolding round
rounds settings e goal zero s = none
rounds settings e goal (suc fuel) s = elim (round settings e goal s) [
  | finished r ↦ some r
  | again r ↦ rounds settings e goal fuel r
]

unfoldable pub act_code : Settings → Effects → ℕ → Decision → RunState → Option RunState
unfolding rounds
act_code settings e fuel decision s =
    rounds settings e (or_text decision.goal s.instruction) fuel
      (record s { error = none; retry_count = 0 })
