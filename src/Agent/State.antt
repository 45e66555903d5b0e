-- ===== src/Agent/State.antt =====
-- The records of one turn: backend/src/core/agent/actions.py (`Step`, `Investigation`, `Decision`),
-- events.py (`Phase`) and the fields of `RunState` in orchestrator.py that the modelled parts use.
pub mod Notes
use wizard_w.Prelude.{
  ℕ, Bool, true, false, ◌&&◌, List, [], ◌∷◌, ◌++◌, Option, none, if◌then◌else◌, contains, not,
  filter, map,
}
use mathlib.Core.List.{reverse}
use wizard_w.Prelude.Text.{Text, codes, text_eq, strip}
use wizard_w.Prelude.Split.{join}
use wizard_w.Permissions.{Reason}

pub data ActionKind : Type 0 where
  inspect code consult search reflect parallel answer : ActionKind

abbrev pub is_code : ActionKind → Bool
is_code code = true
is_code _ = false

pub record Decision : Type 0 where
  pub kind : ActionKind
  pub goal : Text
  pub rationale : Text
  pub inferred : Bool

pub record Step : Type 0 where
  pub index : ℕ
  pub kind : ActionKind
  pub goal : Text
  pub observation : Text
  pub ok : Bool
  pub code_text : Text

pub record Investigation : Type 0 where
  pub steps : List Step
  pub findings : List Text
  pub assumptions : List Text

abbrev pub empty_investigation : Investigation
empty_investigation = record { steps = []; findings = []; assumptions = [] }

abbrev pub is_empty : Text → Bool
is_empty [] = true
is_empty (_ ∷ _) = false

unfoldable pub record_step : Step → Investigation → Investigation
record_step step i = record i { steps = i.steps ++ (step ∷ []) }

-- The body that `note_finding` and `note_assumption` share.
unfoldable pub noted : Text → List Text → List Text
noted text notes =
    let cleaned = strip text in
    if not (is_empty cleaned) && not (contains cleaned notes)
    then notes ++ (cleaned ∷ [])
    else notes

unfoldable pub note_finding : Text → Investigation → Investigation
unfolding noted
note_finding text i = record i { findings = noted text i.findings }

unfoldable pub note_assumption : Text → Investigation → Investigation
unfolding noted
note_assumption text i = record i { assumptions = noted text i.assumptions }

-- The loop of `last_successful_code`, over the reversed steps.
unfoldable pub first_code : List Step → Text
first_code [] = []
first_code (s ∷ rest) =
    if is_code s.kind && s.ok && not (is_empty s.code_text) then s.code_text else first_code rest

unfoldable pub last_successful_code : Investigation → Text
unfolding first_code
last_successful_code i = first_code (reverse i.steps)

unfoldable pub executed_output : Investigation → Text
unfolding join
executed_output i = join (codes "\n") (map (λ s. s.observation) (filter (λ s. s.ok) i.steps))

pub data Phase : Type 0 where
  idle planning awaiting_approval searching deciding inspecting consulting generating : Phase
  executing correcting reflecting investigating_parallel reviewing verifying answering : Phase
  finished : Phase

-- An entry of `RunState.warnings`: the reason of a refusal, the deadline with the seconds that passed,
-- or another text.
pub data Warning : Type 0 where
  refusal : Reason → Warning
  deadline : ℕ → Warning
  note : Text → Warning

pub record RunState : Type 0 where
  pub instruction : Text
  pub phase : Phase
  pub code_text : Text
  pub output : Text
  pub answer_text : Text
  pub image : Option Text
  pub error : Option Text
  pub retry_count : ℕ
  pub blocked : Bool
  pub investigation : Investigation
  pub iterations_used : ℕ
  pub failed_code : Text
  pub failed_error : Text
  pub from_cache : Bool
  pub warnings : List Warning
  pub can_prompt : Bool

-- A new `RunState`.
unfoldable pub new_run : Text → Bool → RunState
new_run instruction can_prompt = record {
  instruction = instruction;
  phase = idle;
  code_text = [];
  output = [];
  answer_text = [];
  image = none;
  error = none;
  retry_count = 0;
  blocked = false;
  investigation = empty_investigation;
  iterations_used = 0;
  failed_code = [];
  failed_error = [];
  from_cache = false;
  warnings = [];
  can_prompt = can_prompt;
}
