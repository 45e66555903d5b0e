-- ===== src/Agent/Loop.antt =====
-- `AnalysisOrchestrator._investigate` in backend/src/core/agent/orchestrator.py: the loop that decides
-- and acts, with the menu of actions and the decision that is made without the model. The other
-- actions, the manager's answer (parsed) and the clock are those of a `Turn`, any at all.
pub mod Menu
pub mod Stops
use wizard_w.Prelude.{
  ℕ, zero, suc, ◌+◌, ◌*◌, ◌/◌, ◌-◌, ◌≡◌, Bool, true, false, ◌&&◌, ◌||◌, not, List, [], ◌∷◌, ◌++◌,
  Option, none, some, if◌then◌else◌, ltb, leb, nat_beq, take, drop,
}
use wizard_w.Prelude.Text.{Text, codes, strip}
use wizard_w.Config.{Settings}
use wizard_w.Agent.State.{
  ActionKind, inspect, code, consult, search, reflect, parallel, answer, Decision, Step,
  Investigation, last_successful_code, executed_output, is_empty, deciding, deadline, RunState,
}
use wizard_w.Agent.Budget.{TierBudget}
use wizard_w.Agent.Code.{Effects, has_error, act_code}

pub record Turn : Type 0 where
  pub effects : Effects
  pub act_inspect : Decision → RunState → RunState
  pub act_consult : Decision → RunState → RunState
  pub act_reflect : Decision → RunState → RunState
  pub act_parallel : Decision → RunState → RunState
  -- The manager's decision, from the menu and a default; `none` where the model cannot be reached.
  pub ask : RunState → List ActionKind → ActionKind → Option Decision
  pub elapsed_ms : RunState → ℕ

-- What the menu depends on.
pub record Offer : Type 0 where
  pub has_documents : Bool
  pub any_installed : Bool

-- `allowed.insert(2, kind)`
abbrev pub insert_third : ActionKind → List ActionKind → List ActionKind
insert_third kind menu = take 2 menu ++ (kind ∷ drop 2 menu)

unfoldable pub allowed_actions : Settings → Offer → TierBudget → List ActionKind
allowed_actions s offer budget =
    let plain = inspect ∷ code ∷ answer ∷ [] in
    let reflecting = if budget.allow_reflection then insert_third reflect plain else plain in
    let fanning =
      if s.subagent_enabled && budget.allow_subagents && leb 2 budget.max_subagents
      then insert_third parallel reflecting
      else reflecting in
    if (s.context_docs_enabled && offer.has_documents) || (s.skills_enabled && offer.any_installed)
    then insert_third consult fanning
    else fanning

abbrev pub last_step : List Step → Option Step
last_step [] = none
last_step (x ∷ []) = some x
last_step (x ∷ y ∷ rest) = last_step (y ∷ rest)

abbrev pub decided : ActionKind → Text → Bool → Decision
decided kind goal inferred = record {
  kind = kind;
  goal = goal;
  rationale = [];
  inferred = inferred;
}

-- Whether the last step ran and printed something.
unfoldable pub settled : RunState → Bool
settled s = elim (last_step s.investigation.steps) [
  | none ↦ false
  | some step ↦ step.ok && not (is_empty (strip step.observation))
]

unfoldable pub decide_deterministically : RunState → Decision
unfolding settled
decide_deterministically s =
    if settled s
    then decided answer (codes "Report the result that has already been computed.") true
    else decided code s.instruction true

unfoldable pub out_of_time : Settings → ℕ → Bool
out_of_time s elapsed = ltb 0 s.agent_turn_timeout && leb (s.agent_turn_timeout * 1000) elapsed

-- The part of `_decide` that asks the manager.
unfoldable pub decide_by_model : Turn → List ActionKind → ℕ → RunState → Decision × RunState
unfolding decide_deterministically
decide_by_model t allowed remaining s =
    let s' = record s { phase = deciding } in
    let default = if ltb 0 remaining then (decide_deterministically s').kind else answer in
    elim (t.ask s' allowed default) [
      | none ↦ (decided answer (codes "Report what has been established.") true, s')
      | some d ↦ (if ltb 0 remaining then d else record d { kind = answer }, s')
    ]

unfoldable pub decide : Turn → TierBudget → List ActionKind → ℕ → ℕ → RunState → Decision × RunState
unfolding decide_deterministically decide_by_model
decide t budget allowed iteration remaining s =
    if nat_beq iteration 1
    then (decided code s.instruction false, s)
    else if s.from_cache && not (has_error s)
    then (decided answer (codes "Report the cached result.") false, s)
    else if not budget.allow_decisions
    then (decide_deterministically s, s)
    else decide_by_model t allowed remaining s

-- How an iteration ends: by `break`, by `return`, or with the next one to come.
pub data Next : Type 0 where
  stop leave go_on : RunState → Next

abbrev unless_blocked : RunState → Next
unless_blocked s = if s.blocked then leave s else go_on s

-- The branches on the kind of a decision; `none` is a code action that does not end.
unfoldable pub act : Settings → Turn → Decision → RunState → Option Next
unfolding act_code
act settings t d s = elim d.kind [
  | answer ↦ some (stop s)
  | inspect ↦ some (go_on (t.act_inspect d s))
  | consult ↦ some (go_on (t.act_consult d s))
  | reflect ↦ some (go_on (t.act_reflect d s))
  | parallel ↦ some (unless_blocked (t.act_parallel d s))
  | code ↦ elim (act_code settings t.effects (settings.max_correction_retries + 1) d s) [
    | none ↦ none
    | some r ↦ some (unless_blocked r)
  ]
  | search ↦ elim (act_code settings t.effects (settings.max_correction_retries + 1) d s) [
    | none ↦ none
    | some r ↦ some (unless_blocked r)
  ]
]

abbrev or_text : Text → Text → Text
or_text [] other = other
or_text (c ∷ s) other = c ∷ s

-- What is assigned after the loop.
unfoldable pub wrapped_up : RunState → RunState
unfolding executed_output last_successful_code
wrapped_up s = record s {
  output = or_text (executed_output s.investigation) s.output;
  code_text = or_text (last_successful_code s.investigation) s.code_text;
}

-- The iterations from one on, while some remain.
unfoldable pub iterate :
    Settings → Turn → TierBudget → List ActionKind → ℕ → ℕ → RunState → Option RunState
unfolding out_of_time decide act wrapped_up
iterate settings t budget allowed zero iteration s = some (wrapped_up s)
iterate settings t budget allowed (suc remaining) iteration s =
    if ltb 1 iteration && out_of_time settings (t.elapsed_ms s)
    then some
        (wrapped_up (record s { warnings = s.warnings ++ (deadline (t.elapsed_ms s / 1000) ∷ []) }))
    else (let (d, s') =
          decide t budget allowed iteration remaining (record s { iterations_used = iteration }) in
        elim (act settings t d s') [
          | none ↦ none
          | some next ↦ elim next [
            | stop r ↦ some (wrapped_up r)
            | leave r ↦ some r
            | go_on r ↦ iterate settings t budget allowed remaining (suc iteration) r
          ]
        ])

unfoldable pub investigate : Settings → Turn → Offer → TierBudget → RunState → Option RunState
unfolding allowed_actions iterate
investigate settings t offer budget s =
    iterate settings t budget (allowed_actions settings offer budget) budget.iterations 1 s
