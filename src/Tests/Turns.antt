-- ===== src/Tests/Turns.antt =====
-- A turn with a worker whose code passes at once.
use wizard_w.Prelude.{◌≡◌, ◌≤◌, refl, true, false, List, [], ◌∷◌, none, some, arith}
use wizard_w.Prelude.Text.{codes, text_eq, strip, lstrip, is_space}
use wizard_w.Agent.State.{Decision, RunState, code, record_step}
use wizard_w.Agent.State.Notes.{Note, finding, assumption}
use wizard_w.Agent.Budget.{compact, tier_budget}
use wizard_w.Agent.Code.{
  Result, Effects, IsFramed, act_code, rounds, round, judged, executed, passed, recorded, noting,
}
use wizard_w.Agent.Code.Retries.{Ending, act_code_ends}
use wizard_w.Agent.Loop.{Turn, Offer, decided, settled, investigate}
use wizard_w.Agent.Loop.Stops.{
  IsFramedTurn, first_action, KeepsWork, investigate_ends, settled_run_stops,
}
use wizard_w.Tests.Inputs.{settings, run}

abbrev printed : Result
printed = record {
  output = codes "42";
  image = none;
  ok = true;
  blocked = false;
  blocked_paths = [];
  warnings = [];
}

abbrev worker : Effects
worker = record {
  generate = λ goal s. record s { code_text = codes "print(42)" };
  permit_install = λ text s. (true, s);
  permit_paths = λ paths s. (true, s);
  execute = λ s. (printed, s);
  assumptions_from_code = λ text. [];
  sentence = λ w. codes "Declined.";
}

worker-IsFramed : IsFramed worker
worker-IsFramed = record {
  generate_keeps = λ goal s. refl;
  install_keeps = λ text s. refl;
  paths_keep = λ paths s. refl;
  execute_keeps = λ s. refl;
}

abbrev turn : Turn
turn = record {
  effects = worker;
  act_inspect = λ d s. s;
  act_consult = λ d s. s;
  act_reflect = λ d s. s;
  act_parallel = λ d s. s;
  ask = λ s menu default. none;
  elapsed_ms = λ s. 0;
}

turn-IsFramedTurn : IsFramedTurn turn
turn-IsFramedTurn = record {
  effects_framed = worker-IsFramed;
  inspect_keeps = λ d s. refl;
  consult_keeps = λ d s. refl;
  reflect_keeps = λ d s. refl;
  parallel_keeps = λ d s. refl;
}

abbrev offer : Offer
offer = record { has_documents = true; any_installed = false }

abbrev plot : Decision
plot = decided code (codes "Plot it") false

act_code_ends_example :
    (r : RunState) × (act_code settings worker 3 plot run ≡ some r)
    × (r.iterations_used ≡ 0)
    × Ending run r
act_code_ends_example = act_code_ends settings worker plot run worker-IsFramed

investigate_ends_example :
    (r : RunState) × (investigate settings turn offer (tier_budget compact) run ≡ some r)
    × (r.iterations_used ≤ (tier_budget compact).iterations)
investigate_ends_example =
    investigate_ends settings turn offer (tier_budget compact) run turn-IsFramedTurn refl

-- What the first action of the turn leaves.
abbrev after_code : RunState
after_code = record run {
  code_text = codes "print(42)";
  output = codes "42";
  iterations_used = 1;
  investigation = record {
    steps =
        record {
          index = 1;
          kind = code;
          goal = codes "Plot sales by month";
          observation = codes "42";
          ok = true;
          code_text = codes "print(42)";
        }
        ∷ [];
    findings = [];
    assumptions = [];
  };
}

acted : first_action settings turn run ≡ some after_code
unfolding act_code rounds round judged executed passed recorded noting record_step
acted = refl

it_settled : settled after_code ≡ true
unfolding settled strip lstrip is_space
it_settled = refl

settled_run_stops_example :
    KeepsWork (investigate settings turn offer (tier_budget compact) run) after_code
settled_run_stops_example =
    settled_run_stops settings turn offer (tier_budget compact) run after_code
      (unfold tier_budget in refl) acted it_settled (unfold tier_budget in omega arith)

abbrev notes : List Note
notes = finding (codes " Sales rose ") ∷ finding (codes "Sales rose") ∷ assumption (codes "  ") ∷ []
