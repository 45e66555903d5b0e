-- ===== src/Agent/Budget.antt =====
-- backend/src/config.py: the limits of one turn, by the tier of the model and the mode of the run.
use wizard_w.Prelude.{ℕ, Bool, true, false, ◌||◌}
use Prim.Native.Nat.{min}
use wizard_w.Config.{Settings}

pub data Tier : Type 0 where
  compact balanced full : Tier

pub data RunMode : Type 0 where
  fast auto deep : RunMode

pub record TierBudget : Type 0 where
  pub tier : Tier
  pub iterations : ℕ
  pub deep_iterations : ℕ
  pub max_columns : ℕ
  pub doc_chunks : ℕ
  pub allow_reflection : Bool
  pub allow_verification : Bool
  pub observation_chars : ℕ
  pub allow_decisions : Bool
  pub allow_subagents : Bool
  pub max_subagents : ℕ

unfoldable pub tier_budget : Tier → TierBudget
tier_budget compact = record {
  tier = compact;
  iterations = 3;
  deep_iterations = 5;
  max_columns = 25;
  doc_chunks = 2;
  allow_reflection = false;
  allow_verification = false;
  observation_chars = 1500;
  allow_decisions = false;
  allow_subagents = false;
  max_subagents = 0;
}
tier_budget balanced = record {
  tier = balanced;
  iterations = 8;
  deep_iterations = 14;
  max_columns = 60;
  doc_chunks = 4;
  allow_reflection = true;
  allow_verification = true;
  observation_chars = 4000;
  allow_decisions = true;
  allow_subagents = true;
  max_subagents = 2;
}
tier_budget full = record {
  tier = full;
  iterations = 12;
  deep_iterations = 24;
  max_columns = 120;
  doc_chunks = 6;
  allow_reflection = true;
  allow_verification = true;
  observation_chars = 8000;
  allow_decisions = true;
  allow_subagents = true;
  max_subagents = 3;
}

abbrev pub is_deep : RunMode → Bool
is_deep deep = true
is_deep _ = false

-- `budget_for`, where the tier is resolved.
unfoldable pub budget_for : Settings → Tier → RunMode → TierBudget
unfolding tier_budget
budget_for s tier mode =
    let budget = tier_budget tier in
    let chars = min budget.observation_chars s.agent_observation_chars in
    let steered = record budget {
      observation_chars = chars;
      allow_decisions = budget.allow_decisions || is_deep mode;
    } in
    elim mode [
      | fast ↦ record budget {
        iterations = 1;
        allow_reflection = false;
        allow_verification = false;
        observation_chars = chars;
      }
      | auto ↦ record steered { iterations = min budget.iterations s.agent_max_iterations }
      | deep ↦ record steered { iterations = min budget.deep_iterations s.agent_max_iterations }
    ]
