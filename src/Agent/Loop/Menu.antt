-- ===== src/Agent/Loop/Menu.antt =====
-- Which actions a turn offers.
use wizard_w.Prelude.{◌≡◌, Bool, true, false, ◌&&◌, ◌||◌, arith, leb, any}
use wizard_w.Config.{Settings}
use wizard_w.Agent.State.{ActionKind, inspect, code, consult, search, reflect, parallel, answer}
use wizard_w.Agent.Budget.{TierBudget}
use wizard_w.Agent.Loop.{Offer, allowed_actions}

abbrev pub same_kind : ActionKind → ActionKind → Bool
same_kind inspect inspect = true
same_kind code code = true
same_kind consult consult = true
same_kind search search = true
same_kind reflect reflect = true
same_kind parallel parallel = true
same_kind answer answer = true
same_kind _ _ = false

-- When an action can succeed.
abbrev pub is_useful : Settings → Offer → TierBudget → ActionKind → Bool
is_useful s offer budget inspect = true
is_useful s offer budget code = true
is_useful s offer budget answer = true
is_useful s offer budget search = false
is_useful s offer budget reflect = budget.allow_reflection
is_useful s offer budget parallel =
    s.subagent_enabled && budget.allow_subagents && leb 2 budget.max_subagents
is_useful s offer budget consult =
    (s.context_docs_enabled && offer.has_documents) || (s.skills_enabled && offer.any_installed)

-- The menu offers inspecting, coding and answering always, a web search never, and reflecting,
-- fanning out and consulting exactly when the settings, the budget and the session allow them.
allowed_actions-offered :
    (s : Settings) (offer : Offer) (budget : TierBudget) (kind : ActionKind)
    → any (same_kind kind) (allowed_actions s offer budget) ≡ is_useful s offer budget kind
unfolding allowed_actions
allowed_actions-offered s offer budget inspect = ground arith
allowed_actions-offered s offer budget code = ground arith
allowed_actions-offered s offer budget answer = ground arith
allowed_actions-offered s offer budget search = ground arith
allowed_actions-offered s offer budget reflect = ground arith
allowed_actions-offered s offer budget parallel = ground arith
allowed_actions-offered s offer budget consult = ground arith
