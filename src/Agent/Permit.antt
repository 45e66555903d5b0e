-- ===== src/Agent/Permit.antt =====
-- `AnalysisOrchestrator._permit` in backend/src/core/agent/orchestrator.py: the gate that every
-- action chosen by the agent goes through.
pub mod Gate
use wizard_w.Prelude.{String, Bool, true, false, List, [], ◌∷◌, ◌++◌, if◌then◌else◌}
use wizard_w.Config.{Settings}
use wizard_w.Permissions.{
  allow, ask, deny, PermissionState, Reason, denied_by_profile, declined, unattended, ruling_for,
  granted, grant,
}
use wizard_w.Permissions as Permissions
use wizard_w.Consent.{ConsentDecision}
use wizard_w.Agent.State.{RunState, awaiting_approval, refusal}

-- What the rest of the program does while the turn is parked: the decision that comes back, and the
-- session's permissions as other tasks left them.
abbrev pub Parked : Type 0
Parked = PermissionState → ConsentDecision × PermissionState

unfoldable pub refuse : Reason → RunState → RunState
refuse reason state = record state { warnings = state.warnings ++ (refusal reason ∷ []) }

-- The part after the question came back, with the phase restored.
unfoldable pub settle :
    String
    → String
    → RunState
    → ConsentDecision
    → PermissionState
    → Bool × RunState × PermissionState
unfolding refuse
settle category subject state decision p =
    if decision.approved then (true, state, grant p category subject) else (
      false,
      refuse (if decision.timed_out then Permissions.timed_out else declined category subject)
          state,
      p,
    )

unfoldable pub permit :
    Settings
    → Parked
    → RunState
    → PermissionState
    → String
    → String
    → Bool × RunState × PermissionState
unfolding settle
permit s parked state p category subject =
    if granted p category subject then (true, state, p) else elim (ruling_for s p category) [
      | allow ↦ (true, state, p)
      | deny ↦ (false, refuse (denied_by_profile category subject) state, p)
      | ask ↦
          if state.can_prompt
          then (let resume_phase = state.phase in
              let suspended = record state { phase = awaiting_approval } in
              let (decision, p') = parked p in
              settle category subject (record suspended { phase = resume_phase }) decision p')
          else (false, refuse (unattended category subject) state, p)
    ]
