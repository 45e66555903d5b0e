-- ===== src/Agent/Permit/Gate.antt =====
-- What the gate guarantees of the actions that pass it.
use wizard_w.Prelude.{
  ◌≡◌, ◌⊎◌, ◌++◌, ◌∷◌, [], String, true, false, some, if◌then◌else◌, arith, string_eq, pair_eq,
}
use text.Mathlib.TextEquality.{eq_iff}
use wizard_w.Config.{Settings}
use wizard_w.Permissions.{
  PermissionState, PermissionCategory, allow, ask, deny, ruling_for, granted, grant,
  category_by_key, Reason, denied_by_profile, declined, unattended,
}
use wizard_w.Permissions as Permissions
use wizard_w.Permissions.Rulings.{always_ask-ruling_for}
use wizard_w.Permissions.Authorize.{granted-grant}
use wizard_w.Agent.State.{RunState, refusal}
use wizard_w.Agent.Permit.{Parked, refuse, permit}

-- The reason that a refusal states.
abbrev pub refusal_cause : Settings → Parked → RunState → PermissionState → String → String → Reason
refusal_cause s parked state p category subject = elim (ruling_for s p category) [
  | deny ↦ denied_by_profile category subject
  | _ ↦
      if state.can_prompt
      then (if (parked p).0.timed_out then Permissions.timed_out else declined category subject)
      else unattended category subject
]

module _ (s : Settings) (parked : Parked) (state : RunState) (p : PermissionState)
    (category subject : String) where
  -- An action passes the gate only if it was granted before, or the profile allows its category, or
  -- the profile says to ask, the transport can ask, and the answer that came back was a yes; and
  -- then its grant is on record. A pass leaves the turn's state alone.
  pub permit_sound :
      (permit s parked state p category subject).0 ≡ true
      → ((granted p category subject ≡ true)
          ⊎ (ruling_for s p category ≡ allow)
          ⊎ ((ruling_for s p category ≡ ask)
              × (state.can_prompt ≡ true)
              × ((parked p).0.approved ≡ true)
              × (granted (permit s parked state p category subject).2 category subject ≡ true)))
        × ((permit s parked state p category subject).1 ≡ state)
  unfolding permit
  permit_sound passed = ground (
    arith,
    granted-grant (parked p).1 category subject category subject,
    eq_iff category category,
    eq_iff subject subject,
  )

  -- A refused action leaves exactly one more warning, with the reason of the refusal (the profile
  -- denies, nobody can be asked, no answer in time, a no), and nothing else of the turn's state is
  -- changed: the phase is the one from before the question.
  pub permit_refusal :
      (permit s parked state p category subject).0 ≡ false
      → (permit s parked state p category subject).1 ≡ record state {
        warnings =
            state.warnings ++ (refusal (refusal_cause s parked state p category subject) ∷ []);
      }
  unfolding permit refuse
  permit_refusal stopped = ground arith

  -- Once an action was approved, the same action passes without a question, whatever the answer to
  -- one would be, and whatever the profile now says.
  permit_asks_once :
      (s' : Settings) (later : Parked) (state' : RunState)
      → ruling_for s p category ≡ ask
      → (permit s parked state p category subject).0 ≡ true
      → let q = (permit s parked state p category subject).2 in
        permit s' later state' q category subject ≡ (true, state', q)
  unfolding permit
  permit_asks_once s' later state' asks passed = ground (
    arith,
    granted-grant (parked p).1 category subject category subject,
    eq_iff category category,
    eq_iff subject subject,
  )

-- No profile and no matrix lets the agent write to a database by itself: such an action passes only
-- after a grant of this session, or an approval that came back from the user.
pub always_ask_needs_answer :
    (s : Settings) (parked : Parked) (state : RunState) (p : PermissionState)
    (category subject : String) (c : PermissionCategory)
    → category_by_key category ≡ some c
    → c.always_ask ≡ true
    → granted p category subject ≡ false
    → (permit s parked state p category subject).0 ≡ true
    → (state.can_prompt ≡ true) × ((parked p).0.approved ≡ true)
unfolding permit
always_ask_needs_answer s parked state p category subject c found strict fresh passed =
    ground (arith, always_ask-ruling_for s p category c found strict)
