-- ===== src/Agent/Loop/Stops.antt =====
-- When the loop of a turn stops.
use wizard_w.Prelude.{
  ℕ, zero, suc, ◌+◌, ◌≤◌, ◌≡◌, refl, ◌∙◌, true, false, ◌&&◌, not, List, Option, none, some, arith,
  if◌then◌else◌, ltb, Bool-cases, inl, inr,
}
use wizard_w.Config.{Settings}
use wizard_w.Agent.State.{
  ActionKind, inspect, code, consult, search, reflect, parallel, answer, Decision, RunState,
}
use wizard_w.Agent.Budget.{Tier, fast, TierBudget, budget_for}
use wizard_w.Agent.Code.{IsFramed, act_code, has_error}
use wizard_w.Agent.Code.Retries.{act_code_ends}
use wizard_w.Agent.Loop.{
  Turn, Offer, settled, decided, decide_deterministically, decide_by_model, out_of_time, decide,
  Next, stop, leave, go_on, act, wrapped_up, iterate, investigate, allowed_actions,
}

-- The actions leave the number of the iteration alone.
pub record IsFramedTurn (t : Turn) : Type 0 where
  pub effects_framed : IsFramed t.effects
  pub inspect_keeps :
      (d : Decision) (s : RunState) → (t.act_inspect d s).iterations_used ≡ s.iterations_used
  pub consult_keeps :
      (d : Decision) (s : RunState) → (t.act_consult d s).iterations_used ≡ s.iterations_used
  pub reflect_keeps :
      (d : Decision) (s : RunState) → (t.act_reflect d s).iterations_used ≡ s.iterations_used
  pub parallel_keeps :
      (d : Decision) (s : RunState) → (t.act_parallel d s).iterations_used ≡ s.iterations_used

abbrev used : Next → ℕ
used (stop s) = s.iterations_used
used (leave s) = s.iterations_used
used (go_on s) = s.iterations_used

decide-used :
    (t : Turn) (budget : TierBudget) (allowed : List ActionKind) (iteration remaining : ℕ)
    (s : RunState)
    → (decide t budget allowed iteration remaining s).1.iterations_used ≡ s.iterations_used
unfolding decide decide_by_model
decide-used t budget allowed iteration remaining s = ground arith

code_action-ends :
    (settings : Settings) (t : Turn) (d : Decision) (s : RunState)
    → IsFramedTurn t
    → (next : Next) × ((elim (act_code settings t.effects
          (settings.max_correction_retries + 1)
          d
          s) [ none ↦ none | some r ↦ some (if r.blocked then leave r else go_on r) ])
        ≡ some next)
      × (used next ≡ s.iterations_used)
code_action-ends settings t d s v =
    let (r, ended, kept, _) = act_code_ends settings t.effects d s v.effects_framed in
    ((if r.blocked then leave r else go_on r), rw ended refl, ground (arith, kept))

act-ends :
    (settings : Settings) (t : Turn) (d : Decision) (s : RunState)
    → IsFramedTurn t
    → (next : Next) × (act settings t d s ≡ some next) × (used next ≡ s.iterations_used)
unfolding act
act-ends settings t d s v =
    (elim d.kind
      as (λ k.
        (next : Next) × (act settings t (record d { kind = k }) s ≡ some next)
        × (used next ≡ s.iterations_used)) [
          | answer ↦ (stop s, refl, refl)
          | inspect ↦
              (go_on (t.act_inspect (record d { kind = inspect }) s), refl, v.inspect_keeps _ s)
          | consult ↦
              (go_on (t.act_consult (record d { kind = consult }) s), refl, v.consult_keeps _ s)
          | reflect ↦
              (go_on (t.act_reflect (record d { kind = reflect }) s), refl, v.reflect_keeps _ s)
          | parallel ↦ (_, refl, ground (arith, v.parallel_keeps (record d { kind = parallel }) s))
          | code ↦ code_action-ends settings t (record d { kind = code }) s v
          | search ↦ code_action-ends settings t (record d { kind = search }) s v
        ])

iterate-ends :
    (settings : Settings) (t : Turn) (budget : TierBudget) (allowed : List ActionKind) (bound : ℕ)
    (remaining iteration : ℕ) (s : RunState)
    → IsFramedTurn t
    → iteration + remaining ≤ bound + 1
    → s.iterations_used ≤ bound
    → (r : RunState) × (iterate settings t budget allowed remaining iteration s ≡ some r)
      × (r.iterations_used ≤ bound)
unfolding iterate wrapped_up
iterate-ends settings t budget allowed bound zero iteration s v fits low = (_, refl, low)
iterate-ends settings t budget allowed bound (suc remaining) iteration s v fits low =
    elim (Bool-cases (ltb 1 iteration && out_of_time settings (t.elapsed_ms s))) [
      | inl late ↦ rw late (_, refl, low)
      | inr on_time ↦
          let s1 : RunState = record s { iterations_used = iteration } in
          let choice = decide t budget allowed iteration remaining s1 in
          let (next, acted, kept) = act-ends settings t choice.0 choice.1 v in
          let same : used next ≡ iteration =
            kept ∙ decide-used t budget allowed iteration remaining s1 in
          rw (on_time, acted)
            ((elim next
                as (λ n.
                  used n ≡ iteration
                  → (r : RunState) × ((elim n [
                    | stop r' ↦ some (wrapped_up r')
                    | leave r' ↦ some r'
                    | go_on r' ↦ iterate settings t budget allowed remaining (suc iteration) r'
                  ])
                      ≡ some r)
                    × (r.iterations_used ≤ bound)) [
                      | stop r' ↦ λ e. (_, refl, ground (arith, e))
                      | leave r' ↦ λ e. (_, refl, ground (arith, e))
                      | go_on r' ↦ λ e.
                          iterate-ends settings t budget allowed bound remaining (suc iteration) r'
                            v (omega arith) (ground (arith, e))
                    ])
              same)
    ]

-- The loop of a new turn ends, and has used no more iterations than its budget; provided that the
-- actions leave the number of the iteration alone.
pub investigate_ends :
    (settings : Settings) (t : Turn) (offer : Offer) (budget : TierBudget) (s : RunState)
    → IsFramedTurn t
    → s.iterations_used ≡ 0
    → (r : RunState) × (investigate settings t offer budget s ≡ some r)
      × (r.iterations_used ≤ budget.iterations)
unfolding investigate
investigate_ends settings t offer budget s v new =
    iterate-ends settings t budget (allowed_actions settings offer budget) budget.iterations
      budget.iterations 1 s v (omega arith) (omega arith)

-- The first action of every turn.
abbrev pub first_action : Settings → Turn → RunState → Option RunState
first_action settings t s =
    act_code settings t.effects (settings.max_correction_retries + 1)
      (decided code s.instruction false) (record s { iterations_used = 1 })

-- A `fast` run takes one action, a code action for the whole instruction, and no other, whatever the
-- tier: the turn is what that action left, with the answer's material taken from it unless blocked.
fast_run_acts_once :
    (settings : Settings) (t : Turn) (offer : Offer) (tier : Tier) (s r : RunState)
    → first_action settings t s ≡ some r
    → investigate settings t offer (budget_for settings tier fast) s
      ≡ some (if r.blocked then r else wrapped_up r)
unfolding investigate iterate decide act budget_for
fast_run_acts_once settings t offer tier s r acted = rw acted (ground arith)

-- What a turn comes to whose steps, findings and assumptions stay those of a state.
abbrev pub KeepsWork : Option RunState → RunState → Type 0
KeepsWork result r = (out : RunState) × (result ≡ some out) × (out.investigation ≡ r.investigation)

module _ (settings : Settings) (t : Turn) (budget : TierBudget) (allowed : List ActionKind)
    (steered : budget.allow_decisions ≡ false) where
  second_decision :
      (remaining : ℕ) (s : RunState)
      → settled s ≡ true
      → act settings t
          (decide t budget allowed 2 remaining s).0
          (decide t budget allowed 2 remaining s).1
        ≡ some (stop s)
  unfolding act decide decide_deterministically
  second_decision remaining s done = elim (Bool-cases (s.from_cache && not (has_error s))) [
    | inl cached ↦ rw cached refl
    | inr fresh ↦ rw (fresh, steered, done) refl
  ]

  second_iteration :
      (remaining : ℕ) (r : RunState)
      → settled r ≡ true
      → KeepsWork (iterate settings t budget allowed remaining 2 r) r
  unfolding iterate settled wrapped_up
  second_iteration zero r done = (_, refl, refl)
  second_iteration (suc remaining) r done =
      elim (Bool-cases (out_of_time settings (t.elapsed_ms r))) [
        | inl late ↦ rw late (_, refl, refl)
        | inr on_time ↦
            rw (on_time, second_decision remaining (record r { iterations_used = 2 }) done)
              (_, refl, refl)
      ]

  first_act :
      (s r : RunState)
      → first_action settings t s ≡ some r
      → act settings t (decided code s.instruction false) (record s { iterations_used = 1 })
        ≡ some (if r.blocked then leave r else go_on r)
  unfolding act
  first_act s r acted = rw (act, acted) refl

  first_iteration :
      (iterations : ℕ) (s r : RunState)
      → first_action settings t s ≡ some r
      → settled r ≡ true
      → 1 ≤ iterations
      → KeepsWork (iterate settings t budget allowed iterations 1 s) r
  unfolding iterate decide
  first_iteration zero s r acted done enough = absurd (omega arith)
  first_iteration (suc remaining) s r acted done enough = elim (Bool-cases r.blocked) [
    | inl blocked ↦
        let left : act settings t (decided code s.instruction false)
              (record s { iterations_used = 1 })
            ≡ some (leave r) =
          ground (arith, first_act s r acted) in
        rw left (r, refl, refl)
    | inr free ↦
        let next : act settings t (decided code s.instruction false)
              (record s { iterations_used = 1 })
            ≡ some (go_on r) =
          ground (arith, first_act s r acted) in
        rw next (second_iteration remaining r done)
  ]

-- Without decisions by the model (the compact tier outside a deep run), a turn whose first action ran
-- and printed something takes no further action, however many of its iterations, at least one, are
-- left: its steps, findings and assumptions are those that the action left.
pub settled_run_stops :
    (settings : Settings) (t : Turn) (offer : Offer) (budget : TierBudget) (s r : RunState)
    → budget.allow_decisions ≡ false
    → first_action settings t s ≡ some r
    → settled r ≡ true
    → 1 ≤ budget.iterations
    → KeepsWork (investigate settings t offer budget s) r
unfolding investigate
settled_run_stops settings t offer budget s r steered acted done enough =
    first_iteration settings t budget (allowed_actions settings offer budget) steered
      budget.iterations s r acted done enough
