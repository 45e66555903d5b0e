-- ===== src/Agent/Code/Retries.antt =====
-- A code action ends within its retries, and leaves one step behind.
use wizard_w.Prelude.{
  ℕ, zero, suc, ◌+◌, ◌≤◌, ◌≡◌, ◌⊎◌, inl, inr, refl, ap, ◌∙◌, Bool, true, ◌&&◌, List, [], ◌∷◌, none,
  some, arith, ltb, length, length-append, Bool-cases,
}
use wizard_w.Prelude.Text.{Text}
use wizard_w.Config.{Settings}
use wizard_w.Agent.State.{Decision, Investigation, record_step, note_assumption, RunState, is_empty}
use wizard_w.Agent.Code.{
  Result, Effects, kept, IsFramed, has_error, recorded, noting, Round, finished, again, passed,
  executed, judged, failed, round, rounds, act_code,
}

-- How often a run may still be corrected, and how many steps it has recorded.
abbrev steps_of : RunState → ℕ
steps_of s = length s.investigation.steps

noting-steps : (ns : List Text) (i : Investigation) → (noting ns i).steps ≡ i.steps
unfolding noting note_assumption
noting-steps [] i = refl
noting-steps (n ∷ ns) i = noting-steps ns (note_assumption n i)

-- What a round comes to, from a state with some retries and steps: the loop ends with one step
-- more or blocked, or goes on with one retry more and no step.
abbrev pub Ending : RunState → RunState → Type 0
Ending s r =
    ((steps_of r ≡ steps_of s + 1) × (r.blocked ≡ s.blocked))
    ⊎ ((steps_of r ≡ steps_of s) × (r.blocked ≡ true))

abbrev Outcome : Settings → RunState → Round → Type 0
Outcome settings s (finished r) = (r.iterations_used ≡ s.iterations_used) × Ending s r
Outcome settings s (again r) =
    (kept r ≡ (s.investigation, (s.iterations_used, (s.retry_count + 1, s.blocked))))
    × (r.retry_count ≤ settings.max_correction_retries)

recorded-steps :
    (goal observation text : Text) (ok : Bool) (s : RunState)
    → steps_of (recorded goal observation ok text s) ≡ steps_of s + 1
unfolding recorded record_step
recorded-steps goal observation text ok s = length-append s.investigation.steps _

module _ (settings : Settings) (e : Effects) (framed : IsFramed e) (goal : Text) where
  executed-kept :
      (s t : RunState) (result : Result)
      → kept t ≡ kept s
      → kept (executed e (result, t)).1 ≡ kept s
  unfolding executed
  executed-kept s t result h = ground (
    arith,
    framed.paths_keep result.blocked_paths t,
    framed.execute_keeps (e.permit_paths result.blocked_paths t).1,
  )

  passed-kept :
      (t : RunState) (result : Result)
      → ((passed e goal result t).iterations_used ≡ t.iterations_used)
        × ((passed e goal result t).blocked ≡ t.blocked)
        × (steps_of (passed e goal result t) ≡ steps_of t + 1)
  unfolding passed recorded record_step
  passed-kept t result = (
    refl,
    refl,
    length-append (noting (e.assumptions_from_code t.code_text) t.investigation).steps _
        ∙ ap (λ ss. length ss + 1)
            (noting-steps (e.assumptions_from_code t.code_text) t.investigation),
  )

  failed-Outcome :
      (s t : RunState) (result : Result)
      → kept t ≡ kept s
      → Outcome settings s (failed settings goal result t)
  unfolding failed recorded record_step
  failed-Outcome s t result h =
      elim (Bool-cases (ltb settings.max_correction_retries (t.retry_count + 1))) [
        | inl over ↦
            rw over (
              ground arith,
              inl (length-append t.investigation.steps _ ∙ ground arith, ground arith),
            )
        | inr within ↦ rw within (ground arith, ground arith)
      ]

  judged-Outcome :
      (s t : RunState) (result : Result)
      → kept t ≡ kept s
      → Outcome settings s (judged settings e goal (result, t))
  unfolding judged
  judged-Outcome s t result h = elim (Bool-cases result.blocked) [
    | inl blocked ↦ rw blocked (ground arith, inr (ground arith, refl))
    | inr free ↦ elim (Bool-cases result.ok) [
      | inl ok ↦
          let (i, b, n) = passed-kept t result in
          rw (free, ok) (ground (arith, i), inl (ground (arith, n), ground (arith, b)))
      | inr bad ↦ rw (free, bad) (failed-Outcome s t result h)
    ]
  ]

  finished-Outcome :
      (s t : RunState) (observation text : Text) (ok : Bool)
      → kept t ≡ kept s
      → Outcome settings s (finished (recorded goal observation ok text t))
  unfolding recorded record_step
  finished-Outcome s t observation text ok h =
      (ground arith, inl (length-append t.investigation.steps _ ∙ ground arith, ground arith))

  round-Outcome : (s : RunState) → Outcome settings s (round settings e goal s)
  unfolding round
  round-Outcome s =
      let s' = e.generate goal s in
      let h : kept s' ≡ kept s = framed.generate_keeps goal s in
      let s'' = (e.permit_install s'.code_text s').1 in
      let h' : kept s'' ≡ kept s = framed.install_keeps s'.code_text s' ∙ h in
      elim (Bool-cases (has_error s' && is_empty s'.code_text)) [
        | inl lost ↦ rw lost (finished-Outcome s s' _ _ _ h)
        | inr written ↦ elim (Bool-cases (e.permit_install s'.code_text s').0) [
          | inl permitted ↦
              rw (written, permitted)
                (judged-Outcome s (executed e (e.execute s'')).1 (executed e (e.execute s'')).0 (
                  executed-kept s (e.execute s'').1 (e.execute s'').0
                    (framed.execute_keeps s'' ∙ h')))
          | inr refused ↦ rw (written, refused) (finished-Outcome s s'' _ _ _ h')
        ]
      ]

  rounds-end :
      (fuel : ℕ) (s : RunState)
      → settings.max_correction_retries + 1 ≤ fuel + s.retry_count
      → s.retry_count ≤ settings.max_correction_retries
      → (r : RunState) × (rounds settings e goal fuel s ≡ some r)
        × (r.iterations_used ≡ s.iterations_used)
        × Ending s r
  unfolding rounds
  rounds-end zero s enough room = absurd (omega arith)
  rounds-end (suc fuel) s enough room =
      (elim (round settings e goal s)
          as (λ x.
            Outcome settings s x
            → (r : RunState) × (elim x [
              | finished r' ↦ some r'
              | again r' ↦ rounds settings e goal fuel r'
            ]
                ≡ some r)
              × (r.iterations_used ≡ s.iterations_used)
              × Ending s r) [
                | finished r ↦ λ o. (r, refl, o.0, o.1)
                | again r ↦ λ o.
                    let (r', ended, iteration, ending) =
                      rounds-end fuel r (ground (arith, o.0)) o.1 in
                    (r', ended, ground (arith, iteration, o.0), ground (arith, ending, o.0))
              ])
        (round-Outcome s)

-- With fuel for the first attempt and `MAX_CORRECTION_RETRIES` corrections, a code action ends. It
-- leaves exactly one step more in the investigation, or none and the turn blocked, and the number of
-- the iteration as it was; provided that the methods that it calls leave these fields alone.
pub act_code_ends :
    (settings : Settings) (e : Effects) (decision : Decision) (s : RunState)
    → IsFramed e
    → (r : RunState) × (act_code settings e (settings.max_correction_retries + 1) decision s
        ≡ some r)
      × (r.iterations_used ≡ s.iterations_used)
      × Ending s r
unfolding act_code
act_code_ends settings e decision s framed =
    rounds-end settings e framed _ (settings.max_correction_retries + 1)
      (record s { error = none; retry_count = 0 }) (omega arith) (omega arith)
