-- ===== src/Infra/Queue/Sound.antt =====
-- Every step of the queue keeps the invariant of `Steps`.
use mathlib.Core.Path.{subst}
use wizard_w.Prelude.{
  ◌⊎◌, ℕ, ◌-◌, ◌<◌, ◌≡◌, refl, sym, String, Bool, true, false, not, Option, none, some, arith,
  string_eq, Option-cases, inl, inr,
}
use wizard_w.Prelude.Text.{Text}
use wizard_w.Prelude.Dict.{lookup, insert, erase}
use wizard_w.Infra.Queue.{
  running, Job, queued, working, ended, Task, JobQueue, submit, begin, Outcome, concluded, conclude,
  interrupt_waiting, cancel, prune, is_stale,
}
use wizard_w.Prelude.Totals.{total-filter, lookup-filter, filter-UniqueKeys}
use wizard_w.Infra.Queue.Steps.{
  is_running, working_tasks, Step, submitting, beginning, concluding, interrupting, cancelling,
  pruning, Reach, here, next, IsSound,
}
use wizard_w.Infra.Queue.Writes.{
  is_terminal-concluded, Stage-cases, write_task-IsSound, write_both-IsSound, add_both-IsSound,
  conclude_both-IsSound, job_of_task,
}

submit-IsSound :
    (q : JobQueue) (id : String) (kind : Text) (session : Option String) (now : ℕ)
    → IsSound q
    → lookup id q.jobs ≡ none
    → lookup id q.tasks ≡ none
    → IsSound (submit id kind session now q)
unfolding submit
submit-IsSound q id kind session now v fresh free =
    add_both-IsSound q v id _ _ free fresh refl refl refl

begin-IsSound :
    (q : JobQueue) (id : String) (now : ℕ)
    → IsSound q
    → lookup id q.tasks ≡ some (record { stage = queued; cancel_requested = false })
    → working_tasks q < q.max_workers
    → IsSound (begin id now q)
begin-IsSound q id now v found room =
    let (j, job) = job_of_task q v id _ found in
    let t' : Task = record { stage = working; cancel_requested = false } in
    let j' : Job = record j { status = running; started_at = some now } in
    let made : begin id now q
        ≡ record q { tasks = insert id t' q.tasks; jobs = insert id j' q.jobs } =
      unfold begin in ground arith in
    subst (λ r. IsSound r) (sym made)
      (write_both-IsSound q v id _ t' j j' found job refl (ground (arith, v.agree id))
        (omega arith))

conclude-IsSound :
    (q : JobQueue) (id : String) (outcome : Outcome) (now : ℕ) (requested : Bool)
    → IsSound q
    → lookup id q.tasks ≡ some (record { stage = working; cancel_requested = requested })
    → IsSound (conclude id outcome now q)
conclude-IsSound q id outcome now requested v found =
    let (j, job) = job_of_task q v id _ found in
    let j' : Job = concluded outcome now j in
    let made : conclude id outcome now q
        ≡ record q { tasks = erase id q.tasks; jobs = insert id j' q.jobs } =
      unfold conclude in ground arith in
    subst (λ r. IsSound r) (sym made)
      (conclude_both-IsSound q v id _ j j' found job refl (is_terminal-concluded outcome now j))

interrupt_waiting-IsSound :
    (q : JobQueue) (id : String)
    → IsSound q
    → lookup id q.tasks ≡ some (record { stage = queued; cancel_requested = true })
    → IsSound (interrupt_waiting id q)
unfolding interrupt_waiting
interrupt_waiting-IsSound q id v found =
    let (j, job) = job_of_task q v id _ found in
    write_task-IsSound q v id _ (record { stage = ended; cancel_requested = true }) j found job
      (ground (arith, v.agree id)) refl

-- `cancel` only marks a task.
pub cancel-eq :
    (q : JobQueue) (id : String)
    → ((cancel id q).1 ≡ q)
      ⊎ ((t : Task) × (lookup id q.tasks ≡ some t)
          × ((cancel id q).1
              ≡ record q { tasks = insert id (record t { cancel_requested = true }) q.tasks }))
unfolding cancel
cancel-eq q id = elim (Option-cases (lookup id q.tasks)) [
  | inl absent ↦ inl (ground arith)
  | inr (t, found) ↦ elim (Stage-cases t.stage) [
    | inl over ↦ inl (ground arith)
    | inr live ↦ inr (t, found, ground arith)
  ]
]

cancel-IsSound : (q : JobQueue) (id : String) → IsSound q → IsSound (cancel id q).1
cancel-IsSound q id v = elim (cancel-eq q id) [
  | inl same ↦ subst (λ r. IsSound r) (sym same) v
  | inr (t, found, marked) ↦
      let (j, job) = job_of_task q v id t found in
      subst (λ r. IsSound r) (sym marked)
        (write_task-IsSound q v id t (record t { cancel_requested = true }) j found job
          (ground (arith, v.agree id)) refl)
]

prune-IsSound : (q : JobQueue) (ttl now : ℕ) → IsSound q → IsSound (prune ttl now q).1
unfolding prune
prune-IsSound q ttl now v = record {
  unique_jobs = filter-UniqueKeys (λ j. not (is_stale (now - ttl) j)) q.jobs v.unique_jobs;
  unique_tasks = v.unique_tasks;
  agree = λ k.
      ground (
        arith,
        v.agree k,
        lookup-filter (λ j. not (is_stale (now - ttl) j)) k q.jobs v.unique_jobs,
      );
  balanced = ground (
    arith,
    v.balanced,
    total-filter is_running (λ j. not (is_stale (now - ttl) j)) q.jobs (λ j h. ground arith),
  );
  within = v.within;
}

pub Step-IsSound : {q r : JobQueue} → Step q r → IsSound q → IsSound r
Step-IsSound {q} (submitting id kind session now fresh free) v =
    submit-IsSound q id kind session now v fresh free
Step-IsSound {q} (beginning id now found room) v = begin-IsSound q id now v found room
Step-IsSound {q} (concluding id outcome now requested found) v =
    conclude-IsSound q id outcome now requested v found
Step-IsSound {q} (interrupting id found) v = interrupt_waiting-IsSound q id v found
Step-IsSound {q} (cancelling id) v = cancel-IsSound q id v
Step-IsSound {q} (pruning ttl now) v = prune-IsSound q ttl now v

pub Reach-IsSound : {n : ℕ} {q : JobQueue} → Reach n q → IsSound q
unfolding lookup
Reach-IsSound here = record {
  unique_jobs = tt;
  unique_tasks = tt;
  agree = λ id. refl;
  balanced = refl;
  within = omega arith;
}
Reach-IsSound (next r st) = Step-IsSound st (Reach-IsSound r)
