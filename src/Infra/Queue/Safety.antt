-- ===== src/Infra/Queue/Safety.antt =====
-- What holds of the queue in every interleaving: bounded concurrency, final ends, exact pruning, and
-- the fate of a job that is cancelled while it waits.
use wizard_w.Prelude.{
  ◌⊎◌, ℕ, ◌-◌, ◌≤◌, ◌≡◌, ◌≢◌, ap, refl, ◌∙◌, String, Bool, true, ◌&&◌, not, Option, none, some,
  arith, string_eq, if◌then◌else◌, ltb, Option-cases, inl, inr, length, filter, ◌+◌, [], ◌∷◌,
}
use text.Mathlib.TextEquality.{eq_iff}
use wizard_w.Prelude.Text.{Text}
use wizard_w.Prelude.Dict.{Dict, lookup, lookup-insert}
use wizard_w.Infra.Queue.{
  pending, Job, is_terminal, Task, JobQueue, submit, save, begin, conclude, interrupt_waiting,
  cancel, prune, is_stale, age_mark,
}
use wizard_w.Prelude.Totals.{lookup-filter}
use wizard_w.Infra.Queue.Steps.{
  running_jobs, Step, submitting, beginning, concluding, interrupting, cancelling, pruning, Reach,
  here, next, IsSound,
}
use wizard_w.Infra.Queue.Sound.{Reach-IsSound, cancel-eq}

max_workers-Step : {q r : JobQueue} → Step q r → r.max_workers ≡ q.max_workers
unfolding submit begin conclude interrupt_waiting cancel prune
max_workers-Step (submitting id kind session now fresh free) = refl
max_workers-Step (beginning id now found room) = ground arith
max_workers-Step (concluding id outcome now requested found) = ground arith
max_workers-Step (interrupting id found) = refl
max_workers-Step (cancelling id) = ground arith
max_workers-Step (pruning ttl now) = refl

max_workers-Reach : {n : ℕ} {q : JobQueue} → Reach n q → q.max_workers ≡ n
max_workers-Reach here = refl
max_workers-Reach (next r st) = max_workers-Step st ∙ max_workers-Reach r

-- Whatever is submitted, started, finished, cancelled and pruned, in any order: at most
-- `max_workers` jobs are RUNNING at a time.
pub running_jobs-le-max_workers : {n : ℕ} (q : JobQueue) → Reach n q → running_jobs q ≤ n
running_jobs-le-max_workers q r =
    omega (arith, (Reach-IsSound r).balanced, (Reach-IsSound r).within, max_workers-Reach r)

-- The entry of a job after a write of another, or of one that has no such job.
pub save_elsewhere :
    (q : JobQueue) (id k : String) (change : Job → Job)
    → id ≢ k
    → lookup k (save id change q).jobs ≡ lookup k q.jobs
unfolding save
save_elsewhere q id k change ne = elim (Option-cases (lookup id q.jobs)) [
  | inl absent ↦ ground arith
  | inr (j, found) ↦ ground (arith, lookup-insert id k (change j) q.jobs, eq_iff id k)
]

-- `cancel` leaves the jobs as they are.
pub cancel-jobs : (q : JobQueue) (id : String) → (cancel id q).1.jobs ≡ q.jobs
cancel-jobs q id = elim (cancel-eq q id) [
  | inl same ↦ ap (λ r. r.jobs) same
  | inr (t, found, marked) ↦ ap (λ r. r.jobs) marked
]

no_task_when_ended :
    {q : JobQueue} (id : String) (job : Job)
    → IsSound q
    → lookup id q.jobs ≡ some job
    → is_terminal job.status ≡ true
    → lookup id q.tasks ≡ none
no_task_when_ended id job v found over = ground (arith, v.agree id)

-- A write to the job of a task leaves a job without a task as it is.
save_keeps :
    (q : JobQueue) (id k : String) (change : Job → Job) (t : Task)
    → lookup id q.tasks ≡ none
    → lookup k q.tasks ≡ some t
    → lookup id (save k change q).jobs ≡ lookup id q.jobs
save_keeps q id k change t free found =
    save_elsewhere q k id change (λ same. ground (arith, ap (λ i. lookup i q.tasks) same))

pub submit_keeps :
    (q : JobQueue) (id k : String) (job : Job) (kind : Text) (session : Option String) (now : ℕ)
    → lookup k q.jobs ≡ none
    → lookup id q.jobs ≡ some job
    → lookup id (submit k kind session now q).jobs ≡ some job
unfolding submit
submit_keeps q id k job kind session now fresh found =
    lookup-insert k id
      (record {
        id = k;
        kind = kind;
        status = pending;
        progress = 0;
        result = none;
        error = none;
        created_at = now;
        started_at = none;
        finished_at = none;
        session_id = session;
      })
      q.jobs
    ∙ ground (arith, eq_iff k id, λ (same : k ≡ id). ap (λ i. lookup i q.jobs) same)

-- A job that has ended keeps its status, result, error and times through every step of any task; all
-- that can happen to it is that it is pruned.
pub ended_jobs_are_final :
    {n : ℕ} (q r : JobQueue) (id : String) (job : Job)
    → Reach n q
    → lookup id q.jobs ≡ some job
    → is_terminal job.status ≡ true
    → Step q r
    → (lookup id r.jobs ≡ some job) ⊎ (lookup id r.jobs ≡ none)
unfolding begin conclude interrupt_waiting prune
ended_jobs_are_final q r id job reach found over (submitting k kind session now fresh free) =
    inl (submit_keeps q id k job kind session now fresh found)
ended_jobs_are_final q r id job reach found over (beginning k now task room) = inl (
    save_keeps q id k _ _ (no_task_when_ended id job (Reach-IsSound reach) found over) task ∙ found)
ended_jobs_are_final q r id job reach found over (concluding k outcome now requested task) = inl (
    save_keeps q id k _ _ (no_task_when_ended id job (Reach-IsSound reach) found over) task ∙ found)
ended_jobs_are_final q r id job reach found over (interrupting k task) = inl found
ended_jobs_are_final q r id job reach found over (cancelling k) =
    inl (ap (λ jobs. lookup id jobs) (cancel-jobs q k) ∙ found)
ended_jobs_are_final q r id job reach found over (pruning ttl now) = ground (
  arith,
  lookup-filter (λ j. not (is_stale (now - ttl) j)) id q.jobs (Reach-IsSound reach).unique_jobs,
)

length-filter-not :
    (p : Job → Bool) (d : Dict String Job)
    → length (filter (λ e. p e.1) d) + length (filter (λ e. not (p e.1)) d) ≡ length d
length-filter-not p [] = refl
length-filter-not p ((k, j) ∷ d) = ground (arith, length-filter-not p d)

-- `prune` removes a job exactly when it has ended and its end (or, with no time of end, its
-- creation) lies before the cutoff, leaves every other job as it is, and returns how many it
-- removed.
prune_exact :
    {n : ℕ} (q : JobQueue) (ttl now : ℕ) (id : String)
    → Reach n q
    → (lookup id (prune ttl now q).1.jobs ≡ elim (lookup id q.jobs) [
      | none ↦ none
      | some job ↦
          if is_terminal job.status && ltb (age_mark job) (now - ttl) then none else some job
    ])
      × ((prune ttl now q).0 + length (prune ttl now q).1.jobs ≡ length q.jobs)
unfolding prune is_stale
prune_exact q ttl now id reach = (
  ground (
    arith,
    lookup-filter (λ j. not (is_stale (now - ttl) j)) id q.jobs (Reach-IsSound reach).unique_jobs,
  ),
  length-filter-not (is_stale (now - ttl)) q.jobs,
)
