-- ===== src/Infra/Queue.antt =====
-- backend/src/core/infra/queue.py: background jobs on a bounded pool of workers. Each operation is
-- the code of a task between two awaits, and `Step` puts them in any order. The mirror of a job in
-- the cache is left out; a progress is a percentage.
pub mod Steps
pub mod Writes
pub mod Sound
pub mod Safety
pub mod Stuck
use wizard_w.Prelude.{
  ℕ, zero, suc, ◌+◌, ◌-◌, String, Bool, true, false, ◌&&◌, not, List, [], ◌∷◌, Option, none, some,
  if◌then◌else◌, ltb, length, string_eq, filter,
}
use wizard_w.Prelude.Dict.{Dict, lookup, insert, erase}
use wizard_w.Prelude.Text.{Text, codes}

pub data JobStatus : Type 0 where
  pending running succeeded failed cancelled : JobStatus

pub record Job : Type 0 where
  pub id : String
  pub kind : Text
  pub status : JobStatus
  pub progress : ℕ
  pub result : Option Text
  pub error : Option Text
  pub created_at : ℕ
  pub started_at : Option ℕ
  pub finished_at : Option ℕ
  pub session_id : Option String

abbrev pub is_terminal : JobStatus → Bool
is_terminal pending = false
is_terminal running = false
is_terminal _ = true

-- Where a `runner` stands: waiting for the semaphore, inside it, or ended without the `finally`.
pub data Stage : Type 0 where
  queued working ended : Stage

-- An `asyncio.Task` of `_tasks`, and whether `cancel` was called on it.
pub record Task : Type 0 where
  pub stage : Stage
  pub cancel_requested : Bool

pub record JobQueue : Type 0 where
  pub max_workers : ℕ
  pub jobs : Dict String Job
  pub tasks : Dict String Task

abbrev pub new_queue : ℕ → JobQueue
new_queue max_workers = record { max_workers = max_workers; jobs = []; tasks = [] }

unfoldable pub submit : String → Text → Option String → ℕ → JobQueue → JobQueue
submit job_id kind session_id now q = record q {
  jobs =
      insert job_id
        (record {
          id = job_id;
          kind = kind;
          status = pending;
          progress = 0;
          result = none;
          error = none;
          created_at = now;
          started_at = none;
          finished_at = none;
          session_id = session_id;
        })
        q.jobs;
  tasks = insert job_id (record { stage = queued; cancel_requested = false }) q.tasks;
}

-- A write to the job object, and `_persist`.
unfoldable pub save : String → (Job → Job) → JobQueue → JobQueue
save job_id change q = elim (lookup job_id q.jobs) [
  | none ↦ q
  | some job ↦ record q { jobs = insert job_id (change job) q.jobs }
]

-- `runner` once the semaphore let it in.
unfoldable pub begin : String → ℕ → JobQueue → JobQueue
unfolding save
begin job_id now q =
    let q' = save job_id (λ job. record job { status = running; started_at = some now }) q in
    record q' {
      tasks = insert job_id (record { stage = working; cancel_requested = false }) q'.tasks;
    }

-- How `await handler(job)` ends: with a result, a `CancelledError` or another exception.
pub data Outcome : Type 0 where
  returned : Text → Outcome
  interrupted : Outcome
  raised : Text → Outcome

unfoldable pub concluded : Outcome → ℕ → Job → Job
concluded (returned value) now job = record job {
  status = succeeded;
  progress = 100;
  result = some value;
  finished_at = some now;
}
concluded interrupted now job = record job {
  status = cancelled;
  error = some (codes "Cancelled");
  finished_at = some now;
}
concluded (raised message) now job = record job {
  status = failed;
  error = some message;
  finished_at = some now;
}

-- The rest of `runner`, with its handlers and its `finally`.
unfoldable pub conclude : String → Outcome → ℕ → JobQueue → JobQueue
unfolding save concluded
conclude job_id outcome now q =
    let q' = save job_id (concluded outcome now) q in record q' { tasks = erase job_id q'.tasks }

-- A `CancelledError` that reaches `runner` while it waits for the semaphore: it stands outside the
-- `try`, so the task ends, and neither the job nor `_tasks` is written.
unfoldable pub interrupt_waiting : String → JobQueue → JobQueue
interrupt_waiting job_id q = record q {
  tasks = insert job_id (record { stage = ended; cancel_requested = true }) q.tasks;
}

unfoldable pub cancel : String → JobQueue → Bool × JobQueue
cancel job_id q = elim (lookup job_id q.tasks) [
  | none ↦ (false, q)
  | some task ↦ elim task.stage [
    | ended ↦ (false, q)
    | queued ↦
        (true, record q { tasks = insert job_id (record task { cancel_requested = true }) q.tasks })
    | working ↦
        (true, record q { tasks = insert job_id (record task { cancel_requested = true }) q.tasks })
  ]
]

-- `job.finished_at or job.created_at`: a time of 0 is falsy.
unfoldable pub age_mark : Job → ℕ
age_mark job = elim job.finished_at [
  | none ↦ job.created_at
  | some t ↦ elim t [ zero ↦ job.created_at | suc n ↦ suc n ]
]

unfoldable pub is_stale : ℕ → Job → Bool
unfolding age_mark
is_stale cutoff job = is_terminal job.status && ltb (age_mark job) cutoff

-- A cutoff before the start of the clock is 0: no time lies before either.
unfoldable pub prune : ℕ → ℕ → JobQueue → ℕ × JobQueue
unfolding is_stale
prune ttl now q =
    let cutoff = now - ttl in
    (
      length (filter (λ entry. is_stale cutoff entry.1) q.jobs),
      record q { jobs = filter (λ entry. not (is_stale cutoff entry.1)) q.jobs },
    )
