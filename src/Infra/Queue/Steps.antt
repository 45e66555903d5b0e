-- ===== src/Infra/Queue/Steps.antt =====
-- The interleavings of the queue, and the invariant that ties its jobs to its tasks.
use wizard_w.Prelude.{ℕ, ◌≤◌, ◌<◌, ◌≡◌, String, Bool, true, false, Option, none, some, string_eq}
use wizard_w.Prelude.Text.{Text}
use wizard_w.Prelude.Dict.{lookup, UniqueKeys}
use wizard_w.Infra.Queue.{
  JobStatus, pending, running, succeeded, failed, cancelled, Job, is_terminal, Stage, queued,
  working, ended, Task, JobQueue, new_queue, submit, begin, Outcome, conclude, interrupt_waiting,
  cancel, prune,
}
use wizard_w.Prelude.Totals.{total}

abbrev pub busy : Task → ℕ
busy task = elim task.stage [ working ↦ 1 | queued ↦ 0 | ended ↦ 0 ]

abbrev pub is_running : Job → ℕ
is_running job = elim job.status [
  | running ↦ 1
  | pending ↦ 0
  | succeeded ↦ 0
  | failed ↦ 0
  | cancelled ↦ 0
]

-- The number of jobs whose status is RUNNING.
abbrev pub running_jobs : JobQueue → ℕ
running_jobs q = total is_running q.jobs

-- The number of tasks inside the semaphore.
abbrev pub working_tasks : JobQueue → ℕ
working_tasks q = total busy q.tasks

-- One uninterrupted piece of work of the event loop. A job id is a fresh uuid; the semaphore lets a
-- task in while fewer than `max_workers` are inside, and a task on which `cancel` was called gets
-- its `CancelledError` before it can enter.
pub data Step (q : JobQueue) : JobQueue → Type 0 where
  submitting :
      (id : String) (kind : Text) (session : Option String) (now : ℕ)
      → lookup id q.jobs ≡ none
      → lookup id q.tasks ≡ none
      → Step q (submit id kind session now q)
  beginning :
      (id : String) (now : ℕ)
      → lookup id q.tasks ≡ some (record { stage = queued; cancel_requested = false })
      → working_tasks q < q.max_workers
      → Step q (begin id now q)
  concluding :
      (id : String) (outcome : Outcome) (now : ℕ) (requested : Bool)
      → lookup id q.tasks ≡ some (record { stage = working; cancel_requested = requested })
      → Step q (conclude id outcome now q)
  interrupting :
      (id : String)
      → lookup id q.tasks ≡ some (record { stage = queued; cancel_requested = true })
      → Step q (interrupt_waiting id q)
  cancelling : (id : String) → Step q (cancel id q).1
  pruning : (ttl now : ℕ) → Step q (prune ttl now q).1

pub data Reach (max_workers : ℕ) : JobQueue → Type 0 where
  here : Reach max_workers (new_queue max_workers)
  next : {q r : JobQueue} → Reach max_workers q → Step q r → Reach max_workers r

-- What a task says about the status of its job; a job with no task has ended.
abbrev fits : Stage → JobStatus → Bool
fits queued pending = true
fits working running = true
fits ended pending = true
fits _ _ = false

abbrev pub agrees : Option Task → Option Job → Bool
agrees none none = true
agrees none (some job) = is_terminal job.status
agrees (some task) none = false
agrees (some task) (some job) = fits task.stage job.status

pub record IsSound (q : JobQueue) : Type 0 where
  pub unique_jobs : UniqueKeys q.jobs
  pub unique_tasks : UniqueKeys q.tasks
  pub agree : (id : String) → agrees (lookup id q.tasks) (lookup id q.jobs) ≡ true
  pub balanced : running_jobs q ≡ working_tasks q
  pub within : working_tasks q ≤ q.max_workers
