-- ===== src/Infra/Queue/Stuck.antt =====
-- The fate of a job that is cancelled while its task waits for the semaphore.
use wizard_w.Prelude.{
  ℕ, ◌-◌, ◌≡◌, ◌≢◌, ap, ◌∙◌, String, true, false, not, some, arith, string_eq, inl, inr,
}
use text.Mathlib.TextEquality.{eq_iff}
use wizard_w.Prelude.Dict.{lookup, insert, lookup-insert, lookup-erase}
use wizard_w.Infra.Queue.{
  pending, running, Job, queued, working, ended, Task, JobQueue, submit, save, begin, concluded,
  conclude, interrupt_waiting, cancel, prune, is_stale,
}
use wizard_w.Prelude.Totals.{lookup-filter}
use wizard_w.Infra.Queue.Steps.{
  Step, submitting, beginning, concluding, interrupting, cancelling, pruning, Reach, IsSound,
}
use wizard_w.Infra.Queue.Sound.{Reach-IsSound, Step-IsSound, cancel-eq}
use wizard_w.Infra.Queue.Safety.{save_elsewhere, submit_keeps, cancel-jobs}

-- Any steps of the queue, in any order.
pub data Later (q : JobQueue) : JobQueue → Type 0 where
  now : Later q q
  after : {r s : JobQueue} → Later q r → Step r s → Later q s

abbrev ended_task : Task
ended_task = record { stage = ended; cancel_requested = true }

-- A task that ended without its `finally`, next to its PENDING job.
record IsStuck (id : String) (job : Job) (q : JobQueue) : Type 0 where
  task : lookup id q.tasks ≡ some ended_task
  entry : lookup id q.jobs ≡ some job
  waiting : job.status ≡ pending

save-tasks : (q : JobQueue) (k : String) (change : Job → Job) → (save k change q).tasks ≡ q.tasks
unfolding save
save-tasks q k change = ground arith

other_task :
    {q : JobQueue} {id : String} {job : Job} (k : String) (t : Task)
    → IsStuck id job q
    → lookup k q.tasks ≡ some t
    → t.stage ≢ ended
    → k ≢ id
other_task {q} k t v found live same =
    live (ground (arith, ap (λ i. lookup i q.tasks) same, v.task))

insert_elsewhere :
    {q : JobQueue} {id : String} {job : Job} (k : String) (t : Task)
    → IsStuck id job q
    → k ≢ id
    → lookup id (insert k t q.tasks) ≡ some ended_task
insert_elsewhere {q} {id} k t v other =
    ground (arith, lookup-insert k id t q.tasks, eq_iff k id, v.task)

cancel_keeps :
    {q : JobQueue} {id : String} {job : Job} (k : String)
    → IsStuck id job q
    → lookup id (cancel k q).1.tasks ≡ some ended_task
cancel_keeps {q} {id} k v = elim (cancel-eq q k) [
  | inl same ↦ ap (λ r. lookup id r.tasks) same ∙ v.task
  | inr (t, found, marked) ↦
      ap (λ r. lookup id r.tasks) marked
      ∙ ground (
        arith,
        lookup-insert k id (record t { cancel_requested = true }) q.tasks,
        eq_iff k id,
        v.task,
        λ (same : k ≡ id). ap (λ i. lookup i q.tasks) same,
      )
]

Step-IsStuck :
    {q r : JobQueue} (id : String) (job : Job)
    → Step q r
    → IsSound q
    → IsStuck id job q
    → IsStuck id job r
unfolding begin conclude interrupt_waiting prune is_stale
Step-IsStuck {q} id job (submitting k kind session time fresh free) sound v = record {
  task =
      unfold submit in
      insert_elsewhere k (record { stage = queued; cancel_requested = false }) v
        (λ same. ground (arith, ap (λ i. lookup i q.tasks) same, v.task));
  entry = submit_keeps q id k job kind session time fresh v.entry;
  waiting = v.waiting;
}
Step-IsStuck {q} id job (beginning k time found room) sound v =
    let other : k ≢ id = other_task k _ v found (λ h. ground arith) in
    record {
      task = ground (
        arith,
        save-tasks q k (λ job. record job { status = running; started_at = some time }),
        insert_elsewhere k (record { stage = working; cancel_requested = false }) v other,
      );
      entry = save_elsewhere q k id _ other ∙ v.entry;
      waiting = v.waiting;
    }
Step-IsStuck {q} id job (concluding k outcome time requested found) sound v =
    let other : k ≢ id = other_task k _ v found (λ h. ground arith) in
    record {
      task = ground (
        arith,
        save-tasks q k (concluded outcome time),
        lookup-erase k id q.tasks sound.unique_tasks,
        eq_iff k id,
        v.task,
      );
      entry = save_elsewhere q k id _ other ∙ v.entry;
      waiting = v.waiting;
    }
Step-IsStuck {q} id job (interrupting k found) sound v = record {
  task = insert_elsewhere k ended_task v (other_task k _ v found (λ h. ground arith));
  entry = v.entry;
  waiting = v.waiting;
}
Step-IsStuck {q} id job (cancelling k) sound v = record {
  task = cancel_keeps k v;
  entry = ap (λ jobs. lookup id jobs) (cancel-jobs q k) ∙ v.entry;
  waiting = v.waiting;
}
Step-IsStuck {q} id job (pruning ttl time) sound v = record {
  task = v.task;
  entry = ground (
    arith,
    v.entry,
    v.waiting,
    lookup-filter (λ j. not (is_stale (time - ttl) j)) id q.jobs sound.unique_jobs,
  );
  waiting = v.waiting;
}

Later-IsStuck :
    {q r : JobQueue} (id : String) (job : Job)
    → Later q r
    → IsSound q
    → IsStuck id job q
    → IsSound r × IsStuck id job r
Later-IsStuck id job now sound v = (sound, v)
Later-IsStuck id job (after steps st) sound v =
    let (sound', v') = Later-IsStuck id job steps sound v in
    (Step-IsSound st sound', Step-IsStuck id job st sound' v')

-- Once the cancellation of a job reaches its task while that still waits for the semaphore, the job
-- stays PENDING for good: whatever steps follow, its entry is unchanged, pruning leaves it, and
-- `cancel` returns False.
pub cancelled_waiting_is_stuck :
    {n : ℕ} (q r : JobQueue) (id : String) (job : Job)
    → Reach n q
    → lookup id q.tasks ≡ some (record { stage = queued; cancel_requested = true })
    → lookup id q.jobs ≡ some job
    → Later (interrupt_waiting id q) r
    → (job.status ≡ pending) × (lookup id r.jobs ≡ some job) × ((cancel id r).0 ≡ false)
unfolding interrupt_waiting cancel
cancelled_waiting_is_stuck q r id job reach found entry later =
    let v : IsSound q = Reach-IsSound reach in
    let waiting : job.status ≡ pending = ground (arith, v.agree id) in
    let start : IsStuck id job (interrupt_waiting id q) = record {
      task = ground (arith, lookup-insert id id ended_task q.tasks, eq_iff id id);
      entry = entry;
      waiting = waiting;
    } in
    let (_, stuck) = Later-IsStuck id job later (Step-IsSound (interrupting id found) v) start in
    (waiting, stuck.entry, ground (arith, stuck.task))
