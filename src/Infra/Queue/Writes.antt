-- ===== src/Infra/Queue/Writes.antt =====
-- Writes of one job and its task that keep the invariant of `Steps`.
use wizard_w.Prelude.{
  ◌⊎◌, ℕ, ◌+◌, ◌≤◌, ◌≡◌, ◌≢◌, refl, String, true, none, some, arith, string_eq, Option-cases, inl,
  inr,
}
use text.Mathlib.TextEquality.{eq_iff}
use wizard_w.Prelude.Dict.{
  lookup, insert, erase, lookup-insert, lookup-erase, insert-UniqueKeys, erase-UniqueKeys,
}
use wizard_w.Infra.Queue.{
  Job, is_terminal, Stage, working, ended, Task, JobQueue, Outcome, returned, interrupted, raised,
  concluded,
}
use wizard_w.Prelude.Totals.{total-insert, total-erase}
use wizard_w.Infra.Queue.Steps.{busy, is_running, working_tasks, agrees, IsSound}

pub is_terminal-concluded :
    (outcome : Outcome) (now : ℕ) (j : Job) → is_terminal (concluded outcome now j).status ≡ true
unfolding concluded
is_terminal-concluded (returned value) now j = refl
is_terminal-concluded interrupted now j = refl
is_terminal-concluded (raised message) now j = refl

pub Stage-cases : (t : Stage) → (t ≡ ended) ⊎ (t ≢ ended)
Stage-cases t = ground arith

-- A write of one task and one job, where the two agree and count alike.
module _ (q : JobQueue) (v : IsSound q) (id : String) where
  pub write_task-IsSound :
      (t t' : Task) (j : Job)
      → lookup id q.tasks ≡ some t
      → lookup id q.jobs ≡ some j
      → agrees (some t') (some j) ≡ true
      → busy t' ≡ busy t
      → IsSound (record q { tasks = insert id t' q.tasks })
  write_task-IsSound t t' j found job fit same = record {
    unique_jobs = v.unique_jobs;
    unique_tasks = insert-UniqueKeys id t' q.tasks v.unique_tasks;
    agree = λ k. ground (arith, v.agree k, lookup-insert id k t' q.tasks, eq_iff id k);
    balanced = ground (arith, v.balanced, total-insert busy id t' q.tasks);
    within = ground (arith, v.within, total-insert busy id t' q.tasks);
  }

  pub write_both-IsSound :
      (t t' : Task) (j j' : Job)
      → lookup id q.tasks ≡ some t
      → lookup id q.jobs ≡ some j
      → agrees (some t') (some j') ≡ true
      → is_running j' + busy t ≡ is_running j + busy t'
      → working_tasks q + busy t' ≤ q.max_workers + busy t
      → IsSound (record q { tasks = insert id t' q.tasks; jobs = insert id j' q.jobs })
  write_both-IsSound t t' j j' found job fit counts room = record {
    unique_jobs = insert-UniqueKeys id j' q.jobs v.unique_jobs;
    unique_tasks = insert-UniqueKeys id t' q.tasks v.unique_tasks;
    agree = λ k. ground (
      arith,
      v.agree k,
      lookup-insert id k t' q.tasks,
      lookup-insert id k j' q.jobs,
      eq_iff id k,
    );
    balanced =
        ground (
          arith,
          v.balanced,
          total-insert busy id t' q.tasks,
          total-insert is_running id j' q.jobs,
        );
    within = ground (arith, v.within, total-insert busy id t' q.tasks);
  }

  pub add_both-IsSound :
      (t' : Task) (j' : Job)
      → lookup id q.tasks ≡ none
      → lookup id q.jobs ≡ none
      → agrees (some t') (some j') ≡ true
      → busy t' ≡ 0
      → is_running j' ≡ 0
      → IsSound (record q { tasks = insert id t' q.tasks; jobs = insert id j' q.jobs })
  add_both-IsSound t' j' free fresh fit idle still = record {
    unique_jobs = insert-UniqueKeys id j' q.jobs v.unique_jobs;
    unique_tasks = insert-UniqueKeys id t' q.tasks v.unique_tasks;
    agree = λ k. ground (
      arith,
      v.agree k,
      lookup-insert id k t' q.tasks,
      lookup-insert id k j' q.jobs,
      eq_iff id k,
    );
    balanced =
        ground (
          arith,
          v.balanced,
          total-insert busy id t' q.tasks,
          total-insert is_running id j' q.jobs,
        );
    within = ground (arith, v.within, total-insert busy id t' q.tasks);
  }

  pub conclude_both-IsSound :
      (t : Task) (j j' : Job)
      → lookup id q.tasks ≡ some t
      → lookup id q.jobs ≡ some j
      → t.stage ≡ working
      → is_terminal j'.status ≡ true
      → IsSound (record q { tasks = erase id q.tasks; jobs = insert id j' q.jobs })
  conclude_both-IsSound t j j' found job inside over = record {
    unique_jobs = insert-UniqueKeys id j' q.jobs v.unique_jobs;
    unique_tasks = erase-UniqueKeys id q.tasks v.unique_tasks;
    agree = λ k. ground (
      arith,
      v.agree k,
      lookup-erase id k q.tasks v.unique_tasks,
      lookup-insert id k j' q.jobs,
      eq_iff id k,
    );
    balanced = ground (
      arith,
      v.balanced,
      v.agree id,
      total-erase busy id q.tasks,
      total-insert is_running id j' q.jobs,
    );
    within = ground (arith, v.within, total-erase busy id q.tasks);
  }

  pub job_of_task :
      (t : Task) → lookup id q.tasks ≡ some t → (j : Job) × (lookup id q.jobs ≡ some j)
  job_of_task t found = elim (Option-cases (lookup id q.jobs)) [
    | inl absent ↦ absurd (ground (arith, v.agree id))
    | inr job ↦ job
  ]
