-- ===== src/Tests/Services.antt =====
-- The broker, the cache and the queue.
use wizard_w.Prelude.{
  ℕ, ◌≡◌, ◌≢◌, ◌⊎◌, ◌≤◌, ◌&&◌, refl, Bool, true, false, String, List, [], ◌∷◌, none, some, arith,
  if◌then◌else◌, contains, nat_eq, string_eq,
}
use wizard_w.Prelude.Dict.{lookup, insert, UniqueKeys, values}
use wizard_w.Prelude.Text.{codes}
use wizard_w.Consent.{
  ConsentBroker, empty_broker, register, bucket, result, resolve, abandon, waiting_count,
  is_waiting, finish, answered,
}
use wizard_w.Consent.Answers.{abandon_denies}
use wizard_w.Consent.World as World
use wizard_w.Consent.World.{World, start}
use wizard_w.Consent.Leaks.{no_leaks}
use wizard_w.Infra.Cache.{new_cache, Call, putting, getting, perform_all}
use wizard_w.Infra.Cache.Bounds.{IsValid, perform_all-IsValid}
use wizard_w.Infra.Queue.{
  JobQueue, Job, pending, succeeded, new_queue, submit, begin, conclude, cancel, interrupt_waiting,
  save, concluded, returned, queued,
}
use wizard_w.Infra.Queue.Steps.{
  Reach, here, next, submitting, beginning, concluding, cancelling, running_jobs,
}
use wizard_w.Infra.Queue.Safety.{running_jobs-le-max_workers, ended_jobs_are_final}
use wizard_w.Infra.Queue.Stuck.{now, cancelled_waiting_is_stuck}

abbrev asked : ConsentBroker
asked = (register "s1" "r1" empty_broker).1

asked-UniqueKeys : UniqueKeys asked.pending
unfolding register lookup insert
asked-UniqueKeys = (refl, tt)

abandon_denies_example :
    ((abandon "s1" asked).futures 0 ≡ (
      if contains 0 (values (bucket "s1" asked)) && is_waiting (asked.futures 0)
      then result false
      else asked.futures 0))
    × (waiting_count "s1" (abandon "s1" asked) ≡ 0)
    × ((request_id : String) (approved : Bool)
        → resolve "s1" request_id approved (abandon "s1" asked) ≡ (false, abandon "s1" asked))
    × ((other : String)
        → "s1" ≢ other
        → waiting_count other (abandon "s1" asked) ≡ waiting_count other asked)
abandon_denies_example = abandon_denies asked "s1" 0 asked-UniqueKeys

abbrev parked_world : World
parked_world = record { broker = asked; asks = ("s1", "r1") ∷ [] }

abbrev done_world : World
done_world = record { broker = (finish "s1" "r1" 0 answered asked).1; asks = [] }

done_is_reached : World.Reach done_world
done_is_reached =
    World.next {w = parked_world}
      (World.next {w = start} World.here (World.ask start "s1" "r1" refl))
      (World.wake parked_world "s1" "r1" 0 answered)

no_leaks_example : done_world.broker.pending ≡ []
no_leaks_example = no_leaks done_world done_is_reached refl

abbrev calls : List (Call ℕ)
calls = putting "a" 1 none 0 ∷ putting "b" 2 (some 5) 1 ∷ getting "a" 2 ∷ putting "c" 3 none 3 ∷ []

perform_all-IsValid_example :
    IsValid (perform_all calls (new_cache 2)) × ((perform_all calls (new_cache 2)).capacity ≡ 2)
perform_all-IsValid_example = perform_all-IsValid calls 2

abbrev fresh : JobQueue
fresh = new_queue 1

abbrev one_job : JobQueue
one_job = submit "j1" (codes "analysis") none 0 fresh

one_job-Reach : Reach 1 one_job
one_job-Reach =
    next here
      (submitting "j1" (codes "analysis") none 0 (unfold lookup in refl) (unfold lookup in refl))

abbrev started : JobQueue
started = begin "j1" 3 one_job

started-Reach : Reach 1 started
started-Reach =
    next one_job-Reach
      (beginning "j1" 3 (unfold submit insert lookup in refl) (unfold submit insert in omega arith))

running_jobs-le-max_workers_example : running_jobs started ≤ 1
running_jobs-le-max_workers_example = running_jobs-le-max_workers started started-Reach

abbrev finished : JobQueue
finished = conclude "j1" (returned (codes "ok")) 9 started

finished-Reach : Reach 1 finished
finished-Reach = next started-Reach (
    concluding "j1" (returned (codes "ok")) 9 false
      (unfold submit begin save insert lookup in refl))

abbrev ended_job : Job
ended_job = record {
  id = "j1";
  kind = codes "analysis";
  status = succeeded;
  progress = 100;
  result = some (codes "ok");
  error = none;
  created_at = 0;
  started_at = some 3;
  finished_at = some 9;
  session_id = none;
}

job_ended : lookup "j1" finished.jobs ≡ some ended_job
unfolding submit begin conclude save concluded insert lookup
job_ended = refl

ended_jobs_are_final_example :
    (lookup "j1" (cancel "j1" finished).1.jobs ≡ some ended_job)
    ⊎ (lookup "j1" (cancel "j1" finished).1.jobs ≡ none)
ended_jobs_are_final_example =
    ended_jobs_are_final finished (cancel "j1" finished).1 "j1" ended_job finished-Reach job_ended
      refl (cancelling "j1")

-- A job that is cancelled before a worker is free.
abbrev doomed : JobQueue
doomed = (cancel "j1" one_job).1

doomed-Reach : Reach 1 doomed
doomed-Reach = next one_job-Reach (cancelling "j1")

abbrev waiting_job : Job
waiting_job = record {
  id = "j1";
  kind = codes "analysis";
  status = pending;
  progress = 0;
  result = none;
  error = none;
  created_at = 0;
  started_at = none;
  finished_at = none;
  session_id = none;
}

doomed_task : lookup "j1" doomed.tasks ≡ some (record { stage = queued; cancel_requested = true })
unfolding submit cancel insert lookup
doomed_task = refl

doomed_job : lookup "j1" doomed.jobs ≡ some waiting_job
unfolding submit cancel insert lookup
doomed_job = refl

cancelled_waiting_is_stuck_example :
    (waiting_job.status ≡ pending)
    × (lookup "j1" (interrupt_waiting "j1" doomed).jobs ≡ some waiting_job)
    × ((cancel "j1" (interrupt_waiting "j1" doomed)).0 ≡ false)
cancelled_waiting_is_stuck_example =
    cancelled_waiting_is_stuck doomed (interrupt_waiting "j1" doomed) "j1" waiting_job doomed-Reach
      doomed_task doomed_job now
