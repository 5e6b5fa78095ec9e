-- ===== src/Server/History/Jobs.antt =====
-- Histories of calls on server/src/db.rs against the state machine of the job table.
use buildomat.Prelude.{ℕ, ◌≡◌, ◌≤◌, refl, List, [], ◌∷◌, Option, none, some, ok, arith, length}
use buildomat.Sql.{find, count, select}
use buildomat.Server.Models.{Job}
use buildomat.Server.State.{Database, Tx, after, job_is, ◌>>=◌}
use buildomat.Server.State.Keeps.{Keeps}
use buildomat.Server.Jobs.{Clock}
use buildomat.Server.Workers.{
  worker_job, one_job, assigned_to, worker_recycle, worker_recycle_all, worker_flush,
  worker_destroy, worker_ping,
}
use buildomat.Server.History.{
  Call, creates_job, appends_event, wakes, cancels, completes, completes_task, archives, puts,
  creates_worker, assigns, recycles, flushes, destroys, pings, recycles_all, adds_output,
  adds_input, publishes, archives_file, satisfies, bootstraps, associates, passes_waiters,
  passes_assignment, passes_recycle, passes_cleanup, step, run,
}
use buildomat.Server.JobTable.{JobSteps, here, next, OnJobs}
use buildomat.Sql.Lemmas.{length-select}
use buildomat.Server.JobTable.Exclusive.{IsExclusive, JobSteps-IsExclusive}
use buildomat.Server.JobTable.Lifecycle.{Follows, JobSteps-Follows}
use buildomat.Server.JobTable.Refines.{
  append_event-OnJobs, task_complete-OnJobs, mark_archived-JobSteps, wakeup-JobSteps,
  cancel-JobSteps, complete-JobSteps,
}
use buildomat.Server.JobTable.Workers.{worker_assign_job-JobSteps, worker_create-JobSteps}
use buildomat.Server.History.Passes.{
  waiters-JobSteps, assignment-JobSteps, recycle_on_complete-JobSteps, cleanup-JobSteps,
}
use buildomat.Server.JobTable.Files.{
  add_output-OnJobs, add_input-OnJobs, publish_output-OnJobs, file_mark_archived-OnJobs,
  depend_satisfy-OnJobs, bootstrap-OnJobs, associate-OnJobs,
}
use buildomat.Server.JobTable.Create.{job_create-JobSteps, store_put-OnJobs}

join : {a b c : List Job} → JobSteps a b → JobSteps b c → JobSteps a c
join r here = r
join r (next q st) = next (join r q) st

one_job_ok :
    (w : ℕ) (s : Database) (js : List Job)
    → length js ≤ 1
    → (o : Option Job) × (one_job w js s ≡ ok (o, s))
unfolding one_job ◌>>=◌
one_job_ok w s [] h = (none, refl)
one_job_ok w s (j ∷ []) h = (some j, refl)
one_job_ok w s (j ∷ k ∷ js) h = absurd (omega arith)

worker_job_ok :
    (w : ℕ) (s : Database)
    → count (assigned_to w) s.job ≤ 1
    → (o : Option Job) × (worker_job w s ≡ ok (o, s))
unfolding worker_job ◌>>=◌
worker_job_ok w s h =
    one_job_ok w s (select (assigned_to w) s.job)
      (omega (arith, length-select (assigned_to w) s.job))

module _ (datetime : ℕ → ℕ) where
  started :
      {A : Type 0} (m : Tx A) (s : Database)
      → Keeps (OnJobs (JobSteps s.job)) m
      → JobSteps s.job (after s (m s)).job
  started m s k = (k.at s (record { jobs = here })).jobs

  -- Each call, and each pass of a background task, changes the job table by a sequence of the writes
  -- that `JobStep` allows, and by nothing else.
  pub step-JobSteps :
      (s : Database) (now : Clock) (c : Call) → JobSteps s.job (step datetime s (now, c)).job
  unfolding step worker_recycle worker_recycle_all worker_flush worker_destroy worker_ping
  step-JobSteps s now (creates_job id n) = started _ s (job_create-JobSteps datetime id n)
  step-JobSteps s now (appends_event job task stream time remote payload) =
      started _ s (append_event-OnJobs job task stream time remote payload)
  step-JobSteps s now (wakes job) = started _ s (wakeup-JobSteps now job)
  step-JobSteps s now (cancels job) = started _ s (cancel-JobSteps now job)
  step-JobSteps s now (completes job failed) = started _ s (complete-JobSteps now job failed)
  step-JobSteps s now (completes_task job seq failed) =
      started _ s (task_complete-OnJobs job seq failed)
  step-JobSteps s now (archives job time) = started _ s (mark_archived-JobSteps job time)
  step-JobSteps s now (puts t job name value secret source) =
      started _ s (store_put-OnJobs t job name value secret source)
  step-JobSteps s now (creates_worker id bootstrap factory target job flush) =
      started _ s (worker_create-JobSteps datetime now id bootstrap factory target job flush)
  step-JobSteps s now (assigns wid jid) =
      started _ s (worker_assign_job-JobSteps datetime now wid jid)
  step-JobSteps s now (recycles wid) = here
  step-JobSteps s now (flushes wid) = here
  step-JobSteps s now (destroys wid) = here
  step-JobSteps s now (pings t wid) = here
  step-JobSteps s now recycles_all = here
  step-JobSteps s now (adds_output job path id size) =
      started _ s (add_output-OnJobs job path id size)
  step-JobSteps s now (adds_input job name id size) =
      started _ s (add_input-OnJobs job name id size)
  step-JobSteps s now (publishes job file series version name) =
      started _ s (publish_output-OnJobs job file series version name)
  step-JobSteps s now (archives_file file time) = started _ s (file_mark_archived-OnJobs file time)
  step-JobSteps s now (satisfies job name) = started _ s (depend_satisfy-OnJobs job name)
  step-JobSteps s now (bootstraps t bootstrap token) =
      started _ s (bootstrap-OnJobs t bootstrap token)
  step-JobSteps s now (associates wid private metadata) =
      started _ s (associate-OnJobs wid private metadata)
  step-JobSteps s now (passes_waiters held readings) = waiters-JobSteps held readings s
  step-JobSteps s now (passes_assignment held readings) =
      assignment-JobSteps datetime held readings s
  step-JobSteps s now (passes_recycle reading) = recycle_on_complete-JobSteps datetime reading s
  step-JobSteps s now (passes_cleanup max_runtime readings idle) =
      cleanup-JobSteps datetime max_runtime readings idle s

  run-JobSteps : (s : Database) (cs : List (Clock × Call)) → JobSteps s.job (run datetime s cs).job
  unfolding run
  run-JobSteps s [] = here
  run-JobSteps s ((now, c) ∷ cs) =
      join (step-JobSteps s now c) (run-JobSteps (step datetime s (now, c)) cs)

  -- Whatever the calls and passes, a job that was once in the table stays in it and only moves forward: its
  -- owner, name and target stay, it never ceases to be complete, cancelled, ready or archived, it keeps
  -- the worker it has, and once it is complete its outcome (failed, cancelled) is fixed.
  pub run-Follows :
      (s : Database) (cs : List (Clock × Call)) (id : ℕ) (j : Job)
      → find (job_is id) s.job ≡ some j
      → Follows (run datetime s cs).job id j
  run-Follows s cs id j h = JobSteps-Follows id j (run-JobSteps s cs) h

  -- From a database where no worker has two jobs, no history of calls and passes gives a worker a second one: the
  -- query for the job of a worker never meets its error, and answers as the number of rows says.
  pub worker_job_total :
      (s : Database) (cs : List (Clock × Call)) (w : ℕ)
      → IsExclusive s.job
      → IsExclusive (run datetime s cs).job
        × ((o : Option Job) × (worker_job w (run datetime s cs) ≡ ok (o, run datetime s cs)))
  worker_job_total s cs w h =
      let x = JobSteps-IsExclusive (run-JobSteps s cs) h in
      (x, worker_job_ok w (run datetime s cs) (x w))
