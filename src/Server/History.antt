-- ===== src/Server/History.antt =====
-- The calls that the API, the background tasks and the factories make on the database, one at a time,
-- and the passes of the background tasks, and what a history of them leaves. A call that
-- fails is rolled back.
pub mod Jobs
pub mod Passes
pub mod Examples
use buildomat.Prelude.{ℕ, Bool, List, [], ◌∷◌, Option, String}
use buildomat.Server.Models.{Payload, JobFile, JsonValue}
use buildomat.Server.State.{Database, after}
use buildomat.Server.Jobs.{
  Clock, job_append_event, job_wakeup, job_cancel, job_complete, task_complete, job_mark_archived,
}
use buildomat.Server.Workers.{
  worker_assign_job, worker_create, worker_recycle, worker_recycle_all, worker_flush,
  worker_destroy, worker_ping,
}
use buildomat.Server.Create.{NewJob, job_create}
use buildomat.Server.Store.{job_store_put}
use buildomat.Server.Files.{
  job_add_output, job_add_input, job_publish_output, job_file_mark_archived,
}
use buildomat.Server.Depends.{job_depend_satisfy}
use buildomat.Server.Bootstrap.{worker_bootstrap, worker_associate}
use buildomat.Server.Waiters.{job_waiters_one}
use buildomat.Server.Assignment.{job_assignment_one, recycle_on_complete_one}
use buildomat.Server.Cleanup.{worker_cleanup_one}

pub data Call : Type 0 where
  creates_job : ℕ → NewJob → Call
  appends_event : ℕ → Option ℕ → String → ℕ → Option ℕ → Payload → Call
  wakes cancels : ℕ → Call
  completes : ℕ → Bool → Call
  completes_task : ℕ → ℕ → Bool → Call
  archives : ℕ → ℕ → Call
  puts : ℕ → ℕ → String → String → Bool → String → Call
  creates_worker : ℕ → String → ℕ → ℕ → Option ℕ → Bool → Call
  assigns : ℕ → ℕ → Call
  recycles flushes destroys : ℕ → Call
  pings : ℕ → ℕ → Call
  recycles_all : Call
  adds_output adds_input : ℕ → String → ℕ → ℕ → Call
  publishes : ℕ → ℕ → String → String → String → Call
  archives_file : JobFile → ℕ → Call
  satisfies : ℕ → String → Call
  bootstraps : ℕ → String → String → Call
  associates : ℕ → String → Option JsonValue → Call
  -- A pass of a background task, with the jobs whose files are held and the readings of the clock.
  passes_waiters passes_assignment : (ℕ → Bool) → (ℕ → Clock) → Call
  passes_recycle : (ℕ → ℕ) → Call
  passes_cleanup : ℕ → (ℕ → Clock) → (ℕ → ℕ) → Call

module _ (datetime : ℕ → ℕ) where
  pub step : Database → Clock × Call → Database
  step s (now, creates_job id n) = after s (job_create datetime id n s)
  step s (now, appends_event job task stream time remote payload) =
      after s (job_append_event job task stream time remote payload s)
  step s (now, wakes job) = after s (job_wakeup now job s)
  step s (now, cancels job) = after s (job_cancel now job s)
  step s (now, completes job failed) = after s (job_complete now job failed s)
  step s (now, completes_task job seq failed) = after s (task_complete job seq failed s)
  step s (now, archives job time) = after s (job_mark_archived job time s)
  step s (now, puts t job name value secret source) =
      after s (job_store_put t job name value secret source s)
  step s (now, creates_worker id bootstrap factory target job flush) =
      after s (worker_create datetime now id bootstrap factory target job flush s)
  step s (now, assigns wid jid) = after s (worker_assign_job datetime now wid jid s)
  step s (now, recycles wid) = after s (worker_recycle wid s)
  step s (now, flushes wid) = after s (worker_flush wid s)
  step s (now, destroys wid) = after s (worker_destroy wid s)
  step s (now, pings t wid) = after s (worker_ping t wid s)
  step s (now, recycles_all) = after s (worker_recycle_all s)
  step s (now, adds_output job path id size) = after s (job_add_output job path id size s)
  step s (now, adds_input job name id size) = after s (job_add_input job name id size s)
  step s (now, publishes job file series version name) =
      after s (job_publish_output job file series version name s)
  step s (now, archives_file file time) = after s (job_file_mark_archived file time s)
  step s (now, satisfies job name) = after s (job_depend_satisfy job name s)
  step s (now, bootstraps t bootstrap token) = after s (worker_bootstrap t bootstrap token s)
  step s (now, associates wid private metadata) = after s (worker_associate wid private metadata s)
  step s (now, passes_waiters held readings) = (job_waiters_one held readings s).1
  step s (now, passes_assignment held readings) = (job_assignment_one datetime held readings s).1
  step s (now, passes_recycle reading) = (recycle_on_complete_one datetime reading s).1
  step s (now, passes_cleanup max_runtime readings idle) =
      (worker_cleanup_one datetime max_runtime readings idle s).1

  pub run : Database → List (Clock × Call) → Database
  run s [] = s
  run s (c ∷ cs) = run (step s c) cs
