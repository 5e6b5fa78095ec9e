-- ===== src/Server/History/Passes.antt =====
-- The background tasks of server/src/jobs.rs and server/src/workers.rs against the writes of `JobStep`.
use buildomat.Prelude.{ℕ, refl, Bool, true, false, List, [], ◌∷◌, Option, none, some}
use buildomat.Server.Models.{Job, JobDepend, Worker, JobEvent}
use buildomat.Server.State.{Database}
use buildomat.Server.State.Keeps.{Keeps, Keeps-refuse_if, Keeps-find_worker}
use buildomat.Server.Jobs.{Clock}
use buildomat.Server.Workers.{worker_recycle}
use buildomat.Server.Pass.{Pass}
use buildomat.Server.Pass.Keeps.{Guards, Guards-bind, guards_rules}
use buildomat.Server.Waiters.{
  check_prior_jobs, release, check_waiting, one_waiter, asserted_waiter, job_waiters_one,
}
use buildomat.Server.Assignment.{
  recycle_if, recycle_cancelled, check_assigned, assign_popped, assign_free, fail_cancelled,
  one_active, each_active, job_assignment_one, Queues, recycle_finished, one_worker_done,
  recycle_on_complete_one,
}
use buildomat.Server.Cleanup.{
  abort_job, check_runtime, one_running, recycle_idle, one_worker_running, worker_cleanup_one,
}
use buildomat.Server.Waiters.Kept.{check_prior_jobs-Guards}
use buildomat.Server.JobTable.{JobSteps, here, OnJobs}
use buildomat.Server.JobTable.Frame.{OnJobs-same}
use buildomat.Server.JobTable.Refines.{append_event-OnJobs, wakeup-JobSteps, complete-JobSteps}
use buildomat.Server.JobTable.Workers.{worker_assign_job-JobSteps}
use buildomat.Server.JobTable.Files.{depend_satisfy-OnJobs}

module _ {js : List Job} where
  recycle-JobSteps : (w : ℕ) → Keeps (OnJobs (JobSteps js)) (worker_recycle w)
  unfolding worker_recycle
  recycle-JobSteps w = OnJobs-same _ (λ s. refl)

ruleset pass_rules = (
  guards_rules, append_event-OnJobs, wakeup-JobSteps, complete-JobSteps, worker_assign_job-JobSteps,
  depend_satisfy-OnJobs, recycle-JobSteps, Keeps-refuse_if, Keeps-find_worker,
)

module _ {js : List Job} (held : ℕ → Bool) (now : ℕ → Clock) where
  check_prior_jobs-JobSteps :
      (j : Job) (ds : List JobDepend)
      → Guards (OnJobs (JobSteps js)) (check_prior_jobs held now j ds)
  check_prior_jobs-JobSteps =
      check_prior_jobs-Guards held now (λ k job failed. complete-JobSteps k job failed)

  asserted_waiter-JobSteps : (j : Job) → Guards (OnJobs (JobSteps js)) (asserted_waiter held now j)
  unfolding asserted_waiter one_waiter check_waiting release
  asserted_waiter-JobSteps j = search (pass_rules, check_prior_jobs-JobSteps) depth 16

  waiters-Guards : Guards (OnJobs (JobSteps js)) (job_waiters_one held now)
  unfolding job_waiters_one
  waiters-Guards = search (pass_rules, asserted_waiter-JobSteps) depth 8

module _ {js : List Job} where
  recycle_if-JobSteps : (b : Bool) (w : Worker) → Guards (OnJobs (JobSteps js)) (recycle_if b w)
  unfolding recycle_if
  recycle_if-JobSteps true w = search pass_rules
  recycle_if-JobSteps false w = search pass_rules

ruleset recycle_rules = (pass_rules, recycle_if-JobSteps)

module _ {js : List Job} (datetime : ℕ → ℕ) (held : ℕ → Bool) (now : ℕ → Clock) where
  recycle_cancelled-JobSteps :
      (o : Option ℕ) → Guards (OnJobs (JobSteps js)) (recycle_cancelled datetime held now o)
  unfolding recycle_cancelled
  recycle_cancelled-JobSteps none = search recycle_rules
  recycle_cancelled-JobSteps (some w) = search recycle_rules depth 8

  check_assigned-JobSteps :
      (j : Job) (wid : ℕ) → Guards (OnJobs (JobSteps js)) (check_assigned datetime held now j wid)
  unfolding check_assigned
  check_assigned-JobSteps j wid = search recycle_rules depth 12

  assign_popped-JobSteps :
      (j : Job) (qs : Queues) (o : Option (ℕ × Queues))
      → Guards (OnJobs (JobSteps js)) (assign_popped datetime held now j qs o)
  unfolding assign_popped
  assign_popped-JobSteps j qs none = search recycle_rules
  assign_popped-JobSteps j qs (some (fw, rest)) = search recycle_rules depth 8

  assign_free-JobSteps :
      (j : Job) (qs : Queues) (o : Option ℕ)
      → Guards (OnJobs (JobSteps js)) (assign_free datetime held now j qs o)
  unfolding assign_free
  assign_free-JobSteps j qs none = assign_popped-JobSteps j qs _
  assign_free-JobSteps j qs (some w) = search (recycle_rules, check_assigned-JobSteps) depth 8

  one_active-JobSteps :
      (j : Job) (qs : Queues) → Guards (OnJobs (JobSteps js)) (one_active datetime held now j qs)
  unfolding one_active fail_cancelled
  one_active-JobSteps j qs =
      search (recycle_rules, recycle_cancelled-JobSteps, assign_free-JobSteps) depth 14

  each_active-JobSteps :
      (l : List Job) (qs : Queues)
      → Guards (OnJobs (JobSteps js)) (each_active datetime held now l qs)
  unfolding each_active
  each_active-JobSteps [] qs = search recycle_rules
  each_active-JobSteps (j ∷ l) qs =
      Guards-bind _ _ (one_active-JobSteps j qs) (λ rest. each_active-JobSteps l rest)

  assignment-Guards : Guards (OnJobs (JobSteps js)) (job_assignment_one datetime held now)
  unfolding job_assignment_one
  assignment-Guards = search (recycle_rules, each_active-JobSteps) depth 8

module _ {js : List Job} (datetime now : ℕ → ℕ) where
  recycle_finished-JobSteps :
      (w : Worker) → Guards (OnJobs (JobSteps js)) (recycle_finished datetime now w)
  unfolding recycle_finished
  recycle_finished-JobSteps w = search recycle_rules depth 8

  one_worker_done-JobSteps :
      (w : Worker) → Guards (OnJobs (JobSteps js)) (one_worker_done datetime now w)
  unfolding one_worker_done
  one_worker_done-JobSteps w = search (recycle_rules, recycle_finished-JobSteps) depth 8

  recycle_on_complete-Guards : Guards (OnJobs (JobSteps js)) (recycle_on_complete_one datetime now)
  unfolding recycle_on_complete_one
  recycle_on_complete-Guards = search (recycle_rules, one_worker_done-JobSteps) depth 8

module _ {js : List Job} (datetime : ℕ → ℕ) (max : ℕ) (now : ℕ → Clock) (idle : ℕ → ℕ) where
  check_runtime-JobSteps :
      (w : Worker) (j : Job) (o : Option JobEvent)
      → Guards (OnJobs (JobSteps js)) (check_runtime datetime max now idle w j o)
  unfolding check_runtime abort_job
  check_runtime-JobSteps w j none = search recycle_rules
  check_runtime-JobSteps w j (some e) = search recycle_rules depth 12

  one_running-JobSteps :
      (w : Worker) (j : Job) → Guards (OnJobs (JobSteps js)) (one_running datetime max now idle w j)
  unfolding one_running
  one_running-JobSteps w j = search (recycle_rules, check_runtime-JobSteps) depth 8

  one_worker_running-JobSteps :
      (w : Worker) → Guards (OnJobs (JobSteps js)) (one_worker_running datetime max now idle w)
  unfolding one_worker_running recycle_idle
  one_worker_running-JobSteps w = search (recycle_rules, one_running-JobSteps) depth 10

  cleanup-Guards : Guards (OnJobs (JobSteps js)) (worker_cleanup_one datetime max now idle)
  unfolding worker_cleanup_one
  cleanup-Guards = search (recycle_rules, one_worker_running-JobSteps) depth 8

started :
    {A : Type 0} (m : Pass A) (s : Database)
    → Guards (OnJobs (JobSteps s.job)) m
    → JobSteps s.job (m s).1.job
started m s k = (k.at s (record { jobs = here })).jobs

-- Each pass, whether it gets to its end or stops at a failure.
pub waiters-JobSteps :
    (held : ℕ → Bool) (now : ℕ → Clock) (s : Database)
    → JobSteps s.job (job_waiters_one held now s).1.job
waiters-JobSteps held now s = started _ s (waiters-Guards held now)

pub assignment-JobSteps :
    (datetime : ℕ → ℕ) (held : ℕ → Bool) (now : ℕ → Clock) (s : Database)
    → JobSteps s.job (job_assignment_one datetime held now s).1.job
assignment-JobSteps datetime held now s = started _ s (assignment-Guards datetime held now)

pub recycle_on_complete-JobSteps :
    (datetime now : ℕ → ℕ) (s : Database)
    → JobSteps s.job (recycle_on_complete_one datetime now s).1.job
recycle_on_complete-JobSteps datetime now s = started _ s (recycle_on_complete-Guards datetime now)

pub cleanup-JobSteps :
    (datetime : ℕ → ℕ) (max : ℕ) (now : ℕ → Clock) (idle : ℕ → ℕ) (s : Database)
    → JobSteps s.job (worker_cleanup_one datetime max now idle s).1.job
cleanup-JobSteps datetime max now idle s = started _ s (cleanup-Guards datetime max now idle)
