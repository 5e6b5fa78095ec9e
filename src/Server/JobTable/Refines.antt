-- ===== src/Server/JobTable/Refines.antt =====
-- The operations of server/src/db.rs on a job, against the writes of `JobStep`.
use buildomat.Prelude.{ℕ, refl, Bool, true, false, List, [], ◌∷◌, Option, String, ◌||◌, ◌||◌}
use buildomat.Sql.{update}
use buildomat.Server.Models.{Task, Job, Payload}
use buildomat.Server.State.Keeps.{Keeps, Keeps-bind}
use buildomat.Server.Jobs.{
  Clock, job_append_event, job_wakeup, job_cancel, job_complete, finish_job, mark_tasks,
  mark_incomplete, job_outcome, task_complete, job_mark_archived,
}
use buildomat.Server.JobTable.{
  JobSteps, next, wake, cancel, finish, archive, OnJobs, is_waiting, is_incomplete, is_unarchived,
  woken, cancelled, finished, archived,
}
use buildomat.Server.JobTable.Frame.{job_rules}

module _ {Q : List Job → Type 0} (now : Clock) where
  mark_incomplete-OnJobs :
      (j : Job) (n : ℕ) (t : Task) → Keeps (OnJobs Q) (mark_incomplete now j n t)
  unfolding mark_incomplete
  mark_incomplete-OnJobs j n t = search job_rules depth 12

  pub mark_tasks-OnJobs :
      (j : Job) (n : ℕ) (b : Bool) (ts : List Task) → Keeps (OnJobs Q) (mark_tasks now j n b ts)
  unfolding mark_tasks
  mark_tasks-OnJobs j n b [] = search job_rules
  mark_tasks-OnJobs j n b (t ∷ ts) =
      Keeps-bind _ _ (mark_incomplete-OnJobs j n t)
        (λ n'. mark_tasks-OnJobs j n' (b || t.failed) ts)

  pub job_outcome-OnJobs :
      (j : Job) (failed : Bool) (m : ℕ × Bool) → Keeps (OnJobs Q) (job_outcome now j failed m)
  unfolding job_outcome
  job_outcome-OnJobs j true (n, b) = search job_rules
  job_outcome-OnJobs j false (n, false) = search job_rules
  job_outcome-OnJobs j false (n, true) = search job_rules

module _ {js : List Job} where
  wakes : (id : ℕ) (x : List Job) → JobSteps js x → JobSteps js (update (is_waiting id) woken x)
  wakes id x r = next r (wake id refl)

  cancels :
      (id : ℕ) (x : List Job) → JobSteps js x → JobSteps js (update (is_incomplete id) cancelled x)
  cancels id x r = next r (cancel id refl)

  finishes :
      (id : ℕ) (b : Bool) (x : List Job)
      → JobSteps js x
      → JobSteps js (update (is_incomplete id) (finished b) x)
  finishes id b x r = next r (finish id b refl)

  archives :
      (id t : ℕ) (x : List Job)
      → JobSteps js x
      → JobSteps js (update (is_unarchived id) (archived t) x)
  archives id t x r = next r (archive id t refl)

ruleset write_rules = (job_rules, wakes, cancels, finishes, archives)

module _ {Q : List Job → Type 0} where
  pub append_event-OnJobs :
      (job : ℕ) (task : Option ℕ) (stream : String) (time : ℕ) (remote : Option ℕ)
      (payload : Payload)
      → Keeps (OnJobs Q) (job_append_event job task stream time remote payload)
  unfolding job_append_event
  append_event-OnJobs job task stream time remote payload = search job_rules

  pub task_complete-OnJobs :
      (job seq : ℕ) (failed : Bool) → Keeps (OnJobs Q) (task_complete job seq failed)
  unfolding task_complete
  task_complete-OnJobs job seq failed = search job_rules depth 12

module _ {js : List Job} where
  pub mark_archived-JobSteps :
      (job time : ℕ) → Keeps (OnJobs (JobSteps js)) (job_mark_archived job time)
  unfolding job_mark_archived
  mark_archived-JobSteps job time = search write_rules

module _ {js : List Job} (now : Clock) where
  pub wakeup-JobSteps : (job : ℕ) → Keeps (OnJobs (JobSteps js)) (job_wakeup now job)
  unfolding job_wakeup
  wakeup-JobSteps job = search write_rules depth 12

  pub cancel-JobSteps : (job : ℕ) → Keeps (OnJobs (JobSteps js)) (job_cancel now job)
  unfolding job_cancel
  cancel-JobSteps job = search write_rules depth 12

  finish_job-JobSteps :
      (j : Job) (failed : Bool) → Keeps (OnJobs (JobSteps js)) (finish_job now j failed)
  unfolding finish_job
  finish_job-JobSteps j failed =
      search (write_rules, mark_tasks-OnJobs, job_outcome-OnJobs) depth 14

  pub complete-JobSteps :
      (job : ℕ) (failed : Bool) → Keeps (OnJobs (JobSteps js)) (job_complete now job failed)
  unfolding job_complete
  complete-JobSteps job failed = search (write_rules, finish_job-JobSteps) depth 8
