-- ===== src/Server/Waiters.antt =====
-- server/src/jobs.rs: `job_waiters_one`, which looks at the jobs that wait for inputs or for other jobs.
pub mod Satisfied
pub mod Prior
pub mod Kept
pub mod Rest
pub mod Ready
pub mod Examples
use buildomat.Prelude.{
  ℕ, suc, Bool, true, false, not, ◌&&◌, List, [], ◌∷◌, Option, none, some, ◌==◌, if◌then◌else◌, any,
  is_none,
}
use buildomat.Sql.{select, find, order_by, order_by_text}
use buildomat.Server.Models.{
  Job, JobDepend, Payload, prior_job_failed, prior_job_succeeded, prior_job_deleted, is_archived,
}
use buildomat.Server.State.{Database, job_is, panic, refuse_if}
use buildomat.Server.Jobs.{Clock, job_append_event, job_wakeup}
use buildomat.Server.Files.{job_inputs}
use buildomat.Server.Depends.{job_depend_satisfy}
use buildomat.Server.Pass.{Pass, call, give, ask, for_each, complete_job, ◌>>=◌, ◌>>◌}

unfoldable pub jobs_waiting : Database → List Job
jobs_waiting s = order_by (λ j. j.id) (select (λ j. not j.complete && j.waiting) s.job)

unfoldable pub job_depends : ℕ → Database → List JobDepend
job_depends job s = order_by_text (λ d. d.name) (select (λ d. d.job == job) s.job_depend)

-- `held` as for `complete_job`, and the clock of each call: `now id k` is its k-th reading while the
-- pass is at the job `id`.
module _ (held : ℕ → Bool) (now : ℕ → Clock) where
  -- The answer of these is whether the pass goes on with the job, or leaves it (`continue 'job`).
  unfoldable pub give_up : Job → Payload → Pass Bool
  give_up j failmsg = do
    call (job_append_event j.id none "control" (now j.id 0) none failmsg)
    complete_job held (λ k. now j.id (suc k)) j.id true
    give false

  unfoldable pub satisfy : Job → JobDepend → Pass Bool
  satisfy j d = do call (job_depend_satisfy j.id d.name); give true

  unfoldable pub check_prior : Job → JobDepend → Option Job → Pass Bool
  unfolding give_up satisfy
  check_prior j d none = give_up j (prior_job_deleted d.prior_job d.name)
  check_prior j d (some pj) =
      if not pj.complete
      then give false
      else if pj.failed
      then (if d.on_failed then satisfy j d else give_up j (prior_job_failed d.prior_job d.name))
      else if d.on_completed
      then satisfy j d
      else give_up j (prior_job_succeeded d.prior_job d.name)

  unfoldable pub check_depend : Job → JobDepend → Pass Bool
  check_depend j d =
      if d.satisfied
      then give true
      else (do pj ← ask (λ s. find (job_is d.prior_job) s.job); check_prior j d pj)

  unfoldable pub check_prior_jobs : Job → List JobDepend → Pass Bool
  check_prior_jobs j [] = give true
  check_prior_jobs j (d ∷ ds) =
      let rest = check_prior_jobs j ds in do go ← check_depend j d; if go then rest else give false

  -- At least one input file is not yet uploaded, or the job is released for execution.
  unfoldable pub release : Job → Pass (Unit {0})
  release j = do
    inputs ← ask (λ s. job_inputs j.id s)
    if any (λ r. is_none r.1) inputs then give tt else call (job_wakeup (now j.id) j.id)

  unfoldable pub check_waiting : Job → Pass (Unit {0})
  check_waiting j = do
    depends ← ask (λ s. job_depends j.id s)
    go ← check_prior_jobs j depends
    if go then release j else give tt

  unfoldable pub one_waiter : Job → Pass (Unit {0})
  one_waiter j =
      if j.cancelled then complete_job held (now j.id) j.id true >> give tt else check_waiting j

  unfoldable pub asserted_waiter : Job → Pass (Unit {0})
  asserted_waiter j = do call (refuse_if (is_archived j) panic); one_waiter j

  unfoldable pub job_waiters_one : Pass (Unit {0})
  job_waiters_one = do jobs ← ask jobs_waiting; for_each asserted_waiter jobs
