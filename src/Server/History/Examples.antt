-- ===== src/Server/History/Examples.antt =====
-- A database of two jobs and a worker, and a history of calls on it.
use buildomat.Prelude.{
  ℕ, ◌+◌, ◌++◌, any, leb, ◌==◌, if◌then◌else◌, none, ◌≡◌, refl, true, List, [], ◌∷◌, false, Option,
  ok, arith,
}
use buildomat.Sql.{find, count}
use buildomat.Server.Events.{i_job_event_insert}
use buildomat.Server.Events.Sequence.{event_insert-next, event_row, seq_of}
use buildomat.Server.Models.{job_cancelled, Job}
use buildomat.Server.Jobs.{Clock}
use buildomat.Server.Workers.{worker_job}
use buildomat.Server.Samples.{a_job, clock, database}
use buildomat.Server.History.{
  Call, wakes, cancels, completes, completes_task, archives, assigns, passes_assignment, step, run,
}
use buildomat.Server.JobTable.{JobSteps}
use buildomat.Server.JobTable.Exclusive.{IsExclusive}
use buildomat.Server.JobTable.Lifecycle.{Follows}
use buildomat.Server.History.Jobs.{step-JobSteps, run-Follows, worker_job_total}

abbrev calls : List (Clock × Call)
calls =
    (clock, wakes 1)
    ∷ (clock, assigns 7 1)
    ∷ (clock, assigns 7 2)
    ∷ (clock, passes_assignment (λ id. false) (λ id. clock))
    ∷ (clock, completes_task 1 0 true)
    ∷ (clock, cancels 1)
    ∷ (clock, completes 1 true)
    ∷ (clock, archives 1 2000)
    ∷ []

no_job_IsExclusive : IsExclusive database.job
unfolding count
no_job_IsExclusive w = ground arith

step-JobSteps_example : JobSteps database.job (step (λ id. id) database (clock, wakes 1)).job
step-JobSteps_example = step-JobSteps (λ id. id) database clock (wakes 1)

run-Follows_example : Follows (run (λ id. id) database calls).job 1 (a_job 1 true)
unfolding find
run-Follows_example = run-Follows (λ id. id) database calls 1 (a_job 1 true) refl

worker_job_total_example :
    IsExclusive (run (λ id. id) database calls).job
    × ((o : Option Job) × (worker_job 7 (run (λ id. id) database calls)
          ≡ ok (o, run (λ id. id) database calls)))
worker_job_total_example = worker_job_total (λ id. id) database calls 7 no_job_IsExclusive

event_insert-next_example :
    (n : ℕ) × (i_job_event_insert 1 none "control" 5 none job_cancelled database
      ≡ ok (
        tt,
        record database {
          job_event = database.job_event ++ event_row 1 none n "control" 5 none job_cancelled ∷ [];
        },
      ))
    × (any (seq_of 1 (leb n)) database.job_event ≡ false)
    × ((if any (λ e. e.job == 1) database.job_event
          then any (seq_of 1 (λ q. q + 1 == n)) database.job_event
          else n == 1)
        ≡ true)
event_insert-next_example = event_insert-next 1 none "control" 5 none job_cancelled database refl
