-- ===== src/Server/Completion/Examples.antt =====
-- A job whose only task has not run, completed as a success.
use buildomat.Prelude.{◌≡◌, refl, true, false, not, ◌||◌, some, ok, any, All}
use buildomat.Sql.{find, count, insert, select, order_by}
use buildomat.Server.State.{Database, job_is, after, ◌>>=◌, find_job, update_job}
use buildomat.Server.Events.{i_job_event_insert, i_job_time_record, max_seq}
use buildomat.Server.Samples.{a_job, clock, database}
use buildomat.Server.Jobs.{
  job_complete, finish_job, mark_tasks, mark_incomplete, job_outcome, task_of, update_task,
}
use buildomat.Server.JobTable.{finished}
use buildomat.Server.Completion.Tasks.{has_failed}
use buildomat.Server.Completion.Outcome.{job_complete-outcome}

abbrev completed : Database
completed = after database (job_complete clock 2 false database)

job_completes : job_complete clock 2 false database ≡ ok (true, completed)
unfolding job_complete ◌>>=◌ find_job find finish_job mark_tasks order_by select mark_incomplete
    i_job_event_insert max_seq insert update_task count job_outcome update_job i_job_time_record
job_completes = refl

job_complete-outcome_example :
    (true ≡ true)
    × (find (job_is 2) completed.job
        ≡ some
            (finished (false || any has_failed (select (task_of 2) database.task)) (a_job 2 false)))
    × All
        (λ t. ((a_job 2 false).cancelled || not (task_of 2 t) || t.complete) ≡ true)
        completed.task
unfolding find
job_complete-outcome_example =
    job_complete-outcome clock 2 false database (a_job 2 false) true completed (refl, (refl, tt))
      refl refl job_completes
