-- ===== src/Server/Waiters/Examples.antt =====
-- A job that waits for another one, which is done.
use buildomat.Prelude.{◌≡◌, refl, true, false, not, ◌||◌, some, is_none, any, All, ◌==◌}
use buildomat.Sql.{find}
use buildomat.Server.State.{Database, job_is}
use buildomat.Server.Samples.{a_job, clock, dependent}
use buildomat.Server.Files.{job_inputs}
use buildomat.Server.Waiters.{one_waiter}
use buildomat.Server.Waiters.Ready.{one_waiter-ready}

abbrev released : Database
released = (one_waiter (λ id. false) (λ id. clock) (a_job 1 true) dependent).1

released_row : find (job_is 1) released.job ≡ some (a_job 1 false)
unfolding find one_waiter buildomat.Server.Waiters.check_waiting
    buildomat.Server.Waiters.check_prior_jobs buildomat.Server.Waiters.check_depend
    buildomat.Server.Waiters.check_prior buildomat.Server.Waiters.job_depends
    buildomat.Server.Waiters.release buildomat.Server.State.◌>>=◌ buildomat.Server.State.find_job
    buildomat.Server.State.update_job buildomat.Server.Pass.◌>>=◌
    buildomat.Server.Files.i_job_outputs buildomat.Server.Files.join_outputs
    buildomat.Server.Files.files_of buildomat.Server.Files.job_inputs
    buildomat.Server.Files.join_inputs buildomat.Server.Depends.job_depend_satisfy
    buildomat.Server.Depends.copy_inputs buildomat.Server.Depends.copy_outputs_of
    buildomat.Server.Depends.add_copy buildomat.Server.Depends.set_satisfied
    buildomat.Sql.order_by_text buildomat.Sql.order_by buildomat.Sql.select
    buildomat.Sql.insert_or_ignore buildomat.Sql.update buildomat.Sql.count buildomat.Sql.insert
    buildomat.Server.Jobs.job_wakeup buildomat.Server.Events.i_job_time_record
    buildomat.Server.Events.i_job_time_delta buildomat.Server.Events.i_job_event_insert
    buildomat.Server.Events.max_seq
released_row = refl

one_waiter-ready_example :
    All (λ d. (not (d.job == 1) || d.satisfied) ≡ true) released.job_depend
    × (any (λ r. is_none r.1) (job_inputs 1 released) ≡ false)
unfolding find
one_waiter-ready_example =
    one_waiter-ready (λ id. false) (λ id. clock) (a_job 1 true) (a_job 1 true) (a_job 1 false)
      dependent refl refl released_row refl
