-- ===== src/Server/Api/Examples.antt =====
-- Requests of the worker of a job, and of another.
use buildomat.Prelude.{◌≡◌, refl, false, List, [], ◌∷◌, none, some, ok, err}
use buildomat.Sql.{find, count, insert, select, order_by}
use buildomat.Server.State
use buildomat.Server.State.{Database, find_job, update_job}
use buildomat.Server.Events.{i_job_event_insert, i_job_time_record, max_seq}
use buildomat.Server.Jobs.{
  job_complete, finish_job, mark_tasks, mark_incomplete, job_outcome, update_task,
}
use buildomat.Server.Samples.{a_job, a_worker, clock, database}
use buildomat.Server.Bootstrap.{worker_auth, one_worker}
use buildomat.Server.Commits.{of_job, mark_job_completed, forget_job}
use buildomat.Server.Api.{forbidden, Central, parsed_id, job_by_str, call, reply, deny, ◌>>=◌}
use buildomat.Server.Api.WorkerRequests.{require_worker, owns, own_job, worker_job_append}
use buildomat.Server.Api.JobFiles.{worker_job_complete, close_job, complete_marked, forget_after}
use buildomat.Server.Api.Serve.{JobRequest, appends, completes, adds_output, on_database, serve}
use buildomat.Server.Api.Local.{Isolated}
use buildomat.Server.Api.Isolation.{serve-Isolated}
use buildomat.Server.Factories.{Fleet}
use buildomat.Server.Factories.Reach
use buildomat.Server.Api.Later.{Request, of_worker, of_factory, of_user, follow_all, data_of}
use buildomat.Server.Api.Later.Seals.{completes-seals}

abbrev two_workers : Database
two_workers = record database {
  job =
      record (a_job 1 false) { worker = some 8 } ∷ record (a_job 2 false) { worker = some 7 } ∷ [];
  worker =
      record a_worker { token = some "seven" }
      ∷ record a_worker { id = 8; bootstrap = "eight"; token = some "eight" }
      ∷ [];
}

abbrev busy : Central
busy = record {
  database = two_workers;
  files = record { commits = []; queue = []; completed_jobs = [] };
}

abbrev note : JobRequest
note = appends clock "stdout" 5 "hello"

stranger : serve note (some "eight") (some 2) busy ≡ (err forbidden, busy)
unfolding serve on_database worker_job_append own_job ◌>>=◌ require_worker worker_auth State.◌>>=◌
    select one_worker job_by_str parsed_id call find_job find owns deny
stranger = refl

serve-Isolated_example :
    Isolated (some "seven") (some 2) busy (serve note (some "seven") (some 2) busy).1
serve-Isolated_example = serve-Isolated (some "seven") (some 2) note busy

abbrev fleet : Fleet
fleet = record {
  factory = record { id = 3; name = "aws"; token = "three"; lastping = none } ∷ [];
  target = [];
}

abbrev over : Central
over = (serve (completes clock false) (some "seven") (some 2) busy).1

accepted : serve (completes clock false) (some "seven") (some 2) busy ≡ (ok tt, over)
unfolding serve worker_job_complete own_job ◌>>=◌ require_worker worker_auth State.◌>>=◌ select
    one_worker job_by_str parsed_id call find_job find owns reply close_job mark_job_completed
    complete_marked job_complete finish_job mark_tasks order_by mark_incomplete i_job_event_insert
    max_seq insert update_task count job_outcome update_job i_job_time_record forget_after
    forget_job
accepted = refl

-- An output file, an event of the factory and a value of the user, all too late.
abbrev too_late : List Request
too_late =
    of_worker (adds_output 100 (some []) (some 3) "/work/a" 0) (some "seven") (some 2)
    ∷ of_factory (Reach.appends clock "console" 6 "login:") fleet (some "three") (some 7)
    ∷ of_user 7 2 "note" "x" false
    ∷ of_worker note (some "seven") (some 2)
    ∷ []

completes-seals_example :
    (data_of 2 (follow_all too_late over).database ≡ data_of 2 over.database)
    × (select (of_job 2) (follow_all too_late over).files.commits ≡ [])
completes-seals_example = completes-seals clock false (some "seven") 2 busy over too_late accepted
