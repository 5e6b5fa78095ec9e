-- ===== src/Server/Commits/Examples.antt =====
-- Commits on small histories.
use buildomat.Prelude.{◌≡◌, refl, true, false, List, [], ◌∷◌, none, some, ◌==◌, any}
use buildomat.Sql.{find, update, insert, count}
use buildomat.Server.Samples.{a_job}
use buildomat.Server.State.{Database}
use buildomat.Server.Files.{job_add_input}
use buildomat.Server.Commits.{
  BackgroundId, input, output, commit_file, commit_new, mark_active, take_work, mark_complete,
  mark_job_completed, forget_job, commit_work,
}
use buildomat.Server.Commits.History.{
  Uploads, Action, run, step, start, submit, take, work, finish, mark,
}
use buildomat.Server.Commits.Sound.{has_job, job_pending}
use buildomat.Server.Commits.Idle.{run_total, completed_idle}

abbrev no_rows : Database
no_rows = record {
  job = [];
  task = [];
  job_event = [];
  job_output_rule = [];
  job_output = [];
  job_input = [];
  job_file = [];
  job_tag = [];
  job_depend = [];
  job_time = [];
  job_store = [];
  published_file = [];
  worker = [];
}

abbrev one_row : Database
one_row = record no_rows { job = a_job 7 true ∷ [] }

abbrev first_commit : BackgroundId
first_commit = record { job = 7; commit = 1 }

-- A commit of one chunk that is not there, a completion that comes too early, and one that does not.
abbrev one_commit : List Action
one_commit =
    submit first_commit (output "/work/a") 10 (3 ∷ [])
    ∷ take 100
    ∷ mark 7
    ∷ work first_commit (λ j c. none) none 50
    ∷ finish first_commit 200
    ∷ mark 7
    ∷ []

completes :
    (u : Uploads) × (run one_commit (start no_rows) ≡ some u)
    × (has_job 7 u.inner.completed_jobs ≡ true)
unfolding run step commit_file commit_new mark_active take_work mark_complete mark_job_completed
    forget_job commit_work find update buildomat.Server.Commits.assemble
completes = (_, refl, refl)

run_total_example : (u : Uploads) × (run one_commit (start no_rows) ≡ some u)
run_total_example = run_total one_commit no_rows

completed_idle_example :
    (any (λ id. id.job == 7) (completes.0).inner.queue ≡ false)
    × (any (λ w. w.fc.id.job == 7) (completes.0).working ≡ false)
    × (any (job_pending 7) (completes.0).inner.commits ≡ false)
completed_idle_example = completed_idle one_commit no_rows completes.0 7 completes.1 completes.2

-- The commit of an input that the job does not have: the thread dies, and the job is never completed.
abbrev unknown_input : List Action
unknown_input =
    submit first_commit (input "b") 0 []
    ∷ take 100
    ∷ work first_commit (λ j c. none) (some 0) 50
    ∷ mark 7
    ∷ []

thread_dies :
    (u : Uploads) × (run unknown_input (start one_row) ≡ some u)
    × (u.working ≡ [])
    × (any (job_pending 7) u.inner.commits ≡ true)
    × (has_job 7 u.inner.completed_jobs ≡ false)
unfolding run step commit_file commit_new mark_active take_work mark_job_completed commit_work find
    update job_add_input buildomat.Server.Commits.assemble buildomat.Server.State.◌>>=◌
    buildomat.Server.State.find_job buildomat.Server.Files.insert_file count insert
    buildomat.Server.Files.update_input buildomat.Sql.select
thread_dies = (_, refl, refl, refl, refl)
