-- ===== src/Server/Samples.antt =====
-- A small database for the examples: two jobs, a task and a worker.
use buildomat.Prelude.{ℕ, ◌+◌, Bool, true, false, [], ◌∷◌, none, some}
use buildomat.Server.Models.{JobDepend, Job, Task, Worker}
use buildomat.Server.State.{Database}
use buildomat.Server.Jobs.{Clock}

abbrev pub a_job : ℕ → Bool → Job
a_job id waiting = record {
  id = id;
  owner = 5;
  name = "build";
  target = "default";
  complete = false;
  failed = false;
  worker = none;
  waiting = waiting;
  target_id = some 9;
  cancelled = false;
  time_archived = none;
}

abbrev pub a_task : ℕ → Task
a_task job = record {
  job = job;
  seq = 0;
  name = "make";
  script = "make";
  env_clear = false;
  env = [];
  user_id = none;
  group_id = none;
  workdir = none;
  complete = false;
  failed = false;
}

abbrev pub a_worker : Worker
a_worker = record {
  id = 7;
  bootstrap = "key";
  token = none;
  factory_private = none;
  deleted = false;
  recycle = false;
  lastping = none;
  factory = some 3;
  target = some 9;
  wait_for_flush = false;
  factory_metadata = none;
}

abbrev pub database : Database
database = record {
  job = a_job 1 true ∷ a_job 2 false ∷ [];
  task = a_task 1 ∷ a_task 2 ∷ [];
  job_event = [];
  job_output_rule = [];
  job_output = [];
  job_input = [];
  job_file = [];
  job_tag = [];
  job_depend = [];
  job_time = [];
  job_store = [];
  published_file = [];
  worker = a_worker ∷ [];
}

abbrev pub clock : Clock
clock k = 1000 + k

-- The first job waits for the second, which is done.
abbrev pub a_depend : JobDepend
a_depend = record {
  job = 1;
  name = "builds";
  prior_job = 2;
  copy_outputs = true;
  on_failed = false;
  on_completed = true;
  satisfied = false;
}

abbrev pub dependent : Database
dependent = record database {
  job = a_job 1 true ∷ record (a_job 2 false) { complete = true } ∷ [];
  job_depend = a_depend ∷ [];
  job_file = record { job = 2; id = 11; size = 4; time_archived = none } ∷ [];
  job_output = record { job = 2; path = "/work/file"; id = 11 } ∷ [];
}
