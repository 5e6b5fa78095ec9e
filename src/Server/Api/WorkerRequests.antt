-- ===== src/Server/Api/WorkerRequests.antt =====
-- server/src/api/worker.rs: what the agent on a worker asks for, with `require_worker` of
-- server/src/main.rs. The token is that of the Authorization header, if there is one.
use buildomat.Prelude.{
  ℕ, suc, Bool, ◌&&◌, ◌||◌, List, [], ◌∷◌, Option, none, some, String, Result, ok, err, ◌==◌,
  if◌then◌else◌, holds_id, is_some, map,
}
use buildomat.Sql.{select, find, order_by}
use buildomat.Server.Models.{Worker, Job, Task, JobOutputRule, JobInput, JobStore, JsonValue, text}
use buildomat.Server.State.{Database, Failure}
use buildomat.Server.Jobs.{Clock, job_append_event, task_complete}
use buildomat.Server.Workers.{worker_ping, worker_job}
use buildomat.Server.Store.{job_store_put, store_is}
use buildomat.Server.Files.{job_inputs}
use buildomat.Server.Bootstrap.{worker_auth, worker_bootstrap}
use buildomat.Server.Api.{
  HttpError, Handler, parsed_id, unauthorised, forbidden, internal_error, call, reply, deny, look,
  job_by_str, ◌>>=◌, ◌>>◌,
}

abbrev pub authenticated :
    Database → Result Failure (Worker × Database) → Result HttpError Worker × Database
authenticated s (ok (w, t)) = (ok w, t)
authenticated s (err e) = (err unauthorised, s)

unfoldable pub require_worker : Option String → Handler Worker
require_worker none s = (err unauthorised, s)
require_worker (some token) s = authenticated s (worker_auth token s)

unfoldable pub owns : Worker → Job → Handler (Unit {0})
owns w j = if holds_id j.worker w.id then reply tt else deny forbidden

-- What every request about a job begins with.
unfoldable pub own_job : Option String → Option ℕ → Handler Job
own_job token job = do w ← require_worker token; j ← job_by_str job; owns w j; reply j

pub record PingTask : Type 0 where
  pub id : ℕ
  pub task : Task
  pub uid : ℕ
  pub gid : ℕ
  pub workdir : String

pub record PingJob : Type 0 where
  pub job : Job
  pub output_rules : List JobOutputRule
  pub tasks : List PingTask
  pub inputs : List JobInput

pub record PingResult (M : Type 0) : Type 0 where
  pub poweroff : Bool
  pub job : Option PingJob
  pub factory_metadata : Option M

abbrev or_root : Option ℕ → ℕ
or_root none = 0
or_root (some n) = n

abbrev origin : JobInput → ℕ
origin r = elim r.other_job [ none ↦ r.job | some j ↦ j ]

abbrev or_slash : Option String → String
or_slash none = "/"
or_slash (some d) = d

ping_tasks : ℕ → List Task → List PingTask
ping_tasks i [] = []
ping_tasks i (t ∷ ts) =
    record {
      id = i;
      task = t;
      uid = or_root t.user_id;
      gid = or_root t.group_id;
      workdir = or_slash t.workdir;
    }
    ∷ ping_tasks (suc i) ts

-- The job as the agent is told of it: its rules and tasks in order, and the inputs that have a file.
unfoldable pub ping_job : Job → Database → PingJob
unfolding ping_tasks
ping_job j s = record {
  job = j;
  output_rules = order_by (λ r. r.seq) (select (λ r. r.job == j.id) s.job_output_rule);
  tasks = ping_tasks 0 (order_by (λ t. t.seq) (select (λ t. t.job == j.id) s.task));
  inputs = map (λ r. r.0) (select (λ r. is_some r.0.id) (job_inputs j.id s));
}

unfoldable pub told : Option Job → Handler (Option PingJob)
told none = reply none
told (some j) = look (λ s. some (ping_job j s))

unfoldable pub job_for : Worker → Handler (Option PingJob)
job_for w = if w.wait_for_flush then reply none else (do j ← call (worker_job w.id); told j)

-- `from_json` is the `serde_json` crate's reading of the factory's metadata.
module _ {M : Type 0} (from_json : JsonValue → Option M) where
  unfoldable pub factory_metadata : Option JsonValue → Handler (Option M)
  factory_metadata none = reply none
  factory_metadata (some v) = elim (from_json v) [
    | none ↦ deny internal_error
    | some m ↦ reply (some m)
  ]

  unfoldable pub ping : ℕ → Option String → Handler (PingResult M)
  ping now token = do
    w ← require_worker token
    call (worker_ping now w.id)
    metadata ← factory_metadata w.factory_metadata
    job ← job_for w
    reply (record { poweroff = w.recycle || w.deleted; job = job; factory_metadata = metadata })

abbrev pub input_is : ℕ → ℕ → JobInput → Bool
input_is job file r = r.job == job && holds_id r.id file

unfoldable pub found_input : Option JobInput → Handler JobInput
found_input none = deny internal_error
found_input (some r) = reply r

unfoldable pub job_input_by_str : ℕ → Option ℕ → Handler JobInput
job_input_by_str job file = do
  fid ← parsed_id file
  row ← look (λ s. find (input_is job fid) s.job_input)
  found_input row

-- The job and the file that `file_response` is to send. The row has the ID by which it was found, so
-- the `unwrap` of it holds.
unfoldable pub worker_job_input_download :
    Option String → Option ℕ → Option ℕ → Handler (ℕ × Option ℕ)
worker_job_input_download token job input = do
  j ← own_job token job
  r ← job_input_by_str j.id input
  reply (origin r, r.id)

unfoldable pub worker_job_append :
    Clock → Option String → Option ℕ → String → ℕ → String → Handler (Unit {0})
worker_job_append now token job stream time payload = do
  j ← own_job token job
  call (job_append_event j.id none stream (now 0) (some time) (text payload))

unfoldable pub worker_task_append :
    Clock → Option String → Option ℕ → ℕ → String → ℕ → String → Handler (Unit {0})
worker_task_append now token job task stream time payload = do
  j ← own_job token job
  call (job_append_event j.id (some task) stream (now 0) (some time) (text payload))

unfoldable pub worker_task_complete : Option String → Option ℕ → ℕ → Bool → Handler (Unit {0})
worker_task_complete token job task failed = do
  j ← own_job token job
  call (task_complete j.id task failed)
  reply tt

unfoldable pub worker_job_store_get : Option String → Option ℕ → String → Handler (Option JobStore)
worker_job_store_get token job name = do
  j ← own_job token job
  look (λ s. find (store_is j.id name) s.job_store)

unfoldable pub worker_job_store_put :
    ℕ → Option String → Option ℕ → String → String → Bool → Handler (Unit {0})
worker_job_store_put now token job name value secret = do
  j ← own_job token job
  call (job_store_put now j.id name value secret "worker")

unfoldable pub strapped : Option Worker → Handler ℕ
strapped none = deny unauthorised
strapped (some w) = reply w.id

unfoldable pub bootstrap : ℕ → String → String → Handler ℕ
bootstrap now key token = do w ← call (worker_bootstrap now key token); strapped w
