-- ===== src/Server/Api/Later.antt =====
-- server/src/api: the requests that write events, values and files for jobs, as a sequence: those of
-- workers (worker.rs), those of factories about their workers (factory.rs), and the database call by
-- which a user puts a value in a store (`job_store_put` of user.rs).
pub mod Recorded
pub mod Seals
use buildomat.Prelude.{ℕ, Bool, List, [], ◌∷◌, Option, String, ◌==◌}
use buildomat.Sql.{select}
use buildomat.Server.Models.{JobEvent, JobStore, JobOutput, JobFile}
use buildomat.Server.State.{Database}
use buildomat.Server.Store.{job_store_put}
use buildomat.Server.Factories.{Fleet}
use buildomat.Server.Factories.Reach.{WorkerRequest}
use buildomat.Server.Factories.Reach.{serve as serve_factory}
use buildomat.Server.Api.{Central, call}
use buildomat.Server.Api.Serve.{JobRequest, serve}

pub data Request : Type 0 where
  of_worker : JobRequest → Option String → Option ℕ → Request
  of_factory : WorkerRequest → Fleet → Option String → Option ℕ → Request
  of_user : ℕ → ℕ → String → String → Bool → Request

unfoldable pub follow : Request → Central → Central
follow (of_worker r token job) c = (serve r token job c).1
follow (of_factory r fleet token worker) c = record c {
  database = serve_factory r fleet token worker c.database;
}
follow (of_user now job name value secret) c = record c {
  database = (call (job_store_put now job name value secret "user") c.database).1;
}

unfoldable pub follow_all : List Request → Central → Central
follow_all [] c = c
follow_all (r ∷ rs) c = follow_all rs (follow r c)

-- What has been recorded for a job.
pub record JobData : Type 0 where
  pub events : List JobEvent
  pub values : List JobStore
  pub outputs : List JobOutput
  pub files : List JobFile

unfoldable pub data_of : ℕ → Database → JobData
data_of k s = record {
  events = select (λ r. r.job == k) s.job_event;
  values = select (λ r. r.job == k) s.job_store;
  outputs = select (λ r. r.job == k) s.job_output;
  files = select (λ r. r.job == k) s.job_file;
}
