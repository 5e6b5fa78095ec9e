-- ===== src/Server/Api/Serve.antt =====
-- server/src/api/worker.rs: the requests about a job, as one step of the server. Each handler is registered by
-- server/src/main.rs; what comes with a request, and what the clock, the file system and the configuration
-- give to its handler, is the constructor's.
use buildomat.Prelude.{ℕ, Bool, List, Option, String, Result, ok, err}
use buildomat.Server.Jobs.{Clock}
use buildomat.Server.Api.{HttpError, Handler, Central}
use buildomat.Server.Api.WorkerRequests.{
  worker_job_append, worker_task_append, worker_task_complete, worker_job_store_get,
  worker_job_store_put, worker_job_input_download,
}
use buildomat.Server.Api.JobFiles.{
  worker_job_complete, worker_job_add_output, worker_job_add_output_sync, worker_job_upload_chunk,
}

pub data JobRequest : Type 0 where
  appends : Clock → String → ℕ → String → JobRequest
  appends_to_task : Clock → ℕ → String → ℕ → String → JobRequest
  completes_task : ℕ → Bool → JobRequest
  gets_store : String → JobRequest
  puts_store : ℕ → String → String → Bool → JobRequest
  downloads_input : Option ℕ → JobRequest
  uploads_chunk : Bool → ℕ → JobRequest
  adds_output_sync : (ℕ → ℕ → Option ℕ) → Option ℕ → ℕ → String → ℕ → Option (List ℕ) → JobRequest
  adds_output : ℕ → Option (List ℕ) → Option ℕ → String → ℕ → JobRequest
  completes : Clock → Bool → JobRequest

-- The body of the response is forgotten.
abbrev pub answered :
    {A S : Type 0} → (S → Central) → Result HttpError A × S → Result HttpError (Unit {0}) × Central
answered f (ok a, s) = (ok tt, f s)
answered f (err e, s) = (err e, f s)

unfoldable pub on_database :
    {A : Type 0} → Handler A → Central → Result HttpError (Unit {0}) × Central
on_database h c = answered (λ s. record c { database = s }) (h c.database)

unfoldable pub serve :
    JobRequest → Option String → Option ℕ → Central → Result HttpError (Unit {0}) × Central
serve (appends now stream time payload) token job =
    on_database (worker_job_append now token job stream time payload)
serve (appends_to_task now task stream time payload) token job =
    on_database (worker_task_append now token job task stream time payload)
serve (completes_task task failed) token job =
    on_database (worker_task_complete token job task failed)
serve (gets_store name) token job = on_database (worker_job_store_get token job name)
serve (puts_store now name value secret) token job =
    on_database (worker_job_store_put now token job name value secret)
serve (downloads_input input) token job = on_database (worker_job_input_download token job input)
serve (uploads_chunk written cid) token job =
    on_database (worker_job_upload_chunk written cid token job)
serve (adds_output_sync len copied fid path size chunks) token job =
    on_database (worker_job_add_output_sync len copied fid token job path size chunks)
serve (adds_output max chunks commit path size) token job =
    λ c. answered (λ c. c) (worker_job_add_output max token job chunks commit path size c)
serve (completes now failed) token job =
    λ c. answered (λ c. c) (worker_job_complete now token job failed c)
