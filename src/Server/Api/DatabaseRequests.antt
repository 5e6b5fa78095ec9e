-- ===== src/Server/Api/DatabaseRequests.antt =====
-- The requests of a worker that only the database answers: each is local to the job of the worker.
use buildomat.Prelude.{
  ltb, ◌*◌, ℕ, refl, Bool, true, false, List, Option, none, some, String, Result, ok, err, inl, inr,
  Bool-cases,
}
use buildomat.Server.Models.{JobInput}
use buildomat.Server.Commits.{CommitError, assemble}
use buildomat.Server.Api.{bad_request, internal_error, Central, parsed_id}
use buildomat.Server.Api.Serve.{on_database}
use buildomat.Server.Jobs.{Clock}
use buildomat.Server.Api.Calls.{
  job_append_event-Part, task_complete-Part, job_add_output-Part, job_store_put-Part,
}
use buildomat.Server.Api.WorkerRequests.{
  worker_job_append, worker_task_append, worker_task_complete, worker_job_store_get,
  worker_job_store_put, worker_job_input_download, job_input_by_str, found_input,
}
use buildomat.Server.Api.JobFiles.{
  worker_job_upload_chunk, worker_job_add_output_sync, known_chunks, assembled,
}
use buildomat.Server.Api.{deny}
use buildomat.Server.Api.Local.{
  Isolated, Local, Local-call, Local-reply, Local-deny, Local-look, Local-bind, own_job-Isolated,
}

module _ (token : Option String) (job : Option ℕ) where
  pub appends-Isolated :
      (now : Clock) (stream : String) (time : ℕ) (payload : String) (c : Central)
      → Isolated token job c (on_database (worker_job_append now token job stream time payload) c).1
  unfolding worker_job_append
  appends-Isolated now stream time payload c =
      own_job-Isolated token job _ c
        λ j. Local-call _ λ k p other. job_append_event-Part j.id other _ _ _ _ _

  pub appends_to_task-Isolated :
      (now : Clock) (task : ℕ) (stream : String) (time : ℕ) (payload : String) (c : Central)
      → Isolated token job c
          (on_database (worker_task_append now token job task stream time payload) c).1
  unfolding worker_task_append
  appends_to_task-Isolated now task stream time payload c =
      own_job-Isolated token job _ c
        λ j. Local-call _ λ k p other. job_append_event-Part j.id other _ _ _ _ _

  pub completes_task-Isolated :
      (task : ℕ) (failed : Bool) (c : Central)
      → Isolated token job c (on_database (worker_task_complete token job task failed) c).1
  unfolding worker_task_complete
  completes_task-Isolated task failed c = own_job-Isolated token job _ c λ j.
      Local-bind _ _ (Local-call _ λ k p other. task_complete-Part j.id other _ _)
        λ b. Local-reply tt

  pub gets_store-Isolated :
      (name : String) (c : Central)
      → Isolated token job c (on_database (worker_job_store_get token job name) c).1
  unfolding worker_job_store_get
  gets_store-Isolated name c = own_job-Isolated token job _ c λ j. Local-look _

  pub puts_store-Isolated :
      (now : ℕ) (name value : String) (secret : Bool) (c : Central)
      → Isolated token job c
          (on_database (worker_job_store_put now token job name value secret) c).1
  unfolding worker_job_store_put
  puts_store-Isolated now name value secret c =
      own_job-Isolated token job _ c
        λ j. Local-call _ λ k p other. job_store_put-Part j.id other _ _ _ _ _

  pub uploads_chunk-Isolated :
      (written : Bool) (cid : ℕ) (c : Central)
      → Isolated token job c (on_database (worker_job_upload_chunk written cid token job) c).1
  unfolding worker_job_upload_chunk
  uploads_chunk-Isolated true cid c = own_job-Isolated token job _ c λ j. Local-reply cid
  uploads_chunk-Isolated false cid c = own_job-Isolated token job _ c λ j. Local-deny internal_error

  found_input-Local : (id : ℕ) (o : Option JobInput) → Local id (found_input o)
  unfolding found_input
  found_input-Local id none = Local-deny internal_error
  found_input-Local id (some r) = Local-reply r

  input_by_str-Local : (id : ℕ) (input : Option ℕ) → Local id (job_input_by_str id input)
  unfolding job_input_by_str parsed_id
  input_by_str-Local id none =
      Local-bind _ _ (Local-deny internal_error)
        λ f. Local-bind _ _ (Local-look _) λ o. found_input-Local id o
  input_by_str-Local id (some f) =
      Local-bind _ _ (Local-reply f) λ f. Local-bind _ _ (Local-look _) λ o. found_input-Local id o

  pub downloads_input-Isolated :
      (input : Option ℕ) (c : Central)
      → Isolated token job c (on_database (worker_job_input_download token job input) c).1
  unfolding worker_job_input_download
  downloads_input-Isolated input c =
      own_job-Isolated token job _ c
        λ j. Local-bind _ _ (input_by_str-Local j.id input) λ r. Local-reply _

  known_chunks-Local : (id : ℕ) (o : Option (List ℕ)) → Local id (known_chunks o)
  unfolding known_chunks
  known_chunks-Local id none = Local-deny internal_error
  known_chunks-Local id (some r) = Local-reply r

  assembled-Local : (id : ℕ) (o : Result CommitError ℕ) → Local id (assembled o)
  unfolding assembled
  assembled-Local id (err e) = Local-deny bad_request
  assembled-Local id (ok f) = Local-reply f

  pub adds_output_sync-Isolated :
      (len : ℕ → ℕ → Option ℕ) (copied : Option ℕ) (fid : ℕ) (path : String) (size : ℕ)
      (chunks : Option (List ℕ)) (c : Central)
      → Isolated token job c
          (on_database (worker_job_add_output_sync len copied fid token job path size chunks) c).1
  unfolding worker_job_add_output_sync Isolated on_database deny
  adds_output_sync-Isolated len copied fid path size chunks c =
      elim (Bool-cases (ltb (1024 * 1024 * 1024) size)) [
        | inl e ↦ rw e (inl refl)
        | inr e ↦ rw e (
            own_job-Isolated token job _ c λ j.
              Local-bind _ _ (known_chunks-Local j.id chunks) λ cs.
                Local-bind _ _ (assembled-Local j.id (assemble len copied fid j.id cs size))
                  λ f. Local-call _ λ k p other. job_add_output-Part j.id other _ _ _)
      ]
