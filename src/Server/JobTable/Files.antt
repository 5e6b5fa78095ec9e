-- ===== src/Server/JobTable/Files.antt =====
-- The job table under the calls of server/src/db.rs on files, dependencies and workers.
use buildomat.Prelude.{ℕ, ◌≡◌, refl, String, Bool, List, [], ◌∷◌, Option, none, some, arith}
use buildomat.Server.Models.{
  Job, JobInput, JobOutput, JobFile, JobDepend, PublishedFile, Worker, JsonValue,
}
use buildomat.Server.State.{Database, after}
use buildomat.Server.State.Keeps.{Keeps, Keeps-bind, Keeps-gets}
use buildomat.Server.Files.{
  insert_file, job_add_output, job_add_input, update_input, insert_published, publish,
  job_publish_output, job_file_mark_archived,
}
use buildomat.Server.Depends.{
  add_copy, copy_outputs_of, copy_inputs, set_satisfied, job_depend_satisfy,
}
use buildomat.Server.Bootstrap.{
  update_worker, give_token, bootstrap_token, worker_bootstrap, associate_private,
  associate_metadata, worker_associate,
}
use buildomat.Server.JobTable.{OnJobs}
use buildomat.Server.JobTable.Frame.{OnJobs-same, job_rules, stored-OnJobs}

update_input-job :
    (p : JobInput → Bool) (f : JobInput → JobInput) (s : Database)
    → (after s (update_input p f s)).job ≡ s.job
unfolding update_input
update_input-job p f s = ground arith

update_worker-job :
    (p : Worker → Bool) (f : Worker → Worker) (s : Database)
    → (after s (update_worker p f s)).job ≡ s.job
unfolding update_worker
update_worker-job p f s = ground arith

mark_archived-job :
    (file : JobFile) (time : ℕ) (s : Database)
    → (after s (job_file_mark_archived file time s)).job ≡ s.job
unfolding job_file_mark_archived
mark_archived-job file time s = ground arith

module _ {Q : List Job → Type 0} where
  update_input-OnJobs :
      (p : JobInput → Bool) (f : JobInput → JobInput) → Keeps (OnJobs Q) (update_input p f)
  update_input-OnJobs p f = OnJobs-same _ (update_input-job p f)

  update_worker-OnJobs :
      (p : Worker → Bool) (f : Worker → Worker) → Keeps (OnJobs Q) (update_worker p f)
  update_worker-OnJobs p f = OnJobs-same _ (update_worker-job p f)

  add_copy-OnJobs : (ji : JobInput) → Keeps (OnJobs Q) (add_copy ji)
  unfolding add_copy
  add_copy-OnJobs ji = OnJobs-same _ (λ s. refl)

  copy_outputs-OnJobs :
      (j : Job) (d : JobDepend) (os : List (JobOutput × JobFile))
      → Keeps (OnJobs Q) (copy_outputs_of j d os)
  unfolding copy_outputs_of
  copy_outputs-OnJobs j d [] = search job_rules
  copy_outputs-OnJobs j d (o ∷ os) =
      Keeps-bind _ _ (add_copy-OnJobs _) λ _. copy_outputs-OnJobs j d os

  set_satisfied-OnJobs : (job : ℕ) (name : String) → Keeps (OnJobs Q) (set_satisfied job name)
  unfolding set_satisfied
  set_satisfied-OnJobs job name = OnJobs-same _ (λ s. refl)

  insert_file-OnJobs : (job id size : ℕ) → Keeps (OnJobs Q) (insert_file job id size)
  unfolding insert_file
  insert_file-OnJobs job id size =
      Keeps-bind _ _ (Keeps-gets _) λ rows. stored-OnJobs rows _ (λ s rs. refl)

  insert_published-OnJobs : (row : PublishedFile) → Keeps (OnJobs Q) (insert_published row)
  unfolding insert_published
  insert_published-OnJobs row =
      Keeps-bind _ _ (Keeps-gets _) λ rows. stored-OnJobs rows _ (λ s rs. refl)

  pub file_mark_archived-OnJobs :
      (file : JobFile) (time : ℕ) → Keeps (OnJobs Q) (job_file_mark_archived file time)
  file_mark_archived-OnJobs file time = OnJobs-same _ (mark_archived-job file time)

ruleset file_rules = (
  job_rules, update_input-OnJobs, update_worker-OnJobs, copy_outputs-OnJobs, set_satisfied-OnJobs,
  insert_file-OnJobs, insert_published-OnJobs,
)

module _ {Q : List Job → Type 0} where
  pub add_output-OnJobs :
      (job : ℕ) (path : String) (id size : ℕ) → Keeps (OnJobs Q) (job_add_output job path id size)
  unfolding job_add_output
  add_output-OnJobs job path id size = search (file_rules, stored-OnJobs) depth 14

  pub add_input-OnJobs :
      (job : ℕ) (name : String) (id size : ℕ) → Keeps (OnJobs Q) (job_add_input job name id size)
  unfolding job_add_input
  add_input-OnJobs job name id size = search file_rules depth 12

  publish-OnJobs :
      (j : Job) (job : ℕ) (row : PublishedFile) (o : Option PublishedFile)
      → Keeps (OnJobs Q) (publish j job row o)
  unfolding publish
  publish-OnJobs j job row none = search file_rules
  publish-OnJobs j job row (some pf) = search file_rules

  pub publish_output-OnJobs :
      (job file : ℕ) (series version name : String)
      → Keeps (OnJobs Q) (job_publish_output job file series version name)
  unfolding job_publish_output
  publish_output-OnJobs job file series version name = search (file_rules, publish-OnJobs) depth 14

  pub depend_satisfy-OnJobs :
      (jid : ℕ) (name : String) → Keeps (OnJobs Q) (job_depend_satisfy jid name)
  unfolding job_depend_satisfy copy_inputs
  depend_satisfy-OnJobs jid name = search file_rules depth 20

  bootstrap_token-OnJobs :
      (now : ℕ) (w : Worker) (bootstrap token : String) (o : Option String)
      → Keeps (OnJobs Q) (bootstrap_token now w bootstrap token o)
  unfolding bootstrap_token give_token
  bootstrap_token-OnJobs now w bootstrap token (some c) = search file_rules depth 12
  bootstrap_token-OnJobs now w bootstrap token none = search file_rules depth 12

  pub bootstrap-OnJobs :
      (now : ℕ) (bootstrap token : String) → Keeps (OnJobs Q) (worker_bootstrap now bootstrap token)
  unfolding worker_bootstrap
  bootstrap-OnJobs now bootstrap token = search (file_rules, bootstrap_token-OnJobs) depth 12

  associate_private-OnJobs :
      (w : Worker) (p : String) (o : Option String) → Keeps (OnJobs Q) (associate_private w p o)
  unfolding associate_private
  associate_private-OnJobs w p none = search file_rules
  associate_private-OnJobs w p (some c) = search file_rules

  associate_metadata-OnJobs :
      (w : Worker) (m o : Option JsonValue) → Keeps (OnJobs Q) (associate_metadata w m o)
  unfolding associate_metadata
  associate_metadata-OnJobs w none o = search file_rules
  associate_metadata-OnJobs w (some m) none = search file_rules
  associate_metadata-OnJobs w (some m) (some o) = search file_rules

  pub associate-OnJobs :
      (wid : ℕ) (p : String) (m : Option JsonValue) → Keeps (OnJobs Q) (worker_associate wid p m)
  unfolding worker_associate
  associate-OnJobs wid p m =
      search (file_rules, associate_private-OnJobs, associate_metadata-OnJobs) depth 12
