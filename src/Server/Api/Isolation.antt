-- ===== src/Server/Api/Isolation.antt =====
-- A worker reaches the job that it was given, and no other.
use buildomat.Prelude.{
  ℕ, ◌≡◌, refl, ◌∙◌, Bool, false, List, Option, none, some, String, Result, ok, err, ltb, inl, inr,
  Bool-cases, Result-cases, ◌==◌,
}
use buildomat.Server.Models.{Job}
use buildomat.Server.State.{Database, after}
use buildomat.Server.Jobs.{Clock, job_complete}
use buildomat.Server.Commits.{CommitError, Inner, Fault, mark_job_completed, forget_job}
use buildomat.Server.Api.{HttpError, Central}
use buildomat.Server.Api.Parts.{part}
use buildomat.Server.Api.Owner.{own_job-cases}
use buildomat.Server.Api.Local.{share, Isolated, Spares}
use buildomat.Server.Api.Calls.{job_complete-Part}
use buildomat.Server.Api.Quiet.{Quiet, Quiet-share, commit_file-Quiet, mark-Quiet, forget-Quiet}
use buildomat.Server.Api.WorkerRequests.{own_job}
use buildomat.Server.Api.JobFiles.{
  forget_after, complete_marked, close_job, with_job, commit_result, add_output,
  worker_job_complete, worker_job_add_output,
}
use buildomat.Server.Api.Serve.{
  JobRequest, appends, appends_to_task, completes_task, gets_store, puts_store, downloads_input,
  uploads_chunk, adds_output_sync, adds_output, completes, answered, serve,
}
use buildomat.Server.Api.DatabaseRequests.{
  appends-Isolated, appends_to_task-Isolated, completes_task-Isolated, gets_store-Isolated,
  puts_store-Isolated, downloads_input-Isolated, uploads_chunk-Isolated, adds_output_sync-Isolated,
}

module _ (k job : ℕ) (other : (job == k) ≡ false) where
  forgotten-share : (c : Central) → share k (forget_after job c).1 ≡ share k c
  unfolding forget_after
  forgotten-share c = elim (Result-cases (forget_job job c.files)) [
    | inl (i, e) ↦
        rw (forget_after, e)
          (Quiet-share k c (record c { files = i }) refl (forget-Quiet k job c.files i other e))
    | inr (f, e) ↦ rw (forget_after, e) refl
  ]

  completed-part :
      (now : Clock) (failed : Bool) (s : Database)
      → part k (after s (job_complete now job failed s)) ≡ part k s
  completed-part now failed s =
      ((job_complete-Part job other now failed).at s (record { holds = refl })).holds

  marked-share :
      (now : Clock) (failed : Bool) (c : Central)
      → share k (complete_marked now job failed c).1 ≡ share k c
  unfolding complete_marked
  marked-share now failed c = elim (Result-cases (job_complete now job failed c.database)) [
    | inl ((b, t), e) ↦
        rw (complete_marked, e)
          (forgotten-share (record c { database = t })
            ∙ Quiet-share k c (record c { database = t })
                (rw e at (completed-part now failed c.database))
                (record { commits = refl; queue = refl; completed = refl }))
    | inr (f, e) ↦ rw (complete_marked, e) refl
  ]

  close_job-share :
      (now : Clock) (failed : Bool) (c : Central)
      → share k (close_job now failed job c).1 ≡ share k c
  unfolding close_job
  close_job-share now failed c = elim (Result-cases (mark_job_completed job c.files)) [
    | inl (i, e) ↦
        rw (close_job, e)
          (marked-share now failed (record c { files = i })
            ∙ Quiet-share k c (record c { files = i }) refl (mark-Quiet k job c.files i other e))
    | inr (f, e) ↦ rw (close_job, e) refl
  ]

  commit_result-share :
      (c : Central) (r : Result Fault (Option (Result (CommitError × ℕ) (Unit {0})) × Inner))
      → ((o : Option (Result (CommitError × ℕ) (Unit {0}))) (i : Inner)
          → r ≡ ok (o, i)
          → Quiet k c.files i)
      → share k (commit_result c r).1 ≡ share k c
  commit_result-share c (ok (none, i)) quiet =
      Quiet-share k c (record c { files = i }) refl (quiet none i refl)
  commit_result-share c (ok (some (ok u), i)) quiet =
      Quiet-share k c (record c { files = i }) refl (quiet (some (ok u)) i refl)
  commit_result-share c (ok (some (err (e, ms)), i)) quiet =
      Quiet-share k c (record c { files = i }) refl (quiet _ i refl)
  commit_result-share c (err e) quiet = refl

  add_output-share :
      (max : ℕ) (chunks : Option (List ℕ)) (commit : Option ℕ) (path : String) (size : ℕ)
      (c : Central)
      → share k (add_output max chunks commit path size job c).1 ≡ share k c
  unfolding add_output
  add_output-share max none commit path size c = refl
  add_output-share max (some cs) none path size c = refl
  add_output-share max (some cs) (some id) path size c = elim (Bool-cases (ltb max size)) [
    | inl e ↦ rw e refl
    | inr e ↦
        rw e (commit_result-share c _ λ o i h. commit_file-Quiet k _ _ _ _ c.files i o other h)
  ]

pub answered-state : {A : Type 0} (r : Result HttpError A × Central) → (answered (λ c. c) r).1 ≡ r.1
answered-state (ok a, c) = refl
answered-state (err e, c) = refl

module _ (token : Option String) (job : Option ℕ) where
  with_job-Isolated :
      {A : Type 0} (f : Job → Central → Result HttpError A × Central) (c : Central)
      → ((j : Job) → Spares j.id c (f j c).1)
      → Isolated token job c (with_job (own_job token job c.database).0 f c).1
  unfolding Isolated
  with_job-Isolated f c spares = elim (own_job-cases token job c.database) [
    | inl (e, h) ↦ inl (rw h refl)
    | inr (j, owner, h) ↦ inr (j, owner, rw h (spares j))
  ]

  -- A request of a worker about a job either changes nothing, or it comes with the token of the
  -- worker that the job was assigned to; then all that the server has of any other job, and of the
  -- workers, stays as it is.
  pub serve-Isolated : (r : JobRequest) (c : Central) → Isolated token job c (serve r token job c).1
  unfolding serve Spares worker_job_add_output worker_job_complete
  serve-Isolated (appends now stream time payload) c =
      appends-Isolated token job now stream time payload c
  serve-Isolated (appends_to_task now task stream time payload) c =
      appends_to_task-Isolated token job now task stream time payload c
  serve-Isolated (completes_task task failed) c = completes_task-Isolated token job task failed c
  serve-Isolated (gets_store name) c = gets_store-Isolated token job name c
  serve-Isolated (puts_store now name value secret) c =
      puts_store-Isolated token job now name value secret c
  serve-Isolated (downloads_input input) c = downloads_input-Isolated token job input c
  serve-Isolated (uploads_chunk written cid) c = uploads_chunk-Isolated token job written cid c
  serve-Isolated (adds_output_sync len copied fid path size chunks) c =
      adds_output_sync-Isolated token job len copied fid path size chunks c
  serve-Isolated (adds_output max chunks commit path size) c =
      rw (answered-state (worker_job_add_output max token job chunks commit path size c)) (
        with_job-Isolated (λ j. add_output max chunks commit path size j.id) c
          (λ j k other. add_output-share k j.id other max chunks commit path size c))
  serve-Isolated (completes now failed) c =
      rw (answered-state (worker_job_complete now token job failed c)) (
        with_job-Isolated (λ j. close_job now failed j.id) c
          (λ j k other. close_job-share k j.id other now failed c))
