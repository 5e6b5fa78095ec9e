-- ===== src/Server/Api/JobFiles.antt =====
-- server/src/api/worker.rs: the end of a job and the files that its agent uploads, with
-- `Central::complete_job` of server/src/main.rs. What the file system answers is an argument.
use buildomat.Prelude.{
  ℕ, ◌*◌, Bool, true, false, List, Option, none, some, String, Result, ok, err, ltb, if◌then◌else◌,
}
use buildomat.Server.Models.{Job}
use buildomat.Server.State.{Failure}
use buildomat.Server.Jobs.{Clock, job_complete}
use buildomat.Server.Files.{job_add_output}
use buildomat.Server.Commits.{
  Inner, CommitError, Fault, panic, output, commit_file, assemble, mark_job_completed, forget_job,
}
use buildomat.Server.Api.{
  HttpError, Handler, Central, bad_request, conflicted, internal_error, call, reply, deny, ◌>>=◌,
  ◌>>◌,
}
use buildomat.Server.Api.WorkerRequests.{own_job}

-- A completion that is refused, for whatever reason, is a conflict; a panic is not.
abbrev pub mark_refused : Fault → HttpError
mark_refused panic = internal_error
mark_refused _ = conflicted

abbrev pub completion_refused : Failure → HttpError
completion_refused Failure.panic = internal_error
completion_refused _ = conflicted

unfoldable pub forget_after : ℕ → Central → Result HttpError (Unit {0}) × Central
forget_after job c = elim (forget_job job c.files) [
  | ok i ↦ (ok tt, record c { files = i })
  | err e ↦ (err internal_error, c)
]

unfoldable pub complete_marked : Clock → ℕ → Bool → Central → Result HttpError (Unit {0}) × Central
complete_marked now job failed c = elim (job_complete now job failed c.database) [
  | ok (b, t) ↦ forget_after job (record c { database = t })
  | err e ↦ (err (completion_refused e), c)
]

-- `Central::complete_job`, and what the handler makes of its failure. A completion that the database
-- refuses leaves the job marked among the files.
unfoldable pub close_job : Clock → Bool → ℕ → Central → Result HttpError (Unit {0}) × Central
close_job now failed job c = elim (mark_job_completed job c.files) [
  | ok i ↦ complete_marked now job failed (record c { files = i })
  | err e ↦ (err (mark_refused e), c)
]

abbrev pub with_job :
    {A : Type 0}
    → Result HttpError Job
    → (Job → Central → Result HttpError A × Central)
    → Central
    → Result HttpError A × Central
with_job (ok j) f c = f j c
with_job (err e) f c = (err e, c)

unfoldable pub worker_job_complete :
    Clock → Option String → Option ℕ → Bool → Central → Result HttpError (Unit {0}) × Central
worker_job_complete now token job failed c =
    with_job (own_job token job c.database).0 (λ j. close_job now failed j.id) c

pub record AddOutputResult : Type 0 where
  pub complete : Bool
  pub error : Option CommitError

abbrev pub commit_result :
    Central
    → Result Fault (Option (Result (CommitError × ℕ) (Unit {0})) × Inner)
    → Result HttpError AddOutputResult × Central
commit_result c (ok (none, i)) =
    (ok (record { complete = false; error = none }), record c { files = i })
commit_result c (ok (some (ok u), i)) =
    (ok (record { complete = true; error = none }), record c { files = i })
commit_result c (ok (some (err (e, ms)), i)) =
    (ok (record { complete = true; error = some e }), record c { files = i })
commit_result c (err e) = (err bad_request, c)

-- The IDs of the chunks and of the commit, parsed or not.
unfoldable pub add_output :
    ℕ
    → Option (List ℕ)
    → Option ℕ
    → String
    → ℕ
    → ℕ
    → Central
    → Result HttpError AddOutputResult × Central
add_output max none commit path size job c = (err internal_error, c)
add_output max (some cs) none path size job c = (err internal_error, c)
add_output max (some cs) (some id) path size job c =
    if ltb max size
    then (err bad_request, c)
    else commit_result c
        (commit_file (record { job = job; commit = id }) (output path) size cs c.files)

unfoldable pub worker_job_add_output :
    ℕ
    → Option String
    → Option ℕ
    → Option (List ℕ)
    → Option ℕ
    → String
    → ℕ
    → Central
    → Result HttpError AddOutputResult × Central
worker_job_add_output max token job chunks commit path size c =
    with_job (own_job token job c.database).0 (λ j. add_output max chunks commit path size j.id) c

-- The chunk's file: whether it could be written, and its new ID.
unfoldable pub worker_job_upload_chunk : Bool → ℕ → Option String → Option ℕ → Handler ℕ
worker_job_upload_chunk written cid token job = do
  own_job token job
  if written then reply cid else deny internal_error

unfoldable pub assembled : Result CommitError ℕ → Handler ℕ
assembled (err e) = deny bad_request
assembled (ok fid) = reply fid

unfoldable pub known_chunks : Option (List ℕ) → Handler (List ℕ)
known_chunks none = deny internal_error
known_chunks (some cs) = reply cs

-- The old request that waits: a size up to 1 GiB. (A negative size is refused as one that is too
-- large is.) The arguments before the token are the file system's.
unfoldable pub worker_job_add_output_sync :
    (ℕ → ℕ → Option ℕ)
    → Option ℕ
    → ℕ
    → Option String
    → Option ℕ
    → String
    → ℕ
    → Option (List ℕ)
    → Handler (Unit {0})
worker_job_add_output_sync len copied fid token job path size chunks =
    if ltb (1024 * 1024 * 1024) size then deny bad_request else (do
      j ← own_job token job
      cs ← known_chunks chunks
      f ← assembled (assemble len copied fid j.id cs size)
      call (job_add_output j.id path f size))
