-- ===== src/Server/Commits/History.antt =====
-- The commits of a running server: requests, worker threads and the completion of jobs, as steps in
-- any order.
use buildomat.Prelude.{
  ℕ, Bool, not, List, [], ◌∷◌, Option, none, some, Result, ok, err, ◌==◌, if◌then◌else◌, any,
}
use buildomat.Sql.{find, update, select}
use buildomat.Server.State.{Database}
use buildomat.Server.Commits.{
  BackgroundId, FileCommit, FileKind, CommitError, Inner, Fault, same_commit, commit_file,
  take_work, mark_complete, mark_job_completed, forget_job, commit_work, different_arguments,
  already_complete, still_in_progress, panic,
}

-- What a worker thread has in hand, and how it went once it has gone.
pub record Work : Type 0 where
  pub fc : FileCommit
  pub result : Option (Option CommitError)

-- `closing` are the jobs that a call of `complete_job` has marked.
pub record Uploads : Type 0 where
  pub inner : Inner
  pub db : Database
  pub working : List Work
  pub closing : List ℕ

pub data Action : Type 0 where
  submit : BackgroundId → FileKind → ℕ → List ℕ → Action
  take : ℕ → Action
  -- The file system's answers, and the ID of the new file.
  work : BackgroundId → (ℕ → ℕ → Option ℕ) → Option ℕ → ℕ → Action
  finish : BackgroundId → ℕ → Action
  mark forget : ℕ → Action
  -- Any other operation on the database.
  elsewhere : Database → Action

abbrev pub work_at : BackgroundId → Work → Bool
work_at k w = same_commit k w.fc.id

-- A request that is refused changes nothing; `none` is a panic.
abbrev pub answered : {A : Type 0} → Uploads → Result Fault (A × Inner) → Option Uploads
answered u (ok (a, i)) = some (record u { inner = i })
answered u (err panic) = none
answered u (err different_arguments) = some u
answered u (err already_complete) = some u
answered u (err still_in_progress) = some u

abbrev pub taken : Uploads → Result Fault (Option FileCommit × Inner) → Option Uploads
taken u (ok (none, i)) = some (record u { inner = i })
taken u (ok (some fc, i)) =
    some (record u { inner = i; working = record { fc = fc; result = none } ∷ u.working })
taken u (err e) = none

-- A thread that dies drops its work. Its commit stays active.
abbrev pub worked : Uploads → BackgroundId → Option (Option CommitError × Database) → Option Uploads
worked u id none = some (record u { working = select (λ w. not (work_at id w)) u.working })
worked u id (some (r, db)) = some (record u {
  db = db;
  working = update (work_at id) (λ w. record w { result = some r }) u.working;
})

abbrev pub finished : Uploads → BackgroundId → Result Fault Inner → Option Uploads
finished u id (ok i) =
    some (record u { inner = i; working = select (λ w. not (work_at id w)) u.working })
finished u id (err e) = none

abbrev pub marked : Uploads → ℕ → Result Fault Inner → Option Uploads
marked u job (ok i) = some (record u { inner = i; closing = job ∷ u.closing })
marked u job (err panic) = none
marked u job (err different_arguments) = some u
marked u job (err already_complete) = some u
marked u job (err still_in_progress) = some u

abbrev pub forgotten : Uploads → Result Fault Inner → Option Uploads
forgotten u (ok i) = some (record u { inner = i })
forgotten u (err e) = none

abbrev pub work_on :
    (ℕ → ℕ → Option ℕ) → Option ℕ → ℕ → Uploads → BackgroundId → Option Work → Option Uploads
work_on len copied fid u id none = some u
work_on len copied fid u id (some w) = elim w.result [
  | some r ↦ some u
  | none ↦ worked u id (commit_work len copied fid w.fc u.db)
]

abbrev pub finish_off : ℕ → Uploads → BackgroundId → Option Work → Option Uploads
finish_off now u id none = some u
finish_off now u id (some w) = elim w.result [
  | none ↦ some u
  | some r ↦ finished u id (mark_complete now id r u.inner)
]

unfoldable pub step : Action → Uploads → Option Uploads
step (submit id kind size chunks) u = answered u (commit_file id kind size chunks u.inner)
step (take now) u = taken u (take_work now u.inner)
step (work id len copied fid) u = work_on len copied fid u id (find (work_at id) u.working)
step (finish id now) u = finish_off now u id (find (work_at id) u.working)
step (mark job) u = marked u job (mark_job_completed job u.inner)
step (forget job) u =
    if any (λ j. j == job) u.closing then forgotten u (forget_job job u.inner) else some u
step (elsewhere db) u = some (record u { db = db })

unfoldable pub run : List Action → Uploads → Option Uploads
run [] u = some u
run (a ∷ rest) u = elim (step a u) [ none ↦ none | some v ↦ run rest v ]

abbrev pub start : Database → Uploads
start db = record {
  inner = record { commits = []; queue = []; completed_jobs = [] };
  db = db;
  working = [];
  closing = [];
}
