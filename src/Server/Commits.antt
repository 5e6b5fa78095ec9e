-- ===== src/Server/Commits.antt =====
-- server/src/files.rs: the commits of uploaded chunks into files of a job, with the part of
-- server/src/main.rs that assembles a file and completes a job. The lock makes each operation one
-- step; between the steps of a worker thread other threads may run.
pub mod History
pub mod Sound
pub mod Requests
pub mod Threads
pub mod Idle
pub mod Examples
use buildomat.Prelude.{
  ℕ, ◌+◌, ◌-◌, ◌/◌, Bool, true, false, not, ◌&&◌, ◌||◌, List, [], ◌∷◌, ◌++◌, Option, none, some,
  String, Result, ok, err, ◌==◌, if◌then◌else◌, any, leb,
}
use text.Mathlib.Text.{◌==◌ as str_eq}
use buildomat.Sql.{find, count, update, select}
use buildomat.Server.State
use buildomat.Server.State.{Database, Failure, Tx}
use buildomat.Server.Files.{job_add_input, job_add_output}

pub data FileKind : Type 0 where
  input output : String → FileKind

-- Why a commit failed: while the file was assembled, or in the database.
pub data CommitError : Type 0 where
  missing_chunk size_mismatch copy_failed copy_mismatch : CommitError
  database : Failure → CommitError

-- An `Instant` and a `Duration` are in nanoseconds.
pub data CommitState : Type 0 where
  queued : CommitState
  active : ℕ → CommitState
  complete : ℕ → Option CommitError → CommitState

pub record BackgroundId : Type 0 where
  pub job : ℕ
  pub commit : ℕ

-- An entry of the map `commits`: its key, and the commit.
pub record FileCommit : Type 0 where
  pub id : BackgroundId
  pub expected_size : ℕ
  pub chunks : List ℕ
  pub kind : FileKind
  pub state : CommitState

pub record Inner : Type 0 where
  pub commits : List FileCommit
  pub queue : List BackgroundId
  pub completed_jobs : List ℕ

-- `bail!`, and an assertion or `unwrap` that fails.
pub data Fault : Type 0 where
  different_arguments already_complete still_in_progress panic : Fault

abbrev pub same_commit : BackgroundId → BackgroundId → Bool
same_commit a b = a.job == b.job && a.commit == b.commit

abbrev pub commit_is : BackgroundId → FileCommit → Bool
commit_is k c = same_commit k c.id

abbrev pub of_job : ℕ → FileCommit → Bool
of_job job c = c.id.job == job

abbrev pub is_queued : CommitState → Bool
is_queued queued = true
is_queued _ = false

abbrev pub is_working : CommitState → Bool
is_working (active t) = true
is_working _ = false

abbrev pub still_pending : CommitState → Bool
still_pending (complete d e) = false
still_pending _ = true

unfoldable pub observe : CommitState → Option (Result (CommitError × ℕ) (Unit {0}))
observe queued = none
observe (active t) = none
observe (complete d none) = some (ok tt)
observe (complete d (some e)) = some (err (e, d / 1_000_000))

abbrev pub same_kind : FileKind → FileKind → Bool
same_kind (input a) (input b) = str_eq a b
same_kind (output a) (output b) = str_eq a b
same_kind _ _ = false

abbrev pub same_list : List ℕ → List ℕ → Bool
same_list [] [] = true
same_list (x ∷ xs) (y ∷ ys) = x == y && same_list xs ys
same_list _ _ = false

unfoldable pub commit_again :
    FileCommit
    → FileKind
    → ℕ
    → List ℕ
    → Inner
    → Result Fault (Option (Result (CommitError × ℕ) (Unit {0})) × Inner)
commit_again fc kind size chunks i =
    if not (same_kind fc.kind kind)
      || (not (fc.expected_size == size) || not (same_list fc.chunks chunks))
    then err different_arguments
    else ok (observe fc.state, i)

unfoldable pub commit_new :
    BackgroundId
    → FileKind
    → ℕ
    → List ℕ
    → Inner
    → Result Fault (Option (Result (CommitError × ℕ) (Unit {0})) × Inner)
commit_new id kind size chunks i =
    if any (λ j. j == id.job) i.completed_jobs
    then err already_complete
    else ok (
      none,
      record i {
        commits =
            i.commits
            ++ record {
              id = id;
              expected_size = size;
              chunks = chunks;
              kind = kind;
              state = queued;
            }
              ∷ [];
        queue = i.queue ++ id ∷ [];
      },
    )

unfoldable pub commit_file :
    BackgroundId
    → FileKind
    → ℕ
    → List ℕ
    → Inner
    → Result Fault (Option (Result (CommitError × ℕ) (Unit {0})) × Inner)
commit_file id kind size chunks i = elim (find (commit_is id) i.commits) [
  | none ↦ commit_new id kind size chunks i
  | some fc ↦ commit_again fc kind size chunks i
]

unfoldable pub commit_file_exists : BackgroundId → Inner → Bool
commit_file_exists id i = any (commit_is id) i.commits

abbrev pub put_state : CommitState → FileCommit → FileCommit
put_state st c = record c { state = st }

unfoldable pub mark_active : ℕ → FileCommit → Inner → Result Fault (FileCommit × Inner)
mark_active now fc i =
    if is_queued fc.state
    then ok (fc, record i { commits = update (commit_is fc.id) (put_state (active now)) i.commits })
    else err panic

-- The next work from the queue; an empty queue makes the thread wait.
unfoldable pub take_work : ℕ → Inner → Result Fault (Option FileCommit × Inner)
take_work now i = elim i.queue [
  | [] ↦ ok (none, i)
  | id ∷ rest ↦ elim (find (commit_is id) i.commits) [
    | none ↦ err panic
    | some fc ↦ elim (mark_active now fc (record i { queue = rest })) [
      | ok (c, i') ↦ ok (some c, i')
      | err e ↦ err e
    ]
  ]
]

-- `mark_complete_common`, for the commit that a thread has worked on. Where the map has forgotten
-- it, only the thread still sees it.
unfoldable pub mark_complete : ℕ → BackgroundId → Option CommitError → Inner → Result Fault Inner
mark_complete now id msg i = elim (find (commit_is id) i.commits) [
  | none ↦ ok i
  | some fc ↦ elim fc.state [
    | queued ↦ err panic
    | complete d e ↦ err panic
    | active start ↦ ok (record i {
      commits = update (commit_is id) (put_state (complete (now - start) msg)) i.commits;
    })
  ]
]

unfoldable pub mark_job_completed : ℕ → Inner → Result Fault Inner
mark_job_completed job i =
    if any (λ c. of_job job c && still_pending c.state) i.commits
    then err still_in_progress
    else if any (λ id. id.job == job) i.queue
    then err panic
    else ok (record i { completed_jobs = job ∷ i.completed_jobs })

unfoldable pub forget_job : ℕ → Inner → Result Fault Inner
forget_job job i =
    if not (any (λ j. j == job) i.completed_jobs)
    then err panic
    else if any (λ id. id.job == job) i.queue
    then err panic
    else if any (λ c. of_job job c && still_pending c.state) i.commits
    then err panic
    else ok (record i { commits = select (λ c. not (of_job job c)) i.commits })

-- The sizes of the chunks, which are files.
chunk_sizes : (ℕ → ℕ → Option ℕ) → ℕ → List ℕ → Option ℕ
chunk_sizes len job [] = some 0
chunk_sizes len job (c ∷ cs) = elim (len job c) [
  | none ↦ none
  | some n ↦ elim (chunk_sizes len job cs) [ none ↦ none | some m ↦ some (n + m) ]
]

-- `Central::commit_file`: `len` is the file system's, `copied` the size of the file that the copy
-- made, if it made one, and `fid` the new ID.
unfoldable pub assemble : (ℕ → ℕ → Option ℕ) → Option ℕ → ℕ → ℕ → List ℕ → ℕ → Result CommitError ℕ
unfolding chunk_sizes
assemble len copied fid job chunks expected = elim (chunk_sizes len job chunks) [
  | none ↦ err missing_chunk
  | some total ↦ if not (total == expected) then err size_mismatch else elim copied [
    | none ↦ err copy_failed
    | some n ↦ if n == expected then ok fid else err copy_mismatch
  ]
]

abbrev pub add_file : FileKind → ℕ → ℕ → ℕ → Tx (Unit {0})
add_file (input name) job fid size = job_add_input job name fid size
add_file (output path) job fid size = job_add_output job path fid size

-- A failure is recorded, but a panic in the database is not caught: the thread dies of it, and that is
-- the result `none`.
recorded : Database → Result Failure (Unit {0} × Database) → Option (Option CommitError × Database)
recorded s (ok (u, t)) = some (none, t)
recorded s (err State.panic) = none
recorded s (err e) = some (some (database e), s)

-- What a thread does with the work that it took, before it marks the commit.
unfoldable pub commit_work :
    (ℕ → ℕ → Option ℕ)
    → Option ℕ
    → ℕ
    → FileCommit
    → Database
    → Option (Option CommitError × Database)
unfolding recorded
commit_work len copied fid fc s =
    elim (assemble len copied fid fc.id.job fc.chunks fc.expected_size) [
      | err e ↦ some (some e, s)
      | ok f ↦ recorded s (add_file fc.kind fc.id.job f fc.expected_size s)
    ]
