-- ===== src/Server/State.antt =====
-- server/src/db.rs: the database, and the transactions over it. The lock around the connection makes
-- one operation at a time, so an operation is a function on the whole state; `immediate_transaction`
-- rolls back on an error, so an operation that fails gives no new state.
pub mod Keeps
pub mod Bind
use buildomat.Prelude.{
  ℕ, ◌+◌, ◌-◌, ◌≡◌, refl, Bool, true, false, List, [], ◌∷◌, Option, none, some, String, Result, ok,
  err, ltb, leb, ◌==◌, if◌then◌else◌, ◌&&◌,
}
use text.Mathlib.Text.{◌==◌ as str_eq}
use buildomat.Sql.{select, find, count, update, insert, insert_or_ignore}
use buildomat.Server.Models.{
  Task, JobEvent, JobOutputRule, JobOutput, JobInput, JobFile, JobTag, Worker, Job, JobDepend,
  JobTime, JobStore, PublishedFile, Payload,
}

pub record Database : Type 0 where
  pub job : List Job
  pub task : List Task
  pub job_event : List JobEvent
  pub job_output_rule : List JobOutputRule
  pub job_output : List JobOutput
  pub job_input : List JobInput
  pub job_file : List JobFile
  pub job_tag : List JobTag
  pub job_depend : List JobDepend
  pub job_time : List JobTime
  pub job_store : List JobStore
  pub published_file : List PublishedFile
  pub worker : List Worker

-- The reasons that `conflict!` and `bail!` give, with the values that they format.
pub data Reason : Type 0 where
  job_already_assigned : ℕ → ℕ → Reason
  worker_has_jobs : ℕ → ℕ → Reason
  worker_already_deleted : ℕ → Reason
  job_already_complete : ℕ → Reason
  job_not_waiting : ℕ → Reason
  job_not_complete : Reason
  published_differently : Reason
  invalid_store_name : Reason
  store_value_too_large : Reason
  store_full : ℕ → ℕ → Reason
  cancelled_cannot_succeed : ℕ → Reason
  no_tasks too_many_tasks too_many_depends invalid_depend_name no_trigger_condition : Reason
  too_many_inputs invalid_input_name prior_job_missing name_is_a_path : Reason
  depend_not_waiting depend_already_satisfied prior_job_not_complete : Reason
  negative_duration auth_failure token_error : Reason
  associated_differently metadata_mismatch : ℕ → Reason
  files_busy : ℕ → Reason
  many_jobs : ℕ → ℕ → Reason

-- `not_found` and `constraint` are Diesel's answers; `panic` is an assertion or an `unwrap` that
-- failed.
pub data Failure : Type 0 where
  conflict bail : Reason → Failure
  not_found constraint panic : Failure

abbrev pub Tx : Type 0 → Type 0
Tx A = Database → Result Failure (A × Database)

unfoldable pub pure : {A : Type 0} → A → Tx A
pure a s = ok (a, s)

unfoldable pub fail : {A : Type 0} → Failure → Tx A
fail e s = err e

unfoldable pub gets : {A : Type 0} → (Database → A) → Tx A
gets f s = ok (f s, s)

-- `return Err(…)` under a test, and `assert!`.
unfoldable pub refuse_if : Bool → Failure → Tx (Unit {0})
refuse_if true e s = err e
refuse_if false e s = ok (tt, s)

-- `get_result` on a key, without `optional`.
unfoldable pub found : {A : Type 0} → Option A → Tx A
found none s = err not_found
found (some a) s = ok (a, s)

-- An `INSERT`: the constraint's refusal, or the table's new rows.
unfoldable pub stored :
    {R : Type 0} → Option (List R) → (Database → List R → Database) → Tx (Unit {0})
stored none f s = err constraint
stored (some rows) f s = ok (tt, f s rows)

abbrev pub continue :
    {A B : Type 0} → Result Failure (A × Database) → (A → Tx B) → Result Failure (B × Database)
continue (ok (a, s)) f = f a s
continue (err e) f = err e

-- Opening this opens the steps above.
infixl 5 ◌>>=◌ ◌>>◌
unfoldable pub ◌>>=◌ : {A B : Type 0} → Tx A → (A → Tx B) → Tx B
unfolding pure fail gets refuse_if found stored
◌>>=◌ m f s = continue (m s) f

abbrev pub ◌>>◌ : {B : Type 0} → Tx (Unit {0}) → Tx B → Tx B
m >> k = m >>= λ _. k

-- The state behind an operation: a failed one is rolled back.
abbrev pub after : {A : Type 0} → Database → Result Failure (A × Database) → Database
after s (ok (a, s')) = s'
after s (err e) = s

abbrev pub job_is : ℕ → Job → Bool
job_is id j = j.id == id

abbrev pub worker_is : ℕ → Worker → Bool
worker_is id w = w.id == id

unfoldable pub find_job : ℕ → Tx Job
unfolding ◌>>=◌
find_job id = do j ← gets (λ s. find (job_is id) s.job); found j

unfoldable pub find_worker : ℕ → Tx Worker
unfolding ◌>>=◌
find_worker id = do w ← gets (λ s. find (worker_is id) s.worker); found w

-- `update(job)` with a `WHERE` clause, and `assert_eq!(uc, 1)`.
unfoldable pub update_job : (Job → Bool) → (Job → Job) → Tx (Unit {0})
update_job p f s =
    if count p s.job == 1 then ok (tt, record s { job = update p f s.job }) else err panic
