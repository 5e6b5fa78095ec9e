-- ===== src/Server/JobTable.antt =====
-- The job table as a state machine: the writes that server/src/db.rs makes to rows of `job`.
pub mod Frame
pub mod Refines
pub mod Workers
pub mod Create
pub mod Files
pub mod Exclusive
pub mod Lifecycle
use buildomat.Prelude.{
  ℕ, ◌+◌, ◌≡◌, Bool, true, false, not, ◌&&◌, List, [], ◌∷◌, ◌++◌, Option, none, some, any, is_none,
  ◌==◌,
}
use buildomat.Sql.{find, count, update}
use buildomat.Server.Models.{Job}
use buildomat.Server.State.{Database, job_is}
use buildomat.Server.Workers.{assigned_to}

-- The rows that each write of the source picks, and what it sets.
abbrev pub is_waiting : ℕ → Job → Bool
is_waiting id r = job_is id r && r.waiting

abbrev pub is_incomplete : ℕ → Job → Bool
is_incomplete id r = job_is id r && not r.complete

abbrev pub is_unarchived : ℕ → Job → Bool
is_unarchived id r = job_is id r && is_none r.time_archived

abbrev pub woken : Job → Job
woken r = record r { waiting = false }

abbrev pub cancelled : Job → Job
cancelled r = record r { cancelled = true }

abbrev pub finished : Bool → Job → Job
finished failed r = record r { failed = failed; complete = true }

abbrev pub archived : ℕ → Job → Job
archived time r = record r { time_archived = some time }

abbrev pub assigned : ℕ → Job → Job
assigned wid r = record r { worker = some wid }

abbrev pub same_job : Job → Job → Bool
same_job a b = a.id == b.id

-- A row that `job_create` inserts.
pub record IsNew (j : Job) : Type 0 where
  pub not_complete : j.complete ≡ false
  pub not_failed : j.failed ≡ false
  pub not_cancelled : j.cancelled ≡ false
  pub no_worker : j.worker ≡ none
  pub not_archived : j.time_archived ≡ none

-- One write. `assign` needs a job without a worker and a worker without a job; `create` a new key.
pub data JobStep (js js' : List Job) : Type 0 where
  wake : (id : ℕ) → js' ≡ update (is_waiting id) woken js → JobStep js js'
  cancel : (id : ℕ) → js' ≡ update (is_incomplete id) cancelled js → JobStep js js'
  finish :
      (id : ℕ) (failed : Bool)
      → js' ≡ update (is_incomplete id) (finished failed) js
      → JobStep js js'
  archive : (id time : ℕ) → js' ≡ update (is_unarchived id) (archived time) js → JobStep js js'
  assign :
      (wid : ℕ) (j : Job)
      → find (job_is j.id) js ≡ some j
      → j.worker ≡ none
      → count (assigned_to wid) js ≡ 0
      → count (job_is j.id) js ≡ 1
      → js' ≡ update (job_is j.id) (assigned wid) js
      → JobStep js js'
  create : (j : Job) → IsNew j → any (same_job j) js ≡ false → js' ≡ js ++ j ∷ [] → JobStep js js'

pub data JobSteps (js : List Job) : List Job → Type 0 where
  here : JobSteps js js
  next : {js' js'' : List Job} → JobSteps js js' → JobStep js' js'' → JobSteps js js''

pub record OnJobs (Q : List Job → Type 0) (s : Database) : Type 0 where
  pub jobs : Q s.job
