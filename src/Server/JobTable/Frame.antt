-- ===== src/Server/JobTable/Frame.antt =====
-- The job table under the single steps of a transaction of server/src/db.rs.
use buildomat.Prelude.{
  ℕ, ◌≡◌, refl, sym, subst, Bool, List, Option, none, some, String, arith, Bool-cases, inl, inr,
  ◌==◌,
}
use buildomat.Sql.{count, update}
use buildomat.Server.Models.{Task, Job, Payload}
use buildomat.Server.State.{Database, Tx, stored, update_job, after}
use buildomat.Server.State.Keeps.{Keeps, Keeps-bind, Keeps-if, keeps_rules}
use buildomat.Server.Events.{i_job_event_insert, i_job_time_record, i_job_time_delta}
use buildomat.Server.Events.Sequence.{event_insert_lem}
use buildomat.Server.Jobs.{update_task}
use buildomat.Server.JobTable.{OnJobs}

event_insert-job :
    (job : ℕ) (task : Option ℕ) (stream : String) (time : ℕ) (remote : Option ℕ) (payload : Payload)
    (s : Database)
    → (after s (i_job_event_insert job task stream time remote payload s)).job ≡ s.job
event_insert-job job task stream time remote payload s =
    ground (arith, event_insert_lem job task stream time remote payload s)

time_delta-job :
    (job : ℕ) (from until : String) (s : Database)
    → (after s (i_job_time_delta job from until s)).job ≡ s.job
unfolding i_job_time_delta
time_delta-job job from until s = ground arith

update_task-job :
    (p : Task → Bool) (f : Task → Task) (s : Database) → (after s (update_task p f s)).job ≡ s.job
unfolding update_task
update_task-job p f s = ground arith

module _ {Q : List Job → Type 0} where
  -- A step that leaves the table as it is.
  pub OnJobs-same :
      {A : Type 0} (m : Tx A) → ((s : Database) → (after s (m s)).job ≡ s.job) → Keeps (OnJobs Q) m
  OnJobs-same m same = record { at = λ s h. record { jobs = subst Q (sym (same s)) h.jobs } }

  pub event_insert-OnJobs :
      (job : ℕ) (task : Option ℕ) (stream : String) (time : ℕ) (remote : Option ℕ)
      (payload : Payload)
      → Keeps (OnJobs Q) (i_job_event_insert job task stream time remote payload)
  event_insert-OnJobs job task stream time remote payload =
      OnJobs-same _ (event_insert-job job task stream time remote payload)

  pub time_record-OnJobs :
      (job : ℕ) (name : String) (when : ℕ) → Keeps (OnJobs Q) (i_job_time_record job name when)
  unfolding i_job_time_record
  time_record-OnJobs job name when = OnJobs-same _ (λ s. refl)

  pub time_delta-OnJobs :
      (job : ℕ) (from until : String) → Keeps (OnJobs Q) (i_job_time_delta job from until)
  time_delta-OnJobs job from until = OnJobs-same _ (time_delta-job job from until)

  pub update_task-OnJobs : (p : Task → Bool) (f : Task → Task) → Keeps (OnJobs Q) (update_task p f)
  update_task-OnJobs p f = OnJobs-same _ (update_task-job p f)

  pub update_job-OnJobs :
      (p : Job → Bool) (f : Job → Job)
      → ((js : List Job) → Q js → Q (update p f js))
      → Keeps (OnJobs Q) (update_job p f)
  unfolding update_job
  update_job-OnJobs p f k = record {
    at = λ s h. elim (Bool-cases (count p s.job == 1)) [
      | inl e ↦ rw e (record { jobs = k s.job h.jobs })
      | inr e ↦ rw e h
    ];
  }

module _ {Q : List Job → Type 0} {R : Type 0} where
  -- An insert into another table.
  pub stored-OnJobs :
      (rows : Option (List R)) (f : Database → List R → Database)
      → ((s : Database) (rs : List R) → (f s rs).job ≡ s.job)
      → Keeps (OnJobs Q) (stored rows f)
  unfolding stored
  stored-OnJobs none f same = record { at = λ s h. h }
  stored-OnJobs (some rows) f same = record {
    at = λ s h. record { jobs = subst Q (sym (same s rows)) h.jobs };
  }

pub ruleset job_rules = (
  keeps_rules, event_insert-OnJobs, time_record-OnJobs, time_delta-OnJobs, update_task-OnJobs,
  update_job-OnJobs,
)
