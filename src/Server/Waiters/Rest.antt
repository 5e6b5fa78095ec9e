-- ===== src/Server/Waiters/Rest.antt =====
-- The dependencies, the inputs and the files under `job_wakeup` of server/src/db.rs.
use buildomat.Prelude.{ℕ, ◌≡◌, refl, ◌∙◌, Bool, List, Option, String, arith}
use buildomat.Server.Models.{Job, JobDepend, JobInput, JobFile, Payload}
use buildomat.Server.State.{Database, Tx, update_job, after}
use buildomat.Server.State.Keeps.{Keeps, keeps_rules}
use buildomat.Server.Events.{i_job_event_insert, i_job_time_record, i_job_time_delta}
use buildomat.Server.Events.Sequence.{event_insert_lem}
use buildomat.Server.Jobs.{Clock, job_wakeup}

-- The tables that a wakeup leaves as they are.
abbrev pub rest_of : Database → List JobDepend × List JobInput × List JobFile
rest_of s = (s.job_depend, s.job_input, s.job_file)

pub record OnRest (s0 s : Database) : Type 0 where
  pub same : rest_of s ≡ rest_of s0

event_insert-rest :
    (job : ℕ) (task : Option ℕ) (stream : String) (time : ℕ) (remote : Option ℕ) (p : Payload)
    (s : Database)
    → rest_of (after s (i_job_event_insert job task stream time remote p s)) ≡ rest_of s
event_insert-rest job task stream time remote p s =
    ground (arith, event_insert_lem job task stream time remote p s)

time_delta-rest :
    (job : ℕ) (from until : String) (s : Database)
    → rest_of (after s (i_job_time_delta job from until s)) ≡ rest_of s
unfolding i_job_time_delta
time_delta-rest job from until s = ground arith

update_job-rest :
    (p : Job → Bool) (f : Job → Job) (s : Database)
    → rest_of (after s (update_job p f s)) ≡ rest_of s
unfolding update_job
update_job-rest p f s = ground arith

module _ {s0 : Database} where
  OnRest-same :
      {A : Type 0} (m : Tx A)
      → ((s : Database) → rest_of (after s (m s)) ≡ rest_of s)
      → Keeps (OnRest s0) m
  OnRest-same m k = record { at = λ s h. record { same = k s ∙ h.same } }

  event_insert-OnRest :
      (job : ℕ) (task : Option ℕ) (stream : String) (time : ℕ) (remote : Option ℕ) (p : Payload)
      → Keeps (OnRest s0) (i_job_event_insert job task stream time remote p)
  event_insert-OnRest job task stream time remote p =
      OnRest-same _ (event_insert-rest job task stream time remote p)

  time_record-OnRest :
      (job : ℕ) (name : String) (when : ℕ) → Keeps (OnRest s0) (i_job_time_record job name when)
  unfolding i_job_time_record
  time_record-OnRest job name when = OnRest-same _ (λ s. refl)

  time_delta-OnRest :
      (job : ℕ) (from until : String) → Keeps (OnRest s0) (i_job_time_delta job from until)
  time_delta-OnRest job from until = OnRest-same _ (time_delta-rest job from until)

  update_job-OnRest : (p : Job → Bool) (f : Job → Job) → Keeps (OnRest s0) (update_job p f)
  update_job-OnRest p f = OnRest-same _ (update_job-rest p f)

  pub wakeup-OnRest : (now : Clock) (job : ℕ) → Keeps (OnRest s0) (job_wakeup now job)
  unfolding job_wakeup
  wakeup-OnRest now job =
      search
        (keeps_rules, event_insert-OnRest, time_record-OnRest, time_delta-OnRest, update_job-OnRest)
        depth 12
