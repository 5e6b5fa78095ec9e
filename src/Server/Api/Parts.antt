-- ===== src/Server/Api/Parts.antt =====
-- What the database has of one job, with the workers, and that the calls for another job leave it as it is.
use buildomat.Prelude.{
  ℕ, any, Option-cases, ◌≡◌, refl, Bool, true, false, List, Option, some, String, arith, Bool-cases,
  inl, inr, ◌==◌,
}
use buildomat.Sql.{select, count, find}
use buildomat.Sql.Miss.{select-snoc, select-insert_or_ignore, select-update_miss}
use buildomat.Sql.Lemmas.{find-eq-some}
use buildomat.Server.Models.{
  Task, JobEvent, JobOutputRule, JobOutput, JobInput, JobFile, JobTag, Worker, Job, JobDepend,
  JobTime, JobStore, PublishedFile, Payload,
}
use buildomat.Server.State.{Database, Tx, job_is, find_job, update_job, stored, gets, after, ◌>>=◌}
use buildomat.Server.State.Keeps.{Keeps, Keeps-bind, keeps_rules}
use buildomat.Server.Events.{same_event, i_job_event_insert, i_job_time_record}
use buildomat.Server.Jobs.{update_task}
use buildomat.Server.Events.Sequence.{event_insert_lem, event_row, next_seq}

pub record Part : Type 0 where
  pub job : List Job
  pub task : List Task
  pub event : List JobEvent
  pub rule : List JobOutputRule
  pub output : List JobOutput
  pub input : List JobInput
  pub file : List JobFile
  pub tag : List JobTag
  pub depend : List JobDepend
  pub time : List JobTime
  pub store : List JobStore
  pub published : List PublishedFile
  pub worker : List Worker

unfoldable pub part : ℕ → Database → Part
part k s = record {
  job = select (job_is k) s.job;
  task = select (λ r. r.job == k) s.task;
  event = select (λ r. r.job == k) s.job_event;
  rule = select (λ r. r.job == k) s.job_output_rule;
  output = select (λ r. r.job == k) s.job_output;
  input = select (λ r. r.job == k) s.job_input;
  file = select (λ r. r.job == k) s.job_file;
  tag = select (λ r. r.job == k) s.job_tag;
  depend = select (λ r. r.job == k) s.job_depend;
  time = select (λ r. r.job == k) s.job_time;
  store = select (λ r. r.job == k) s.job_store;
  published = select (λ r. r.job == k) s.published_file;
  worker = s.worker;
}

pub record IsPart (k : ℕ) (p : Part) (s : Database) : Type 0 where
  pub holds : part k s ≡ p

-- A table whose rows of the job are the same.
module _ (k : ℕ) (s : Database) where
  with_job :
      (rows : List Job)
      → select (job_is k) rows ≡ select (job_is k) s.job
      → part k (record s { job = rows }) ≡ part k s
  unfolding part
  with_job rows h = rw h refl

  with_task :
      (rows : List Task)
      → select (λ r. r.job == k) rows ≡ select (λ r. r.job == k) s.task
      → part k (record s { task = rows }) ≡ part k s
  unfolding part
  with_task rows h = rw h refl

  with_event :
      (rows : List JobEvent)
      → select (λ r. r.job == k) rows ≡ select (λ r. r.job == k) s.job_event
      → part k (record s { job_event = rows }) ≡ part k s
  unfolding part
  with_event rows h = rw h refl

  with_time :
      (rows : List JobTime)
      → select (λ r. r.job == k) rows ≡ select (λ r. r.job == k) s.job_time
      → part k (record s { job_time = rows }) ≡ part k s
  unfolding part
  with_time rows h = rw h refl

  pub with_store :
      (rows : List JobStore)
      → select (λ r. r.job == k) rows ≡ select (λ r. r.job == k) s.job_store
      → part k (record s { job_store = rows }) ≡ part k s
  unfolding part
  with_store rows h = rw h refl

  pub with_output :
      (rows : List JobOutput)
      → select (λ r. r.job == k) rows ≡ select (λ r. r.job == k) s.job_output
      → part k (record s { job_output = rows }) ≡ part k s
  unfolding part
  with_output rows h = rw h refl

  pub with_file :
      (rows : List JobFile)
      → select (λ r. r.job == k) rows ≡ select (λ r. r.job == k) s.job_file
      → part k (record s { job_file = rows }) ≡ part k s
  unfolding part
  with_file rows h = rw h refl

module _ {k : ℕ} {p : Part} where
  pub Part-same :
      {A : Type 0} (m : Tx A)
      → ((s : Database) → part k (after s (m s)) ≡ part k s)
      → Keeps (IsPart k p) m
  Part-same m same = record { at = λ s h. record { holds = ground (arith, same s, h.holds) } }

  pub find_job-Part :
      {B : Type 0} (id : ℕ) (f : Job → Tx B)
      → ((j : Job) → j.id ≡ id → Keeps (IsPart k p) (f j))
      → Keeps (IsPart k p) (find_job id >>= f)
  unfolding find_job ◌>>=◌
  find_job-Part id f kf = record {
    at = λ s h. elim (Option-cases (find (job_is id) s.job)) [
      | inl e ↦ rw e h
      | inr (j, e) ↦ rw e ((kf j (ground (arith, find-eq-some (job_is id) s.job j e))).at s h)
    ];
  }

  pub event_insert-Part :
      (job : ℕ) (task : Option ℕ) (stream : String) (time : ℕ) (remote : Option ℕ)
      (payload : Payload)
      → (job == k) ≡ false
      → Keeps (IsPart k p) (i_job_event_insert job task stream time remote payload)
  event_insert-Part job task stream time remote payload other = Part-same _ (λ s.
      let row = event_row job task (next_seq job s.job_event) stream time remote payload in
      elim (Bool-cases (any (same_event row) s.job_event)) [
        | inl e ↦ rw (event_insert_lem job task stream time remote payload s, e) refl
        | inr e ↦
            rw (event_insert_lem job task stream time remote payload s, e)
              (with_event k s _ (select-snoc (λ r. r.job == k) s.job_event _ other))
      ])

  pub time_record-Part :
      (job : ℕ) (name : String) (when : ℕ)
      → (job == k) ≡ false
      → Keeps (IsPart k p) (i_job_time_record job name when)
  unfolding i_job_time_record
  time_record-Part job name when other =
      Part-same _
        (λ s. with_time k s _ (select-insert_or_ignore (λ r. r.job == k) _ _ s.job_time other))

  pub update_task-Part :
      (q : Task → Bool) (f : Task → Task)
      → ((r : Task) → q r ≡ true → ((r.job == k) ≡ false) × (((f r).job == k) ≡ false))
      → Keeps (IsPart k p) (update_task q f)
  unfolding update_task
  update_task-Part q f miss = Part-same _ (λ s. elim (Bool-cases (count q s.task == 1)) [
    | inl e ↦ rw e (with_task k s _ (select-update_miss (λ r. r.job == k) q f s.task miss))
    | inr e ↦ rw e refl
  ])

  pub update_job-Part :
      (q : Job → Bool) (f : Job → Job)
      → ((r : Job) → q r ≡ true → ((r.id == k) ≡ false) × (((f r).id == k) ≡ false))
      → Keeps (IsPart k p) (update_job q f)
  unfolding update_job
  update_job-Part q f miss = Part-same _ (λ s. elim (Bool-cases (count q s.job == 1)) [
    | inl e ↦ rw e (with_job k s _ (select-update_miss (job_is k) q f s.job miss))
    | inr e ↦ rw e refl
  ])

  -- A query, and the rows that an insert makes of it.
  pub insert-Part :
      {R : Type 0} (g : Database → Option (List R)) (f : Database → List R → Database)
      → ((s : Database) (rs : List R) → g s ≡ some rs → part k (f s rs) ≡ part k s)
      → Keeps (IsPart k p) (gets g >>= λ rows. stored rows f)
  unfolding ◌>>=◌
  insert-Part g f same =
      Part-same _
        (λ s. elim (Option-cases (g s)) [ inl e ↦ rw e refl | inr (rs, e) ↦ rw e (same s rs e) ])

pub ruleset part_rules = (
  keeps_rules, find_job-Part, event_insert-Part, time_record-Part, update_task-Part,
  update_job-Part,
)
