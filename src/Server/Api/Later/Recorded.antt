-- ===== src/Server/Api/Later/Recorded.antt =====
-- What the calls of the requests leave of a job that is complete: its row, and what was recorded for it.
use buildomat.Prelude.{
  ℕ, ◌≡◌, refl, sym, ap, ◌∙◌, Bool, true, List, [], ◌∷◌, Option, none, some, String, Result, ok,
  err, arith, inl, inr, Bool-cases, ◌==◌,
}
use buildomat.Sql.{select, find, count}
use buildomat.Server.Models.{Job, Worker, Task, Payload, JsonValue}
use buildomat.Server.State.{Database, Failure, Tx, job_is, after}
use buildomat.Server.State.Keeps.{Keeps, keeps_rules}
use buildomat.Server.Jobs.{job_append_event, update_task, task_finished, task_complete}
use buildomat.Server.Store.{job_store_put}
use buildomat.Server.Workers.{set_worker, worker_flush, worker_destroy}
use buildomat.Server.Bootstrap.{
  update_worker, associate_private, associate_metadata, worker_associate,
}
use buildomat.Server.Api.{call, settle}
use buildomat.Server.Api.Parts.{part}
use buildomat.Server.Api.Calls.{job_append_event-Part, job_store_put-Part}
use buildomat.Server.Api.Sealed.{append-refused, put-refused}
use buildomat.Server.Api.Later.{JobData, data_of}

abbrev head_of : List Job → Option Job
head_of [] = none
head_of (j ∷ js) = some j

find-head : (p : Job → Bool) (js : List Job) → find p js ≡ head_of (select p js)
unfolding find select
find-head p [] = refl
find-head p (j ∷ js) = ground (arith, find-head p js)

module _ (k : ℕ) (row : Job) (d : JobData) (done : row.complete ≡ true) where
  -- The row of the job is complete, and the job has the data.
  pub record IsOver (s : Database) : Type 0 where
    pub found : find (job_is k) s.job ≡ some row
    pub data_kept : data_of k s ≡ d

  pub part-IsOver : (s t : Database) → part k t ≡ part k s → IsOver s → IsOver t
  unfolding part data_of
  part-IsOver s t same h = record {
    found =
        find-head (job_is k) t.job
        ∙ ap (λ p. head_of p.job) same
        ∙ sym (find-head (job_is k) s.job)
        ∙ h.found;
    data_kept =
        ap (λ p. record { events = p.event; values = p.store; outputs = p.output; files = p.file })
          same
        ∙ h.data_kept;
  }

  module _ {A : Type 0} where
    IsOver-same :
        (m : Tx A)
        → ((s : Database)
            → ((after s (m s)).job ≡ s.job) × (data_of k (after s (m s)) ≡ data_of k s))
        → Keeps IsOver m
    IsOver-same m same = record {
      at = λ s h. record {
        found = ap (find (job_is k)) (same s).0 ∙ h.found;
        data_kept = (same s).1 ∙ h.data_kept;
      };
    }

    settle-IsOver :
        (s : Database) (r : Result Failure (A × Database))
        → IsOver (after s r)
        → IsOver (settle s r).1
    settle-IsOver s (ok (a, t)) h = h
    settle-IsOver s (err e) h = h

    pub call-IsOver : (m : Tx A) (s : Database) → Keeps IsOver m → IsOver s → IsOver (call m s).1
    unfolding call
    call-IsOver m s keeps h = settle-IsOver s (m s) (keeps.at s h)

  pub append-IsOver :
      (job : ℕ) (task : Option ℕ) (stream : String) (time : ℕ) (remote : Option ℕ)
      (payload : Payload)
      → Keeps IsOver (job_append_event job task stream time remote payload)
  append-IsOver job task stream time remote payload = record {
    at = λ s h. elim (Bool-cases (job == k)) [
      | inl y ↦
          let e : job ≡ k = ground arith in
          let (f, r) =
            append-refused job s row (ap (λ x. find (job_is x) s.job) e ∙ h.found) done task stream
              time remote payload in
          rw r h
      | inr n ↦
          part-IsOver s _
            ((job_append_event-Part job n task stream time remote payload).at s
              (record { holds = refl })).holds
            h
    ];
  }

  pub put-IsOver :
      (now job : ℕ) (name value : String) (secret : Bool) (source : String)
      → Keeps IsOver (job_store_put now job name value secret source)
  put-IsOver now job name value secret source = record {
    at = λ s h. elim (Bool-cases (job == k)) [
      | inl y ↦
          let e : job ≡ k = ground arith in
          let (f, r) =
            put-refused job s row (ap (λ x. find (job_is x) s.job) e ∙ h.found) done now name value
              secret source in
          rw r h
      | inr n ↦
          part-IsOver s _
            ((job_store_put-Part job n now name value secret source).at s
              (record { holds = refl })).holds
            h
    ];
  }

  set_worker-IsOver : (id : ℕ) (f : Worker → Worker) → Keeps IsOver (set_worker id f)
  unfolding set_worker data_of
  set_worker-IsOver id f = IsOver-same _ λ s. (refl, refl)

  update_worker-IsOver :
      (p : Worker → Bool) (f : Worker → Worker) → Keeps IsOver (update_worker p f)
  unfolding update_worker data_of
  update_worker-IsOver p f = IsOver-same _ λ s. elim (Bool-cases (count p s.worker == 1)) [
    | inl e ↦ rw e (refl, refl)
    | inr e ↦ rw e (refl, refl)
  ]

  update_task-IsOver : (p : Task → Bool) (f : Task → Task) → Keeps IsOver (update_task p f)
  unfolding update_task data_of
  update_task-IsOver p f = IsOver-same _ λ s. elim (Bool-cases (count p s.task == 1)) [
    | inl e ↦ rw e (refl, refl)
    | inr e ↦ rw e (refl, refl)
  ]

  ruleset over_rules = (keeps_rules, update_worker-IsOver, update_task-IsOver)

  pub flush-IsOver : (id : ℕ) → Keeps IsOver (worker_flush id)
  unfolding worker_flush
  flush-IsOver id = set_worker-IsOver id _

  pub destroy-IsOver : (id : ℕ) → Keeps IsOver (worker_destroy id)
  unfolding worker_destroy
  destroy-IsOver id = set_worker-IsOver id _

  private-IsOver :
      (w : Worker) (private : String) (o : Option String)
      → Keeps IsOver (associate_private w private o)
  unfolding associate_private
  private-IsOver w private none = search over_rules
  private-IsOver w private (some c) = search over_rules

  metadata-IsOver : (w : Worker) (m o : Option JsonValue) → Keeps IsOver (associate_metadata w m o)
  unfolding associate_metadata
  metadata-IsOver w none o = search over_rules
  metadata-IsOver w (some m) none = search over_rules
  metadata-IsOver w (some m) (some c) = search over_rules

  pub associate-IsOver :
      (id : ℕ) (private : String) (m : Option JsonValue)
      → Keeps IsOver (worker_associate id private m)
  unfolding worker_associate
  associate-IsOver id private m = search (over_rules, private-IsOver, metadata-IsOver)

  finished-IsOver :
      (job seq : ℕ) (failed : Bool) (t : Task) → Keeps IsOver (task_finished job seq failed t)
  unfolding task_finished
  finished-IsOver job seq failed t = search over_rules

  pub task_complete-IsOver :
      (job seq : ℕ) (failed : Bool) → Keeps IsOver (task_complete job seq failed)
  unfolding task_complete
  task_complete-IsOver job seq failed = search (over_rules, finished-IsOver)
