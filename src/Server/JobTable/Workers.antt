-- ===== src/Server/JobTable/Workers.antt =====
-- `i_worker_assign_job`, `worker_assign_job` and `worker_create` of server/src/db.rs against the write
-- `assign`.
use buildomat.Prelude.{
  ℕ, ◌≡◌, refl, sym, subst, Bool, List, Option, none, some, String, arith, ltb, ◌==◌, Bool-cases,
  Option-cases, inl, inr,
}
use buildomat.Sql.{find, count}
use buildomat.Sql.Lemmas.{find-eq-some}
use buildomat.Server.Models.{Job, Worker}
use buildomat.Server.State.{
  Database, job_is, update_job, find_job, after, refuse_if, gets, conflict, worker_has_jobs, ◌>>=◌,
  ◌>>◌,
}
use buildomat.Server.State.Keeps.{Keeps, continue-Keeps}
use buildomat.Server.Jobs.{Clock}
use buildomat.Server.Workers.{
  assigned_to, unassigned, note_assignment, assign_to, assign_reserved, i_worker_assign_job,
  worker_assign_job, worker_create,
}
use buildomat.Server.JobTable.{JobSteps, next, assign, OnJobs, assigned}
use buildomat.Server.JobTable.Frame.{job_rules, stored-OnJobs}

-- What `assign_to` may take for granted.
found_id : (id : ℕ) (js : List Job) (j : Job) → find (job_is id) js ≡ some j → j.id ≡ id
found_id id js j e = ground (arith, find-eq-some (job_is id) js j e)

record MayAssign (w : Worker) (j : Job) (s : Database) : Type 0 where
  found_job : find (job_is j.id) s.job ≡ some j
  no_worker : j.worker ≡ none
  no_job : count (assigned_to w.id) s.job ≡ 0

module _ (datetime : ℕ → ℕ) (now : Clock) where
  note_assignment-OnJobs :
      {Q : List Job → Type 0} (w : Worker) (j : Job)
      → Keeps (OnJobs Q) (note_assignment datetime now w j)
  unfolding note_assignment
  note_assignment-OnJobs w j = search job_rules depth 12

module _ {js : List Job} (datetime : ℕ → ℕ) (now : Clock) where
  update_job-JobSteps :
      (w : Worker) (j : Job) (s : Database)
      → MayAssign w j s
      → OnJobs (JobSteps js) s
      → OnJobs (JobSteps js) (after s (update_job (job_is j.id) (assigned w.id) s))
  unfolding update_job
  update_job-JobSteps w j s m h = elim (Bool-cases (count (job_is j.id) s.job == 1)) [
    | inl e ↦ rw e (record {
      jobs = next h.jobs (assign w.id j m.found_job m.no_worker m.no_job (ground arith) refl);
    })
    | inr e ↦ rw e h
  ]

  assign_to-JobSteps :
      (w : Worker) (j : Job) (s : Database)
      → MayAssign w j s
      → OnJobs (JobSteps js) s
      → OnJobs (JobSteps js) (after s (assign_to datetime now w j s))
  unfolding assign_to ◌>>=◌
  assign_to-JobSteps w j s m h =
      continue-Keeps {P = OnJobs (JobSteps js)} s (update_job (job_is j.id) (assigned w.id) s)
        (λ _. note_assignment datetime now w j) h (update_job-JobSteps w j s m h)
        (λ _. note_assignment-OnJobs datetime now w j)

  refused_or_assigned :
      (w : Worker) (j : Job) (s : Database) (wj : Option ℕ)
      → j.worker ≡ wj
      → find (job_is j.id) s.job ≡ some j
      → OnJobs (JobSteps js) s
      → OnJobs (JobSteps js) (
          after s (
            (unassigned j wj
                >> (gets (λ t. count (assigned_to w.id) t.job) >>= λ c.
                    refuse_if (ltb 0 c) (conflict (worker_has_jobs w.id c))
                    >> assign_to datetime now w j))
              s))
  unfolding unassigned ◌>>=◌
  refused_or_assigned w j s (some x) own e h = h
  refused_or_assigned w j s none own e h =
      elim (Bool-cases (ltb 0 (count (assigned_to w.id) s.job))) [
        | inl busy ↦ rw busy h
        | inr idle ↦ rw idle (
            assign_to-JobSteps w j s
              (record { found_job = e; no_worker = own; no_job = ground arith }) h)
      ]

  i_worker_assign_job-JobSteps :
      (w : Worker) (jid : ℕ) → Keeps (OnJobs (JobSteps js)) (i_worker_assign_job datetime now w jid)
  unfolding i_worker_assign_job find_job ◌>>=◌
  i_worker_assign_job-JobSteps w jid = record {
    at = λ s h. elim (Option-cases (find (job_is jid) s.job)) [
      | inl e ↦ rw e h
      | inr (j, e) ↦ rw e (
          refused_or_assigned w j s j.worker refl
            (subst (λ i. find (job_is i) s.job ≡ some j) (sym (found_id jid s.job j e)) e) h)
    ];
  }

  pub worker_assign_job-JobSteps :
      (wid jid : ℕ) → Keeps (OnJobs (JobSteps js)) (worker_assign_job datetime now wid jid)
  unfolding worker_assign_job
  worker_assign_job-JobSteps wid jid = search (job_rules, i_worker_assign_job-JobSteps) depth 8

  assign_reserved-JobSteps :
      (w : Worker) (job : Option ℕ)
      → Keeps (OnJobs (JobSteps js)) (assign_reserved datetime now w job)
  unfolding assign_reserved
  assign_reserved-JobSteps w none = search job_rules
  assign_reserved-JobSteps w (some jid) = search (job_rules, i_worker_assign_job-JobSteps)

  pub worker_create-JobSteps :
      (id : ℕ) (bootstrap : String) (factory target : ℕ) (job : Option ℕ) (wait_for_flush : Bool)
      → Keeps
          (OnJobs (JobSteps js))
          (worker_create datetime now id bootstrap factory target job wait_for_flush)
  unfolding worker_create
  worker_create-JobSteps id bootstrap factory target job wait_for_flush =
      search (job_rules, assign_reserved-JobSteps, stored-OnJobs) depth 8
