-- ===== src/Server/JobTable/Create.antt =====
-- The job table under `job_create` and `job_store_put` of server/src/db.rs.
use buildomat.Prelude.{
  ℕ, suc, ◌≡◌, refl, Bool, List, [], ◌∷◌, Option, none, some, String, arith, any, Bool-cases, inl,
  inr,
}
use buildomat.Sql.{insert}
use buildomat.Server.Models.{Job, JobStore, CreateTask, CreateDepend, CreateOutputRule}
use buildomat.Server.State.{Database, Tx, gets, stored, after, ◌>>=◌, ◌>>◌}
use buildomat.Server.State.Keeps.{Keeps, Keeps-bind, Keeps-gets, Keeps-refuse_if}
use buildomat.Server.Create.{
  NewJob, new_job, insert_job, insert_tasks, insert_depends, insert_inputs, insert_rules,
  insert_tags, check_depends, check_inputs, check_request, job_create,
}
use buildomat.Server.Store.{job_store_put, store_entry, update_store}
use buildomat.Server.JobTable.{JobSteps, next, create, OnJobs, IsNew, same_job}
use buildomat.Server.JobTable.Frame.{OnJobs-same, job_rules, stored-OnJobs}

new_job-IsNew : (id : ℕ) (n : NewJob) → IsNew (new_job id n)
unfolding new_job
new_job-IsNew id n = record {
  not_complete = refl;
  not_failed = refl;
  not_cancelled = refl;
  no_worker = refl;
  not_archived = refl;
}

module _ {js : List Job} where
  insert_job-JobSteps : (j : Job) → IsNew j → Keeps (OnJobs (JobSteps js)) (insert_job j)
  unfolding insert_job insert ◌>>=◌
  insert_job-JobSteps j n = record {
    at = λ s h. elim (Bool-cases (any (same_job j) s.job)) [
      | inl e ↦ rw e h
      | inr e ↦ rw e (record { jobs = next h.jobs (create j n e refl) })
    ];
  }

module _ {Q : List Job → Type 0} {R B : Type 0} where
  pub insert-OnJobs :
      (rows : Database → Option (List R)) (f : Database → List R → Database) {m : Tx B}
      → ((s : Database) (rs : List R) → (f s rs).job ≡ s.job)
      → Keeps (OnJobs Q) m
      → Keeps (OnJobs Q) (gets rows >>= λ x. stored x f >> m)
  insert-OnJobs rows f same k =
      Keeps-bind _ _ (Keeps-gets _) λ x. Keeps-bind _ _ (stored-OnJobs x f same) λ _. k

module _ {Q : List Job → Type 0} where
  check_depends-OnJobs : (cds : List CreateDepend) → Keeps (OnJobs Q) (check_depends cds)
  unfolding check_depends
  check_depends-OnJobs [] = search job_rules
  check_depends-OnJobs (cd ∷ cds) =
      Keeps-bind _ _ (Keeps-refuse_if _ _)
        λ _. Keeps-bind _ _ (Keeps-refuse_if _ _) λ _. check_depends-OnJobs cds

  check_inputs-OnJobs : (cis : List String) → Keeps (OnJobs Q) (check_inputs cis)
  unfolding check_inputs
  check_inputs-OnJobs [] = search job_rules
  check_inputs-OnJobs (ci ∷ cis) = Keeps-bind _ _ (Keeps-refuse_if _ _) λ _. check_inputs-OnJobs cis

  check_request-OnJobs : (n : NewJob) → Keeps (OnJobs Q) (check_request n)
  unfolding check_request
  check_request-OnJobs n = search (job_rules, check_depends-OnJobs, check_inputs-OnJobs) depth 12

  insert_tasks-OnJobs :
      (job i : ℕ) (cts : List CreateTask) → Keeps (OnJobs Q) (insert_tasks job i cts)
  unfolding insert_tasks
  insert_tasks-OnJobs job i [] = search job_rules
  insert_tasks-OnJobs job i (ct ∷ cts) =
      insert-OnJobs _ _ (λ s rs. refl) (insert_tasks-OnJobs job (suc i) cts)

  insert_depends-OnJobs :
      (owner job : ℕ) (cds : List CreateDepend) → Keeps (OnJobs Q) (insert_depends owner job cds)
  unfolding insert_depends
  insert_depends-OnJobs owner job [] = search job_rules
  insert_depends-OnJobs owner job (cd ∷ cds) = Keeps-bind _ _ (Keeps-gets _) λ _.
      Keeps-bind _ _ (Keeps-refuse_if _ _)
        λ _. insert-OnJobs _ _ (λ s rs. refl) (insert_depends-OnJobs owner job cds)

  insert_inputs-OnJobs : (job : ℕ) (cis : List String) → Keeps (OnJobs Q) (insert_inputs job cis)
  unfolding insert_inputs
  insert_inputs-OnJobs job [] = search job_rules
  insert_inputs-OnJobs job (ci ∷ cis) =
      insert-OnJobs _ _ (λ s rs. refl) (insert_inputs-OnJobs job cis)

  insert_rules-OnJobs :
      (job i : ℕ) (rules : List CreateOutputRule) → Keeps (OnJobs Q) (insert_rules job i rules)
  unfolding insert_rules
  insert_rules-OnJobs job i [] = search job_rules
  insert_rules-OnJobs job i (r ∷ rs) =
      insert-OnJobs _ _ (λ s rs. refl) (insert_rules-OnJobs job (suc i) rs)

  insert_tags-OnJobs :
      (job : ℕ) (tags : List (String × String)) → Keeps (OnJobs Q) (insert_tags job tags)
  unfolding insert_tags
  insert_tags-OnJobs job [] = search job_rules
  insert_tags-OnJobs job ((n, v) ∷ tags) =
      insert-OnJobs _ _ (λ s rs. refl) (insert_tags-OnJobs job tags)

ruleset create_rules = (
  job_rules, check_request-OnJobs, insert_tasks-OnJobs, insert_depends-OnJobs, insert_inputs-OnJobs,
  insert_rules-OnJobs, insert_tags-OnJobs,
)

module _ {js : List Job} (datetime : ℕ → ℕ) where
  pub job_create-JobSteps :
      (id : ℕ) (n : NewJob) → Keeps (OnJobs (JobSteps js)) (job_create datetime id n)
  unfolding job_create
  job_create-JobSteps id n = Keeps-bind _ _ (check_request-OnJobs n) λ _.
      Keeps-bind _ _ (insert_job-JobSteps (new_job id n) (new_job-IsNew id n))
        λ _. search create_rules depth 14

update_store-job :
    (p : JobStore → Bool) (f : JobStore → JobStore) (s : Database)
    → (after s (update_store p f s)).job ≡ s.job
unfolding update_store
update_store-job p f s = ground arith

module _ {Q : List Job → Type 0} where
  store_entry-OnJobs :
      (now job : ℕ) (name value : String) (secret : Bool) (source : String) (pre : Option JobStore)
      → Keeps (OnJobs Q) (store_entry now job name value secret source pre)
  unfolding store_entry
  store_entry-OnJobs now job name value secret source (some pre) =
      OnJobs-same _ (update_store-job _ _)
  store_entry-OnJobs now job name value secret source none = Keeps-bind _ _ (Keeps-gets _) λ n.
      Keeps-bind _ _ (Keeps-refuse_if _ _)
        λ _. Keeps-bind _ _ (Keeps-gets _) λ rows. stored-OnJobs rows _ (λ s rs. refl)

  pub store_put-OnJobs :
      (now job : ℕ) (name value : String) (secret : Bool) (source : String)
      → Keeps (OnJobs Q) (job_store_put now job name value secret source)
  unfolding job_store_put
  store_put-OnJobs now job name value secret source =
      search (job_rules, store_entry-OnJobs) depth 12
