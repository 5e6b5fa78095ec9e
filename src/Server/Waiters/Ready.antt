-- ===== src/Server/Waiters/Ready.antt =====
-- When `job_waiters_one` releases a job.
use buildomat.Prelude.{
  ℕ, ◌≡◌, refl, sym, ap, subst, ◌∙◌, Bool, true, false, not, ◌||◌, List, [], some, Result, ok, err,
  arith, ◌==◌, inl, inr, ◌⊎◌, any, All, is_none, if◌then◌else◌,
}
use buildomat.Sql.{find, update, order_by, select}
use buildomat.Sql.Lemmas.{find-update, written, map-All}
use buildomat.Server.Models.{Job, JobDepend, JobInput, JobFile}
use buildomat.Server.State.{Database, Failure, job_is, after}
use buildomat.Server.State.Keeps.{Keeps}
use buildomat.Server.Jobs.{Clock, job_wakeup, finish_job, job_complete}
use buildomat.Server.Files.{job_inputs, join_inputs, id_key}
use buildomat.Server.Pass.{call, give, complete_job, proceed, settle, ◌>>=◌, ◌>>◌}
use buildomat.Server.Pass.Keeps.{Guards, Guards-complete_job, Guards-bind, Guards-give}
use buildomat.Server.JobTable.{OnJobs, is_incomplete, finished}
use buildomat.Server.JobTable.Frame.{job_rules}
use buildomat.Server.JobTable.Refines.{mark_tasks-OnJobs, job_outcome-OnJobs}
use buildomat.Server.Waiters.{job_depends, check_prior_jobs, release, check_waiting, one_waiter}
use buildomat.Server.Waiters.Rest.{rest_of, wakeup-OnRest}
use buildomat.Server.Waiters.Prior.{is_awaited, job_depends-covered, check_prior_jobs-covered}
use buildomat.Server.Waiters.Kept.{check_prior_jobs-Guards}

-- The job still waits.
record IsWaiting (id : ℕ) (js : List Job) : Type 0 where
  row : Job
  stands : find (job_is id) js ≡ some row
  waits : row.waiting ≡ true

module _ {id : ℕ} where
  finish-IsWaiting :
      (x : ℕ) (b : Bool) (js : List Job)
      → IsWaiting id js
      → IsWaiting id (update (is_incomplete x) (finished b) js)
  finish-IsWaiting x b js h = record {
    row = if is_incomplete x h.row then finished b h.row else h.row;
    stands =
        find-update (job_is id) (is_incomplete x) (finished b) js (λ r. refl)
        ∙ ap (written (is_incomplete x) (finished b)) h.stands;
    waits = ground (arith, h.waits);
  }

  finish_job-IsWaiting :
      (now : Clock) (j : Job) (failed : Bool)
      → Keeps (OnJobs (IsWaiting id)) (finish_job now j failed)
  unfolding finish_job
  finish_job-IsWaiting now j failed =
      search (job_rules, finish-IsWaiting, mark_tasks-OnJobs, job_outcome-OnJobs) depth 14

  complete-IsWaiting :
      (now : Clock) (job : ℕ) (failed : Bool)
      → Keeps (OnJobs (IsWaiting id)) (job_complete now job failed)
  unfolding job_complete
  complete-IsWaiting now job failed = search (job_rules, finish_job-IsWaiting) depth 8

-- A job whose dependencies are satisfied, and whose inputs all have their files.
record IsReady (job : ℕ) (s : Database) : Type 0 where
  depends : All (λ d. (not (d.job == job) || d.satisfied) ≡ true) s.job_depend
  inputs : any (λ r. is_none r.1) (job_inputs job s) ≡ false

-- The job waits, or it is ready.
abbrev WaitsOrReady : ℕ → Database → Type 0
WaitsOrReady job s = IsWaiting job s.job ⊎ IsReady job s

settled_rest :
    (s : Database) (r : Result Failure (Unit {0} × Database))
    → rest_of (after s r) ≡ rest_of s
    → rest_of (settle s r).1 ≡ rest_of s
settled_rest s (ok (a, t)) h = h
settled_rest s (err e) h = h

IsReady-rest : (job : ℕ) (s t : Database) → rest_of t ≡ rest_of s → IsReady job s → IsReady job t
unfolding job_inputs
IsReady-rest job s t e h = record {
  depends =
      subst (All (λ d. (not (d.job == job) || d.satisfied) ≡ true))
        (sym (ap (λ (x : List JobDepend × List JobInput × List JobFile). x.0) e)) h.depends;
  inputs =
      subst
        (λ (x : List JobDepend × List JobInput × List JobFile).
          any (λ r. is_none r.1)
            (order_by (λ r. id_key r.0.id) (select (λ r. r.0.job == job) (join_inputs x.2 x.1)))
          ≡ false)
        (sym e) h.inputs;
}

module _ (held : ℕ → Bool) (now : ℕ → Clock) (j : Job) where
  woken : (s : Database) → IsReady j.id s → IsReady j.id (call (job_wakeup (now j.id) j.id) s).1
  unfolding call
  woken s h =
      IsReady-rest j.id s _
        (settled_rest s (job_wakeup (now j.id) j.id s)
          ((wakeup-OnRest {s0 = s} (now j.id) j.id).at s (record { same = refl })).same)
        h

  branch-ready :
      (c : Bool) (s : Database)
      → any (λ r. is_none r.1) (job_inputs j.id s) ≡ c
      → All (λ d. is_awaited j.id [] d ≡ true) s.job_depend
      → IsWaiting j.id s.job
      → WaitsOrReady j.id ((if c then give tt else call (job_wakeup (now j.id) j.id)) s).1
  unfolding give
  branch-ready true s e k w = inl w
  branch-ready false s e k w =
      inr (woken s (record { depends = map-All s.job_depend (λ d h. ground arith) k; inputs = e }))

  release-ready :
      (s : Database)
      → All (λ d. is_awaited j.id [] d ≡ true) s.job_depend
      → IsWaiting j.id s.job
      → WaitsOrReady j.id (release held now j s).1
  unfolding release ◌>>=◌
  release-ready s k w = branch-ready (any (λ r. is_none r.1) (job_inputs j.id s)) s refl k w

  -- What the loop over the dependencies leaves.
  checked-ready :
      (p : Result Failure Bool × Database)
      → IsWaiting j.id p.1.job
      → (p.0 ≡ ok true → All (λ d. is_awaited j.id [] d ≡ true) p.1.job_depend)
      → WaitsOrReady j.id (proceed p (λ go. if go then release held now j else give tt)).1
  unfolding give
  checked-ready (ok true, s) w k = release-ready s (k refl) w
  checked-ready (ok false, s) w k = inl w
  checked-ready (err e, s) w k = inl w

  loop-IsWaiting :
      (ds : List JobDepend) (s : Database)
      → IsWaiting j.id s.job
      → IsWaiting j.id (check_prior_jobs held now j ds s).1.job
  loop-IsWaiting ds s w =
      ((check_prior_jobs-Guards held now (λ k job failed. complete-IsWaiting k job failed) j ds).at
        s (record { jobs = w })).jobs

  check_waiting-ready :
      (s : Database) → IsWaiting j.id s.job → WaitsOrReady j.id (check_waiting held now j s).1
  unfolding check_waiting ◌>>=◌
  check_waiting-ready s w =
      let p = check_prior_jobs held now j (job_depends j.id s) s in
      checked-ready p (loop-IsWaiting (job_depends j.id s) s w) (λ e.
        check_prior_jobs-covered held now j (job_depends j.id s) s p.1
          (ap (λ (x : Result Failure Bool). (x, p.1)) e) (job_depends-covered j.id s))

  one_waiter-or :
      (c : Bool) (s : Database)
      → IsWaiting j.id s.job
      → WaitsOrReady j.id
          ((if c
              then complete_job held (now j.id) j.id true >> give tt
              else check_waiting held now j)
            s).1
  one_waiter-or true s w =
      let gone : Guards (OnJobs (IsWaiting j.id))
          (complete_job held (now j.id) j.id true >> give tt) =
        Guards-bind _ _
          (Guards-complete_job held (now j.id) j.id true (complete-IsWaiting (now j.id) j.id true))
          (λ _. Guards-give tt) in
      inl (gone.at s (record { jobs = w })).jobs
  one_waiter-or false s w = check_waiting-ready s w

still :
    (id : ℕ) (js : List Job) (row : Job)
    → IsWaiting id js
    → find (job_is id) js ≡ some row
    → row.waiting ≡ false
    → ⊥
still id js row k e w = ground (arith, k.stands, k.waits)

-- Take a job that waits. If it no longer waits when the pass is done with it, then every dependency of
-- the job is satisfied and every input of it has its file: nothing else releases it, and a failure of
-- a call on the way does not either.
pub one_waiter-ready :
    (held : ℕ → Bool) (now : ℕ → Clock) (j row row' : Job) (s : Database)
    → find (job_is j.id) s.job ≡ some row
    → row.waiting ≡ true
    → find (job_is j.id) (one_waiter held now j s).1.job ≡ some row'
    → row'.waiting ≡ false
    → All (λ d. (not (d.job == j.id) || d.satisfied) ≡ true) (one_waiter held now j s).1.job_depend
      × (any (λ r. is_none r.1) (job_inputs j.id (one_waiter held now j s).1) ≡ false)
unfolding one_waiter
one_waiter-ready held now j row row' s e w e' w' =
    elim (one_waiter-or held now j j.cancelled s (record { row = row; stands = e; waits = w })) [
      | inl k ↦ absurd (still j.id _ row' k e' w')
      | inr r ↦ (r.depends, r.inputs)
    ]
