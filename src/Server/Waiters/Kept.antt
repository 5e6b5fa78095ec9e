-- ===== src/Server/Waiters/Kept.antt =====
-- The job table under the loop of `job_waiters_one` over the dependencies.
use buildomat.Prelude.{ℕ, Bool, List, [], ◌∷◌, Option, none, some}
use buildomat.Server.Models.{Job, JobDepend}
use buildomat.Server.State.Keeps.{Keeps}
use buildomat.Server.Jobs.{Clock, job_complete}
use buildomat.Server.Pass.Keeps.{Guards, guards_rules}
use buildomat.Server.Waiters.{check_prior, check_depend, check_prior_jobs}
use buildomat.Server.JobTable.{OnJobs}
use buildomat.Server.JobTable.Refines.{append_event-OnJobs}
use buildomat.Server.JobTable.Files.{depend_satisfy-OnJobs}

ruleset prior_rules = (guards_rules, append_event-OnJobs, depend_satisfy-OnJobs)

module _ {Q : List Job → Type 0} (held : ℕ → Bool) (now : ℕ → Clock)
    (completes : (k : Clock) (job : ℕ) (failed : Bool)
      → Keeps (OnJobs Q) (job_complete k job failed)) where
  check_prior-Guards :
      (j : Job) (d : JobDepend) (o : Option Job) → Guards (OnJobs Q) (check_prior held now j d o)
  unfolding check_prior
  check_prior-Guards j d none = search (prior_rules, completes) depth 12
  check_prior-Guards j d (some pj) = search (prior_rules, completes) depth 14

  check_depend-Guards : (j : Job) (d : JobDepend) → Guards (OnJobs Q) (check_depend held now j d)
  unfolding check_depend
  check_depend-Guards j d = search (prior_rules, check_prior-Guards) depth 8

  pub check_prior_jobs-Guards :
      (j : Job) (ds : List JobDepend) → Guards (OnJobs Q) (check_prior_jobs held now j ds)
  unfolding check_prior_jobs
  check_prior_jobs-Guards j [] = search prior_rules
  check_prior_jobs-Guards j (d ∷ ds) =
      let rest = check_prior_jobs-Guards j ds in search (prior_rules, check_depend-Guards) depth 8
