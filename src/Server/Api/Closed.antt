-- ===== src/Server/Api/Closed.antt =====
-- A job that its worker has completed takes no more output files.
use buildomat.Prelude.{
  ℕ, ◌≡◌, refl, subst, Bool, true, not, List, [], ◌∷◌, Option, none, some, String, ok, ltb, arith,
  inl, inr, Bool-cases, Result-cases, ◌==◌, any,
}
use buildomat.Sql.{select, find}
use buildomat.Server.Models.{Job}
use buildomat.Server.State.{job_is}
use buildomat.Server.Jobs.{Clock, job_complete}
use buildomat.Server.Commits.{
  FileCommit, Inner, BackgroundId, of_job, commit_is, commit_new, commit_file, mark_job_completed,
  forget_job,
}
use buildomat.Server.Completion.Outcome.{job_complete-complete}
use buildomat.Server.Api.{Central}
use buildomat.Server.Api.JobFiles.{forget_after, complete_marked, close_job, add_output}

-- The job is marked as completed among the files, which have forgotten its commits, and its row is
-- complete.
pub record Closed (job : ℕ) (c : Central) : Type 0 where
  pub row : Job
  pub found : find (job_is job) c.database.job ≡ some row
  pub complete : row.complete ≡ true
  pub marked : any (λ j. j == job) c.files.completed_jobs ≡ true
  pub none_left : select (of_job job) c.files.commits ≡ []

select-gone :
    (job : ℕ) (cs : List FileCommit)
    → select (of_job job) (select (λ c. not (of_job job c)) cs) ≡ []
unfolding select
select-gone job [] = refl
select-gone job (c ∷ cs) = ground (arith, select-gone job cs)

pub forgotten-none :
    (job : ℕ) (i i' : Inner) → forget_job job i ≡ ok i' → select (of_job job) i'.commits ≡ []
unfolding forget_job
forgotten-none job i i' h = ground (arith, select-gone job i.commits)

pub mark-marked :
    (job : ℕ) (i i' : Inner)
    → mark_job_completed job i ≡ ok i'
    → any (λ j. j == job) i'.completed_jobs ≡ true
unfolding mark_job_completed
mark-marked job i i' h = ground arith

pub mark-kept : (job : ℕ) (i i' : Inner) → mark_job_completed job i ≡ ok i' → i'.commits ≡ i.commits
unfolding mark_job_completed
mark-kept job i i' h = ground arith

pub forget-kept :
    (job : ℕ) (i i' : Inner) → forget_job job i ≡ ok i' → i'.completed_jobs ≡ i.completed_jobs
unfolding forget_job
forget-kept job i i' h = ground arith

forgotten-Closed :
    (job : ℕ) (c c' : Central) (j : Job)
    → find (job_is job) c.database.job ≡ some j
    → j.complete ≡ true
    → any (λ x. x == job) c.files.completed_jobs ≡ true
    → forget_after job c ≡ (ok tt, c')
    → Closed job c'
unfolding forget_after
forgotten-Closed job c c' j f k m h = elim (Result-cases (forget_job job c.files)) [
  | inl (i, e) ↦
      let same : record c { files = i } ≡ c' = ground (arith, rw (forget_after, e) at h) in
      subst (Closed job) same (record {
        row = j;
        found = f;
        complete = k;
        marked = rw (forget-kept job c.files i e) m;
        none_left = forgotten-none job c.files i e;
      })
  | inr (f, e) ↦ absurd (ground (arith, rw (forget_after, e) at h))
]

marked-Closed :
    (now : Clock) (failed : Bool) (job : ℕ) (c c' : Central)
    → any (λ x. x == job) c.files.completed_jobs ≡ true
    → complete_marked now job failed c ≡ (ok tt, c')
    → Closed job c'
unfolding complete_marked
marked-Closed now failed job c c' m h =
    elim (Result-cases (job_complete now job failed c.database)) [
      | inl ((b, t), e) ↦
          let (j, f, k) = job_complete-complete now job failed c.database b t e in
          forgotten-Closed job (record c { database = t }) c' j f k m (rw (complete_marked, e) at h)
      | inr (f, e) ↦ absurd (ground (arith, rw (complete_marked, e) at h))
    ]

pub close_job-Closed :
    (now : Clock) (failed : Bool) (job : ℕ) (c c' : Central)
    → close_job now failed job c ≡ (ok tt, c')
    → Closed job c'
unfolding close_job
close_job-Closed now failed job c c' h = elim (Result-cases (mark_job_completed job c.files)) [
  | inl (i, e) ↦
      marked-Closed now failed job (record c { files = i }) c' (mark-marked job c.files i e)
        (rw (close_job, e) at h)
  | inr (f, e) ↦ absurd (ground (arith, rw (close_job, e) at h))
]

not_found :
    (id : BackgroundId) (cs : List FileCommit)
    → select (of_job id.job) cs ≡ []
    → find (commit_is id) cs ≡ none
unfolding select find
not_found id [] h = refl
not_found id (c ∷ cs) h = ground (arith, not_found id cs)

pub Closed-refuses :
    (max : ℕ) (chunks : Option (List ℕ)) (commit : Option ℕ) (path : String) (size job : ℕ)
    (c : Central)
    → Closed job c
    → (add_output max chunks commit path size job c).1 ≡ c
unfolding add_output commit_file commit_new
Closed-refuses max none commit path size job c closed = refl
Closed-refuses max (some cs) none path size job c closed = refl
Closed-refuses max (some cs) (some id) path size job c closed = elim (Bool-cases (ltb max size)) [
  | inl e ↦ rw e refl
  | inr e ↦
      rw
        (
          e,
          commit_file,
          not_found (record { job = job; commit = id }) c.files.commits closed.none_left,
          closed.marked,
        )
        refl
]
