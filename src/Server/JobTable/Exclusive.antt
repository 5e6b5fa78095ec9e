-- ===== src/Server/JobTable/Exclusive.antt =====
-- The jobs of one worker (the column `worker` of server/src/db/models.rs) under the writes of `JobStep`.
use buildomat.Prelude.{
  ℕ, ◌≤◌, ◌≡◌, refl, subst, sym, List, [], ◌∷◌, arith, ◌==◌, ==_iff, Bool-cases, inl, inr,
}
use native.Mathlib.Nat.{le_trans}
use buildomat.Sql.{count, update}
use buildomat.Sql.Lemmas.{count-update, count-update_le, count-update_miss, count-append}
use buildomat.Server.Models.{Job}
use buildomat.Server.State.{job_is}
use buildomat.Server.Workers.{assigned_to}
use buildomat.Server.JobTable.{
  JobStep, JobSteps, here, next, wake, cancel, finish, archive, assign, create, assigned,
  is_waiting, woken, is_incomplete, cancelled, finished, is_unarchived, archived,
}

abbrev pub IsExclusive : List Job → Type 0
IsExclusive js = (w : ℕ) → count (assigned_to w) js ≤ 1

assign-count :
    (w wid : ℕ) (j : Job) (js : List Job)
    → count (assigned_to wid) js ≡ 0
    → count (job_is j.id) js ≡ 1
    → count (assigned_to w) js ≤ 1
    → count (assigned_to w) (update (job_is j.id) (assigned wid) js) ≤ 1
assign-count w wid j js free one h = elim (Bool-cases (wid == w)) [
  | inl e ↦
      subst (λ x. count (assigned_to x) (update (job_is j.id) (assigned wid) js) ≤ 1)
        ((==_iff wid w).0 e)
        (omega (arith, count-update_le (assigned_to wid) (job_is j.id) (assigned wid) js))
  | inr e ↦ le_trans (count-update_miss (assigned_to w) (job_is j.id) (assigned wid) js (λ r. e)) h
]

-- One write keeps it.
pub JobStep-IsExclusive : {js js' : List Job} → JobStep js js' → IsExclusive js → IsExclusive js'
JobStep-IsExclusive {js} (wake id e) h =
    subst IsExclusive (sym e)
      λ w. rw (count-update (assigned_to w) (is_waiting id) woken js (λ r. refl)) (h w)
JobStep-IsExclusive {js} (cancel id e) h =
    subst IsExclusive (sym e)
      λ w. rw (count-update (assigned_to w) (is_incomplete id) cancelled js (λ r. refl)) (h w)
JobStep-IsExclusive {js} (finish id failed e) h =
    subst IsExclusive (sym e) λ w.
      rw (count-update (assigned_to w) (is_incomplete id) (finished failed) js (λ r. refl)) (h w)
JobStep-IsExclusive {js} (archive id time e) h =
    subst IsExclusive (sym e)
      λ w. rw (count-update (assigned_to w) (is_unarchived id) (archived time) js (λ r. refl)) (h w)
JobStep-IsExclusive {js} (assign wid j found_job no_worker no_job one e) h =
    subst IsExclusive (sym e) λ w. assign-count w wid j js no_job one (h w)
JobStep-IsExclusive {js} (create j new fresh e) h = subst IsExclusive (sym e) λ w.
    rw (count-append (assigned_to w) js (j ∷ []))
      (unfold count in rw new.no_worker (omega (arith, h w)))

pub JobSteps-IsExclusive : {js js' : List Job} → JobSteps js js' → IsExclusive js → IsExclusive js'
JobSteps-IsExclusive here h = h
JobSteps-IsExclusive (next r st) h = JobStep-IsExclusive st (JobSteps-IsExclusive r h)
