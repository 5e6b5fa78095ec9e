-- ===== src/Server/Completion/Outcome.antt =====
-- A job that `job_complete` has completed.
use buildomat.Prelude.{
  ℕ, ◌≡◌, refl, sym, ap, subst, ◌∙◌, Bool, true, false, not, ◌||◌, List, [], ◌∷◌, none, some,
  String, Result, ok, arith, Bool-cases, inl, inr, any, All, if◌then◌else◌, ==_refl,
}
use buildomat.Sql.{select, update, order_by, find}
use buildomat.Sql.Lemmas.{find-update, find-eq-some, written, any-order_by, map-All}
use buildomat.Server.Models.{Task, Job, task_failures}
use buildomat.Server.State.{Database, Tx, Failure, pure, after, ◌>>=◌, job_is, update_job, find_job}
use buildomat.Server.State.Keeps.{Keeps}
use buildomat.Server.Events.{i_job_time_record}
use buildomat.Server.Events.Sequence.{event_insert_lem}
use buildomat.Server.Jobs.{Clock, task_of, mark_tasks, job_outcome, finish_job, job_complete}
use buildomat.Server.JobTable.{OnJobs, is_incomplete, finished}
use buildomat.Server.JobTable.Refines.{mark_tasks-OnJobs, job_outcome-OnJobs}
use buildomat.Server.State.Bind.{bind-eq-ok, find_job-eq-ok, refuse_if-eq-ok, gets-bind, pure-eq-ok}
use buildomat.Server.Completion.Tasks.{
  has_failed, is_covered, is_consistent, mark_tasks-failed, mark_tasks-covered, query-covered,
}

-- The job table behind a step that leaves it as it is.
same_jobs :
    {A : Type 0} (m : Tx A) (s : Database) (a : A) (t : Database)
    → Keeps (OnJobs (λ js. js ≡ s.job)) m
    → m s ≡ ok (a, t)
    → t.job ≡ s.job
same_jobs m s a t k h =
    subst (λ (r : Result Failure (_ × Database)). (after s r).job ≡ s.job) h
      (k.at s (record { jobs = refl })).jobs

outcome-failed :
    (now : Clock) (j : Job) (failed : Bool) (m : ℕ × Bool) (s : Database) (o : ℕ × Bool)
    (t : Database)
    → job_outcome now j failed m s ≡ ok (o, t)
    → o.1 ≡ (failed || m.1)
unfolding job_outcome pure
outcome-failed now j true (n, b) s o t h = ground arith
outcome-failed now j false (n, false) s o t h = ground arith
outcome-failed now j false (n, true) s o t h =
    let (_, u, _, k) = bind-eq-ok _ _ s o t h in ground arith

outcome-task :
    (now : Clock) (j : Job) (failed : Bool) (m : ℕ × Bool) (s : Database) (o : ℕ × Bool)
    (t : Database)
    → job_outcome now j failed m s ≡ ok (o, t)
    → t.task ≡ s.task
unfolding job_outcome pure
outcome-task now j true (n, b) s o t h = ground arith
outcome-task now j false (n, false) s o t h = ground arith
outcome-task now j false (n, true) s o t h =
    let (_, u, e, k) = bind-eq-ok _ _ s o t h in
    ground (arith, event_insert_lem j.id none "control" (now n) none task_failures s)

update_job-eq-ok :
    (p : Job → Bool) (f : Job → Job) (s t : Database)
    → update_job p f s ≡ ok (tt, t)
    → t ≡ record s { job = update p f s.job }
unfolding update_job
update_job-eq-ok p f s t h = ground arith

time_record-eq-ok :
    (job : ℕ) (name : String) (when : ℕ) (s t : Database)
    → i_job_time_record job name when s ≡ ok (tt, t)
    → (t.job ≡ s.job) × (t.task ≡ s.task)
unfolding i_job_time_record
time_record-eq-ok job name when s t h = ground arith

found_row :
    (js : List Job) (id : ℕ) (j : Job) (b : Bool)
    → find (job_is id) js ≡ some j
    → j.complete ≡ false
    → find (job_is id) (update (is_incomplete j.id) (finished b) js) ≡ some (finished b j)
found_row js id j b e c =
    find-update (job_is id) (is_incomplete j.id) (finished b) js (λ r. refl)
    ∙ ap (written (is_incomplete j.id) (finished b)) e
    ∙ rw (==_refl j.id, c) refl

-- What is left when `finish_job` is done with a job.
record Finished (j : Job) (failed : Bool) (s s' : Database) : Type 0 where
  pub jobs :
      s'.job
      ≡ update
          (is_incomplete j.id)
          (finished (failed || any has_failed (select (task_of j.id) s.task)))
          s.job
  pub tasks :
      j.cancelled ≡ false
      → All (λ r. is_consistent r ≡ true) s.task
      → All (λ r. is_covered j.id [] r ≡ true) s'.task

module _ (now : Clock) (j : Job) (failed : Bool) where
  abbrev query : Database → List Task
  query s = order_by (λ t. t.seq) (select (task_of j.id) s.task)

  steps-Finished :
      (s s3 s4 s5 s6 : Database) (m o : ℕ × Bool)
      → mark_tasks now j 0 false (query s) s ≡ ok (m, s3)
      → job_outcome now j failed m s3 ≡ ok (o, s4)
      → update_job (is_incomplete j.id) (finished o.1) s4 ≡ ok (tt, s5)
      → i_job_time_record j.id "complete" (now o.0) s5 ≡ ok (tt, s6)
      → Finished j failed s s6
  steps-Finished s s3 s4 s5 s6 m o h3 h4 h5 h6 =
      let jobs3 = same_jobs _ s m s3 (mark_tasks-OnJobs now j 0 false (query s)) h3 in
      let jobs4 = same_jobs _ s3 o s4 (job_outcome-OnJobs now j failed m) h4 in
      let wrote = update_job-eq-ok (is_incomplete j.id) (finished o.1) s4 s5 h5 in
      let kept = time_record-eq-ok j.id "complete" (now o.0) s5 s6 h6 in
      let flag =
        outcome-failed now j failed m s3 o s4 h4
        ∙ ap (λ b. failed || b)
            (mark_tasks-failed now j (query s) 0 false s m s3 h3
              ∙ any-order_by has_failed (λ t. t.seq) (select (task_of j.id) s.task)) in
      record {
        jobs =
            kept.0
            ∙ ap (λ (d : Database). d.job) wrote
            ∙ ap (update (is_incomplete j.id) (finished o.1)) (jobs4 ∙ jobs3)
            ∙ ap (λ b. update (is_incomplete j.id) (finished b) s.job) flag;
        tasks = λ c k.
            subst (All (λ r. is_covered j.id [] r ≡ true))
              (sym (
                kept.1
                ∙ ap (λ (d : Database). d.task) wrote
                ∙ outcome-task now j failed m s3 o s4 h4))
              (mark_tasks-covered now j (query s) 0 false s m s3 c h3
                (query-covered j.id s.task k));
      }

  finish_job-Finished :
      (s : Database) (b : Bool) (s' : Database)
      → finish_job now j failed s ≡ ok (b, s')
      → (b ≡ true) × Finished j failed s s'
  unfolding finish_job pure
  finish_job-Finished s b s' h =
      let h1 = refuse_if-eq-ok _ _ _ s (b, s') h in
      let h2 = sym (gets-bind _ _ s) ∙ h1 in
      let (m, s3, e3, h3) = bind-eq-ok _ _ s b s' h2 in
      let (o, s4, e4, h4) = bind-eq-ok _ _ s3 b s' h3 in
      let (_, s5, e5, h5) = bind-eq-ok _ _ s4 b s' h4 in
      let (_, s6, e6, h6) = bind-eq-ok _ _ s5 b s' h5 in
      let (v, w) = pure-eq-ok true s6 b s' h6 in
      (sym v, subst (Finished j failed s) w (steps-Finished s s3 s4 s5 s6 m o e3 e4 e5 e6))

every-All :
    (p : Task → Bool) (ts : List Task) → ((t : Task) → p t ≡ true) → All (λ t. p t ≡ true) ts
every-All p [] h = tt
every-All p (t ∷ ts) h = (h t, every-All p ts h)

settled :
    (j : Job) (failed : Bool) (s s' : Database)
    → Finished j failed s s'
    → All (λ t. is_consistent t ≡ true) s.task
    → All (λ t. (j.cancelled || not (task_of j.id t) || t.complete) ≡ true) s'.task
settled j failed s s' f k = elim (Bool-cases j.cancelled) [
  | inl e ↦ rw e (every-All _ s'.task (λ t. refl))
  | inr e ↦ rw e (map-All s'.task (λ t h. ground arith) (f.tasks e k))
]

found_id : (id : ℕ) (js : List Job) (j : Job) → find (job_is id) js ≡ some j → j.id ≡ id
found_id id js j e = ground (arith, find-eq-some (job_is id) js j e)

else_branch :
    (c : Bool) (m n : Tx Bool) (s : Database) (r : Result Failure (Bool × Database))
    → c ≡ false
    → (if c then m else n) s ≡ r
    → n s ≡ r
else_branch true m n s r e h = absurd (ground arith)
else_branch false m n s r e h = h

complete-eq-ok :
    (now : Clock) (job : ℕ) (failed : Bool) (s : Database) (j : Job) (b : Bool) (s' : Database)
    → find (job_is job) s.job ≡ some j
    → j.complete ≡ false
    → job_complete now job failed s ≡ ok (b, s')
    → finish_job now j failed s ≡ ok (b, s')
unfolding job_complete find_job ◌>>=◌
complete-eq-ok now job failed s j b s' e c h =
    else_branch j.complete (pure false) (finish_job now j failed) s (ok (b, s')) c (rw e at h)

finished_row :
    (now : Clock) (job : ℕ) (failed : Bool) (s : Database) (j : Job) (b : Bool) (s' : Database)
    → find (job_is job) s.job ≡ some j
    → j.complete ≡ false
    → job_complete now job failed s ≡ ok (b, s')
    → (o : Bool) × (find (job_is job) s'.job ≡ some (finished o j))
finished_row now job failed s j b s' e c h =
    let (v, f) =
      finish_job-Finished now j failed s b s' (complete-eq-ok now job failed s j b s' e c h) in
    let i : j.id ≡ job = found_id job s.job j e in
    let own : find (job_is j.id) s.job ≡ some j =
      subst (λ x. find (job_is x) s.job ≡ some j) (sym i) e in
    (
      failed || any has_failed (select (task_of j.id) s.task),
      subst
          (λ x.
            find (job_is x) s'.job
            ≡ some (finished (failed || any has_failed (select (task_of j.id) s.task)) j))
          i (ap (find (job_is j.id)) f.jobs ∙ found_row s.job j.id j _ own c),
    )

then_branch :
    (c : Bool) (m n : Tx Bool) (s : Database) (r : Result Failure (Bool × Database))
    → c ≡ true
    → (if c then m else n) s ≡ r
    → m s ≡ r
then_branch true m n s r e h = h
then_branch false m n s r e h = absurd (ground arith)

-- Whether or not the job was complete before, its row is complete behind a call that succeeds.
pub job_complete-complete :
    (now : Clock) (job : ℕ) (failed : Bool) (s : Database) (b : Bool) (s' : Database)
    → job_complete now job failed s ≡ ok (b, s')
    → (j : Job) × (find (job_is job) s'.job ≡ some j) × (j.complete ≡ true)
unfolding job_complete
job_complete-complete now job failed s b s' h =
    let (j, e, k) = find_job-eq-ok job _ s (b, s') h in
    elim (Bool-cases j.complete) [
      | inl c ↦
          let (v, w) =
            pure-eq-ok false s b s'
              (then_branch j.complete (pure false) (finish_job now j failed) s _ c k) in
          subst (λ t. (i : Job) × (find (job_is job) t.job ≡ some i) × (i.complete ≡ true)) w
            (j, e, c)
      | inr c ↦ let (o, f) = finished_row now job failed s j b s' e c h in (finished o j, f, refl)
    ]

-- Take a database in which every failed task is complete, and a job that is not complete. When
-- `job_complete` succeeds on it, it answers true; the job's row is then complete, as failed as the
-- caller says or as one of its tasks was when the call began, and otherwise as it was; and, unless the
-- job was cancelled, every task of the job is complete.
pub job_complete-outcome :
    (now : Clock) (job : ℕ) (failed : Bool) (s : Database) (j : Job) (b : Bool) (s' : Database)
    → All (λ t. is_consistent t ≡ true) s.task
    → find (job_is job) s.job ≡ some j
    → j.complete ≡ false
    → job_complete now job failed s ≡ ok (b, s')
    → (b ≡ true)
      × (find (job_is job) s'.job
          ≡ some (finished (failed || any has_failed (select (task_of job) s.task)) j))
      × All (λ t. (j.cancelled || not (task_of job t) || t.complete) ≡ true) s'.task
job_complete-outcome now job failed s j b s' k e c h =
    let (v, f) =
      finish_job-Finished now j failed s b s' (complete-eq-ok now job failed s j b s' e c h) in
    let i : j.id ≡ job = found_id job s.job j e in
    let own : find (job_is j.id) s.job ≡ some j =
      subst (λ x. find (job_is x) s.job ≡ some j) (sym i) e in
    (
      v,
      subst
          (λ x.
            find (job_is x) s'.job
            ≡ some (finished (failed || any has_failed (select (task_of x) s.task)) j))
          i (ap (find (job_is j.id)) f.jobs ∙ found_row s.job j.id j _ own c),
      subst (λ x. All (λ t. (j.cancelled || not (task_of x t) || t.complete) ≡ true) s'.task) i
          (settled j failed s s' f k),
    )
