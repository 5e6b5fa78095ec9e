-- ===== src/Server/JobTable/Lifecycle.antt =====
-- What becomes of a row of the job table (server/src/db/models.rs) under the writes of `JobStep`.
use buildomat.Prelude.{
  ℕ, ◌≡◌, refl, ap, subst, sym, ◌∙◌, Bool, true, false, List, [], ◌∷◌, none, some, arith, ◌==◌,
  Bool-cases, inl, inr,
}
use buildomat.Sql.{update, find}
use buildomat.Sql.Lemmas.{find-update, find-eq-some, find-append, written}
use buildomat.Server.Models.{Job}
use buildomat.Server.State.{job_is}
use buildomat.Server.JobTable.{
  JobStep, JobSteps, here, next, wake, cancel, finish, archive, assign, create, is_waiting, woken,
  is_incomplete, cancelled, finished, is_unarchived, archived, assigned,
}

-- What a later row of a job has kept of an earlier one.
pub record Later (j j' : Job) : Type 0 where
  pub same_id : j'.id ≡ j.id
  pub same_owner : j'.owner ≡ j.owner
  pub same_name : j'.name ≡ j.name
  pub same_target : j'.target_id ≡ j.target_id
  pub stays_complete : j.complete ≡ true → j'.complete ≡ true
  pub keeps_failed : j.complete ≡ true → j'.failed ≡ j.failed
  pub keeps_cancelled : j.complete ≡ true → j'.cancelled ≡ j.cancelled
  pub stays_cancelled : j.cancelled ≡ true → j'.cancelled ≡ true
  pub stays_ready : j.waiting ≡ false → j'.waiting ≡ false
  pub keeps_worker : (w : ℕ) → j.worker ≡ some w → j'.worker ≡ some w
  pub keeps_archived : (t : ℕ) → j.time_archived ≡ some t → j'.time_archived ≡ some t

Later-refl : (j : Job) → Later j j
Later-refl j = record {
  same_id = refl;
  same_owner = refl;
  same_name = refl;
  same_target = refl;
  stays_complete = λ h. h;
  keeps_failed = λ h. refl;
  keeps_cancelled = λ h. refl;
  stays_cancelled = λ h. h;
  stays_ready = λ h. h;
  keeps_worker = λ w h. h;
  keeps_archived = λ t h. h;
}

Later-trans : (a b c : Job) → Later a b → Later b c → Later a c
Later-trans a b c h k = record {
  same_id = k.same_id ∙ h.same_id;
  same_owner = k.same_owner ∙ h.same_owner;
  same_name = k.same_name ∙ h.same_name;
  same_target = k.same_target ∙ h.same_target;
  stays_complete = λ e. k.stays_complete (h.stays_complete e);
  keeps_failed = λ e. k.keeps_failed (h.stays_complete e) ∙ h.keeps_failed e;
  keeps_cancelled = λ e. k.keeps_cancelled (h.stays_complete e) ∙ h.keeps_cancelled e;
  stays_cancelled = λ e. k.stays_cancelled (h.stays_cancelled e);
  stays_ready = λ e. k.stays_ready (h.stays_ready e);
  keeps_worker = λ w e. k.keeps_worker w (h.keeps_worker w e);
  keeps_archived = λ t e. k.keeps_archived t (h.keeps_archived t e);
}

woken-Later : (id : ℕ) (j : Job) → is_waiting id j ≡ true → Later j (woken j)
woken-Later id j h = ground arith

cancelled-Later : (id : ℕ) (j : Job) → is_incomplete id j ≡ true → Later j (cancelled j)
cancelled-Later id j h = ground arith

finished-Later : (id : ℕ) (b : Bool) (j : Job) → is_incomplete id j ≡ true → Later j (finished b j)
finished-Later id b j h = ground arith

archived-Later : (id t : ℕ) (j : Job) → is_unarchived id j ≡ true → Later j (archived t j)
archived-Later id t j h = ground arith

assigned-Later : (w : ℕ) (j : Job) → j.worker ≡ none → Later j (assigned w j)
assigned-Later w j h = ground arith

abbrev pub Follows : List Job → ℕ → Job → Type 0
Follows js id j = (j' : Job) × (find (job_is id) js ≡ some j') × Later j j'

written_Follows :
    (q : Job → Bool) (f : Job → Job) (js : List Job) (id : ℕ) (j : Job)
    → ((r : Job) → (f r).id ≡ r.id)
    → find (job_is id) js ≡ some j
    → (q j ≡ true → Later j (f j))
    → Follows (update q f js) id j
written_Follows q f js id j keeps e k = elim (Bool-cases (q j)) [
  | inl hit ↦ (f j, found ∙ ap (written q f) e ∙ rw hit, k hit)
  | inr miss ↦ (j, found ∙ ap (written q f) e ∙ rw miss, Later-refl j)
]
  where
    found : find (job_is id) (update q f js) ≡ written q f (find (job_is id) js)
    found = find-update (job_is id) q f js (λ r. ap (λ i. i == id) (keeps r))

-- The row that an assignment writes is the one that had no worker.
assign_row :
    (js : List Job) (id : ℕ) (j k : Job)
    → find (job_is k.id) js ≡ some k
    → find (job_is id) js ≡ some j
    → job_is k.id j ≡ true
    → j ≡ k
assign_row js id j k ek e hit =
    let i : id ≡ k.id = ground (arith, find-eq-some (job_is id) js j e) in
    let e' : find (job_is k.id) js ≡ some j = subst (λ x. find (job_is x) js ≡ some j) i e in cc

-- One write moves each job forward.
pub JobStep-Follows :
    {js js' : List Job} (id : ℕ) (j : Job)
    → JobStep js js'
    → find (job_is id) js ≡ some j
    → Follows js' id j
JobStep-Follows {js} id j (wake x e) h =
    subst (λ l. Follows l id j) (sym e)
      (written_Follows (is_waiting x) woken js id j (λ r. refl) h (woken-Later x j))
JobStep-Follows {js} id j (cancel x e) h =
    subst (λ l. Follows l id j) (sym e)
      (written_Follows (is_incomplete x) cancelled js id j (λ r. refl) h (cancelled-Later x j))
JobStep-Follows {js} id j (finish x b e) h =
    subst (λ l. Follows l id j) (sym e)
      (written_Follows (is_incomplete x) (finished b) js id j (λ r. refl) h (finished-Later x b j))
JobStep-Follows {js} id j (archive x t e) h =
    subst (λ l. Follows l id j) (sym e)
      (written_Follows (is_unarchived x) (archived t) js id j (λ r. refl) h (archived-Later x t j))
JobStep-Follows {js} id j (assign w k found_job no_worker no_job one e) h =
    subst (λ l. Follows l id j) (sym e)
      (written_Follows (job_is k.id) (assigned w) js id j (λ r. refl) h
        (λ hit.
          assigned-Later w j
            (ap (λ (r : Job). r.worker) (assign_row js id j k found_job h hit) ∙ no_worker)))
JobStep-Follows {js} id j (create k new fresh e) h =
    subst (λ l. Follows l id j) (sym e) (j, find-append (job_is id) js (k ∷ []) j h, Later-refl j)

pub JobSteps-Follows :
    {js js' : List Job} (id : ℕ) (j : Job)
    → JobSteps js js'
    → find (job_is id) js ≡ some j
    → Follows js' id j
JobSteps-Follows id j here h = (j, h, Later-refl j)
JobSteps-Follows id j (next r st) h =
    let (k, e, l) = JobSteps-Follows id j r h in
    let (m, e', l') = JobStep-Follows id k st e in (m, e', Later-trans j k m l l')
