-- ===== src/Server/Api/Later/Seals.antt =====
-- What was recorded for a job stays as it was when its worker completed it.
use buildomat.Prelude.{
  ℕ, ◌≡◌, refl, sym, ap, subst, ◌∙◌, Bool, true, false, List, [], ◌∷◌, Option, none, some, String,
  Result, ok, err, arith, inl, inr, Bool-cases, Result-cases, Option-cases, ◌==◌, any,
}
use buildomat.Sql.{select, find}
use buildomat.Server.Models.{Job, JobInput, Worker, text}
use buildomat.Server.State
use buildomat.Server.State.{Database, Tx, job_is, find_job}
use buildomat.Server.State.Keeps.{Keeps}
use buildomat.Server.Jobs.{Clock, job_append_event, job_complete, task_complete}
use buildomat.Server.Store.{job_store_put}
use buildomat.Server.Workers.{worker_job, worker_flush, worker_destroy, assigned_to}
use buildomat.Server.Bootstrap.{worker_associate}
use buildomat.Server.Commits.{of_job, mark_job_completed, forget_job}
use buildomat.Server.Factories.{Fleet}
use buildomat.Server.Factories.Requests.{
  append_to, own_worker, factory_worker_append, factory_worker_flush, factory_worker_associate,
  factory_worker_destroy,
}
use buildomat.Server.Factories.Confined.{unauth-state, replied-state, one_job-cases}
use buildomat.Server.Factories.Reach.{
  WorkerRequest, flushes, destroys, associates, own_worker-cases,
}
use buildomat.Server.Factories.Reach
use buildomat.Server.Api.{
  HttpError, Handler, Central, call, reply, deny, look, parsed_id, ◌>>=◌, ◌>>◌,
}
use buildomat.Server.Api.WorkerRequests.{
  own_job, worker_task_complete, worker_job_store_get, worker_job_input_download, job_input_by_str,
  found_input, input_is,
}
use buildomat.Server.Api.JobFiles.{
  close_job, complete_marked, forget_after, worker_job_complete, worker_job_upload_chunk,
}
use buildomat.Server.Api.Serve.{
  JobRequest, appends, appends_to_task, completes_task, gets_store, puts_store, downloads_input,
  uploads_chunk, adds_output_sync, adds_output, completes, answered, on_database, serve,
}
use buildomat.Server.Api.Owner.{own_job-cases}
use buildomat.Server.Api.Local.{share, Isolated, Spares}
use buildomat.Server.Api.Isolation.{answered-state, serve-Isolated}
use buildomat.Server.Api.Closed.{Closed, forgotten-none, mark-marked, mark-kept, forget-kept}
use buildomat.Server.Api.Sealed.{adds_data, Closed-sealed, completes-Closed}
use buildomat.Server.Api.Later.{
  JobData, data_of, Request, of_worker, of_factory, of_user, follow, follow_all,
}
use buildomat.Server.Api.Later.Recorded.{
  IsOver, part-IsOver, call-IsOver, append-IsOver, put-IsOver, flush-IsOver, destroy-IsOver,
  associate-IsOver, task_complete-IsOver,
}

module _ (k : ℕ) (row : Job) (d : JobData) (done : row.complete ≡ true) where
  -- The files have closed the job, too.
  record IsShut (c : Central) : Type 0 where
    pub over : IsOver k row d done c.database
    pub marked : any (λ j. j == k) c.files.completed_jobs ≡ true
    pub none_left : select (of_job k) c.files.commits ≡ []

  shut-Closed : (c : Central) → IsShut c → Closed k c
  shut-Closed c h = record {
    row = row;
    found = h.over.found;
    complete = done;
    marked = h.marked;
    none_left = h.none_left;
  }

  with_database :
      (c : Central) (s : Database)
      → IsShut c
      → IsOver k row d done s
      → IsShut (record c { database = s })
  with_database c s h over = record { over = over; marked = h.marked; none_left = h.none_left }

  share-IsShut : (c c' : Central) → share k c' ≡ share k c → IsShut c → IsShut c'
  unfolding share
  share-IsShut c c' same h = record {
    over = part-IsOver k row d done c.database c'.database (ap (λ x. x.database) same) h.over;
    marked = ap (λ x. x.completed) same ∙ h.marked;
    none_left = ap (λ x. x.commits) same ∙ h.none_left;
  }

  forget-IsShut : (c : Central) → IsShut c → IsShut (forget_after k c).1
  unfolding forget_after
  forget-IsShut c h = elim (Result-cases (forget_job k c.files)) [
    | inr (f, e) ↦ rw (forget_after, e) h
    | inl (i, e) ↦
        rw (forget_after, e)
          (record {
            over = h.over;
            marked = rw (forget-kept k c.files i e) h.marked;
            none_left = forgotten-none k c.files i e;
          })
  ]

  complete-again :
      (now : Clock) (failed : Bool) (s : Database)
      → IsOver k row d done s
      → job_complete now k failed s ≡ ok (false, s)
  unfolding job_complete find_job State.◌>>=◌
  complete-again now failed s h = rw (h.found, done) refl

  close-IsShut :
      (now : Clock) (failed : Bool) (c : Central) → IsShut c → IsShut (close_job now failed k c).1
  unfolding close_job complete_marked
  close-IsShut now failed c h = elim (Result-cases (mark_job_completed k c.files)) [
    | inr (f, e) ↦ rw (close_job, e) h
    | inl (i, e) ↦
        rw (close_job, e, complete_marked, complete-again now failed c.database h.over)
          (forget-IsShut (record c { files = i })
            (record {
              over = h.over;
              marked = mark-marked k c.files i e;
              none_left = ap (select (of_job k)) (mark-kept k c.files i e) ∙ h.none_left;
            }))
  ]

  replied-IsOver :
      {A B : Type 0} (m : Tx A) (b : B) (s : Database)
      → Keeps (IsOver k row d done) m
      → IsOver k row d done s
      → IsOver k row d done ((call m >> reply b) s).1
  unfolding call ◌>>=◌
  replied-IsOver m b s keeps h = rw (replied-state b s (m s)) (keeps.at s h)

  module _ (token : Option String) (c : Central) (h : IsShut c) where
    answered-IsShut :
        {A : Type 0} (r : Result HttpError A × Database)
        → IsOver k row d done r.1
        → IsShut (answered (λ s. record c { database = s }) r).1
    answered-IsShut (ok a, s) over = with_database c s h over
    answered-IsShut (err e, s) over = with_database c s h over

    own_job-IsShut :
        {A : Type 0} (f : Job → Handler A)
        → ((j : Job) → IsOver k row d done (f j c.database).1)
        → IsShut (on_database (own_job token (some k) >>= f) c).1
    unfolding on_database ◌>>=◌
    own_job-IsShut f over =
        answered-IsShut ((own_job token (some k) >>= f) c.database)
          (elim (own_job-cases token (some k) c.database) [
            | inl (e, r) ↦ rw r h.over
            | inr (j, owner, r) ↦ rw r (over j)
          ])

    -- A look at an input.
    found_same :
        {A : Type 0} (f : JobInput → A) (j : ℕ) (input : Option ℕ)
        → ((job_input_by_str j input >>= λ r. reply (f r)) c.database).1 ≡ c.database
    unfolding job_input_by_str ◌>>=◌ parsed_id look found_input reply deny
    found_same f j none = refl
    found_same f j (some id) = elim (Option-cases (find (input_is j id) c.database.job_input)) [
      | inl e ↦ rw e refl
      | inr (r, e) ↦ rw e refl
    ]

    closed_same : (r : JobRequest) → adds_data r ≡ true → IsShut (serve r token (some k) c).1
    closed_same r e = subst IsShut (sym (Closed-sealed token k c (shut-Closed c h) r e)) h

    -- A request of the worker of the job.
    own-IsShut : (r : JobRequest) → IsShut (serve r token (some k) c).1
    unfolding serve worker_task_complete worker_job_store_get worker_job_input_download
        worker_job_upload_chunk worker_job_complete look reply deny ◌>>=◌
    own-IsShut (appends now stream time payload) =
        closed_same (appends now stream time payload) refl
    own-IsShut (appends_to_task now task stream time payload) =
        closed_same (appends_to_task now task stream time payload) refl
    own-IsShut (puts_store now name value secret) =
        closed_same (puts_store now name value secret) refl
    own-IsShut (adds_output_sync len copied fid path size chunks) =
        closed_same (adds_output_sync len copied fid path size chunks) refl
    own-IsShut (adds_output max chunks commit path size) =
        closed_same (adds_output max chunks commit path size) refl
    own-IsShut (completes_task task failed) = own_job-IsShut _ λ j.
        replied-IsOver (task_complete j.id task failed) tt c.database
          (task_complete-IsOver k row d done j.id task failed) h.over
    own-IsShut (gets_store name) = own_job-IsShut _ λ j. h.over
    own-IsShut (downloads_input input) =
        own_job-IsShut _ λ j. subst (IsOver k row d done) (sym (found_same _ j.id input)) h.over
    own-IsShut (uploads_chunk true cid) = own_job-IsShut _ λ j. h.over
    own-IsShut (uploads_chunk false cid) = own_job-IsShut _ λ j. h.over
    own-IsShut (completes now failed) =
        rw (answered-state (worker_job_complete now token (some k) failed c))
          (elim (own_job-cases token (some k) c.database) [
            | inl (e, r) ↦ rw (worker_job_complete, r) h
            | inr (j, owner, r) ↦
                let same : k ≡ j.id = ground (arith, owner.named) in
                rw (worker_job_complete, r)
                  (subst (λ x. IsShut (close_job now failed x c).1) same
                    (close-IsShut now failed c h))
          ])

  worker-IsShut :
      (r : JobRequest) (token : Option String) (job : Option ℕ) (c : Central)
      → IsShut c
      → IsShut (serve r token job c).1
  unfolding Isolated Spares
  worker-IsShut r token job c h = elim (serve-Isolated token job r c) [
    | inl e ↦ subst IsShut (sym e) h
    | inr (j, owner, spares) ↦ elim (Bool-cases (j.id == k)) [
      | inr other ↦ share-IsShut c _ (spares k other) h
      | inl own ↦
          let same : some k ≡ job = ground (arith, owner.named) in
          subst (λ x. IsShut (serve r token x c).1) same (own-IsShut token c h r)
    ]
  ]

  -- What a factory asks about one of its workers.
  append_to-IsOver :
      (now : Clock) (stream : String) (time : ℕ) (payload : String) (w : Worker) (o : Option Job)
      (s : Database)
      → IsOver k row d done s
      → IsOver k row d done (append_to now stream time payload w o s).1
  unfolding append_to reply
  append_to-IsOver now stream time payload w none s h = h
  append_to-IsOver now stream time payload w (some j) s h = elim (Bool-cases j.complete) [
    | inl e ↦ rw e h
    | inr e ↦ rw e (
        replied-IsOver (job_append_event j.id none stream (now 0) (some time) (text payload)) false
          s (append-IsOver k row d done j.id none stream (now 0) (some time) (text payload)) h)
  ]

  job_append-IsOver :
      (now : Clock) (stream : String) (time : ℕ) (payload : String) (w : Worker) (s : Database)
      → IsOver k row d done s
      → IsOver k row d done
          ((call (worker_job w.id) >>= λ o. append_to now stream time payload w o) s).1
  unfolding call ◌>>=◌ worker_job State.◌>>=◌
  job_append-IsOver now stream time payload w s h =
      elim (one_job-cases w.id (select (assigned_to w.id) s.job) s) [
        | inl (e, r) ↦ rw r h
        | inr (o, r) ↦ rw r (append_to-IsOver now stream time payload w o s h)
      ]

  module _ (fleet : Fleet) (token : Option String) (worker : Option ℕ) (s : Database)
      (h : IsOver k row d done s) where
    own_worker-IsOver :
        {A : Type 0} (f : Worker → Handler A)
        → ((w : Worker) → IsOver k row d done (f w s).1)
        → IsOver k row d done ((own_worker fleet token worker >>= f) s).1
    unfolding ◌>>=◌
    own_worker-IsOver f over = elim (own_worker-cases fleet token worker s) [
      | inl (e, r) ↦ rw r h
      | inr (w, maker, r) ↦ rw r (over w)
    ]

    factory-IsOver : (r : WorkerRequest) → IsOver k row d done (Reach.serve r fleet token worker s)
    unfolding Reach.serve factory_worker_flush factory_worker_destroy factory_worker_associate
        factory_worker_append reply
    factory-IsOver flushes = own_worker-IsOver _ λ w. elim (Bool-cases w.wait_for_flush) [
      | inl e ↦ rw e (replied-IsOver (worker_flush w.id) tt s (flush-IsOver k row d done w.id) h)
      | inr e ↦ rw e h
    ]
    factory-IsOver destroys = own_worker-IsOver _ λ w.
        rw (unauth-state true s (worker_destroy w.id s)) ((destroy-IsOver k row d done w.id).at s h)
    factory-IsOver (associates private metadata) = own_worker-IsOver _ λ w.
        rw (unauth-state tt s (worker_associate w.id private metadata s))
          ((associate-IsOver k row d done w.id private metadata).at s h)
    factory-IsOver (Reach.appends now stream time payload) =
        own_worker-IsOver _ λ w. job_append-IsOver now stream time payload w s h

  follow-IsShut : (r : Request) (c : Central) → IsShut c → IsShut (follow r c)
  unfolding follow
  follow-IsShut (of_worker r token job) c h = worker-IsShut r token job c h
  follow-IsShut (of_factory r fleet token worker) c h =
      with_database c _ h (factory-IsOver fleet token worker c.database h.over r)
  follow-IsShut (of_user now job name value secret) c h = with_database c _ h (
      call-IsOver k row d done (job_store_put now job name value secret "user") c.database
        (put-IsOver k row d done now job name value secret "user") h.over)

  follow_all-IsShut : (rs : List Request) (c : Central) → IsShut c → IsShut (follow_all rs c)
  unfolding follow_all
  follow_all-IsShut [] c h = h
  follow_all-IsShut (r ∷ rs) c h = follow_all-IsShut rs (follow r c) (follow-IsShut r c h)

-- Once the completion of a job by its worker is accepted, the events, the values in the store, the output
-- files and the files that the database has for the job stay as they are, and there is no commit of a
-- file of the job, whatever requests come, in any number and order: the requests of workers about this job
-- or others, with any token; appends, flushes, associations and destructions that factories ask for about
-- workers; and values that users put in stores.
pub completes-seals :
    (now : Clock) (failed : Bool) (token : Option String) (job : ℕ) (c c' : Central)
    (rs : List Request)
    → serve (completes now failed) token (some job) c ≡ (ok tt, c')
    → (data_of job (follow_all rs c').database ≡ data_of job c'.database)
      × (select (of_job job) (follow_all rs c').files.commits ≡ [])
completes-seals now failed token job c c' rs h =
    let k = completes-Closed now failed token job c c' h in
    let shut : IsShut job k.row (data_of job c'.database) k.complete c' = record {
      over = record { found = k.found; data_kept = refl };
      marked = k.marked;
      none_left = k.none_left;
    } in
    let still = follow_all-IsShut job k.row (data_of job c'.database) k.complete rs c' shut in
    (still.over.data_kept, still.none_left)
