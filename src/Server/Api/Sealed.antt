-- ===== src/Server/Api/Sealed.antt =====
-- The requests about a job that its worker has completed.
use buildomat.Prelude.{
  ℕ, ◌≡◌, refl, subst, Bool, true, false, not, List, Option, none, some, String, Result, ok, err,
  ltb, arith, inl, inr, Bool-cases, Result-cases, codes, ◌*◌,
}
use buildomat.Sql.{find}
use buildomat.Server.Models.{Job, Payload}
use buildomat.Server.State
use buildomat.Server.State.{
  Database, Failure, conflict, job_already_complete, invalid_store_name, store_value_too_large, Tx,
  job_is, find_job,
}
use buildomat.Server.Jobs.{Clock, job_append_event}
use buildomat.Server.Store.{is_store_name, byte_len, max_val_kib, job_store_put}
use buildomat.Server.Files.{job_add_output}
use buildomat.Server.Commits.{CommitError}
use buildomat.Server.Api.{HttpError, Handler, Central, call, reply, deny, ◌>>=◌}
use buildomat.Server.Api.WorkerRequests.{
  own_job, worker_job_append, worker_task_append, worker_job_store_put,
}
use buildomat.Server.Api.JobFiles.{
  close_job, with_job, add_output, worker_job_add_output, worker_job_add_output_sync,
  worker_job_complete, known_chunks, assembled,
}
use buildomat.Server.Api.Serve.{
  JobRequest, appends, appends_to_task, completes_task, gets_store, puts_store, downloads_input,
  uploads_chunk, adds_output_sync, adds_output, completes, answered, on_database, serve,
}
use buildomat.Server.Api.Owner.{IsOwner, own_job-cases}
use buildomat.Server.Api.Isolation.{answered-state}
use buildomat.Server.Api.Closed.{Closed, close_job-Closed, Closed-refuses}

-- The requests that would add an event, a value or an output file to the job.
abbrev pub adds_data : JobRequest → Bool
adds_data (appends now stream time payload) = true
adds_data (appends_to_task now task stream time payload) = true
adds_data (puts_store now name value secret) = true
adds_data (adds_output_sync len copied fid path size chunks) = true
adds_data (adds_output max chunks commit path size) = true
adds_data _ = false

module _ (job : ℕ) (s : Database) (row : Job) (here : find (job_is job) s.job ≡ some row)
    (done : row.complete ≡ true) where
  pub append-refused :
      (task : Option ℕ) (stream : String) (time : ℕ) (remote : Option ℕ) (payload : Payload)
      → (e : Failure) × (job_append_event job task stream time remote payload s ≡ err e)
  unfolding job_append_event State.◌>>=◌ find_job State.refuse_if
  append-refused task stream time remote payload =
      (conflict (job_already_complete row.id), rw (here, done) refl)

  output-refused :
      (path : String) (id size : ℕ) → (e : Failure) × (job_add_output job path id size s ≡ err e)
  unfolding job_add_output State.◌>>=◌ find_job State.refuse_if
  output-refused path id size = (conflict (job_already_complete row.id), rw (here, done) refl)

  pub put-refused :
      (now : ℕ) (name value : String) (secret : Bool) (source : String)
      → (e : Failure) × (job_store_put now job name value secret source s ≡ err e)
  unfolding job_store_put State.◌>>=◌ find_job State.refuse_if
  put-refused now name value secret source = elim (Bool-cases (not (is_store_name name))) [
    | inl e ↦ (conflict invalid_store_name, rw e refl)
    | inr e ↦ elim (Bool-cases (ltb (max_val_kib * 1024) (byte_len (codes value)))) [
      | inl l ↦ (conflict store_value_too_large, rw (e, l) refl)
      | inr l ↦ (conflict (job_already_complete job), rw (e, l, here, done) refl)
    ]
  ]

module _ {A : Type 0} where
  refused-call : (m : Tx A) (s : Database) (e : Failure) → m s ≡ err e → (call m s).1 ≡ s
  unfolding call
  refused-call m s e h = rw h refl

  answered-same :
      (c : Central) (r : Result HttpError A × Database)
      → r.1 ≡ c.database
      → (answered (λ s. record c { database = s }) r).1 ≡ c
  answered-same c (ok a, s) same = rw same refl
  answered-same c (err e, s) same = rw same refl

  -- A handler that changes nothing.
  on_database-same :
      (h : Handler A) (c : Central) → (h c.database).1 ≡ c.database → (on_database h c).1 ≡ c
  unfolding on_database
  on_database-same h c same = answered-same c (h c.database) same

module _ {A : Type 0} (token : Option String) (job : Option ℕ) (c : Central) where
  -- What the owner of the job may ask for without a change.
  pub own_job-same :
      (f : Job → Handler A)
      → ((j : Job) → IsOwner token job j c.database → (f j c.database).1 ≡ c.database)
      → (on_database (own_job token job >>= f) c).1 ≡ c
  unfolding ◌>>=◌
  own_job-same f same = elim (own_job-cases token job c.database) [
    | inl (e, h) ↦ on_database-same _ c (rw h refl)
    | inr (j, owner, h) ↦ on_database-same _ c (rw h (same j owner))
  ]

module _ (token : Option String) (job : ℕ) (c : Central) (closed : Closed job c) where
  owned : (j : Job) → IsOwner token (some job) j c.database → Closed j.id c
  owned j owner =
      let same : job ≡ j.id = ground (arith, owner.named) in subst (λ x. Closed x c) same closed

  append-same :
      (j : Job)
      → IsOwner token (some job) j c.database
      → (task : Option ℕ) (stream : String) (time : ℕ) (remote : Option ℕ) (payload : Payload)
      → (call (job_append_event j.id task stream time remote payload) c.database).1 ≡ c.database
  append-same j owner task stream time remote payload =
      let k = owned j owner in
      let (e, h) =
        append-refused j.id c.database k.row k.found k.complete task stream time remote payload in
      refused-call _ c.database e h

  put-same :
      (j : Job)
      → IsOwner token (some job) j c.database
      → (now : ℕ) (name value : String) (secret : Bool) (source : String)
      → (call (job_store_put now j.id name value secret source) c.database).1 ≡ c.database
  put-same j owner now name value secret source =
      let k = owned j owner in
      let (e, h) =
        put-refused j.id c.database k.row k.found k.complete now name value secret source in
      refused-call _ c.database e h

  output-same :
      (j : Job)
      → IsOwner token (some job) j c.database
      → (path : String) (id size : ℕ)
      → (call (job_add_output j.id path id size) c.database).1 ≡ c.database
  output-same j owner path id size =
      let k = owned j owner in
      let (e, h) = output-refused j.id c.database k.row k.found k.complete path id size in
      refused-call _ c.database e h

  sync-same :
      (j : Job)
      → IsOwner token (some job) j c.database
      → (chunks : Option (List ℕ)) (path : String) (size : ℕ) (r : List ℕ → Result CommitError ℕ)
      → ((known_chunks chunks >>= λ cs.
            assembled (r cs) >>= λ f. call (job_add_output j.id path f size))
          c.database).1
        ≡ c.database
  unfolding ◌>>=◌ known_chunks assembled reply deny
  sync-same j owner none path size r = refl
  sync-same j owner (some cs) path size r = elim (Result-cases (r cs)) [
    | inl (f, e) ↦ rw e (output-same j owner path f size)
    | inr (x, e) ↦ rw e refl
  ]

  with_job-same :
      {A : Type 0} (f : Job → Central → Result HttpError A × Central)
      → ((j : Job) → IsOwner token (some job) j c.database → (f j c).1 ≡ c)
      → (with_job (own_job token (some job) c.database).0 f c).1 ≡ c
  with_job-same f same = elim (own_job-cases token (some job) c.database) [
    | inl (e, h) ↦ rw h refl
    | inr (j, owner, h) ↦ rw h (same j owner)
  ]

  pub Closed-sealed : (r : JobRequest) → adds_data r ≡ true → (serve r token (some job) c).1 ≡ c
  unfolding serve worker_job_append worker_task_append worker_job_store_put worker_job_add_output
      worker_job_add_output_sync deny on_database
  Closed-sealed (appends now stream time payload) h =
      own_job-same token (some job) c _ λ j owner. append-same j owner _ _ _ _ _
  Closed-sealed (appends_to_task now task stream time payload) h =
      own_job-same token (some job) c _ λ j owner. append-same j owner _ _ _ _ _
  Closed-sealed (puts_store now name value secret) h =
      own_job-same token (some job) c _ λ j owner. put-same j owner _ _ _ _ _
  Closed-sealed (adds_output_sync len copied fid path size chunks) h =
      elim (Bool-cases (ltb (1024 * 1024 * 1024) size)) [
        | inl e ↦ rw e refl
        | inr e ↦
            rw e (own_job-same token (some job) c _ λ j owner. sync-same j owner chunks path size _)
      ]
  Closed-sealed (adds_output max chunks commit path size) h =
      rw (answered-state (worker_job_add_output max token (some job) chunks commit path size c)) (
        with_job-same (λ j. add_output max chunks commit path size j.id)
          λ j owner. Closed-refuses max chunks commit path size j.id c (owned j owner))
  Closed-sealed (completes_task task failed) h = absurd (ground arith)
  Closed-sealed (gets_store name) h = absurd (ground arith)
  Closed-sealed (downloads_input input) h = absurd (ground arith)
  Closed-sealed (uploads_chunk written cid) h = absurd (ground arith)
  Closed-sealed (completes now failed) h = absurd (ground arith)

answered-eq-ok :
    (r : Result HttpError (Unit {0}) × Central) (c' : Central)
    → answered (λ c. c) r ≡ (ok tt, c')
    → r ≡ (ok tt, c')
answered-eq-ok (ok tt, c) c' h = h
answered-eq-ok (err e, c) c' h = absurd (ground arith)

pub completes-Closed :
    (now : Clock) (failed : Bool) (token : Option String) (job : ℕ) (c c' : Central)
    → serve (completes now failed) token (some job) c ≡ (ok tt, c')
    → Closed job c'
unfolding serve worker_job_complete
completes-Closed now failed token job c c' h = elim (own_job-cases token (some job) c.database) [
  | inl (e, k) ↦ absurd (ground (arith, rw k at h))
  | inr (j, owner, k) ↦
      let same : j.id ≡ job = ground (arith, owner.named) in
      subst (λ x. Closed x c') same
        (close_job-Closed now failed j.id c c'
          (answered-eq-ok (close_job now failed j.id c) c' (rw k at h)))
]
