-- ===== src/Server/Api/Owner.antt =====
-- Whether a request about a job comes from the worker of that job.
use buildomat.Prelude.{
  ℕ, ◌≡◌, refl, subst, true, List, [], ◌∷◌, Option, none, some, String, ok, err, arith, ◌⊎◌, inl,
  inr, Bool-cases, Option-cases, holds_id,
}
use buildomat.Sql.{select, find}
use buildomat.Server.Models.{Worker, Job}
use buildomat.Server.State
use buildomat.Sql.Lemmas.{find-eq-some}
use buildomat.Server.State.{Database, Failure, Tx, job_is, find_job, after}
use buildomat.Server.Bootstrap.{worker_auth, one_worker, has_token}
use buildomat.Server.Api.{
  HttpError, internal_error, unauthorised, forbidden, ◌>>=◌, parsed_id, job_by_str,
}
use buildomat.Server.Api.WorkerRequests.{require_worker, owns, own_job}

-- The token is that of one worker, and the path names a job that was assigned to that worker.
pub record IsOwner (token : Option String) (job : Option ℕ) (j : Job) (s : Database) : Type 0 where
  pub worker : Worker
  pub text : String
  pub presented : token ≡ some text
  pub known : worker_auth text s ≡ ok (worker, s)
  pub named : job ≡ some j.id
  pub stored : find (job_is j.id) s.job ≡ some j
  pub assigned : holds_id j.worker worker.id ≡ true

one_worker-cases :
    (ws : List Worker) (s : Database)
    → ((e : Failure) × (one_worker ws s ≡ err e)) ⊎ ((w : Worker) × (one_worker ws s ≡ ok (w, s)))
unfolding one_worker State.fail State.pure
one_worker-cases [] s = inl (_, refl)
one_worker-cases (w ∷ []) s = inr (w, refl)
one_worker-cases (w ∷ x ∷ ws) s = inl (_, refl)

worker_auth-cases :
    (token : String) (s : Database)
    → ((e : Failure) × (worker_auth token s ≡ err e))
      ⊎ ((w : Worker) × (worker_auth token s ≡ ok (w, s)))
unfolding worker_auth State.◌>>=◌ one_worker
worker_auth-cases token s = one_worker-cases (select (has_token token) s.worker) s

require_worker-cases :
    (token : Option String) (s : Database)
    → ((e : HttpError) × (require_worker token s ≡ (err e, s)))
      ⊎ ((text : String) × (w : Worker) × (token ≡ some text)
          × (worker_auth text s ≡ ok (w, s))
          × (require_worker token s ≡ (ok w, s)))
unfolding require_worker
require_worker-cases none s = inl (_, refl)
require_worker-cases (some text) s = elim (worker_auth-cases text s) [
  | inl (e, h) ↦ inl (unauthorised, rw h refl)
  | inr (w, h) ↦ inr (text, w, refl, h, rw h refl)
]

job_by_str-cases :
    (job : Option ℕ) (s : Database)
    → ((e : HttpError) × (job_by_str job s ≡ (err e, s)))
      ⊎ ((j : Job) × (job ≡ some j.id)
          × (find (job_is j.id) s.job ≡ some j)
          × (job_by_str job s ≡ (ok j, s)))
unfolding job_by_str ◌>>=◌ parsed_id find_job
job_by_str-cases none s = inl (_, refl)
job_by_str-cases (some id) s = elim (Option-cases (find (job_is id) s.job)) [
  | inl e ↦ inl (internal_error, rw e refl)
  | inr (j, e) ↦
      let same : id ≡ j.id = ground (arith, find-eq-some (job_is id) s.job j e) in
      inr (j, rw same refl, subst (λ i. find (job_is i) s.job ≡ some j) same e, rw e refl)
]

pub own_job-cases :
    (token : Option String) (job : Option ℕ) (s : Database)
    → ((e : HttpError) × (own_job token job s ≡ (err e, s)))
      ⊎ ((j : Job) × IsOwner token job j s × (own_job token job s ≡ (ok j, s)))
unfolding own_job ◌>>=◌ owns
own_job-cases token job s = elim (require_worker-cases token s) [
  | inl (e, h) ↦ inl (e, rw h refl)
  | inr (text, w, p, k, h) ↦ elim (job_by_str-cases job s) [
    | inl (e, l) ↦ inl (e, rw (h, l) refl)
    | inr (j, q, f, l) ↦ elim (Bool-cases (holds_id j.worker w.id)) [
      | inl e ↦ inr (
        j,
        record {
          worker = w;
          text = text;
          presented = p;
          known = k;
          named = q;
          stored = f;
          assigned = e;
        },
        rw (h, l, owns, e) refl,
      )
      | inr e ↦ inl (forbidden, rw (h, l, owns, e) refl)
    ]
  ]
]
