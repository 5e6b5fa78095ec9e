-- ===== src/Server/Factories/Confined.antt =====
-- What a request of a factory about one worker leaves as it is.
use buildomat.Prelude.{
  ℕ, ◌≡◌, refl, [], ◌∷◌, ◌⊎◌, Bool, true, false, List, Option, none, some, String, Result, ok, err,
  Bool-cases, inl, inr, ◌==◌, if◌then◌else◌,
}
use buildomat.Sql.{select}
use buildomat.Server.Models.{Worker, Job, text}
use buildomat.Server.State
use buildomat.Server.State.{Database, Failure, Tx, worker_is, find_worker, after}
use buildomat.Server.State.Keeps.{Keeps}
use buildomat.Server.Jobs.{Clock, job_append_event}
use buildomat.Server.Workers.{assigned_to, one_job, worker_job, worker_flush}
use buildomat.Server.Api.{proceed, call, reply, settle, ◌>>=◌, ◌>>◌}
use buildomat.Server.Factories.Kept.{IsKept, Kept-append, Kept-flush}
use buildomat.Server.Factories.Requests.{or_unauth, append_to}

-- The jobs and the rows of all workers but one are as they were.
unfoldable pub Confined : ℕ → Database → Database → Type 0
Confined w s t =
    (k : ℕ)
    → (w == k) ≡ false
    → (select (worker_is k) t.worker ≡ select (worker_is k) s.worker) × (t.job ≡ s.job)

unfoldable pub KeepsRest : {A : Type 0} → ℕ → Tx A → Type 0
KeepsRest w m =
    (k : ℕ) (rows : List Worker) (jobs : List Job) → (w == k) ≡ false → Keeps (IsKept k rows jobs) m

pub after-Confined :
    {A : Type 0} (w : ℕ) (m : Tx A) (s : Database) → KeepsRest w m → Confined w s (after s (m s))
unfolding KeepsRest Confined
after-Confined w m s keeps k other =
    let kept =
      (keeps k (select (worker_is k) s.worker) s.job other).at s
        (record { worker = refl; job = refl }) in
    (kept.worker, kept.job)

module _ {A B : Type 0} (b : B) (s : Database) where
  pub unauth-state : (r : Result Failure (A × Database)) → (or_unauth b s r).1 ≡ after s r
  unauth-state (ok (a, t)) = refl
  unauth-state (err e) = refl

  pub replied-state :
      (r : Result Failure (A × Database)) → (proceed (settle s r) (λ _. reply b)).1 ≡ after s r
  unfolding reply
  replied-state (ok (a, t)) = refl
  replied-state (err e) = refl

pub same-Confined : (w : ℕ) (s : Database) → Confined w s s
unfolding Confined
same-Confined w s k other = (refl, refl)

pub flush-Confined :
    (w : Worker) (s : Database) (b : Bool)
    → Confined w.id s ((if b then call (worker_flush w.id) >> reply tt else reply tt) s).1
unfolding call ◌>>=◌ KeepsRest
flush-Confined w s true =
    rw (replied-state tt s (worker_flush w.id s))
      (after-Confined w.id (worker_flush w.id) s λ k rows jobs other. Kept-flush w.id other)
flush-Confined w s false = same-Confined w.id s

append_to-Confined :
    (now : Clock) (stream : String) (time : ℕ) (payload : String) (w : Worker) (o : Option Job)
    (s : Database)
    → Confined w.id s (append_to now stream time payload w o s).1
unfolding append_to call ◌>>=◌ KeepsRest
append_to-Confined now stream time payload w none s = same-Confined w.id s
append_to-Confined now stream time payload w (some j) s = elim (Bool-cases j.complete) [
  | inl e ↦ rw e (same-Confined w.id s)
  | inr e ↦
      rw
        (
          e,
          replied-state false s
              (job_append_event j.id none stream (now 0) (some time) (text payload) s),
        )
        (after-Confined w.id (job_append_event j.id none stream (now 0) (some time) (text payload))
          s λ k rows jobs other. Kept-append _ _ _ _ _ _)
]

pub one_job-cases :
    (id : ℕ) (js : List Job) (s : Database)
    → ((e : Failure) × (one_job id js s ≡ err e))
      ⊎ ((o : Option Job) × (one_job id js s ≡ ok (o, s)))
unfolding one_job State.pure State.fail
one_job-cases id [] s = inr (none, refl)
one_job-cases id (j ∷ []) s = inr (some j, refl)
one_job-cases id (j ∷ k ∷ js) s = inl (_, refl)

pub append-Confined :
    (now : Clock) (stream : String) (time : ℕ) (payload : String) (w : Worker) (s : Database)
    → Confined w.id s ((call (worker_job w.id) >>= λ o. append_to now stream time payload w o) s).1
unfolding call ◌>>=◌ worker_job State.◌>>=◌
append-Confined now stream time payload w s =
    elim (one_job-cases w.id (select (assigned_to w.id) s.job) s) [
      | inl (e, h) ↦ rw h (same-Confined w.id s)
      | inr (o, h) ↦ rw h (append_to-Confined now stream time payload w o s)
    ]
