-- ===== src/Server/Factories/Kept.antt =====
-- The jobs, and the row of a worker, under the calls that a factory makes about another worker.
use buildomat.Prelude.{
  ℕ, ◌≡◌, refl, ◌∙◌, false, List, Option, none, some, String, arith, Bool-cases, Option-cases, inl,
  inr, ◌==◌,
}
use buildomat.Sql.{select, find, count}
use buildomat.Sql.Miss.{select-update_miss}
use buildomat.Sql.Lemmas.{find-eq-some}
use buildomat.Server.Models.{Worker, Job, JsonValue, Payload}
use buildomat.Server.State
use buildomat.Server.State.{Database, Failure, Tx, worker_is, find_worker, after}
use buildomat.Server.State.Keeps.{Keeps, Keeps-bind, keeps_rules}
use buildomat.Server.Events.{i_job_event_insert}
use buildomat.Server.Events.Sequence.{event_insert_lem}
use buildomat.Server.Jobs.{job_append_event}
use buildomat.Server.Workers.{set_worker, worker_flush, worker_destroy}
use buildomat.Server.Bootstrap.{
  update_worker, associate_private, associate_metadata, worker_associate,
}

-- The jobs, and the rows of one worker.
pub record IsKept (k : ℕ) (rows : List Worker) (jobs : List Job) (s : Database) : Type 0 where
  pub worker : select (worker_is k) s.worker ≡ rows
  pub job : s.job ≡ jobs

module _ {k : ℕ} {rows : List Worker} {jobs : List Job} where
  Kept-same :
      {A : Type 0} (m : Tx A)
      → ((s : Database)
          → (select (worker_is k) (after s (m s)).worker ≡ select (worker_is k) s.worker)
            × ((after s (m s)).job ≡ s.job))
      → Keeps (IsKept k rows jobs) m
  Kept-same m same = record {
    at = λ s h. record { worker = (same s).0 ∙ h.worker; job = (same s).1 ∙ h.job };
  }

  Kept-set_worker :
      (id : ℕ) (f : Worker → Worker)
      → ((r : Worker) → (f r).id ≡ r.id)
      → (id == k) ≡ false
      → Keeps (IsKept k rows jobs) (set_worker id f)
  unfolding set_worker
  Kept-set_worker id f same other = Kept-same _ λ s. (
    select-update_miss (worker_is k) (worker_is id) f s.worker (λ r h. ground (arith, same r)),
    refl,
  )

  Kept-update_worker :
      (id : ℕ) (f : Worker → Worker)
      → ((r : Worker) → (f r).id ≡ r.id)
      → (id == k) ≡ false
      → Keeps (IsKept k rows jobs) (update_worker (worker_is id) f)
  unfolding update_worker
  Kept-update_worker id f same other = Kept-same _ λ s.
      elim (Bool-cases (count (worker_is id) s.worker == 1)) [
        | inl e ↦ rw e (
          select-update_miss (worker_is k) (worker_is id) f s.worker
              (λ r h. ground (arith, same r)),
          refl,
        )
        | inr e ↦ rw e (refl, refl)
      ]

  Kept-event_insert :
      (job : ℕ) (task : Option ℕ) (stream : String) (time : ℕ) (remote : Option ℕ)
      (payload : Payload)
      → Keeps (IsKept k rows jobs) (i_job_event_insert job task stream time remote payload)
  Kept-event_insert job task stream time remote payload = Kept-same _ λ s. (
    ground (arith, event_insert_lem job task stream time remote payload s),
    ground (arith, event_insert_lem job task stream time remote payload s),
  )

  Kept-find_worker :
      {B : Type 0} (id : ℕ) (f : Worker → Tx B)
      → ((w : Worker) → w.id ≡ id → Keeps (IsKept k rows jobs) (f w))
      → Keeps (IsKept k rows jobs) (State.◌>>=◌ (find_worker id) f)
  unfolding find_worker State.◌>>=◌
  Kept-find_worker id f kf = record {
    at = λ s h. elim (Option-cases (find (worker_is id) s.worker)) [
      | inl e ↦ rw e h
      | inr (w, e) ↦ rw e ((kf w (ground (arith, find-eq-some (worker_is id) s.worker w e))).at s h)
    ];
  }

ruleset kept_rules = (keeps_rules, Kept-event_insert)

module _ {k : ℕ} {rows : List Worker} {jobs : List Job} (id : ℕ) (other : (id == k) ≡ false) where
  Kept-private :
      (w : Worker) (private : String) (o : Option String)
      → w.id ≡ id
      → Keeps (IsKept k rows jobs) (associate_private w private o)
  unfolding associate_private
  Kept-private w private none same = Kept-update_worker w.id _ (λ r. refl) (rw same other)
  Kept-private w private (some c) same = search kept_rules

  Kept-metadata :
      (w : Worker) (m o : Option JsonValue)
      → w.id ≡ id
      → Keeps (IsKept k rows jobs) (associate_metadata w m o)
  unfolding associate_metadata
  Kept-metadata w none o same = search kept_rules
  Kept-metadata w (some m) none same = Kept-update_worker w.id _ (λ r. refl) (rw same other)
  Kept-metadata w (some m) (some c) same = search kept_rules

  pub Kept-associate :
      (private : String) (m : Option JsonValue)
      → Keeps (IsKept k rows jobs) (worker_associate id private m)
  unfolding worker_associate
  Kept-associate private m = Kept-find_worker id _ λ w same. Keeps-bind _ _ (search kept_rules) λ _.
      Keeps-bind _ _ (Kept-private w private w.factory_private same)
        λ _. Kept-metadata w m w.factory_metadata same

  pub Kept-flush : Keeps (IsKept k rows jobs) (worker_flush id)
  unfolding worker_flush
  Kept-flush = Kept-set_worker id _ (λ r. refl) other

  pub Kept-destroy : Keeps (IsKept k rows jobs) (worker_destroy id)
  unfolding worker_destroy
  Kept-destroy = Kept-set_worker id _ (λ r. refl) other

module _ {k : ℕ} {rows : List Worker} {jobs : List Job} where
  pub Kept-append :
      (job : ℕ) (task : Option ℕ) (stream : String) (time : ℕ) (remote : Option ℕ)
      (payload : Payload)
      → Keeps (IsKept k rows jobs) (job_append_event job task stream time remote payload)
  unfolding job_append_event
  Kept-append job task stream time remote payload = search kept_rules
