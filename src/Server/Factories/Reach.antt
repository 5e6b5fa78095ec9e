-- ===== src/Server/Factories/Reach.antt =====
-- A factory reaches its own workers, and no other.
use buildomat.Prelude.{
  ℕ, ◌≡◌, refl, subst, sym, ◌⊎◌, true, Option, none, some, String, ok, err, arith, Bool-cases,
  Option-cases, Result-cases, inl, inr, ◌==◌,
}
use buildomat.Sql.{find}
use buildomat.Sql.Lemmas.{find-eq-some}
use buildomat.Server.Models.{Worker, JsonValue}
use buildomat.Server.State
use buildomat.Server.State.{Database, Failure, Tx, worker_is, find_worker, after}
use buildomat.Server.Jobs.{Clock}
use buildomat.Server.Workers.{worker_destroy}
use buildomat.Server.Bootstrap.{worker_associate}
use buildomat.Server.Api.{HttpError, forbidden, internal_error, Handler, call, parsed_id, ◌>>=◌}
use buildomat.Server.Factories.{Factory, Fleet, require_factory}
use buildomat.Server.Factories.Confined.{
  Confined, KeepsRest, after-Confined, unauth-state, flush-Confined, append-Confined,
}
use buildomat.Server.Factories.Kept.{Kept-destroy, Kept-associate}
use buildomat.Server.Factories.Requests.{
  worker_factory, factory_as, owns_worker, own_worker, factory_worker_append, factory_worker_flush,
  factory_worker_associate, factory_worker_destroy,
}

-- The request is of the factory that made the worker.
pub record IsMaker (fleet : Fleet) (token : Option String) (worker : Option ℕ) (w : Worker)
    (s : Database) : Type 0 where
  pub factory : Factory
  pub known : require_factory token fleet ≡ ok factory
  pub named : worker ≡ some w.id
  pub stored : find (worker_is w.id) s.worker ≡ some w
  pub made : worker_factory w ≡ factory.id

find_worker-cases :
    (id : ℕ) (s : Database)
    → ((e : HttpError) × (call (find_worker id) s ≡ (err e, s)))
      ⊎ ((w : Worker) × (w.id ≡ id)
          × (find (worker_is id) s.worker ≡ some w)
          × (call (find_worker id) s ≡ (ok w, s)))
unfolding call State.◌>>=◌ find_worker
find_worker-cases id s = elim (Option-cases (find (worker_is id) s.worker)) [
  | inl e ↦ inl (internal_error, rw e refl)
  | inr (w, e) ↦ inr (w, ground (arith, find-eq-some (worker_is id) s.worker w e), e, rw e refl)
]

pub own_worker-cases :
    (fleet : Fleet) (token : Option String) (worker : Option ℕ) (s : Database)
    → ((e : HttpError) × (own_worker fleet token worker s ≡ (err e, s)))
      ⊎ ((w : Worker) × IsMaker fleet token worker w s
          × (own_worker fleet token worker s ≡ (ok w, s)))
unfolding own_worker ◌>>=◌ factory_as parsed_id owns_worker
own_worker-cases fleet token none s = elim (Result-cases (require_factory token fleet)) [
  | inr (e, h) ↦ inl (e, rw h refl)
  | inl (f, h) ↦ inl (internal_error, rw h refl)
]
own_worker-cases fleet token (some id) s = elim (Result-cases (require_factory token fleet)) [
  | inr (e, h) ↦ inl (e, rw h refl)
  | inl (f, h) ↦ elim (find_worker-cases id s) [
    | inl (e, k) ↦ inl (e, rw (h, k) refl)
    | inr (w, i, l, k) ↦ elim (Bool-cases (worker_factory w == f.id)) [
      | inl e ↦ inr (
        w,
        record {
          factory = f;
          known = h;
          named = rw i refl;
          stored = subst (λ x. find (worker_is x) s.worker ≡ some w) (sym i) l;
          made = ground (arith, e);
        },
        rw (h, k, e) refl,
      )
      | inr e ↦ inl (forbidden, rw (h, k, e) refl)
    ]
  ]
]

-- What a factory asks to be done for a worker.
pub data WorkerRequest : Type 0 where
  appends : Clock → String → ℕ → String → WorkerRequest
  flushes destroys : WorkerRequest
  associates : String → Option JsonValue → WorkerRequest

unfoldable pub serve : WorkerRequest → Fleet → Option String → Option ℕ → Database → Database
serve (appends now stream time payload) fleet token worker s =
    (factory_worker_append now fleet token worker stream time payload s).1
serve flushes fleet token worker s = (factory_worker_flush fleet token worker s).1
serve destroys fleet token worker s = (factory_worker_destroy fleet token worker s).1
serve (associates private metadata) fleet token worker s =
    (factory_worker_associate fleet token worker private metadata s).1

unfoldable pub Reaches : Fleet → Option String → Option ℕ → Database → Database → Type 0
Reaches fleet token worker s t =
    (t ≡ s) ⊎ ((w : Worker) × IsMaker fleet token worker w s × Confined w.id s t)

module _ (fleet : Fleet) (token : Option String) (worker : Option ℕ) where
  own_worker-Reaches :
      {A : Type 0} (f : Worker → Handler A) (s : Database)
      → ((w : Worker) → Confined w.id s (f w s).1)
      → Reaches fleet token worker s ((own_worker fleet token worker >>= f) s).1
  unfolding Reaches ◌>>=◌
  own_worker-Reaches f s confined = elim (own_worker-cases fleet token worker s) [
    | inl (e, h) ↦ inl (rw h refl)
    | inr (w, maker, h) ↦ inr (w, maker, rw h (confined w))
  ]

  -- A request of a factory about a worker changes nothing, or it comes with the token of the factory
  -- that made the worker; then the job table and the rows of all other workers stay as they are.
  pub serve-Reaches :
      (r : WorkerRequest) (s : Database)
      → Reaches fleet token worker s (serve r fleet token worker s)
  unfolding serve factory_worker_flush factory_worker_destroy factory_worker_associate
      factory_worker_append KeepsRest
  serve-Reaches flushes s = own_worker-Reaches _ s λ w. flush-Confined w s w.wait_for_flush
  serve-Reaches destroys s = own_worker-Reaches _ s λ w.
      rw (unauth-state true s (worker_destroy w.id s))
        (after-Confined w.id (worker_destroy w.id) s λ k rows jobs other. Kept-destroy w.id other)
  serve-Reaches (associates private metadata) s = own_worker-Reaches _ s λ w.
      rw (unauth-state tt s (worker_associate w.id private metadata s)) (
        after-Confined w.id (worker_associate w.id private metadata) s
          λ k rows jobs other. Kept-associate w.id other private metadata)
  serve-Reaches (appends now stream time payload) s =
      own_worker-Reaches _ s λ w. append-Confined now stream time payload w s
