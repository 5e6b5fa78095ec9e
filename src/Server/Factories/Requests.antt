-- ===== src/Server/Factories/Requests.antt =====
-- server/src/api/factory.rs: what a factory asks for about its workers. The tables of factories and
-- targets, which these requests only read, are an argument.
use buildomat.Prelude.{
  ℕ, Bool, true, false, not, ◌&&◌, List, Option, none, some, String, Result, ok, err, ◌==◌,
  if◌then◌else◌, holds_id, is_some, map,
}
use buildomat.Sql.{select, find, order_by}
use buildomat.Server.Models.{Worker, Job, JsonValue, text}
use buildomat.Server.State.{Database, Failure, panic, worker_is, find_worker}
use buildomat.Server.Jobs.{Clock, job_append_event}
use buildomat.Server.Workers.{worker_job, worker_flush, worker_destroy, worker_create}
use buildomat.Server.Bootstrap.{worker_associate}
use buildomat.Server.Api.{
  HttpError, unauthorised, forbidden, internal_error, Handler, call, call_anyhow, reply, deny, look,
  parsed_id, ◌>>=◌, ◌>>◌,
}
use buildomat.Server.Factories.{Factory, Target, Fleet, require_factory, target_get}

-- The ID of the factory made up for workers from before there were factories.
abbrev pub legacy_factory : ℕ
legacy_factory = 592029349537742049217069921091420160

abbrev factory_or_legacy : Option ℕ → ℕ
factory_or_legacy none = legacy_factory
factory_or_legacy (some f) = f

unfoldable pub worker_factory : Worker → ℕ
worker_factory w = factory_or_legacy w.factory

abbrev pub answer : {A : Type 0} → Result HttpError A → Handler A
answer (ok a) s = (ok a, s)
answer (err e) s = (err e, s)

unfoldable pub factory_as : Fleet → Option String → Handler Factory
factory_as fleet token = answer (require_factory token fleet)

unfoldable pub owns_worker : Factory → Worker → Handler (Unit {0})
unfolding worker_factory
owns_worker f w = if worker_factory w == f.id then reply tt else deny forbidden

-- What every request about one worker begins with.
unfoldable pub own_worker : Fleet → Option String → Option ℕ → Handler Worker
own_worker fleet token worker = do
  f ← factory_as fleet token
  id ← parsed_id worker
  w ← call (find_worker id)
  owns_worker f w
  reply w

pub record FactoryWorker : Type 0 where
  pub id : ℕ
  pub private : Option String
  pub recycle : Bool
  pub bootstrap : String
  pub online : Bool

unfoldable pub factory_worker_from : Worker → FactoryWorker
factory_worker_from w = record {
  id = w.id;
  private = w.factory_private;
  recycle = w.recycle;
  bootstrap = w.bootstrap;
  online = is_some w.token;
}

unfoldable pub workers_for_factory : ℕ → Database → List Worker
workers_for_factory factory s =
    order_by (λ w. w.id) (select (λ w. holds_id w.factory factory && not w.deleted) s.worker)

-- The query finds workers of the factory only, as the handler asserts.
unfoldable pub factory_workers : Fleet → Option String → Handler (List FactoryWorker)
factory_workers fleet token = do
  f ← factory_as fleet token
  look (λ s. map factory_worker_from (workers_for_factory f.id s))

unfoldable pub shown : Factory → Option Worker → Handler (Option FactoryWorker)
shown f none = reply none
shown f (some w) = do
  owns_worker f w
  reply (if w.deleted then none else some (factory_worker_from w))

unfoldable pub factory_worker_get :
    Fleet → Option String → Option ℕ → Handler (Option FactoryWorker)
factory_worker_get fleet token worker = do
  f ← factory_as fleet token
  id ← parsed_id worker
  w ← look (λ s. find (worker_is id) s.worker)
  shown f w

-- The answer is the flag `retry`.
unfoldable pub append_to : Clock → String → ℕ → String → Worker → Option Job → Handler Bool
append_to now stream time payload w none = reply (not w.recycle)
append_to now stream time payload w (some j) = if j.complete then reply false else (do
  call (job_append_event j.id none stream (now 0) (some time) (text payload))
  reply false)

unfoldable pub factory_worker_append :
    Clock → Fleet → Option String → Option ℕ → String → ℕ → String → Handler Bool
factory_worker_append now fleet token worker stream time payload = do
  w ← own_worker fleet token worker
  job ← call (worker_job w.id)
  append_to now stream time payload w job

unfoldable pub factory_worker_flush : Fleet → Option String → Option ℕ → Handler (Unit {0})
factory_worker_flush fleet token worker = do
  w ← own_worker fleet token worker
  if w.wait_for_flush then (do call (worker_flush w.id); reply tt) else reply tt

-- A failure of the database, other than a panic, is answered as a missing right.
abbrev pub as_unauth : Failure → HttpError
as_unauth panic = internal_error
as_unauth _ = unauthorised

abbrev pub or_unauth :
    {A B : Type 0} → B → Database → Result Failure (A × Database) → Result HttpError B × Database
or_unauth b s (ok (a, t)) = (ok b, t)
or_unauth b s (err e) = (err (as_unauth e), s)

unfoldable pub factory_worker_associate :
    Fleet → Option String → Option ℕ → String → Option JsonValue → Handler (Unit {0})
factory_worker_associate fleet token worker private metadata = do
  w ← own_worker fleet token worker
  λ s. or_unauth tt s (worker_associate w.id private metadata s)

unfoldable pub factory_worker_destroy : Fleet → Option String → Option ℕ → Handler Bool
factory_worker_destroy fleet token worker = do
  w ← own_worker fleet token worker
  λ s. or_unauth true s (worker_destroy w.id s)

abbrev pub some_target : Option Target → Handler Target
some_target none = deny internal_error
some_target (some t) = reply t

-- The job that the worker is to be for: none, or an ID that has been parsed or not.
abbrev pub parsed_job : Option (Option ℕ) → Handler (Option ℕ)
parsed_job none = reply none
parsed_job (some none) = deny internal_error
parsed_job (some (some j)) = reply (some j)

unfoldable pub factory_worker_create :
    (ℕ → ℕ)
    → Clock
    → ℕ
    → String
    → Fleet
    → Option String
    → Option ℕ
    → Option (Option ℕ)
    → Bool
    → Handler FactoryWorker
factory_worker_create datetime now id bootstrap fleet token target job wait_for_flush = do
  f ← factory_as fleet token
  tid ← parsed_id target
  t ← some_target (target_get tid fleet)
  j ← parsed_job job
  w ← call_anyhow (worker_create datetime now id bootstrap f.id t.id j wait_for_flush)
  reply (factory_worker_from w)
