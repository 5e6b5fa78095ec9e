-- ===== src/Server/Cleanup.antt =====
-- server/src/workers.rs: `worker_cleanup_one`.
use buildomat.Prelude.{
  ℕ, ◌*◌, ◌-◌, Bool, ◌&&◌, ◌||◌, List, Option, none, some, ltb, leb, ◌==◌, if◌then◌else◌, is_some,
  is_empty,
}
use text.Mathlib.Text.{◌==◌ as str_eq}
use buildomat.Sql.{select, find, order_by}
use buildomat.Server.Models.{Job, JobEvent, Worker, ran_too_long}
use buildomat.Server.State.{Database}
use buildomat.Server.Events.{as_i32, signed}
use buildomat.Server.Jobs.{Clock, job_append_event}
use buildomat.Server.Workers.{worker_recycle}
use buildomat.Server.Assignment.{workers_active, worker_jobs, age_secs, recycle_if}
use buildomat.Server.Pass.{Pass, call, give, ask, for_each, ◌>>=◌, ◌>>◌}

unfoldable pub job_events : ℕ → ℕ → Database → List JobEvent
job_events job minseq s =
    order_by (λ e. signed e.seq)
      (select (λ e. e.job == job && leb (signed (as_i32 minseq)) (signed e.seq)) s.job_event)

abbrev pub is_control : JobEvent → Bool
is_control e = str_eq e.stream "control"

unfoldable pub agent_ok : Worker → Bool
agent_ok w = is_some w.token

-- The limit is the server's configuration; `now k` is the k-th reading of the clock at a job, and
-- `idle` the reading at a worker.
module _ (datetime : ℕ → ℕ) (max_runtime : ℕ) (now : ℕ → Clock) (idle : ℕ → ℕ) where
  unfoldable pub abort_job : Worker → Job → ℕ → Pass (Unit {0})
  abort_job w j secs = do
    call (job_append_event j.id none "control" (now j.id 1) none (ran_too_long secs max_runtime))
    call (worker_recycle w.id)
    give tt

  unfoldable pub check_runtime : Worker → Job → Option JobEvent → Pass (Unit {0})
  check_runtime w j none = give tt
  check_runtime w j (some control) =
      if ltb max_runtime (age_secs (now j.id 0) control.time)
      then abort_job w j (age_secs (now j.id 2) control.time)
      else give tt

  unfoldable pub one_running : Worker → Job → Pass (Unit {0})
  one_running w j = if j.failed || j.complete then give tt else (do
    control ← ask (λ s. find is_control (job_events j.id 0 s))
    check_runtime w j control)

  -- More than half an hour old; the age is compared in full, not in whole seconds.
  unfoldable pub recycle_idle : Worker → Pass (Unit {0})
  recycle_idle w =
      recycle_if (agent_ok w && ltb (30 * 60 * 1_000_000_000) (idle w.id - datetime w.id)) w

  unfoldable pub one_worker_running : Worker → Pass (Unit {0})
  one_worker_running w = if w.recycle then give tt else (do
    jobs ← ask (worker_jobs w.id)
    if is_empty jobs then recycle_idle w else for_each (one_running w) jobs)

  unfoldable pub worker_cleanup_one : Pass (Unit {0})
  worker_cleanup_one = do workers ← ask workers_active; for_each one_worker_running workers
