-- ===== src/Server/Assignment.antt =====
-- server/src/jobs.rs: `job_assignment_one` and `recycle_on_complete_one`.
use buildomat.Prelude.{
  ℕ, suc, ◌-◌, ◌/◌, Bool, true, false, not, ◌&&◌, ◌||◌, List, [], ◌∷◌, Option, none, some, ◌==◌,
  ltb, if◌then◌else◌, all, is_none, is_some, is_empty,
}
use buildomat.Sql.{select, count, order_by}
use buildomat.Server.Models.{Job, Worker, worker_failed, is_archived, job_target, worker_target}
use buildomat.Server.State.{Database, panic, refuse_if, find_worker}
use buildomat.Server.Jobs.{Clock, job_append_event}
use buildomat.Server.Workers.{assigned_to, worker_recycle, worker_assign_job}
use buildomat.Server.Pass.{Pass, call, give, ask, for_each, complete_job, ◌>>=◌, ◌>>◌}

unfoldable pub jobs_active : Database → List Job
jobs_active s = order_by (λ j. j.id) (select (λ j. not j.complete && not j.waiting) s.job)

unfoldable pub workers_active : Database → List Worker
workers_active s = order_by (λ w. w.id) (select (λ w. not w.deleted) s.worker)

unfoldable pub worker_jobs : ℕ → Database → List Job
worker_jobs w s = select (assigned_to w) s.job

-- The rows of the left join that have no job.
unfoldable pub free_workers : Database → List Worker
free_workers s =
    order_by (λ w. w.id)
      (select
        (λ w.
          count (assigned_to w.id) s.job == 0 && not w.deleted && not w.recycle && is_some w.token)
        s.worker)

-- The queues of free workers: a target's queue is the workers that stand with it, in this order.
abbrev pub Queues : Type 0
Queues = List (ℕ × ℕ)

unfoldable pub queues : List Worker → Queues
queues [] = []
queues (w ∷ ws) = (worker_target w, w.id) ∷ queues ws

-- `Vec::pop` on the queue of a target: the last worker of it.
abbrev popped : ℕ → ℕ × ℕ → Queues → Option (ℕ × Queues) → Option (ℕ × Queues)
popped target q qs (some (w, rest)) = some (w, q ∷ rest)
popped target q qs none = if q.0 == target then some (q.1, qs) else none

unfoldable pub pop : ℕ → Queues → Option (ℕ × Queues)
pop target [] = none
pop target (q ∷ qs) = popped target q qs (pop target qs)

unfoldable pub recycle_if : Bool → Worker → Pass (Unit {0})
recycle_if true w = do call (worker_recycle w.id); give tt
recycle_if false w = give tt

module _ (datetime : ℕ → ℕ) (held : ℕ → Bool) (now : ℕ → Clock) where
  unfoldable pub recycle_cancelled : Option ℕ → Pass (Unit {0})
  recycle_cancelled none = give tt
  recycle_cancelled (some wid) = do
    w ← call (find_worker wid)
    recycle_if (not w.deleted && not w.recycle) w

  unfoldable pub check_assigned : Job → ℕ → Pass (Unit {0})
  check_assigned j wid = do
    w ← call (find_worker wid)
    if w.deleted || w.recycle
        then (do
          call (job_append_event j.id none "control" (now j.id 0) none worker_failed)
          complete_job held (λ k. now j.id (suc k)) j.id true
          give tt)
        else give tt

  unfoldable pub assign_popped : Job → Queues → Option (ℕ × Queues) → Pass Queues
  assign_popped j qs none = give qs
  assign_popped j qs (some (fw, rest)) = do
    call (worker_assign_job datetime (now j.id) fw j.id)
    give rest

  unfoldable pub assign_free : Job → Queues → Option ℕ → Pass Queues
  assign_free j qs (some wid) = do check_assigned j wid; give qs
  assign_free j qs none = assign_popped j qs (pop (job_target j) qs)

  unfoldable pub fail_cancelled : Job → Queues → Pass Queues
  fail_cancelled j qs = do
    recycle_cancelled j.worker
    complete_job held (now j.id) j.id true
    give qs

  unfoldable pub one_active : Job → Queues → Pass Queues
  one_active j qs = do
    call (refuse_if (j.complete || j.waiting || is_archived j) panic)
    if j.cancelled then fail_cancelled j qs else assign_free j qs j.worker

  unfoldable pub each_active : List Job → Queues → Pass (Unit {0})
  each_active [] qs = give tt
  each_active (j ∷ js) qs = do rest ← one_active j qs; each_active js rest

  unfoldable pub job_assignment_one : Pass (Unit {0})
  job_assignment_one = do
    free ← ask free_workers
    jobs ← ask jobs_active
    each_active jobs (queues free)

-- The age of an ID, 0 where it lies in the future, in whole seconds.
abbrev pub age_secs : ℕ → ℕ → ℕ
age_secs now since = (now - since) / 1_000_000_000

module _ (datetime : ℕ → ℕ) (now : ℕ → ℕ) where
  unfoldable pub recycle_finished : Worker → Pass (Unit {0})
  recycle_finished w = do
    jobs ← ask (worker_jobs w.id)
    recycle_if (not (is_empty jobs) && all (λ j. j.complete) jobs) w

  unfoldable pub one_worker_done : Worker → Pass (Unit {0})
  one_worker_done w =
      if w.recycle
      then give tt
      else if is_none w.token && ltb 1800 (age_secs (now w.id) (datetime w.id))
      then recycle_if true w
      else recycle_finished w

  unfoldable pub recycle_on_complete_one : Pass (Unit {0})
  recycle_on_complete_one = do workers ← ask workers_active; for_each one_worker_done workers
