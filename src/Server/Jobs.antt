-- ===== src/Server/Jobs.antt =====
-- server/src/db.rs: the life of a job after its creation. `now k` is the k-th reading of the clock in
-- an operation.
use buildomat.Prelude.{
  ℕ, ◌+◌, Bool, true, false, not, ◌&&◌, ◌||◌, List, [], ◌∷◌, Option, none, some, String, ok, err,
  ◌==◌, if◌then◌else◌, is_none,
}
use buildomat.Sql.{select, find, count, update, order_by}
use buildomat.Server.Models.{
  Task, Job, Payload, dependencies_complete, job_cancelled, task_incomplete, task_failures,
}
use buildomat.Server.State.{
  Tx, pure, gets, conflict, bail, panic, job_already_complete, job_not_waiting,
  cancelled_cannot_succeed, ◌>>=◌, ◌>>◌, refuse_if, found, job_is, find_job, update_job,
}
use buildomat.Server.Events.{i_job_event_insert, i_job_time_record, i_job_time_delta}

abbrev pub Clock : Type 0
Clock = ℕ → ℕ

abbrev pub task_is : ℕ → ℕ → Task → Bool
task_is job seq t = t.job == job && t.seq == seq

abbrev pub task_of : ℕ → Task → Bool
task_of job t = t.job == job

unfoldable pub update_task : (Task → Bool) → (Task → Task) → Tx (Unit {0})
update_task p f s =
    if count p s.task == 1 then ok (tt, record s { task = update p f s.task }) else err panic

unfoldable pub job_append_event : ℕ → Option ℕ → String → ℕ → Option ℕ → Payload → Tx (Unit {0})
job_append_event job task stream time time_remote payload = do
  j ← find_job job
  refuse_if j.complete (conflict (job_already_complete j.id))
  i_job_event_insert j.id task stream time time_remote payload

unfoldable pub job_wakeup : Clock → ℕ → Tx (Unit {0})
job_wakeup now job = do
  j ← find_job job
  refuse_if (not j.waiting) (conflict (job_not_waiting j.id))
  i_job_time_record j.id "ready" (now 0)
  waited ← i_job_time_delta j.id "submit" "ready"
  i_job_event_insert j.id none "control" (now 1) none (dependencies_complete waited)
  update_job (λ r. job_is j.id r && r.waiting) (λ r. record r { waiting = false })

cancel_running : Clock → Job → Tx Bool
cancel_running now j = do
  i_job_event_insert j.id none "control" (now 0) none job_cancelled
  update_job (λ r. job_is j.id r && not r.complete) (λ r. record r { cancelled = true })
  pure true

unfoldable pub job_cancel : Clock → ℕ → Tx Bool
unfolding cancel_running
job_cancel now job = do
  j ← find_job job
  refuse_if j.complete (conflict (job_already_complete j.id))
  if j.cancelled then pure false else cancel_running now j

-- One task of the loop in `job_complete`; the number counts the readings of the clock.
unfoldable pub mark_incomplete : Clock → Job → ℕ → Task → Tx ℕ
mark_incomplete now j n t = if (t.failed || t.complete) || j.cancelled then pure n else (do
  i_job_event_insert j.id none "control" (now n) none (task_incomplete t.seq)
  update_task (λ r. task_is j.id t.seq r && not r.complete)
      (λ r. record r { failed = true; complete = true })
  pure (n + 1))

-- The loop, with `tasks_failed` as its accumulator.
unfoldable pub mark_tasks : Clock → Job → ℕ → Bool → List Task → Tx (ℕ × Bool)
mark_tasks now j n tasks_failed [] = pure (n, tasks_failed)
mark_tasks now j n tasks_failed (t ∷ ts) = do
  n' ← mark_incomplete now j n t
  mark_tasks now j n' (tasks_failed || t.failed) ts

unfoldable pub job_outcome : Clock → Job → Bool → ℕ × Bool → Tx (ℕ × Bool)
job_outcome now j true (n, tasks_failed) = pure (n, true)
job_outcome now j false (n, false) = pure (n, false)
job_outcome now j false (n, true) = do
  i_job_event_insert j.id none "control" (now n) none task_failures
  pure (n + 1, true)

unfoldable pub finish_job : Clock → Job → Bool → Tx Bool
finish_job now j failed = do
  refuse_if (j.cancelled && not failed) (bail (cancelled_cannot_succeed j.id))
  tasks ← gets (λ s. order_by (λ t. t.seq) (select (task_of j.id) s.task))
  marked ← mark_tasks now j 0 false tasks
  outcome ← job_outcome now j failed marked
  update_job (λ r. job_is j.id r && not r.complete)
      (λ r. record r { failed = outcome.1; complete = true })
  i_job_time_record j.id "complete" (now outcome.0)
  pure true

unfoldable pub job_complete : Clock → ℕ → Bool → Tx Bool
job_complete now job failed = do
  j ← find_job job
  if j.complete then pure false else finish_job now j failed

-- `seq` is a u32, and is looked up by the same bits as an i32.
unfoldable pub task_finished : ℕ → ℕ → Bool → Task → Tx Bool
task_finished job seq failed t = if t.complete then pure false else (do
  update_task (λ r. task_is job seq r && not r.complete)
      (λ r. record r { complete = true; failed = failed })
  pure true)

unfoldable pub task_complete : ℕ → ℕ → Bool → Tx Bool
unfolding task_finished
task_complete job seq failed = do
  row ← gets (λ s. find (task_is job seq) s.task)
  t ← found row
  task_finished job seq failed t

unfoldable pub job_mark_archived : ℕ → ℕ → Tx (Unit {0})
job_mark_archived job time =
    update_job (λ r. job_is job r && is_none r.time_archived)
      (λ r. record r { time_archived = some time })
