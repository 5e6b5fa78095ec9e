-- ===== src/Server/Workers.antt =====
-- server/src/db.rs: workers, from creation to the job that one is given.
use buildomat.Prelude.{
  ℕ, ◌-◌, Bool, true, false, not, ◌||◌, List, [], ◌∷◌, Option, none, some, String, ok, leb, ltb,
  ◌==◌, if◌then◌else◌, holds_id, length,
}
use text.Mathlib.Text.{◌==◌ as str_eq}
use buildomat.Sql.{select, count, update, insert}
use buildomat.Server.Models.{Worker, Job, job_assigned}
use buildomat.Server.State.{
  Tx, pure, gets, stored, conflict, bail, many_jobs, job_already_assigned, worker_has_jobs,
  worker_already_deleted, ◌>>=◌, ◌>>◌, refuse_if, fail, job_is, worker_is, find_job, find_worker,
  update_job,
}
use buildomat.Server.Events.{i_job_event_insert, i_job_time_record, i_job_time_delta}
use buildomat.Server.Jobs.{Clock}

-- `update(worker)` by key; the answer says whether a row was there.
unfoldable pub set_worker : ℕ → (Worker → Worker) → Tx Bool
set_worker id f s =
    ok (
      ltb 0 (count (worker_is id) s.worker),
      record s { worker = update (worker_is id) f s.worker },
    )

unfoldable pub worker_recycle_all : Tx ℕ
worker_recycle_all s = ok (
  count (λ w. not w.deleted) s.worker,
  record s { worker = update (λ w. not w.deleted) (λ w. record w { recycle = true }) s.worker },
)

unfoldable pub worker_recycle : ℕ → Tx Bool
unfolding set_worker
worker_recycle id = set_worker id λ w. record w { recycle = true }

unfoldable pub worker_flush : ℕ → Tx Bool
unfolding set_worker
worker_flush id = set_worker id λ w. record w { wait_for_flush = false }

unfoldable pub worker_destroy : ℕ → Tx Bool
unfolding set_worker
worker_destroy id = set_worker id λ w. record w { deleted = true }

unfoldable pub worker_ping : ℕ → ℕ → Tx Bool
unfolding set_worker
worker_ping now id = set_worker id λ w. record w { lastping = some now }

abbrev pub assigned_to : ℕ → Job → Bool
assigned_to wid j = holds_id j.worker wid

unfoldable pub one_job : ℕ → List Job → Tx (Option Job)
one_job wid [] = pure none
one_job wid (j ∷ []) = pure (some j)
one_job wid (j ∷ k ∷ js) = fail (bail (many_jobs (length (j ∷ k ∷ js)) wid))

unfoldable pub worker_job : ℕ → Tx (Option Job)
worker_job wid = do js ← gets (λ s. select (assigned_to wid) s.job); one_job wid js

-- `conflict!` where the job has a worker already.
unfoldable pub unassigned : Job → Option ℕ → Tx (Unit {0})
unassigned j none = pure tt
unassigned j (some w) = fail (conflict (job_already_assigned j.id w))

-- The wait that the event reports: since the job was ready, or since its ID was made.
queued_for : Option ℕ → ℕ → ℕ → Option ℕ
queued_for (some d) created now = some d
queued_for none created now = if leb created now then some (now - created) else none

-- UNIQUE: id, bootstrap; the new row's token is null, which equals no token.
abbrev pub same_worker : Worker → Worker → Bool
same_worker a b = a.id == b.id || str_eq a.bootstrap b.bootstrap

-- A ULID holds the time at which it was made, and the `ulid` crate reads it.
module _ (datetime : ℕ → ℕ) where
  -- Estimate how long the job was waiting in the queue for a worker.
  unfoldable pub note_assignment : Clock → Worker → Job → Tx (Unit {0})
  unfolding queued_for
  note_assignment now w j = do
    i_job_time_record j.id "assigned" (now 0)
    waited ← i_job_time_delta j.id "ready" "assigned"
    i_job_event_insert j.id none "control" (now 2) none
        (job_assigned w.id (queued_for waited (datetime j.id) (now 1)))

  unfoldable pub assign_to : Clock → Worker → Job → Tx (Unit {0})
  assign_to now w j = do
    update_job (job_is j.id) (λ r. record r { worker = some w.id })
    note_assignment now w j

  unfoldable pub i_worker_assign_job : Clock → Worker → ℕ → Tx (Unit {0})
  unfolding unassigned
  i_worker_assign_job now w jid = do
    j ← find_job jid
    unassigned j j.worker
    c ← gets (λ s. count (assigned_to w.id) s.job)
    refuse_if (ltb 0 c) (conflict (worker_has_jobs w.id c))
    assign_to now w j

  unfoldable pub worker_assign_job : Clock → ℕ → ℕ → Tx (Unit {0})
  worker_assign_job now wid jid = do
    w ← find_worker wid
    refuse_if (w.deleted || w.recycle) (conflict (worker_already_deleted w.id))
    i_worker_assign_job now w jid

  unfoldable pub assign_reserved : Clock → Worker → Option ℕ → Tx Worker
  assign_reserved now w none = pure w
  assign_reserved now w (some jid) = do i_worker_assign_job now w jid; pure w

  -- The ID and the bootstrap key are random, and come from outside.
  unfoldable pub worker_create : Clock → ℕ → String → ℕ → ℕ → Option ℕ → Bool → Tx Worker
  worker_create now id bootstrap factory target job wait_for_flush = do
    let w : Worker = record {
      id = id;
      bootstrap = bootstrap;
      factory_private = none;
      factory_metadata = none;
      token = none;
      deleted = false;
      recycle = false;
      lastping = none;
      factory = some factory;
      target = some target;
      wait_for_flush = wait_for_flush;
    }
    rows ← gets (λ s. insert same_worker w s.worker)
    stored rows (λ s ws. record s { worker = ws })
    assign_reserved now w job
