-- ===== src/Lab/Worker.antt =====
-- factory/lab/src/worker.rs: the first part of `lab_worker_one`, which checks the instances against the workers
-- of the server, and destroys the workers that have no instance. The replies of the server are
-- arguments; the console state of a host, which is reset with its instance, is left out.
pub mod Scrub
pub mod Examples
use buildomat.Prelude.{
  ℕ, Bool, true, false, not, List, [], ◌∷◌, ◌++◌, Option, none, some, String, Result, ok, err,
  if◌then◌else◌,
}
use text.Mathlib.Text.{◌==◌ as str_eq}
use buildomat.Sql.{find}
use buildomat.Lab.Models.{Instance, should_teardown, destroyed_row}
use buildomat.Lab.Database.{Database, Failure, instance_at, instance_destroy, active_rows}
use buildomat.Lab.InstanceId.{id_of, parse_instance_id}

-- What the server tells of a worker.
pub record FactoryWorker : Type 0 where
  pub id : String
  pub private : Option String
  pub recycle : Bool

-- The reply about one worker: the request failed, there is no such worker, or what it is.
pub data Reply : Type 0 where
  lost gone : Reply
  is_there : FactoryWorker → Reply

-- Why a pass ends early.
pub data Stop : Type 0 where
  request_failed : Stop
  database_failed : Failure → Stop

abbrev destroyed_by : Result Failure (Unit {0} × Database) → Result Stop Database
destroyed_by (ok (u, t)) = ok t
destroyed_by (err e) = err (database_failed e)

unfoldable pub destroy : Instance → Database → Result Stop Database
destroy i s = destroyed_by (instance_destroy i.nodename i.seq s)

-- The worker has to be that of the instance.
unfoldable pub is_worker_of : Instance → FactoryWorker → Bool
is_worker_of i w = elim w.private [ none ↦ false | some p ↦ str_eq p (id_of i) ]

unfoldable pub check_reply : Instance → Reply → Database → Result Stop Database
check_reply i lost s = err request_failed
check_reply i gone s = destroy i s
check_reply i (is_there w) s =
    if is_worker_of i w then (if w.recycle then destroy i s else ok s) else ok s

unfoldable pub check_instance : (String → Reply) → Instance → Database → Result Stop Database
check_instance reply i s = if should_teardown i then ok s else check_reply i (reply i.worker) s

abbrev pub go_on :
    Database → Result Stop Database → (Database → Option Stop × Database) → Option Stop × Database
go_on s (ok t) rest = rest t
go_on s (err e) rest = (some e, s)

-- The loop over the rows that the query gave; why it ended early, if it did.
unfoldable pub check_instances :
    (String → Reply) → List Instance → Database → Option Stop × Database
check_instances reply [] s = (none, s)
check_instances reply (i ∷ is) s = go_on s (check_instance reply i s) (check_instances reply is)

abbrev no_instance : Option Instance → Bool
no_instance none = true
no_instance (some i) = destroyed_row i

abbrev no_instance_at : Database → Option (String × ℕ) → Bool
no_instance_at s none = true
no_instance_at s (some (nodename, seq)) =
    no_instance (find (instance_at nodename seq) s.instance_rows)

-- Whether a worker is to be destroyed.
unfoldable pub is_detritus : Database → FactoryWorker → Bool
is_detritus s w = elim w.private [ none ↦ true | some p ↦ no_instance_at s (parse_instance_id p) ]

-- The workers that the second loop asks the server to destroy, if no request fails.
unfoldable pub scrubbed : Database → List FactoryWorker → List String
scrubbed s [] = []
scrubbed s (w ∷ ws) = let rest = scrubbed s ws in if is_detritus s w then w.id ∷ rest else rest

-- The state is the lab's database; the workers are what the server lists after the first loop.
unfoldable pub check_pass :
    (String → Reply) → List FactoryWorker → Database → (Option Stop × List String) × Database
check_pass reply workers s = elim (check_instances reply (active_rows s) s).0 [
  | none ↦ (
    (none, scrubbed (check_instances reply (active_rows s) s).1 workers),
    (check_instances reply (active_rows s) s).1,
  )
  | some e ↦ ((some e, []), (check_instances reply (active_rows s) s).1)
]
