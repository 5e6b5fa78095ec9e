-- ===== src/Server/Pass.antt =====
-- The background tasks of the server: passes over the database that call one operation after another.
-- Each call is a transaction of its own, so what was done before a failure stays. `c.complete_job` is
-- from server/src/main.rs.
pub mod Keeps
pub mod Bind
use buildomat.Prelude.{ℕ, Bool, true, false, List, [], ◌∷◌, Result, ok, err, if◌then◌else◌}
use buildomat.Server.State.{Database, Failure, Tx, bail, files_busy}
use buildomat.Server.Jobs.{Clock, job_complete}

abbrev pub Pass : Type 0 → Type 0
Pass A = Database → Result Failure A × Database

abbrev pub settle :
    {A : Type 0} → Database → Result Failure (A × Database) → Result Failure A × Database
settle s (ok (a, t)) = (ok a, t)
settle s (err e) = (err e, s)

-- A call of an operation.
unfoldable pub call : {A : Type 0} → Tx A → Pass A
call m s = settle s (m s)

unfoldable pub give : {A : Type 0} → A → Pass A
give a s = (ok a, s)

unfoldable pub stop : {A : Type 0} → Failure → Pass A
stop e s = (err e, s)

unfoldable pub ask : {A : Type 0} → (Database → A) → Pass A
ask f s = (ok (f s), s)

abbrev pub proceed :
    {A B : Type 0} → Result Failure A × Database → (A → Pass B) → Result Failure B × Database
proceed (ok a, s) f = f a s
proceed (err e, s) f = (err e, s)

-- `?` between the calls.
infixl 5 ◌>>=◌ ◌>>◌
unfoldable pub ◌>>=◌ : {A B : Type 0} → Pass A → (A → Pass B) → Pass B
unfolding call give ask
◌>>=◌ m f s = proceed (m s) f

abbrev pub ◌>>◌ : {A B : Type 0} → Pass A → Pass B → Pass B
m >> k = m >>= λ _. k

-- A `for` loop.
unfoldable pub for_each : {R : Type 0} → (R → Pass (Unit {0})) → List R → Pass (Unit {0})
for_each f [] = give tt
for_each f (r ∷ rs) = f r >> for_each f rs

-- `held` says which jobs still have files being written: `mark_job_completed` refuses those.
unfoldable pub complete_job : (ℕ → Bool) → Clock → ℕ → Bool → Pass Bool
complete_job held now job failed =
    if held job then stop (bail (files_busy job)) else call (job_complete now job failed)
