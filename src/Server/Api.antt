-- ===== src/Server/Api.antt =====
-- server/src/api: the requests of the HTTP API, as programs that call the database several times. Each
-- call is a transaction of its own, so what was written before a failure stays.
pub mod WorkerRequests
pub mod JobFiles
pub mod Serve
pub mod Parts
pub mod Calls
pub mod Owner
pub mod Local
pub mod Quiet
pub mod DatabaseRequests
pub mod Isolation
pub mod Closed
pub mod Sealed
pub mod Later
pub mod Examples
use buildomat.Prelude.{
  ℕ, Bool, true, false, Option, none, some, Result, ok, err, if◌then◌else◌, holds_id,
}
use buildomat.Sql.{find}
use buildomat.Server.Models.{Job}
use buildomat.Server.Commits.{Inner}
use buildomat.Server.State.{Database, Failure, Reason, Tx, conflict, find_job}

pub record Central : Type 0 where
  pub database : Database
  pub files : Inner

-- The status of a response that is no success. `internal_error` is also a handler that panics.
pub data HttpError : Type 0 where
  unauthorised forbidden bad_request conflicted internal_error : HttpError

abbrev pub or_500 : Failure → HttpError
or_500 (conflict r) = conflicted
or_500 _ = internal_error

abbrev pub Handler : Type 0 → Type 0
Handler A = Database → Result HttpError A × Database

abbrev pub settle :
    {A : Type 0} → Database → Result Failure (A × Database) → Result HttpError A × Database
settle s (ok (a, t)) = (ok a, t)
settle s (err e) = (err (or_500 e), s)

-- A call of an operation, with `or_500`.
unfoldable pub call : {A : Type 0} → Tx A → Handler A
call m s = settle s (m s)

abbrev pub settle_500 :
    {A : Type 0} → Database → Result Failure (A × Database) → Result HttpError A × Database
settle_500 s (ok (a, t)) = (ok a, t)
settle_500 s (err e) = (err internal_error, s)

-- A call of an operation whose error is an `anyhow::Error`: every failure is a 500.
unfoldable pub call_anyhow : {A : Type 0} → Tx A → Handler A
call_anyhow m s = settle_500 s (m s)

unfoldable pub reply : {A : Type 0} → A → Handler A
reply a s = (ok a, s)

unfoldable pub deny : {A : Type 0} → HttpError → Handler A
deny e s = (err e, s)

unfoldable pub look : {A : Type 0} → (Database → A) → Handler A
look f s = (ok (f s), s)

abbrev pub proceed :
    {A B : Type 0} → Result HttpError A × Database → (A → Handler B) → Result HttpError B × Database
proceed (ok a, s) f = f a s
proceed (err e, s) f = (err e, s)

infixl 5 ◌>>=◌ ◌>>◌
unfoldable pub ◌>>=◌ : {A B : Type 0} → Handler A → (A → Handler B) → Handler B
unfolding call call_anyhow reply deny look
◌>>=◌ m f s = proceed (m s) f

abbrev pub ◌>>◌ : {A B : Type 0} → Handler A → Handler B → Handler B
m >> k = m >>= λ _. k

-- An ID in a path or a body that the `rusty_ulid` crate has parsed, or not.
unfoldable pub parsed_id : Option ℕ → Handler ℕ
parsed_id none = deny internal_error
parsed_id (some id) = reply id

unfoldable pub job_by_str : Option ℕ → Handler Job
job_by_str text = do id ← parsed_id text; call (find_job id)
