-- ===== src/Server/Leases.antt =====
-- server/src/jobs.rs: the leases that factories take on jobs. An `Instant` is a number of nanoseconds
-- without a bound; the map is the list of its entries.
pub mod Holder
pub mod Examples
use buildomat.Prelude.{
  ℕ, ◌+◌, ◌*◌, Bool, true, false, not, ◌&&◌, ◌||◌, List, [], ◌∷◌, ◌++◌, Option, none, some, leb,
  ◌==◌, if◌then◌else◌, any, is_some,
}
use buildomat.Sql.{select, find, update}
use buildomat.Server.Models.{Job}
use buildomat.Server.State.{Database, job_is}

pub record Lease : Type 0 where
  pub job : ℕ
  pub factory : ℕ
  pub expiry : ℕ

-- 60 seconds.
abbrev pub lease_length : ℕ
lease_length = 60 * 1_000_000_000

abbrev pub lease_is : ℕ → ℕ × Lease → Bool
lease_is job e = e.0 == job

abbrev pub Leases : Type 0
Leases = List (ℕ × Lease)

abbrev pub extended : ℕ → ℕ × Lease → ℕ × Lease
extended now e = (e.0, record e.1 { expiry = now + lease_length })

renewed : ℕ → ℕ → ℕ → Leases → Option (ℕ × Lease) → Bool × Leases
renewed now job factory ls none = (false, ls)
renewed now job factory ls (some e) =
    if not (e.1.factory == factory)
    then (false, ls)
    else (true, update (lease_is job) (extended now) ls)

unfoldable pub renew_lease : ℕ → ℕ → ℕ → Leases → Bool × Leases
unfolding renewed
renew_lease now job factory ls = renewed now job factory ls (find (lease_is job) ls)

unfoldable pub take_lease : ℕ → ℕ → ℕ → Leases → Bool × Leases
take_lease now job factory ls = if any (lease_is job) ls then (false, ls) else (
  true,
  ls ++ (job, record { job = job; factory = factory; expiry = now + lease_length }) ∷ [],
)

-- The filter of `lease_cleanup_one`, on the job's row.
unfoldable pub is_settled : Option Job → Bool
is_settled none = true
is_settled (some j) = is_some j.worker || j.cancelled

unfoldable pub to_remove : Database → Leases → List ℕ
unfolding is_settled
to_remove s [] = []
to_remove s (e ∷ es) =
    let rest = to_remove s es in if is_settled (find (job_is e.0) s.job) then e.0 ∷ rest else rest

-- The test of `retain`.
unfoldable pub retains : ℕ → List ℕ → ℕ × Lease → Bool
retains now remove e =
    if any (λ rid. rid == e.0) remove then false else if leb e.1.expiry now then false else true

unfoldable pub lease_cleanup_one : ℕ → Database → Leases → Leases
unfolding to_remove retains
lease_cleanup_one now s ls = select (retains now (to_remove s ls)) ls
