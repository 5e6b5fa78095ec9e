-- ===== src/Server/Factories.antt =====
-- Factories and the jobs that they are offered: the tables of factories and targets in
-- server/src/db.rs, and `factory_lease` of server/src/api/factory.rs. The requests of a factory about
-- its workers are in Server/Api.
pub mod Offers
pub mod Requests
pub mod Kept
pub mod Confined
pub mod Reach
pub mod Examples
use buildomat.Prelude.{
  ℕ, Bool, true, false, not, ◌&&◌, ◌||◌, List, [], ◌∷◌, Option, none, some, String, Result, ok, err,
  ltb, ◌==◌, if◌then◌else◌, any, is_some,
}
use text.Mathlib.Text.{◌==◌ as str_eq}
use buildomat.Sql.{select, find, count, update}
use buildomat.Server.Models.{Job, job_target}
use buildomat.Server.State.{Database}
use buildomat.Server.Assignment.{jobs_active}
use buildomat.Server.Leases.{Leases, take_lease, renew_lease}
use buildomat.Server.Api.{HttpError, unauthorised, internal_error}

pub record Factory : Type 0 where
  pub id : ℕ
  pub name : String
  pub token : String
  pub lastping : Option ℕ

pub record Target : Type 0 where
  pub id : ℕ
  pub name : String
  pub desc : String
  pub redirect : Option ℕ
  pub privilege : Option String

pub record Fleet : Type 0 where
  pub factory : List Factory
  pub target : List Target

one_factory : List Factory → Option Factory
one_factory [] = none
one_factory (f ∷ []) = some f
one_factory (f ∷ g ∷ fs) = none

-- The empty token is that of the record made up for old workers.
unfoldable pub factory_auth : String → Fleet → Option Factory
unfolding one_factory
factory_auth token s =
    if str_eq token "" then none else one_factory (select (λ f. str_eq f.token token) s.factory)

unfoldable pub target_get : ℕ → Fleet → Option Target
target_get id s = find (λ t. t.id == id) s.target

unfoldable pub factory_seen : ℕ → ℕ → Fleet → Bool × Fleet
factory_seen now id s = (
  ltb 0 (count (λ f. f.id == id) s.factory),
  record s { factory = update (λ f. f.id == id) (λ f. record f { lastping = some now }) s.factory },
)

abbrev known : Option Factory → Result HttpError Factory
known none = err unauthorised
known (some f) = ok f

-- The token of the Authorization header, if there is one.
unfoldable pub require_factory : Option String → Fleet → Result HttpError Factory
require_factory none s = err unauthorised
require_factory (some token) s = known (factory_auth token s)

abbrev pinged : ℕ → Fleet → Result HttpError Factory → Result HttpError Bool × Fleet
pinged now s (err e) = (err e, s)
pinged now s (ok f) = (ok true, (factory_seen now f.id s).1)

unfoldable pub factory_ping : ℕ → Option String → Fleet → Result HttpError Bool × Fleet
unfolding factory_seen require_factory
factory_ping now token s = pinged now s (require_factory token s)

pub record FactoryLease : Type 0 where
  pub target : ℕ
  pub job : ℕ

-- What the loop over the jobs answers: a lease, no lease, or an error.
abbrev pub Offer : Type 0
Offer = Result HttpError (Option FactoryLease) × Leases

abbrev pub is_taken : Job → Bool
is_taken j = j.complete || j.cancelled || is_some j.worker

-- One job that is open, whose target is known: a lease, unless the target is not supported or the job
-- has one.
abbrev pub offer_of : Target → Job → Bool × Leases → Offer → Offer
offer_of t j (true, ls) rest = (ok (some (record { target = t.id; job = j.id })), ls)
offer_of t j (false, ls) rest = rest

unfoldable pub offer_job : ℕ → ℕ → List ℕ → Leases → Job → Option Target → Offer → Offer
offer_job now factory supported ls j none rest = (err internal_error, ls)
offer_job now factory supported ls j (some t) rest =
    if any (λ i. i == t.id) supported
    then offer_of t j (take_lease now j.id factory ls) rest
    else rest

unfoldable pub offer : ℕ → ℕ → List ℕ → Fleet → Leases → List Job → Offer
offer now factory supported s ls [] = (ok none, ls)
offer now factory supported s ls (j ∷ js) =
    let rest = offer now factory supported s ls js in
    if is_taken j
    then rest
    else offer_job now factory supported ls j (target_get (job_target j) s) rest

abbrev leased : ℕ → Bool → List ℕ → Fleet → Database → Leases → Result HttpError Factory → Offer
leased now hold supported s d ls (err e) = (err e, ls)
leased now hold supported s d ls (ok f) =
    if hold then (ok none, ls) else offer now f.id supported s ls (jobs_active d)

-- The IDs of the targets have been parsed, or not. `hold` is the operator's.
unfoldable pub factory_lease :
    ℕ → Bool → Option String → Option (List ℕ) → Fleet → Database → Leases → Offer
factory_lease now hold token none s d ls = (err internal_error, ls)
factory_lease now hold token (some supported) s d ls =
    leased now hold supported s d ls (require_factory token s)

abbrev renewal : ℕ → ℕ → Leases → Result HttpError Factory → Result HttpError Bool × Leases
renewal now job ls (err e) = (err e, ls)
renewal now job ls (ok f) = (ok (renew_lease now job f.id ls).0, (renew_lease now job f.id ls).1)

abbrev renewal_of :
    ℕ → Option ℕ → Leases → Result HttpError Factory → Result HttpError Bool × Leases
renewal_of now job ls (err e) = (err e, ls)
renewal_of now none ls (ok f) = (err internal_error, ls)
renewal_of now (some job) ls (ok f) = renewal now job ls (ok f)

unfoldable pub factory_lease_renew :
    ℕ → Option String → Option ℕ → Fleet → Leases → Result HttpError Bool × Leases
factory_lease_renew now token job s ls = renewal_of now job ls (require_factory token s)
