-- ===== src/Server/Factories/Examples.antt =====
-- A factory that asks for work.
use buildomat.Prelude.{◌+◌, ◌≡◌, refl, true, false, ◌&&◌, [], ◌∷◌, ◌++◌, none, some, ok, err, any}
use buildomat.Sql.{find, select, order_by}
use buildomat.Server.Samples.{database}
use buildomat.Server.Models.{job_target}
use buildomat.Server.Assignment.{jobs_active}
use buildomat.Server.Leases.{Leases, lease_length, take_lease}
use buildomat.Server.Factories.{
  Factory, Fleet, FactoryLease, factory_auth, target_get, require_factory, offer_job, offer,
  factory_lease,
}
use buildomat.Server.State
use buildomat.Server.State.{find_worker}
use buildomat.Server.Api.{forbidden, parsed_id, call, reply, deny, ◌>>=◌}
use buildomat.Server.Factories.Requests.{
  factory_as, owns_worker, own_worker, factory_worker_destroy,
}
use buildomat.Server.Factories.Reach.{Reaches, destroys, serve, serve-Reaches}
use buildomat.Server.Factories.Offers.{is_offerable, is_offered, lease-granted, lease-none}

abbrev aws : Factory
aws = record { id = 3; name = "aws"; token = "three"; lastping = none }

abbrev fleet : Fleet
fleet = record {
  factory = aws ∷ [];
  target = record { id = 9; name = "default"; desc = ""; redirect = none; privilege = none } ∷ [];
}

abbrev second_job : FactoryLease
second_job = record { target = 9; job = 2 }

abbrev granted_leases : Leases
granted_leases = (2, record { job = 2; factory = 3; expiry = 1000 + lease_length }) ∷ []

granted :
    factory_lease 1000 false (some "three") (some (9 ∷ [])) fleet database []
    ≡ (ok (some second_job), granted_leases)
unfolding factory_lease require_factory factory_auth select jobs_active order_by offer offer_job
    target_get find job_target take_lease
granted = refl

lease-granted_example :
    (false ≡ false)
    × ((f : Factory) × (require_factory (some "three") fleet ≡ ok f)
        × (any (λ j. is_offerable (9 ∷ []) [] j && is_offered second_job j) database.job ≡ true)
        × (granted_leases
            ≡ [] ++ (2, record { job = 2; factory = f.id; expiry = 1000 + lease_length }) ∷ []))
lease-granted_example =
    lease-granted 1000 false (some "three") (9 ∷ []) fleet database [] granted_leases second_job
      granted

-- The job is leased already.
nothing :
    factory_lease 2000 false (some "three") (some (9 ∷ [])) fleet database granted_leases
    ≡ (ok none, granted_leases)
unfolding factory_lease require_factory factory_auth select jobs_active order_by offer offer_job
    target_get find job_target take_lease
nothing = refl

lease-none_example :
    (any (is_offerable (9 ∷ []) granted_leases) database.job ≡ false)
    × (granted_leases ≡ granted_leases)
lease-none_example =
    lease-none 2000 false (some "three") (9 ∷ []) fleet database granted_leases granted_leases
      nothing refl

-- A worker of the factory, and one of another.
serve-Reaches_example :
    Reaches fleet
      (some "three")
      (some 7)
      database
      (serve destroys fleet (some "three") (some 7) database)
serve-Reaches_example = serve-Reaches fleet (some "three") (some 7) destroys database

not_its_own :
    (factory_worker_destroy
      (record fleet { factory = record aws { id = 4 } ∷ [] })
      (some "three")
      (some 7)
      database).0
    ≡ err forbidden
unfolding factory_worker_destroy own_worker ◌>>=◌ factory_as require_factory factory_auth select
    parsed_id reply call find_worker find State.◌>>=◌ owns_worker deny
not_its_own = refl
