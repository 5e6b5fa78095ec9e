-- ===== src/Server/Leases/Examples.antt =====
-- Two factories that compete for a job.
use buildomat.Prelude.{ℕ, ◌≡◌, refl, false, List, [], ◌∷◌, arith, ◌==◌}
use buildomat.Sql.{find}
use buildomat.Server.Samples.{database}
use buildomat.Server.Leases.{renew_lease, take_lease, is_settled}
use buildomat.Server.Leases.Holder.{
  LeaseCall, renews, takes, cleans, lease_run, Spared, Spares, take_lease-exclusive,
}

abbrev rival_calls : List (ℕ × LeaseCall)
rival_calls =
    (2000, takes 1 4)
    ∷ (3000, renews 1 4)
    ∷ (4000, renews 1 3)
    ∷ (5000, cleans database)
    ∷ (6000, takes 2 4)
    ∷ []

rivals-Spared : Spared 1 1000 rival_calls
unfolding Spared Spares is_settled find
rivals-Spared = ground arith

take_lease-exclusive_example :
    ((take_lease 7000 1 4 (lease_run (take_lease 1000 1 3 []).1 rival_calls)).0 ≡ false)
    × ((renew_lease 7000 1 4 (lease_run (take_lease 1000 1 3 []).1 rival_calls)).0 ≡ (3 == 4))
unfolding take_lease
take_lease-exclusive_example =
    take_lease-exclusive [] 1 3 1000 rival_calls 7000 4 refl rivals-Spared
