-- ===== src/Server/Bootstrap/Examples.antt =====
-- A worker with an instance, whose agent makes itself known.
use buildomat.Prelude.{◌≡◌, refl, [], ◌∷◌, some, ok, arith}
use buildomat.Sql.{find, count, update}
use buildomat.Server.Models.{Worker}
use buildomat.Server.State.{Database, ◌>>=◌, find_worker}
use buildomat.Server.Samples.{a_worker, database}
use buildomat.Server.Bootstrap.{
  worker_bootstrap, worker_auth, bootstrap_token, give_token, update_worker, reread,
}
use buildomat.Server.Bootstrap.Tokens.{IsDistinct, worker_bootstrap-auth}

abbrev with_instance : Database
with_instance = record database {
  worker = record a_worker { factory_private = some "instance" } ∷ [];
}

abbrev known : Worker
known = record a_worker {
  factory_private = some "instance";
  token = some "token";
  lastping = some 5;
}

bootstraps :
    worker_bootstrap 5 "key" "token" with_instance
    ≡ ok (some known, record with_instance { worker = known ∷ [] })
unfolding worker_bootstrap ◌>>=◌ find_worker find count update bootstrap_token give_token
    update_worker reread
bootstraps = refl

instance-IsDistinct : IsDistinct with_instance.worker
unfolding count
instance-IsDistinct = record { ids = λ id. ground arith; tokens = λ token. ground arith }

worker_bootstrap-auth_example :
    worker_auth "token" (record with_instance { worker = known ∷ [] })
    ≡ ok (known, record with_instance { worker = known ∷ [] })
worker_bootstrap-auth_example =
    worker_bootstrap-auth 5 "key" "token" known with_instance
      (record with_instance { worker = known ∷ [] }) instance-IsDistinct bootstraps
