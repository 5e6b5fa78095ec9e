-- ===== src/Server/Store/Examples.antt =====
-- A value that is stored for a job, and stored again.
use buildomat.Prelude.{◌≡◌, refl, true, false, ◌&&◌, some, ok, ◌==◌, if◌then◌else◌, arith}
use text.Mathlib.Text.{◌==◌ as str_eq}
use buildomat.Sql.{find, count, insert}
use buildomat.Server.State.{Database, after}
use buildomat.Server.Samples.{database}
use buildomat.Server.Store.{
  job_store_put, store_is, is_store_name, byte_len, store_entry, update_store,
}
use buildomat.Server.Store.Lookup.{put_entry, job_store_put-find}
use buildomat.Server.Store.Bounds.{IsBounded, job_store_put-IsBounded}

abbrev stored_once : Database
stored_once = after database (job_store_put 5 1 "key" "value" true "user" database)

once : job_store_put 5 1 "key" "value" true "user" database ≡ ok (tt, stored_once)
unfolding job_store_put buildomat.Server.State.◌>>=◌ is_store_name byte_len
    buildomat.Server.State.find_job find store_entry count insert
once = refl

abbrev stored_twice : Database
stored_twice = after stored_once (job_store_put 6 1 "key" "other" false "worker" stored_once)

twice : job_store_put 6 1 "key" "other" false "worker" stored_once ≡ ok (tt, stored_twice)
unfolding job_store_put buildomat.Server.State.◌>>=◌ is_store_name byte_len
    buildomat.Server.State.find_job find store_entry count insert update_store
twice = refl

job_store_put-find_example : find (store_is 1 "key") stored_twice.job_store ≡ (
    if 1 == 1 && str_eq "key" "key"
    then some
        (put_entry 6 1 "key" "other" false "worker" (find (store_is 1 "key") stored_once.job_store))
    else find (store_is 1 "key") stored_once.job_store)
job_store_put-find_example =
    job_store_put-find 6 1 "key" "other" false "worker" 1 "key" stored_once stored_twice twice

empty-IsBounded : IsBounded database.job_store
unfolding count
empty-IsBounded = record { entries = tt; few = λ job. ground arith }

job_store_put-IsBounded_example : IsBounded stored_once.job_store
job_store_put-IsBounded_example =
    job_store_put-IsBounded 5 1 "key" "value" true "user" database stored_once empty-IsBounded once
