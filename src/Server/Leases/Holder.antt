-- ===== src/Server/Leases/Holder.antt =====
-- The holder of a lease (server/src/jobs.rs) under the calls of factories and the cleanup.
use buildomat.Prelude.{
  ℕ, ◌+◌, ◌≤◌, ◌<◌, ◌≡◌, refl, ap, subst, sym, ◌∙◌, Bool, true, false, List, [], ◌∷◌, ◌++◌, Option,
  none, some, arith, ◌==◌, Bool-cases, inl, inr, any, ==_iff, ==_refl,
}
use buildomat.Sql.{select, find, update}
use buildomat.Sql.Lemmas.{find-update, find-append, written}
use buildomat.Server.State.{Database, job_is}
use buildomat.Server.Leases.{
  Lease, Leases, lease_is, lease_length, renew_lease, take_lease, lease_cleanup_one, is_settled,
  to_remove, retains, extended, renewed,
}

-- What happens to the table of leases: each with the time, and the cleanup with the database of then.
pub data LeaseCall : Type 0 where
  renews takes : ℕ → ℕ → LeaseCall
  cleans : Database → LeaseCall

pub lease_step : Leases → ℕ × LeaseCall → Leases
lease_step ls (now, renews job factory) = (renew_lease now job factory ls).1
lease_step ls (now, takes job factory) = (take_lease now job factory ls).1
lease_step ls (now, cleans s) = lease_cleanup_one now s ls

pub lease_run : Leases → List (ℕ × LeaseCall) → Leases
lease_run ls [] = ls
lease_run ls (c ∷ cs) = lease_run (lease_step ls c) cs

-- The factory holds the lease on a job, and has taken or renewed it at `since` or later.
pub record Holds (ls : Leases) (job factory since : ℕ) : Type 0 where
  pub expiry : ℕ
  pub stands :
      find (lease_is job) ls ≡ some (job, record { job = job; factory = factory; expiry = expiry })
  pub lasts : since + lease_length ≤ expiry

-- A call within the length of a lease from `since` on; a cleanup finds the job in the table, without a
-- worker and not cancelled.
unfoldable pub Spares : ℕ → ℕ → ℕ × LeaseCall → Type 0
Spares job since (now, renews j f) = (since ≤ now) × (now < since + lease_length)
Spares job since (now, takes j f) = (since ≤ now) × (now < since + lease_length)
Spares job since (now, cleans s) =
    ((since ≤ now) × (now < since + lease_length)) × (is_settled (find (job_is job) s.job) ≡ false)

unfoldable pub Spared : ℕ → ℕ → List (ℕ × LeaseCall) → Type 0
unfolding Spares
Spared job since [] = Unit
Spared job since (c ∷ cs) = Spares job since c × Spared job since cs

module _ {R : Type 0} where
  find-select :
      (p q : R → Bool) (rs : List R) (r : R)
      → find p rs ≡ some r
      → q r ≡ true
      → find p (select q rs) ≡ some r
  unfolding find select
  find-select p q [] r h k = h
  find-select p q (x ∷ rs) r h k = elim (Bool-cases (p x)) [
    | inl e ↦ ground arith
    | inr e ↦ ground (arith, find-select p q rs r)
  ]

  find-last :
      (p : R → Bool) (rs : List R) (r : R)
      → any p rs ≡ false
      → p r ≡ true
      → find p (rs ++ r ∷ []) ≡ some r
  unfolding find
  find-last p [] r h k = ground arith
  find-last p (x ∷ rs) r h k = ground (arith, find-last p rs r)

  any_found : (p : R → Bool) (rs : List R) (r : R) → find p rs ≡ some r → any p rs ≡ true
  unfolding find
  any_found p [] r h = ground arith
  any_found p (x ∷ rs) r h = ground (arith, any_found p rs r)

unmarked :
    (s : Database) (ls : Leases) (job : ℕ)
    → is_settled (find (job_is job) s.job) ≡ false
    → any (λ rid. rid == job) (to_remove s ls) ≡ false
unfolding to_remove
unmarked s [] job h = refl
unmarked s (e ∷ es) job h = elim (Bool-cases (e.0 == job)) [
  | inl k ↦
      let i : e.0 ≡ job = (==_iff e.0 job).0 k in
      let u : is_settled (find (job_is e.0) s.job) ≡ false =
        subst (λ x. is_settled (find (job_is x) s.job) ≡ false) (sym i) h in
      rw u (unmarked s es job h)
  | inr k ↦ ground (arith, unmarked s es job h)
]

-- A renewal by whoever holds the lease on `j`.
extended-Holds :
    (ls : Leases) (job factory since now j : ℕ)
    → since ≤ now
    → Holds ls job factory since
    → Holds (update (lease_is j) (extended now) ls) job factory since
extended-Holds ls job factory since now j a h = elim (Bool-cases (job == j)) [
  | inl e ↦ record { expiry = now + lease_length; stands = found ∙ rw e; lasts = omega arith }
  | inr e ↦ record { expiry = h.expiry; stands = found ∙ rw e; lasts = h.lasts }
]
  where
    found :
        find (lease_is job) (update (lease_is j) (extended now) ls)
        ≡ written
            (lease_is j)
            (extended now)
            (some (job, record { job = job; factory = factory; expiry = h.expiry }))
    found =
        find-update (lease_is job) (lease_is j) (extended now) ls (λ r. refl)
        ∙ ap (written (lease_is j) (extended now)) h.stands

renewed-Holds :
    (ls : Leases) (job factory since now j g : ℕ) (o : Option (ℕ × Lease))
    → since ≤ now
    → Holds ls job factory since
    → Holds (renewed now j g ls o).1 job factory since
unfolding renewed
renewed-Holds ls job factory since now j g none a h = h
renewed-Holds ls job factory since now j g (some e) a h = elim (Bool-cases (e.1.factory == g)) [
  | inl k ↦ rw k (extended-Holds ls job factory since now j a h)
  | inr k ↦ rw k h
]

take-Holds :
    (ls : Leases) (job factory since now j g : ℕ)
    → Holds ls job factory since
    → Holds (take_lease now j g ls).1 job factory since
unfolding take_lease
take-Holds ls job factory since now j g h = elim (Bool-cases (any (lease_is j) ls)) [
  | inl e ↦ rw e h
  | inr e ↦ rw e (record {
    expiry = h.expiry;
    stands = find-append (lease_is job) ls _ _ h.stands;
    lasts = h.lasts;
  })
]

cleanup-Holds :
    (ls : Leases) (job factory since now : ℕ) (s : Database)
    → now < since + lease_length
    → is_settled (find (job_is job) s.job) ≡ false
    → Holds ls job factory since
    → Holds (lease_cleanup_one now s ls) job factory since
unfolding lease_cleanup_one retains
cleanup-Holds ls job factory since now s b u h = record {
  expiry = h.expiry;
  stands =
      find-select (lease_is job) (retains now (to_remove s ls)) ls
        (job, record { job = job; factory = factory; expiry = h.expiry }) h.stands
        (ground (arith, unmarked s ls job u, h.lasts));
  lasts = h.lasts;
}

-- No call that spares the lease takes it from its factory.
step-Holds :
    (ls : Leases) (job factory since : ℕ) (c : ℕ × LeaseCall)
    → Spares job since c
    → Holds ls job factory since
    → Holds (lease_step ls c) job factory since
unfolding Spares lease_step renew_lease
step-Holds ls job factory since (now, renews j g) k h =
    renewed-Holds ls job factory since now j g (find (lease_is j) ls) k.0 h
step-Holds ls job factory since (now, takes j g) k h = take-Holds ls job factory since now j g h
step-Holds ls job factory since (now, cleans s) k h =
    cleanup-Holds ls job factory since now s k.0.1 k.1 h

run-Holds :
    (ls : Leases) (job factory since : ℕ) (cs : List (ℕ × LeaseCall))
    → Spared job since cs
    → Holds ls job factory since
    → Holds (lease_run ls cs) job factory since
unfolding Spared lease_run
run-Holds ls job factory since [] k h = h
run-Holds ls job factory since (c ∷ cs) k h =
    run-Holds (lease_step ls c) job factory since cs k.1 (step-Holds ls job factory since c k.0 h)

taken-Holds :
    (ls : Leases) (job factory since : ℕ)
    → (take_lease since job factory ls).0 ≡ true
    → Holds (take_lease since job factory ls).1 job factory since
unfolding take_lease
taken-Holds ls job factory since h = elim (Bool-cases (any (lease_is job) ls)) [
  | inl e ↦ absurd (ground arith)
  | inr e ↦ rw e (record {
    expiry = since + lease_length;
    stands =
        find-last (lease_is job) ls
          (job, record { job = job; factory = factory; expiry = since + lease_length }) e
          (==_refl job);
    lasts = omega arith;
  })
]

-- What the holder and another factory are told.
Holds-answers :
    (ls : Leases) (job factory since now g : ℕ)
    → Holds ls job factory since
    → ((take_lease now job g ls).0 ≡ false) × ((renew_lease now job g ls).0 ≡ (factory == g))
unfolding take_lease renew_lease
Holds-answers ls job factory since now g h =
    (rw (any_found (lease_is job) ls _ h.stands) refl, rw h.stands (ground arith))

-- Once a factory has been granted the lease on a job, then until the lease's minute is over, and while
-- the cleanup task finds the job there, without a worker and not cancelled, any calls by any factories
-- leave the lease with it: no factory can take the lease, and a renewal is granted to the holder and
-- refused to every other factory.
pub take_lease-exclusive :
    (ls : Leases) (job factory since : ℕ) (cs : List (ℕ × LeaseCall)) (now g : ℕ)
    → (take_lease since job factory ls).0 ≡ true
    → Spared job since cs
    → ((take_lease now job g (lease_run (take_lease since job factory ls).1 cs)).0 ≡ false)
      × ((renew_lease now job g (lease_run (take_lease since job factory ls).1 cs)).0
          ≡ (factory == g))
take_lease-exclusive ls job factory since cs now g t k =
    Holds-answers _ job factory since now g
      (run-Holds _ job factory since cs k (taken-Holds ls job factory since t))
