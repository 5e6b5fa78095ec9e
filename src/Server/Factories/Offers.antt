-- ===== src/Server/Factories/Offers.antt =====
-- Which job `factory_lease` of server/src/api/factory.rs offers to a factory.
use buildomat.Prelude.{
  ℕ, ◌+◌, ◌≡◌, refl, ◌⊎◌, sym, ◌∙◌, Bool, true, false, not, ◌&&◌, List, [], ◌∷◌, ◌++◌, Option, none,
  some, String, ok, err, arith, Bool-cases, Option-cases, Result-cases, inl, inr, any, is_some,
  ◌||◌, ◌==◌,
}
use buildomat.Sql.{select}
use buildomat.Sql.Lemmas.{any-order_by, find-eq-some}
use buildomat.Sql.Counts.{any-select_and}
use buildomat.Server.Models.{Job, job_target}
use buildomat.Server.State.{Database}
use buildomat.Server.Assignment.{jobs_active}
use buildomat.Server.Leases.{Leases, lease_is, lease_length, take_lease}
use buildomat.Server.Api.{HttpError, internal_error}
use buildomat.Server.Factories.{
  Factory, Target, Fleet, FactoryLease, target_get, require_factory, is_taken, offer_job, offer,
  factory_lease,
}

-- The job is ready and has no worker, its target is supported, and no factory has a lease on it.
abbrev pub is_unleased : List ℕ → Leases → Job → Bool
is_unleased supported ls j =
    not (j.complete || j.cancelled || is_some j.worker)
    && (any (λ i. i == job_target j) supported && not (any (lease_is j.id) ls))

abbrev pub is_offerable : List ℕ → Leases → Job → Bool
is_offerable supported ls j = (not j.complete && not j.waiting) && is_unleased supported ls j

abbrev pub is_offered : FactoryLease → Job → Bool
is_offered l j = j.id == l.job && job_target j == l.target

target_get-id : (id : ℕ) (s : Fleet) (t : Target) → target_get id s ≡ some t → t.id ≡ id
unfolding target_get
target_get-id id s t e = ground (arith, find-eq-some (λ t. t.id == id) s.target t e)

-- What the loop makes of one job: it goes on, as the job is not to be had; it fails, or it takes the job.
module _ (now factory : ℕ) (supported : List ℕ) (s : Fleet) (ls : Leases) where
  record Skips (j : Job) (js : List Job) : Type 0 where
    pub missed : is_unleased supported ls j ≡ false
    pub goes_on : offer now factory supported s ls (j ∷ js) ≡ offer now factory supported s ls js

  record Takes (j : Job) (js : List Job) : Type 0 where
    pub had : is_unleased supported ls j ≡ true
    pub answers : offer now factory supported s ls (j ∷ js) ≡ (
      ok (some (record { target = job_target j; job = j.id })),
      ls ++ (j.id, record { job = j.id; factory = factory; expiry = now + lease_length }) ∷ [],
    )

  lease_cases :
      (j : Job) (js : List Job) (t : Target)
      → is_taken j ≡ false
      → target_get (job_target j) s ≡ some t
      → any (λ i. i == t.id) supported ≡ true
      → t.id ≡ job_target j
      → Skips j js ⊎ Takes j js
  unfolding offer offer_job take_lease
  lease_cases j js t e n k same = elim (Bool-cases (any (lease_is j.id) ls)) [
    | inl l ↦ inl (record {
      missed = ground (arith, l);
      goes_on = rw (offer, e, n, offer_job, k, take_lease, l) refl;
    })
    | inr l ↦ inr (record {
      had = rw (e, l, sym same) (rw k refl);
      answers = rw (offer, e, n, offer_job, k, take_lease, l, same) refl;
    })
  ]

  job_cases :
      (j : Job) (js : List Job)
      → Skips j js
        ⊎ (((e : HttpError) × (offer now factory supported s ls (j ∷ js) ≡ (err e, ls)))
            ⊎ Takes j js)
  unfolding offer offer_job
  job_cases j js = elim (Bool-cases (is_taken j)) [
    | inl e ↦ inl (record { missed = rw e refl; goes_on = rw (offer, e) refl })
    | inr e ↦ elim (Option-cases (target_get (job_target j) s)) [
      | inl n ↦ inr (inl (internal_error, rw (offer, e, n, offer_job) refl))
      | inr (t, n) ↦
          let same = target_get-id (job_target j) s t n in
          elim (Bool-cases (any (λ i. i == t.id) supported)) [
            | inl k ↦ elim (lease_cases j js t e n k same) [
              | inl skips ↦ inl skips
              | inr takes ↦ inr (inr takes)
            ]
            | inr k ↦ inl (record {
              missed = ground (arith, rw same at k);
              goes_on = rw (offer, e, n, offer_job, k) refl;
            })
          ]
    ]
  ]

  offer-granted :
      (js : List Job) (l : FactoryLease) (ls' : Leases)
      → offer now factory supported s ls js ≡ (ok (some l), ls')
      → (any (λ j. is_unleased supported ls j && is_offered l j) js ≡ true)
        × (ls'
            ≡ ls
              ++ (l.job, record { job = l.job; factory = factory; expiry = now + lease_length })
                ∷ [])
  unfolding offer
  offer-granted [] l ls' h = absurd (ground arith)
  offer-granted (j ∷ js) l ls' h = elim (job_cases j js) [
    | inl skips ↦
        let (a, b) = offer-granted js l ls' (sym skips.goes_on ∙ h) in (ground (arith, a), b)
    | inr (inl (e, k)) ↦ absurd (ground (arith, sym k ∙ h))
    | inr (inr takes) ↦
        let same = sym takes.answers ∙ h in (ground (arith, takes.had, same), ground (arith, same))
  ]

  offer-none :
      (js : List Job) (ls' : Leases)
      → offer now factory supported s ls js ≡ (ok none, ls')
      → (any (is_unleased supported ls) js ≡ false) × (ls' ≡ ls)
  unfolding offer
  offer-none [] ls' h = (refl, ground arith)
  offer-none (j ∷ js) ls' h = elim (job_cases j js) [
    | inl skips ↦
        let (a, b) = offer-none js ls' (sym skips.goes_on ∙ h) in
        (ground (arith, a, skips.missed), b)
    | inr (inl (e, k)) ↦ absurd (ground (arith, sym k ∙ h))
    | inr (inr takes) ↦ absurd (ground (arith, sym takes.answers ∙ h))
  ]

abbrev is_ready : Job → Bool
is_ready j = not j.complete && not j.waiting

any-jobs_active :
    (p : Job → Bool) (d : Database) → any p (jobs_active d) ≡ any (λ j. is_ready j && p j) d.job
unfolding jobs_active
any-jobs_active p d =
    any-order_by p (λ j. j.id) (select is_ready d.job) ∙ any-select_and p is_ready d.job

any_assoc :
    (p q r : Job → Bool) (js : List Job)
    → any (λ j. p j && (q j && r j)) js ≡ any (λ j. (p j && q j) && r j) js
any_assoc p q r [] = refl
any_assoc p q r (j ∷ js) = ground (arith, any_assoc p q r js)

module _ (now : ℕ) (hold : Bool) (token : Option String) (supported : List ℕ) (s : Fleet)
    (d : Database) (ls ls' : Leases) where
  -- A lease that is granted is for a job that is ready, not cancelled and without a worker, whose
  -- target the factory supports, and on which nobody had a lease. The operator does not hold the
  -- creation of workers back, the token is that of a factory, and the table of leases has one entry
  -- more: that of the factory on the job.
  pub lease-granted :
      (l : FactoryLease)
      → factory_lease now hold token (some supported) s d ls ≡ (ok (some l), ls')
      → (hold ≡ false)
        × ((f : Factory) × (require_factory token s ≡ ok f)
            × (any (λ j. is_offerable supported ls j && is_offered l j) d.job ≡ true)
            × (ls'
                ≡ ls
                  ++ (l.job, record { job = l.job; factory = f.id; expiry = now + lease_length })
                    ∷ []))
  unfolding factory_lease
  lease-granted l h = elim (Result-cases (require_factory token s)) [
    | inr (e, k) ↦ absurd (ground (arith, rw (factory_lease, k) at h))
    | inl (f, k) ↦ elim (Bool-cases hold) [
      | inl e ↦ absurd (ground (arith, rw (factory_lease, k, e) at h))
      | inr e ↦
          let (a, b) =
            offer-granted now f.id supported s ls (jobs_active d) l ls'
              (rw (factory_lease, k, e) at h) in
          (
            e,
            (
              f,
              k,
              sym (any_assoc is_ready (is_unleased supported ls) (is_offered l) d.job)
                  ∙ sym (any-jobs_active _ d)
                  ∙ a,
              b,
            ),
          )
    ]
  ]

  -- Where creation is not held back and a factory gets no lease, without an error, there is no job that
  -- is ready, not cancelled and without a worker, whose target it supports and on which there is no
  -- lease; and the table of leases is as it was.
  pub lease-none :
      factory_lease now hold token (some supported) s d ls ≡ (ok none, ls')
      → hold ≡ false
      → (any (is_offerable supported ls) d.job ≡ false) × (ls' ≡ ls)
  unfolding factory_lease
  lease-none h e = elim (Result-cases (require_factory token s)) [
    | inr (x, k) ↦ absurd (ground (arith, rw (factory_lease, k) at h))
    | inl (f, k) ↦
        let (a, b) =
          offer-none now f.id supported s ls (jobs_active d) ls' (rw (factory_lease, k, e) at h) in
        (sym (any-jobs_active _ d) ∙ a, b)
  ]
