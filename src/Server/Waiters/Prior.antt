-- ===== src/Server/Waiters/Prior.antt =====
-- The loop of `job_waiters_one` over the dependencies of a job.
use buildomat.Prelude.{
  ℕ, ◌≡◌, refl, sym, subst, ◌∙◌, Bool, true, false, not, ◌&&◌, ◌||◌, List, [], ◌∷◌, Option, none,
  some, ok, arith, ◌==◌, Bool-cases, inl, inr, any, All, if◌then◌else◌,
}
use text.Mathlib.Text.{◌==◌ as str_eq}
use text.Mathlib.TextEquality.{eq_iff}
use buildomat.Sql.{update, select}
use buildomat.Sql.Lemmas.{All-update, map-All, any-order_by_text}
use buildomat.Server.Models.{Job, JobDepend, Payload}
use buildomat.Server.State.{Database}
use buildomat.Server.Jobs.{Clock}
use buildomat.Server.Depends.{depend_is}
use buildomat.Server.Pass.{Pass, give}
use buildomat.Server.Pass.Bind.{
  bind-eq-ok, call-eq-ok, give-eq-ok, ask-bind, then_branch, else_branch,
}
use buildomat.Server.Waiters.{
  job_depends, give_up, satisfy, check_prior, check_depend, check_prior_jobs,
}
use buildomat.Server.Waiters.Satisfied.{satisfied, satisfy-eq-ok}

-- A dependency that the loop has still to satisfy.
abbrev pub is_pending : JobDepend → JobDepend → Bool
is_pending r d = str_eq r.name d.name && not d.satisfied

-- A row that needs nothing more once the dependencies `ds` have been looked at.
abbrev pub is_awaited : ℕ → List JobDepend → JobDepend → Bool
is_awaited job ds r = not (r.job == job) || r.satisfied || any (is_pending r) ds

wider_cover :
    (job : ℕ) (d r : JobDepend) (rows : List JobDepend)
    → is_awaited job (select (λ x. x.job == job) rows) r ≡ true
    → is_awaited job (select (λ x. x.job == job) (d ∷ rows)) r ≡ true
unfolding select
wider_cover job d r rows h = ground arith

own_cover :
    (job : ℕ) (r : JobDepend) (rows : List JobDepend)
    → is_awaited job (select (λ x. x.job == job) (r ∷ rows)) r ≡ true
unfolding select
own_cover job r rows =
    let e : str_eq r.name r.name ≡ true = (eq_iff r.name r.name).1 refl in ground arith

select-covered :
    (job : ℕ) (rows : List JobDepend)
    → All (λ r. is_awaited job (select (λ x. x.job == job) rows) r ≡ true) rows
select-covered job [] = tt
select-covered job (d ∷ rows) = (
  own_cover job d rows,
  map-All rows (λ r k. wider_cover job d r rows k) (select-covered job rows),
)

-- The dependencies that the loop is given cover every row.
pub job_depends-covered :
    (job : ℕ) (s : Database) → All (λ r. is_awaited job (job_depends job s) r ≡ true) s.job_depend
unfolding job_depends
job_depends-covered job s =
    map-All s.job_depend
      (λ r k.
        rw
          (any-order_by_text (is_pending r) (λ d. d.name) (select (λ d. d.job == job) s.job_depend))
          k)
      (select-covered job s.job_depend)

-- The tests of the loop's body: where it goes on, it has been through `m`.
went_on :
    (complete failed on_failed on_completed : Bool) (m g g' : Pass Bool) (s t : Database)
    → (if not complete
          then give false
          else if failed
          then (if on_failed then m else g)
          else if on_completed
          then m
          else g')
        s
      ≡ (ok true, t)
    → (g s ≡ (ok true, t) → ⊥)
    → (g' s ≡ (ok true, t) → ⊥)
    → m s ≡ (ok true, t)
unfolding give
went_on false _ _ _ m g g' s t h k k' = absurd (ground arith)
went_on true true true _ m g g' s t h k k' = h
went_on true true false _ m g g' s t h k k' = absurd (k h)
went_on true false _ true m g g' s t h k k' = h
went_on true false _ false m g g' s t h k k' = absurd (k' h)

module _ (held : ℕ → Bool) (now : ℕ → Clock) (j : Job) where
  give_up-false : (msg : Payload) (s t : Database) → give_up held now j msg s ≡ (ok true, t) → ⊥
  unfolding give_up
  give_up-false msg s t h =
      let (_, u, _, h1) = bind-eq-ok _ _ s true t h in
      let (_, v, _, h2) = bind-eq-ok _ _ u true t h1 in
      let (e, _) = give-eq-ok false v true t h2 in ground arith

  satisfied_branch :
      (d : JobDepend) (s t : Database)
      → satisfy held now j d s ≡ (ok true, t)
      → t.job_depend ≡ update (depend_is j.id d.name) satisfied s.job_depend
  unfolding satisfy
  satisfied_branch d s t h =
      let (_, u, e, h1) = bind-eq-ok _ _ s true t h in
      let (_, w) = give-eq-ok true u true t h1 in
      subst (λ (x : Database). x.job_depend ≡ update (depend_is j.id d.name) satisfied s.job_depend)
        w (satisfy-eq-ok j.id d.name s u (call-eq-ok _ s tt u e))

  -- Going on with an unsatisfied dependency means that it has been satisfied.
  check_prior-eq-ok :
      (d : JobDepend) (o : Option Job) (s t : Database)
      → check_prior held now j d o s ≡ (ok true, t)
      → satisfy held now j d s ≡ (ok true, t)
  unfolding check_prior
  check_prior-eq-ok d none s t h = absurd (give_up-false _ s t h)
  check_prior-eq-ok d (some pj) s t h =
      went_on pj.complete pj.failed d.on_failed d.on_completed _ _ _ s t h (give_up-false _ s t)
        (give_up-false _ s t)

  covered_next :
      (d : JobDepend) (ds rows : List JobDepend)
      → All (λ r. is_awaited j.id (d ∷ ds) r ≡ true) rows
      → All (λ r. is_awaited j.id ds r ≡ true) (update (depend_is j.id d.name) satisfied rows)
  covered_next d ds rows h =
      All-update _ _ rows (λ r hit k. ground arith) (λ r miss k. ground arith) h

  covered_satisfied :
      (d : JobDepend) (ds rows : List JobDepend)
      → d.satisfied ≡ true
      → All (λ r. is_awaited j.id (d ∷ ds) r ≡ true) rows
      → All (λ r. is_awaited j.id ds r ≡ true) rows
  covered_satisfied d ds rows e h = map-All rows (λ r k. ground arith) h

  check_depend-covered :
      (d : JobDepend) (ds : List JobDepend) (s t : Database)
      → check_depend held now j d s ≡ (ok true, t)
      → All (λ r. is_awaited j.id (d ∷ ds) r ≡ true) s.job_depend
      → All (λ r. is_awaited j.id ds r ≡ true) t.job_depend
  unfolding check_depend
  check_depend-covered d ds s t h k = elim (Bool-cases d.satisfied) [
    | inl e ↦
        let (_, w) = give-eq-ok true s true t (then_branch d.satisfied _ _ s _ e h) in
        subst (λ (x : Database). All (λ r. is_awaited j.id ds r ≡ true) x.job_depend) w
          (covered_satisfied d ds s.job_depend e k)
    | inr e ↦
        let h1 =
          check_prior-eq-ok d _ s t (sym (ask-bind _ _ s) ∙ else_branch d.satisfied _ _ s _ e h) in
        subst (All (λ r. is_awaited j.id ds r ≡ true)) (sym (satisfied_branch d s t h1))
          (covered_next d ds s.job_depend k)
  ]

  went_to :
      (go : Bool) (m : Pass Bool) (s t : Database)
      → (if go then m else give false) s ≡ (ok true, t)
      → (go ≡ true) × (m s ≡ (ok true, t))
  unfolding give
  went_to true m s t h = (refl, h)
  went_to false m s t h = absurd (ground arith)

  -- A job that the loop goes on with has all its dependencies satisfied.
  pub check_prior_jobs-covered :
      (ds : List JobDepend) (s t : Database)
      → check_prior_jobs held now j ds s ≡ (ok true, t)
      → All (λ r. is_awaited j.id ds r ≡ true) s.job_depend
      → All (λ r. is_awaited j.id [] r ≡ true) t.job_depend
  unfolding check_prior_jobs
  check_prior_jobs-covered [] s t h k =
      let (_, w) = give-eq-ok true s true t h in
      subst (λ (x : Database). All (λ r. is_awaited j.id [] r ≡ true) x.job_depend) w k
  check_prior_jobs-covered (d ∷ ds) s t h k =
      let (go, u, e, h1) = bind-eq-ok _ _ s true t h in
      let (g, h2) = went_to go _ u t h1 in
      check_prior_jobs-covered ds u t h2
        (check_depend-covered d ds s u (subst (λ b. check_depend held now j d s ≡ (ok b, u)) g e) k)
