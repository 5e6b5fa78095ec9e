-- ===== src/Server/State/Bind.antt =====
-- A transaction that succeeds has succeeded in each of its steps.
use buildomat.Prelude.{
  ℕ, Option, none, some, List, ◌≡◌, refl, Bool, true, false, Result, ok, err, arith,
}
use buildomat.Server.State.{
  Database, Failure, Tx, continue, ◌>>=◌, refuse_if, gets, pure, found, find_job, stored, job_is,
}
use buildomat.Sql.{find}
use buildomat.Server.Models.{Job}

module _ {A B : Type 0} where
  continue-eq-ok :
      (r : Result Failure (A × Database)) (f : A → Tx B) (b : B) (s' : Database)
      → continue r f ≡ ok (b, s')
      → (a : A) × (t : Database) × (r ≡ ok (a, t)) × (f a t ≡ ok (b, s'))
  continue-eq-ok (ok (a, t)) f b s' h = (a, t, refl, h)
  continue-eq-ok (err e) f b s' h = absurd (ground arith)

  pub bind-eq-ok :
      (m : Tx A) (f : A → Tx B) (s : Database) (b : B) (s' : Database)
      → (m >>= f) s ≡ ok (b, s')
      → (a : A) × (t : Database) × (m s ≡ ok (a, t)) × (f a t ≡ ok (b, s'))
  unfolding ◌>>=◌
  bind-eq-ok m f s b s' h = continue-eq-ok (m s) f b s' h

  pub gets-bind : (g : Database → A) (f : A → Tx B) (s : Database) → (gets g >>= f) s ≡ f (g s) s
  unfolding ◌>>=◌
  gets-bind g f s = refl

module _ {A : Type 0} where
  pub pure-eq-ok :
      (a : A) (s : Database) (b : A) (s' : Database) → pure a s ≡ ok (b, s') → (a ≡ b) × (s ≡ s')
  unfolding pure
  pure-eq-ok a s b s' h = ground arith

  pub found-eq-ok :
      {B : Type 0} (o : Option A) (f : A → Tx B) (s : Database) (r : B × Database)
      → (found o >>= f) s ≡ ok r
      → (a : A) × (o ≡ some a) × (f a s ≡ ok r)
  unfolding ◌>>=◌
  found-eq-ok none f s r h = absurd (ground arith)
  found-eq-ok (some a) f s r h = (a, refl, h)

module _ {B : Type 0} where
  pub find_job-eq-ok :
      (id : ℕ) (f : Job → Tx B) (s : Database) (r : B × Database)
      → (find_job id >>= f) s ≡ ok r
      → (j : Job) × (find (job_is id) s.job ≡ some j) × (f j s ≡ ok r)
  unfolding find_job ◌>>=◌
  find_job-eq-ok id f s r h = found-eq-ok (find (job_is id) s.job) f s r h

  pub refuse_if-eq-ok :
      (c : Bool) (e : Failure) (f : Unit {0} → Tx B) (s : Database) (r : B × Database)
      → (refuse_if c e >>= f) s ≡ ok r
      → f tt s ≡ ok r
  unfolding ◌>>=◌
  refuse_if-eq-ok true e f s r h = absurd (ground arith)
  refuse_if-eq-ok false e f s r h = h

  -- The test that did not refuse.
  pub refuse_if-false :
      (c : Bool) (e : Failure) (f : Unit {0} → Tx B) (s : Database) (r : B × Database)
      → (refuse_if c e >>= f) s ≡ ok r
      → c ≡ false
  unfolding ◌>>=◌
  refuse_if-false true e f s r h = absurd (ground arith)
  refuse_if-false false e f s r h = refl

pub stored-eq-ok :
    {R : Type 0} (rows : Option (List R)) (f : Database → List R → Database) (s t : Database)
    → stored rows f s ≡ ok (tt, t)
    → (rs : List R) × (rows ≡ some rs) × (f s rs ≡ t)
unfolding stored
stored-eq-ok none f s t h = absurd (ground arith)
stored-eq-ok (some rs) f s t h = (rs, refl, ground arith)
