-- ===== src/Server/State/Keeps.antt =====
-- Invariants of transactions, one rule for each way to build one. A transaction that fails is rolled
-- back, so it keeps everything.
use buildomat.Prelude.{ℕ, Bool, true, false, Option, none, some, Result, ok, err, if◌then◌else◌}
use buildomat.Server.State.{
  Database, Failure, Tx, pure, fail, gets, refuse_if, found, continue, ◌>>=◌, after, find_job,
  find_worker,
}

pub record Keeps {A : Type 0} (P : Database → Type 0) (m : Tx A) : Type 0 where
  pub at : (s : Database) → P s → P (after s (m s))

module _ {A : Type 0} {P : Database → Type 0} where
  pub Keeps-pure : (a : A) → Keeps P (pure a)
  unfolding pure
  Keeps-pure a = record { at = λ s h. h }

  pub Keeps-fail : (e : Failure) → Keeps P (fail {A = A} e)
  unfolding fail
  Keeps-fail e = record { at = λ s h. h }

  pub Keeps-gets : (f : Database → A) → Keeps P (gets f)
  unfolding gets
  Keeps-gets f = record { at = λ s h. h }

  pub Keeps-found : (o : Option A) → Keeps P (found o)
  unfolding found
  Keeps-found none = record { at = λ s h. h }
  Keeps-found (some a) = record { at = λ s h. h }

  pub Keeps-if : (b : Bool) (m n : Tx A) → Keeps P m → Keeps P n → Keeps P (if b then m else n)
  Keeps-if true m n km kn = km
  Keeps-if false m n km kn = kn

module _ {P : Database → Type 0} where
  pub Keeps-refuse_if : (b : Bool) (e : Failure) → Keeps P (refuse_if b e)
  unfolding refuse_if
  Keeps-refuse_if true e = record { at = λ s h. h }
  Keeps-refuse_if false e = record { at = λ s h. h }

module _ {A B : Type 0} {P : Database → Type 0} where
  pub continue-Keeps :
      (s : Database) (r : Result Failure (A × Database)) (f : A → Tx B)
      → P s
      → P (after s r)
      → ((a : A) → Keeps P (f a))
      → P (after s (continue r f))
  continue-Keeps s (ok (a, t)) f h k kf = settle (f a t) k ((kf a).at t k)
    where
      settle : (r : Result Failure (B × Database)) → P t → P (after t r) → P (after s r)
      settle (ok (b, u)) k l = l
      settle (err e) k l = h
  continue-Keeps s (err e) f h k kf = h

  pub Keeps-bind :
      (m : Tx A) (f : A → Tx B) → Keeps P m → ((a : A) → Keeps P (f a)) → Keeps P (m >>= f)
  unfolding ◌>>=◌
  Keeps-bind m f km kf = record { at = λ s h. continue-Keeps s (m s) f h (km.at s h) kf }

module _ {P : Database → Type 0} where
  pub Keeps-find_job : (id : ℕ) → Keeps P (find_job id)
  unfolding find_job
  Keeps-find_job id = Keeps-bind _ _ (Keeps-gets _) (λ j. Keeps-found j)

  pub Keeps-find_worker : (id : ℕ) → Keeps P (find_worker id)
  unfolding find_worker
  Keeps-find_worker id = Keeps-bind _ _ (Keeps-gets _) (λ w. Keeps-found w)

pub ruleset keeps_rules = (
  Keeps-pure, Keeps-fail, Keeps-gets, Keeps-found, Keeps-if, Keeps-refuse_if, Keeps-bind,
  Keeps-find_job, Keeps-find_worker,
)
