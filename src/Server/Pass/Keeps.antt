-- ===== src/Server/Pass/Keeps.antt =====
-- Invariants of passes: what each call keeps, the pass keeps, whether it gets to its end or not.
use buildomat.Prelude.{ℕ, Bool, true, false, List, [], ◌∷◌, Result, ok, err, if◌then◌else◌}
use buildomat.Server.State.{Database, Failure, Tx, after}
use buildomat.Server.State.Keeps.{Keeps}
use buildomat.Server.Jobs.{Clock, job_complete}
use buildomat.Server.Pass.{
  Pass, call, give, ask, stop, proceed, for_each, complete_job, settle, ◌>>=◌,
}

pub record Guards {A : Type 0} (P : Database → Type 0) (m : Pass A) : Type 0 where
  pub at : (s : Database) → P s → P (m s).1

settle_after :
    {A : Type 0} (P : Database → Type 0) (s : Database) (r : Result Failure (A × Database))
    → P (after s r)
    → P (settle s r).1
settle_after P s (ok (a, t)) h = h
settle_after P s (err e) h = h

module _ {A : Type 0} {P : Database → Type 0} where
  pub Guards-call : (m : Tx A) → Keeps P m → Guards P (call m)
  unfolding call
  Guards-call m k = record { at = λ s h. settle_after P s (m s) (k.at s h) }

  pub Guards-give : (a : A) → Guards P (give a)
  unfolding give
  Guards-give a = record { at = λ s h. h }

  pub Guards-stop : (e : Failure) → Guards P (stop {A = A} e)
  unfolding stop
  Guards-stop e = record { at = λ s h. h }

  pub Guards-ask : (f : Database → A) → Guards P (ask f)
  unfolding ask
  Guards-ask f = record { at = λ s h. h }

  pub Guards-if :
      (b : Bool) (m n : Pass A) → Guards P m → Guards P n → Guards P (if b then m else n)
  Guards-if true m n km kn = km
  Guards-if false m n km kn = kn

module _ {A B : Type 0} {P : Database → Type 0} where
  proceed-Guards :
      (r : Result Failure A × Database) (f : A → Pass B)
      → P r.1
      → ((a : A) → Guards P (f a))
      → P (proceed r f).1
  proceed-Guards (ok a, t) f h k = (k a).at t h
  proceed-Guards (err e, t) f h k = h

  pub Guards-bind :
      (m : Pass A) (f : A → Pass B) → Guards P m → ((a : A) → Guards P (f a)) → Guards P (m >>= f)
  unfolding ◌>>=◌
  Guards-bind m f km kf = record { at = λ s h. proceed-Guards (m s) f (km.at s h) kf }

module _ {R : Type 0} {P : Database → Type 0} where
  pub Guards-for_each :
      (f : R → Pass (Unit {0})) (rs : List R)
      → ((r : R) → Guards P (f r))
      → Guards P (for_each f rs)
  unfolding for_each
  Guards-for_each f [] k = Guards-give tt
  Guards-for_each f (r ∷ rs) k = Guards-bind _ _ (k r) (λ _. Guards-for_each f rs k)

module _ {P : Database → Type 0} where
  pub Guards-complete_job :
      (held : ℕ → Bool) (now : Clock) (job : ℕ) (failed : Bool)
      → Keeps P (job_complete now job failed)
      → Guards P (complete_job held now job failed)
  unfolding complete_job
  Guards-complete_job held now job failed k =
      Guards-if (held job) _ _ (Guards-stop _) (Guards-call _ k)

pub ruleset guards_rules = (
  Guards-call, Guards-give, Guards-ask, Guards-if, Guards-bind, Guards-for_each,
  Guards-complete_job,
)
