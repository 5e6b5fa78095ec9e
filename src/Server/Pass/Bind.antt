-- ===== src/Server/Pass/Bind.antt =====
-- A pass that gets to its end has got to the end of each of its steps.
use buildomat.Prelude.{◌≡◌, refl, Bool, true, false, Result, ok, err, arith, if◌then◌else◌}
use buildomat.Server.State.{Database, Failure, Tx}
use buildomat.Server.Pass.{Pass, call, give, ask, proceed, settle, ◌>>=◌}

module _ {A : Type 0} where
  settle-eq-ok :
      (s : Database) (r : Result Failure (A × Database)) (a : A) (t : Database)
      → settle s r ≡ (ok a, t)
      → r ≡ ok (a, t)
  settle-eq-ok s (ok (x, u)) a t h = ground arith
  settle-eq-ok s (err e) a t h = absurd (ground arith)

  pub call-eq-ok :
      (m : Tx A) (s : Database) (a : A) (t : Database) → call m s ≡ (ok a, t) → m s ≡ ok (a, t)
  unfolding call
  call-eq-ok m s a t h = settle-eq-ok s (m s) a t h

  pub give-eq-ok :
      (a : A) (s : Database) (b : A) (t : Database) → give a s ≡ (ok b, t) → (a ≡ b) × (s ≡ t)
  unfolding give
  give-eq-ok a s b t h = ground arith

module _ {A B : Type 0} where
  proceed-eq-ok :
      (r : Result Failure A × Database) (f : A → Pass B) (b : B) (s' : Database)
      → proceed r f ≡ (ok b, s')
      → (a : A) × (t : Database) × (r ≡ (ok a, t)) × (f a t ≡ (ok b, s'))
  proceed-eq-ok (ok a, t) f b s' h = (a, t, refl, h)
  proceed-eq-ok (err e, t) f b s' h = absurd (ground arith)

  pub bind-eq-ok :
      (m : Pass A) (f : A → Pass B) (s : Database) (b : B) (s' : Database)
      → (m >>= f) s ≡ (ok b, s')
      → (a : A) × (t : Database) × (m s ≡ (ok a, t)) × (f a t ≡ (ok b, s'))
  unfolding ◌>>=◌
  bind-eq-ok m f s b s' h = proceed-eq-ok (m s) f b s' h

  pub ask-bind : (g : Database → A) (f : A → Pass B) (s : Database) → (ask g >>= f) s ≡ f (g s) s
  unfolding ◌>>=◌
  ask-bind g f s = refl

module _ {A : Type 0} where
  pub then_branch :
      (c : Bool) (m n : Pass A) (s : Database) (r : Result Failure A × Database)
      → c ≡ true
      → (if c then m else n) s ≡ r
      → m s ≡ r
  then_branch true m n s r e h = h
  then_branch false m n s r e h = absurd (ground arith)

  pub else_branch :
      (c : Bool) (m n : Pass A) (s : Database) (r : Result Failure A × Database)
      → c ≡ false
      → (if c then m else n) s ≡ r
      → n s ≡ r
  else_branch true m n s r e h = absurd (ground arith)
  else_branch false m n s r e h = h
