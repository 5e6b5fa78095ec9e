-- ===== src/Lab/History/Forward.antt =====
-- The life of one instance over a history.
use buildomat.Prelude.{
  ℕ, ◌≤◌, ◌≡◌, refl, ap, subst, ◌∙◌, sym, Bool, true, false, List, [], ◌∷◌, some, String, ok, arith,
  All, if◌then◌else◌,
}
use buildomat.Sql.{find, update}
use buildomat.Sql.Lemmas.{find-update, find-append, All-find, written}
use buildomat.Lab.Models.{Instance, InstanceState, preboot, booted, destroying, destroyed}
use buildomat.Lab.Database.{Database, instance_at, instance_get, set_state}
use buildomat.Lab.Changes.{
  Change, same, move, finish, flush, create, append, upload, Next, boot, abort, destroy, InState,
}
use buildomat.Lab.History.{Lab, Call, step, run, empty}
use buildomat.Lab.History.Sound.{IsSound, step-Change, step-IsSound, run-IsSound, empty-IsSound}

abbrev pub rank : InstanceState → ℕ
rank preboot = 0
rank booted = 1
rank destroying = 2
rank destroyed = 3

-- The later row of an instance: what it is stays, and its state and its flag only move forward.
pub record Forward (i i' : Instance) : Type 0 where
  pub worker : i'.worker ≡ i.worker
  pub target : i'.target ≡ i.target
  pub key : i'.key ≡ i.key
  pub bootstrap : i'.bootstrap ≡ i.bootstrap
  pub state : rank i.state ≤ rank i'.state
  pub flushed : i.flushed ≡ true → i'.flushed ≡ true

still : (i : Instance) → Forward i i
still i = record {
  worker = refl;
  target = refl;
  key = refl;
  bootstrap = refl;
  state = omega arith;
  flushed = λ f. f;
}

Forward-trans : {i j k : Instance} → Forward i j → Forward j k → Forward i k
Forward-trans a b = record {
  worker = b.worker ∙ a.worker;
  target = b.target ∙ a.target;
  key = b.key ∙ a.key;
  bootstrap = b.bootstrap ∙ a.bootstrap;
  state = omega (arith, a.state, b.state);
  flushed = λ f. b.flushed (a.flushed f);
}

Next-rank : {from to : InstanceState} → Next from to → rank from ≤ rank to
Next-rank boot = omega arith
Next-rank abort = omega arith
Next-rank destroy = omega arith

moved : (i : Instance) (to : InstanceState) → rank i.state ≤ rank to → Forward i (set_state to i)
moved i to h = record {
  worker = refl;
  target = refl;
  key = refl;
  bootstrap = refl;
  state = h;
  flushed = λ f. f;
}

chosen : (b : Bool) (i j : Instance) → (b ≡ true → Forward i j) → Forward i (if b then j else i)
chosen true i j h = h refl
chosen false i j h = still i

Found : String → ℕ → Database → Instance → Type 0
Found n q s i = (i' : Instance) × (find (instance_at n q) s.instance_rows ≡ some i') × Forward i i'

module _ (s : Database) (n : String) (q : ℕ) (i : Instance)
    (e : find (instance_at n q) s.instance_rows ≡ some i) where
  after_move :
      (n' : String) (q' : ℕ) (from to : InstanceState)
      → rank from ≤ rank to
      → All (λ i. instance_at n' q' i ≡ true → InState from i) s.instance_rows
      → Found n q
          (record s { instance_rows = update (instance_at n' q') (set_state to) s.instance_rows })
          i
  unfolding Found
  after_move n' q' from to h rows = (
    if instance_at n' q' i then set_state to i else i,
    find-update (instance_at n q) (instance_at n' q') (set_state to) s.instance_rows (λ r. refl)
        ∙ ap (written (instance_at n' q') (set_state to)) e,
    chosen (instance_at n' q' i) i (set_state to i) (λ k. moved i to (
        subst (λ st. rank st ≤ rank to)
          (sym (
            All-find (λ i. instance_at n' q' i ≡ true → InState from i) (instance_at n q)
              s.instance_rows i e rows k))
          h)),
  )

module _ {May : String → ℕ → Type 0} (s : Database) (n : String) (q : ℕ) (i : Instance)
    (e : find (instance_at n q) s.instance_rows ≡ some i) where
  Change-Forward : {s' : Database} → Change May s s' → Found n q s' i
  unfolding Found
  Change-Forward (same x) = rw x (i, e, still i)
  Change-Forward (move n' q' from to next rows x) =
      rw x (after_move s n q i e n' q' from to (Next-rank next) rows)
  Change-Forward (finish n' q' may rows x) =
      rw x (after_move s n q i e n' q' destroying destroyed (omega arith) rows)
  Change-Forward (flush n' q' x) = rw x (
    if instance_at n' q' i then record i { flushed = true } else i,
    find-update (instance_at n q) (instance_at n' q') (λ i. record i { flushed = true })
          s.instance_rows (λ r. refl)
        ∙ ap (written (instance_at n' q') (λ i. record i { flushed = true })) e,
    chosen (instance_at n' q' i) i (record i { flushed = true })
        (λ k. record {
          worker = refl;
          target = refl;
          key = refl;
          bootstrap = refl;
          state = omega arith;
          flushed = λ f. refl;
        }),
  )
  Change-Forward (create j st active key x) =
      rw x (i, find-append (instance_at n q) s.instance_rows (j ∷ []) i e, still i)
  Change-Forward (append ev live fresh x) = rw x (i, e, still i)
  Change-Forward (upload n' q' k x) = rw x (i, e, still i)

run-Found :
    (cs : List Call) (l : Lab) (n : String) (q : ℕ) (i : Instance)
    → IsSound l
    → find (instance_at n q) l.db.instance_rows ≡ some i
    → Found n q (run cs l).db i
unfolding run Found
run-Found [] l n q i s e = (i, e, still i)
run-Found (c ∷ cs) l n q i s e =
    let (j, f, step_on) = Change-Forward l.db n q i e (step-Change c l s.keyed) in
    let (k, g, run_on) = run-Found cs (step c l) n q j (step-IsSound c l s) f in
    (k, g, Forward-trans step_on run_on)

-- Whatever the threads of the factory call, in whatever order: an instance that is once in the
-- database stays there, its worker, target and keys stay, and its state only moves on, from preboot
-- over booted and destroying to destroyed.
pub run-Forward :
    (before later : List Call) (n : String) (q : ℕ) (i : Instance)
    → instance_get n q (run before empty).db ≡ ok (some i, (run before empty).db)
    → (i' : Instance) × (instance_get n q (run later (run before empty)).db
        ≡ ok (some i', (run later (run before empty)).db))
      × Forward i i'
unfolding instance_get Found
run-Forward before later n q i e =
    let (j, f, on) =
      run-Found later (run before empty) n q i (run-IsSound before empty empty-IsSound)
        (ground arith) in
    (j, rw f refl, on)
