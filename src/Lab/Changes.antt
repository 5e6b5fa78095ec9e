-- ===== src/Lab/Changes.antt =====
-- What the operations of the lab database write, as a relation between its states.
use buildomat.Prelude.{
  ℕ, ◌≤◌, ◌<◌, ◌≡◌, refl, ap, ◌∙◌, inl, inr, Bool, true, not, ◌&&◌, List, [], ◌∷◌, ◌++◌, some,
  String, Result, ok, err, arith, ◌==◌, All, Bool-cases,
}
use text.Mathlib.TextEquality.{eq_iff}
use buildomat.Sql.{find, count, update}
use buildomat.Sql.Lemmas.{find-eq-some, map-All}
use buildomat.Sql.Counts.{All-unique}
use buildomat.Lab.Models.{
  Instance, InstanceState, InstanceEvent, preboot, booted, destroying, destroyed, in_teardown,
}
use buildomat.Lab.Database.{
  Database, Failure, instance_at, active_on, set_state, update_instance, pending_at, same_event,
}

-- The state behind an operation: a failed one is rolled back.
abbrev pub after : {A : Type 0} → Database → Result Failure (A × Database) → Database
after s (ok (a, t)) = t
after s (err e) = s

-- The steps of an instance's life but the last one.
pub data Next : InstanceState → InstanceState → Type 0 where
  boot : Next preboot booted
  abort : Next preboot destroying
  destroy : Next booted destroying

abbrev pub InState : InstanceState → Instance → Type 0
InState st i = i.state ≡ st

abbrev pub live_at : String → ℕ → Instance → Bool
live_at n q i = instance_at n q i && not (in_teardown i.state)

-- A write. `May n q` says which instances may be marked as destroyed.
pub data Change (May : String → ℕ → Type 0) (s s' : Database) : Type 0 where
  same : s' ≡ s → Change May s s'
  move :
      (n : String) (q : ℕ) (from to : InstanceState)
      → Next from to
      → All (λ i. instance_at n q i ≡ true → InState from i) s.instance_rows
      → s' ≡ record s { instance_rows = update (instance_at n q) (set_state to) s.instance_rows }
      → Change May s s'
  finish :
      (n : String) (q : ℕ)
      → May n q
      → All (λ i. instance_at n q i ≡ true → InState destroying i) s.instance_rows
      → s' ≡ record s {
        instance_rows = update (instance_at n q) (set_state destroyed) s.instance_rows;
      }
      → Change May s s'
  flush :
      (n : String) (q : ℕ)
      → s' ≡ record s {
        instance_rows = update (instance_at n q) (λ i. record i { flushed = true }) s.instance_rows;
      }
      → Change May s s'
  create :
      (i : Instance)
      → InState preboot i
      → count (active_on i.nodename) s.instance_rows ≡ 0
      → count (instance_at i.nodename i.seq) s.instance_rows ≡ 0
      → s' ≡ record s { instance_rows = s.instance_rows ++ i ∷ [] }
      → Change May s s'
  append :
      (e : InstanceEvent)
      → 0 < count (live_at e.nodename e.instance_seq) s.instance_rows
      → count (same_event e) s.instance_event ≡ 0
      → s' ≡ record s { instance_event = s.instance_event ++ e ∷ [] }
      → Change May s s'
  upload :
      (n : String) (q k : ℕ)
      → s' ≡ record s {
        instance_event =
            update (pending_at n q k) (λ e. record e { uploaded = true }) s.instance_event;
      }
      → Change May s s'

abbrev pub HasKeys : Database → Type 0
HasKeys s = (n : String) (q : ℕ) → count (instance_at n q) s.instance_rows ≤ 1

pub fetched :
    (n : String) (q : ℕ) (i : Instance) (rows : List Instance)
    → find (instance_at n q) rows ≡ some i
    → (i.nodename ≡ n) × (i.seq ≡ q)
fetched n q i rows e = ground (arith, find-eq-some (instance_at n q) rows i e, eq_iff i.nodename n)

-- The row of a key, in one state.
rows-state :
    (s : Database) (n : String) (q : ℕ) (i : Instance) (st : InstanceState)
    → HasKeys s
    → find (instance_at n q) s.instance_rows ≡ some i
    → i.state ≡ st
    → All (λ r. instance_at n q r ≡ true → InState st r) s.instance_rows
rows-state s n q i st h e k =
    map-All s.instance_rows (λ r f t. ap (λ (r : Instance). r.state) (f t) ∙ k)
      (All-unique (instance_at n q) s.instance_rows i e (h n q))

module _ {May : String → ℕ → Type 0} (s : Database) (n : String) (q : ℕ) (i : Instance)
    (h : HasKeys s) (e : find (instance_at n q) s.instance_rows ≡ some i) where
  pub update_instance-move :
      (from to : InstanceState)
      → i.state ≡ from
      → Next from to
      → Change May s (after s (update_instance n q (set_state to) s))
  unfolding update_instance
  update_instance-move from to k next =
      elim (Bool-cases (count (instance_at n q) s.instance_rows == 1)) [
        | inl one ↦ rw one (move n q from to next (rows-state s n q i from h e k) refl)
        | inr many ↦ rw many (same refl)
      ]

  pub update_instance-finish :
      May n q
      → i.state ≡ destroying
      → Change May s (after s (update_instance n q (set_state destroyed) s))
  unfolding update_instance
  update_instance-finish may k = elim (Bool-cases (count (instance_at n q) s.instance_rows == 1)) [
    | inl one ↦ rw one (finish n q may (rows-state s n q i destroying h e k) refl)
    | inr many ↦ rw many (same refl)
  ]
