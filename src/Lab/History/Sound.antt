-- ===== src/Lab/History/Sound.antt =====
-- What every history of the lab factory keeps.
use buildomat.Prelude.{
  ℕ, ◌≤◌, ◌<◌, ◌≡◌, refl, ◌∙◌, sym, subst, Bool, true, false, ◌&&◌, List, [], ◌∷◌, none, some,
  String, ok, arith, ◌==◌, any, inl, inr, Bool-cases,
}
use text.Mathlib.Text.{◌==◌ as str_eq}
use text.Mathlib.TextEquality.{eq_iff}
use buildomat.Sql.{select, find, count, order_by}
use buildomat.Sql.Lemmas.{any-order_by, any-order_by_text}
use buildomat.Sql.Counts.{
  count-find, select-nil, select-none, any-select, any-count_pos, count_mono,
}
use buildomat.Lab.Models.{Instance, InstanceEvent, is_destroyed, destroyed_row}
use buildomat.Lab.Database.{
  Database, instance_for_host, instance_next_event_to_upload, instance_get, instance_at, active_on,
  pending_of, one_active, active_rows, is_active, first,
}
use buildomat.Lab.Changes.{Change, same, HasKeys}
use buildomat.Lab.Refines.{
  instance_create-Change, instance_boot-Change, instance_destroy-Change,
  instance_mark_destroyed-Change, instance_mark_flushed-Change, instance_append-Change,
  instance_mark_event_uploaded-Change,
}
use buildomat.Lab.Invariants.{
  IsExclusive, IsTorn, KeepsEvents, pending, torn_at, Change-HasKeys, Change-HasEventKeys,
  HasEventKeys, Change-IsExclusive, Change-IsTorn,
}
use buildomat.Lab.Settled.{Change-settled, Change-KeepsEvents}
use buildomat.Lab.History.{
  Lab, Call, key_in, step, run, empty, destroying_at, nothing_left, on_create, on_boot, on_destroy,
  on_flush, on_append, on_uploaded, list_active, inspect, retire,
}

pub record IsSound (l : Lab) : Type 0 where
  pub keyed : HasKeys l.db
  pub exclusive : IsExclusive l.db
  pub kept : KeepsEvents l.db
  pub event_keyed : HasEventKeys l.db
  pub torn : (n : String) (q : ℕ) → any (destroying_at n q) l.listed ≡ true → IsTorn n q l.db
  pub done :
      (n : String) (q : ℕ) → key_in n q l.settled ≡ true → IsTorn n q l.db × (pending n q l.db ≡ 0)

-- A write of the database, where only settled instances are marked as destroyed.
changed-IsSound :
    (l : Lab) (db' : Database)
    → Change (λ n q. key_in n q l.settled ≡ true) l.db db'
    → IsSound l
    → IsSound (record l { db = db' })
changed-IsSound l db' c s = record {
  keyed = Change-HasKeys l.db c s.keyed;
  exclusive = Change-IsExclusive l.db c s.exclusive;
  kept = Change-KeepsEvents l.db c s.done s.keyed s.kept;
  event_keyed = Change-HasEventKeys l.db c s.event_keyed;
  torn = λ n q k. Change-IsTorn l.db n q c (s.torn n q k);
  done = λ n q k. (
    Change-IsTorn l.db n q c (s.done n q k).0,
    Change-settled l.db n q c s.keyed (s.done n q k).0 (s.done n q k).1,
  );
}

listed-IsTorn :
    (db : Database) (n : String) (q : ℕ)
    → any (destroying_at n q) (active_rows db) ≡ true
    → IsTorn n q db
listed-IsTorn db n q h =
    let k : 0 < count (destroying_at n q) db.instance_rows =
      any-count_pos (destroying_at n q) db.instance_rows (
        any-select (destroying_at n q) is_active db.instance_rows (
          sym (
            any-order_by_text (destroying_at n q) (λ i. i.nodename)
              (select is_active db.instance_rows))
          ∙ h)) in
    omega (
      arith,
      k,
      count_mono (destroying_at n q) (torn_at n q) db.instance_rows (λ r t. ground arith),
    )

no_row : {A : Type 0} (xs : List A) → any (λ _. true) xs ≡ false → xs ≡ []
no_row [] h = refl
no_row (x ∷ xs) h = absurd (ground arith)

first_none :
    (xs : List InstanceEvent) (db : Database)
    → nothing_left (ok (first xs, db)) ≡ true
    → any (λ _. true) xs ≡ false
unfolding nothing_left
first_none [] db h = refl
first_none (x ∷ xs) db h = absurd (ground arith)

nothing_left-pending :
    (n : String) (q : ℕ) (db : Database)
    → nothing_left (instance_next_event_to_upload n q db) ≡ true
    → pending n q db ≡ 0
unfolding instance_next_event_to_upload
nothing_left-pending n q db h =
    let rows : List InstanceEvent = select (pending_of n q) db.instance_event in
    select-nil (pending_of n q) db.instance_event (
      no_row rows (
        sym (any-order_by (λ _. true) (λ e. e.seq) rows)
        ∙ first_none (order_by (λ e. e.seq) rows) db h))

settle_one :
    (l : Lab) (n : String) (q : ℕ)
    → IsSound l
    → IsTorn n q l.db
    → pending n q l.db ≡ 0
    → (m : String) (p : ℕ) → key_in m p ((n, q) ∷ l.settled) ≡ true
    → IsTorn m p l.db × (pending m p l.db ≡ 0)
settle_one l n q s torn none_left m p h = elim (Bool-cases (str_eq n m && q == p)) [
  | inl k ↦
      let same_name : n ≡ m = ground (arith, eq_iff n m) in
      let same_seq : q ≡ p = ground arith in
      subst (λ m. IsTorn m p l.db × (pending m p l.db ≡ 0)) same_name
        (subst (λ p. IsTorn n p l.db × (pending n p l.db ≡ 0)) same_seq (torn, none_left))
  | inr k ↦ s.done m p (ground arith)
]

-- Every call makes one change of the database, or none.
pub step-Change :
    (c : Call) (l : Lab)
    → HasKeys l.db
    → Change (λ n q. key_in n q l.settled ≡ true) l.db (step c l).db
unfolding step
step-Change (on_create n target worker bootstrap key) l h =
    instance_create-Change l.db n target worker bootstrap key
step-Change (on_boot n q) l h = instance_boot-Change l.db h n q
step-Change (on_destroy n q) l h = instance_destroy-Change l.db h n q
step-Change (on_flush n q) l h = instance_mark_flushed-Change l.db n q
step-Change (on_append n q stream msg time) l h = instance_append-Change l.db n q stream msg time
step-Change (on_uploaded n q k) l h = instance_mark_event_uploaded-Change l.db n q k
step-Change list_active l h = same refl
step-Change (inspect n q) l h =
    elim (Bool-cases
      (any (destroying_at n q) l.listed && nothing_left (instance_next_event_to_upload n q l.db))) [
        | inl k ↦ rw k (same refl)
        | inr k ↦ rw k (same refl)
      ]
step-Change (retire n q) l h = elim (Bool-cases (key_in n q l.settled)) [
  | inl k ↦ rw k (instance_mark_destroyed-Change l.db h n q k)
  | inr k ↦ rw k (same refl)
]

pub step-IsSound : (c : Call) (l : Lab) → IsSound l → IsSound (step c l)
unfolding step
step-IsSound (on_create n target worker bootstrap key) l s =
    changed-IsSound l _ (step-Change (on_create n target worker bootstrap key) l s.keyed) s
step-IsSound (on_boot n q) l s = changed-IsSound l _ (step-Change (on_boot n q) l s.keyed) s
step-IsSound (on_destroy n q) l s = changed-IsSound l _ (step-Change (on_destroy n q) l s.keyed) s
step-IsSound (on_flush n q) l s = changed-IsSound l _ (step-Change (on_flush n q) l s.keyed) s
step-IsSound (on_append n q stream msg time) l s =
    changed-IsSound l _ (step-Change (on_append n q stream msg time) l s.keyed) s
step-IsSound (on_uploaded n q k) l s =
    changed-IsSound l _ (step-Change (on_uploaded n q k) l s.keyed) s
step-IsSound list_active l s = record {
  keyed = s.keyed;
  exclusive = s.exclusive;
  kept = s.kept;
  event_keyed = s.event_keyed;
  torn = λ n q k. listed-IsTorn l.db n q k;
  done = λ n q k. absurd (ground arith);
}
step-IsSound (inspect n q) l s =
    elim (Bool-cases
      (any (destroying_at n q) l.listed && nothing_left (instance_next_event_to_upload n q l.db))) [
        | inl k ↦ rw k (record {
          keyed = s.keyed;
          exclusive = s.exclusive;
          kept = s.kept;
          event_keyed = s.event_keyed;
          torn = s.torn;
          done =
              settle_one l n q s (s.torn n q (ground arith))
                (nothing_left-pending n q l.db (ground arith));
        })
        | inr k ↦ rw k s
      ]
step-IsSound (retire n q) l s = elim (Bool-cases (key_in n q l.settled)) [
  | inl k ↦ rw k (changed-IsSound l _ (instance_mark_destroyed-Change l.db s.keyed n q k) s)
  | inr k ↦ rw k s
]

pub run-IsSound : (cs : List Call) (l : Lab) → IsSound l → IsSound (run cs l)
unfolding run
run-IsSound [] l s = s
run-IsSound (c ∷ cs) l s = run-IsSound cs (step c l) (step-IsSound c l s)

pub empty-IsSound : IsSound empty
unfolding count
empty-IsSound = record {
  keyed = λ n q. omega arith;
  exclusive = λ n. omega arith;
  kept = λ n q h. absurd (omega arith);
  event_keyed = λ n q k. omega arith;
  torn = λ n q h. absurd (ground arith);
  done = λ n q h. absurd (ground arith);
}

pending-none :
    (n : String) (q : ℕ) (db : Database)
    → pending n q db ≡ 0
    → instance_next_event_to_upload n q db ≡ ok (none, db)
unfolding instance_next_event_to_upload order_by
pending-none n q db h = rw (select-none (pending_of n q) db.instance_event h) refl

select_one-find :
    (p : Instance → Bool) (rows : List Instance) (db : Database)
    → count p rows ≤ 1
    → one_active (select p rows) db ≡ ok (find p rows, db)
unfolding select find count one_active
select_one-find p [] db h = refl
select_one-find p (x ∷ xs) db h = elim (Bool-cases (p x)) [
  | inl k ↦ let alone : select p xs ≡ [] = select-none p xs (ground arith) in rw (k, alone) refl
  | inr k ↦ rw k (select_one-find p xs db (ground arith))
]

one_of :
    (n : String) (db : Database)
    → count (active_on n) db.instance_rows ≤ 1
    → instance_for_host n db ≡ ok (find (active_on n) db.instance_rows, db)
unfolding instance_for_host
one_of n db h = select_one-find (active_on n) db.instance_rows db h

-- Whatever the threads of the factory call, in whatever order, from an empty database: the query for
-- the active instance of a host does not meet its conflict, and gives the only one there is.
pub instance_for_host_total :
    (cs : List Call) (n : String)
    → instance_for_host n (run cs empty).db
      ≡ ok (find (active_on n) (run cs empty).db.instance_rows, (run cs empty).db)
instance_for_host_total cs n =
    one_of n (run cs empty).db ((run-IsSound cs empty empty-IsSound).exclusive n)

-- Whatever the threads of the factory call, in whatever order, from an empty database: an instance
-- that is destroyed has no event that was not uploaded.
pub destroyed-uploaded :
    (cs : List Call) (n : String) (q : ℕ) (i : Instance)
    → instance_get n q (run cs empty).db ≡ ok (some i, (run cs empty).db)
    → destroyed_row i ≡ true
    → instance_next_event_to_upload n q (run cs empty).db ≡ ok (none, (run cs empty).db)
unfolding instance_get destroyed_row
destroyed-uploaded cs n q i e d =
    let db : Database = (run cs empty).db in
    let row : find (instance_at n q) db.instance_rows ≡ some i = ground arith in
    pending-none n q db (
      (run-IsSound cs empty empty-IsSound).kept n q
        (count-find (instance_at n q) (λ i. is_destroyed i.state) db.instance_rows i row d))
