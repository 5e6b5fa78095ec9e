-- ===== src/Lab/Refines.antt =====
-- Each operation of the lab database makes one change, or none.
use buildomat.Prelude.{
  ℕ, ◌+◌, ◌^◌, ◌<◌, ◌≡◌, refl, ap, ap₂, ◌∙◌, inl, inr, ◌⊎◌, any, false, not, List, [], ◌∷◌, Option,
  none, some, String, Result, ok, err, ◌==◌, ltb, Option-cases, Bool-cases,
}
use buildomat.Sql.{select, find, count, insert, max_of}
use buildomat.Sql.Counts.{select-nil, count-any, count-find}
use buildomat.Lab.Models.{
  Instance, InstanceState, InstanceEvent, preboot, booted, destroying, destroyed, in_teardown,
}
use buildomat.Lab.Database.{
  Database, Failure, instance_at, active_on, update_instance, pending_at, instance_destroy,
  instance_mark_destroyed, instance_boot, instance_mark_flushed, instance_mark_event_uploaded,
  destroy_from, mark_from, boot_from, append_in, append_live, instance_append, instance_create,
  new_instance, new_event, insert_instance, insert_event, next_of, one_active, create_unless,
  i_next_seq_for_host, i_next_seq_for_instance, same_instance, same_event, continue, gets, ◌>>=◌,
  on_host, event_of, instance_for_host, panic,
}
use buildomat.Lab.Changes.{
  Change, same, flush, create, append, upload, boot, abort, destroy, HasKeys, after, fetched,
  update_instance-move, update_instance-finish, live_at,
}

module _ {May : String → ℕ → Type 0} (s : Database) (h : HasKeys s) where
  module _ (n : String) (q : ℕ) (i : Instance)
      (e : find (instance_at n q) s.instance_rows ≡ some i) where
    destroy_from-Change :
        (st : InstanceState) → i.state ≡ st → Change May s (after s (destroy_from st n q s))
    unfolding destroy_from
    destroy_from-Change preboot k = update_instance-move s n q i h e preboot destroying k abort
    destroy_from-Change booted k = update_instance-move s n q i h e booted destroying k destroy
    destroy_from-Change destroying k = same refl
    destroy_from-Change destroyed k = same refl

    boot_from-Change :
        (st : InstanceState) → i.state ≡ st → Change May s (after s (boot_from st n q s))
    unfolding boot_from
    boot_from-Change preboot k = update_instance-move s n q i h e preboot booted k boot
    boot_from-Change booted k = same refl
    boot_from-Change destroying k = same refl
    boot_from-Change destroyed k = same refl

    mark_from-Change :
        May n q → (st : InstanceState) → i.state ≡ st → Change May s (after s (mark_from st n q s))
    unfolding mark_from
    mark_from-Change may preboot k = same refl
    mark_from-Change may booted k = same refl
    mark_from-Change may destroying k = update_instance-finish s n q i h e may k
    mark_from-Change may destroyed k = same refl

  pub instance_destroy-Change :
      (n : String) (q : ℕ) → Change May s (after s (instance_destroy n q s))
  unfolding instance_destroy
  instance_destroy-Change n q = elim (Option-cases (find (instance_at n q) s.instance_rows)) [
    | inl e ↦ rw e (same refl)
    | inr (i, e) ↦
        rw (e, (fetched n q i s.instance_rows e).0, (fetched n q i s.instance_rows e).1)
          (destroy_from-Change n q i e i.state refl)
  ]

  pub instance_boot-Change : (n : String) (q : ℕ) → Change May s (after s (instance_boot n q s))
  unfolding instance_boot
  instance_boot-Change n q = elim (Option-cases (find (instance_at n q) s.instance_rows)) [
    | inl e ↦ rw e (same refl)
    | inr (i, e) ↦
        rw (e, (fetched n q i s.instance_rows e).0, (fetched n q i s.instance_rows e).1)
          (boot_from-Change n q i e i.state refl)
  ]

  pub instance_mark_destroyed-Change :
      (n : String) (q : ℕ) → May n q → Change May s (after s (instance_mark_destroyed n q s))
  unfolding instance_mark_destroyed
  instance_mark_destroyed-Change n q may =
      elim (Option-cases (find (instance_at n q) s.instance_rows)) [
        | inl e ↦ rw e (same refl)
        | inr (i, e) ↦
            rw (e, (fetched n q i s.instance_rows e).0, (fetched n q i s.instance_rows e).1)
              (mark_from-Change n q i e may i.state refl)
      ]

next_of_cases :
    (s : Database) (o : Option ℕ)
    → ((e : Failure) × (next_of o s ≡ err e)) ⊎ ((q : ℕ) × (next_of o s ≡ ok (q, s)))
unfolding next_of
next_of_cases s none = inr (1, refl)
next_of_cases s (some m) = elim (Bool-cases (ltb (m + 1) (2 ^ 63))) [
  | inl e ↦ inr (m + 1, rw e refl)
  | inr e ↦ inl (panic, rw e refl)
]

live-count :
    (s : Database) (i : Instance)
    → find (instance_at i.nodename i.seq) s.instance_rows ≡ some i
    → in_teardown i.state ≡ false
    → 0 < count (live_at i.nodename i.seq) s.instance_rows
live-count s i e k =
    count-find (instance_at i.nodename i.seq) (λ i. not (in_teardown i.state)) s.instance_rows i e
      (ap not k)

module _ {May : String → ℕ → Type 0} (s : Database) where
  insert_instance-Change :
      (i : Instance)
      → i.state ≡ preboot
      → count (active_on i.nodename) s.instance_rows ≡ 0
      → Change May s (after s (insert_instance i (insert same_instance i s.instance_rows) s))
  unfolding insert_instance insert
  insert_instance-Change i k none_active =
      elim (Bool-cases (any (same_instance i) s.instance_rows)) [
        | inl e ↦ rw e (same refl)
        | inr e ↦ rw e (create i k none_active (count-any (same_instance i) s.instance_rows e) refl)
      ]

  create_unless-Change :
      (n target worker bootstrap key : String)
      → count (active_on n) s.instance_rows ≡ 0
      → (r : Result Failure (ℕ × Database))
      → ((e : Failure) × (r ≡ err e)) ⊎ ((q : ℕ) × (r ≡ ok (q, s)))
      → Change May s (
          after s (
            continue r λ seq.
              gets (λ s.
                insert same_instance
                  (new_instance n seq target worker bootstrap key)
                  s.instance_rows)
              >>= insert_instance (new_instance n seq target worker bootstrap key)))
  create_unless-Change n target worker bootstrap key k r (inl (e, x)) = rw x (same refl)
  create_unless-Change n target worker bootstrap key k r (inr (q, x)) =
      rw x (insert_instance-Change (new_instance n q target worker bootstrap key) refl k)

  create-one_active :
      (n target worker bootstrap key : String) (xs : List Instance)
      → select (active_on n) s.instance_rows ≡ xs
      → Change May s (
          after s (continue (one_active xs s) (λ o. create_unless o n target worker bootstrap key)))
  unfolding one_active create_unless i_next_seq_for_host
  create-one_active n target worker bootstrap key [] e =
      create_unless-Change n target worker bootstrap key
        (select-nil (active_on n) s.instance_rows e) _
        (next_of_cases s (max_of (on_host n) (λ i. i.seq) s.instance_rows))
  create-one_active n target worker bootstrap key (i ∷ []) e = same refl
  create-one_active n target worker bootstrap key (i ∷ j ∷ is) e = same refl

  pub instance_create-Change :
      (n target worker bootstrap key : String)
      → Change May s (after s (instance_create n target worker bootstrap key s))
  unfolding instance_create instance_for_host
  instance_create-Change n target worker bootstrap key =
      create-one_active n target worker bootstrap key (select (active_on n) s.instance_rows) refl

  pub instance_mark_flushed-Change :
      (n : String) (q : ℕ) → Change May s (after s (instance_mark_flushed n q s))
  unfolding instance_mark_flushed update_instance
  instance_mark_flushed-Change n q =
      elim (Bool-cases (count (instance_at n q) s.instance_rows == 1)) [
        | inl one ↦ rw one (flush n q refl)
        | inr many ↦ rw many (same refl)
      ]

  pub instance_mark_event_uploaded-Change :
      (n : String) (q k : ℕ) → Change May s (after s (instance_mark_event_uploaded n q k s))
  unfolding instance_mark_event_uploaded
  instance_mark_event_uploaded-Change n q k =
      elim (Bool-cases (ltb (count (pending_at n q k) s.instance_event) 2)) [
        | inl one ↦ rw one (upload n q k refl)
        | inr many ↦ rw many (same refl)
      ]

  insert_event-Change :
      (e : InstanceEvent)
      → 0 < count (live_at e.nodename e.instance_seq) s.instance_rows
      → Change May s (after s (insert_event e (insert same_event e s.instance_event) s))
  unfolding insert_event insert
  insert_event-Change e live = elim (Bool-cases (any (same_event e) s.instance_event)) [
    | inl k ↦ rw k (same refl)
    | inr k ↦ rw k (append e live (count-any (same_event e) s.instance_event k) refl)
  ]

  append_live-Change :
      (i : Instance) (stream msg : String) (time : ℕ)
      → 0 < count (live_at i.nodename i.seq) s.instance_rows
      → (r : Result Failure (ℕ × Database))
      → ((e : Failure) × (r ≡ err e)) ⊎ ((q : ℕ) × (r ≡ ok (q, s)))
      → Change May s (
          after s (
            continue r λ seq.
              gets (λ s. insert same_event (new_event i seq stream msg time) s.instance_event)
              >>= insert_event (new_event i seq stream msg time)))
  append_live-Change i stream msg time live r (inl (e, x)) = rw x (same refl)
  append_live-Change i stream msg time live r (inr (q, x)) =
      rw x (insert_event-Change (new_event i q stream msg time) live)

  append_in-Change :
      (i : Instance) (stream msg : String) (time : ℕ) (st : InstanceState)
      → find (instance_at i.nodename i.seq) s.instance_rows ≡ some i
      → i.state ≡ st
      → Change May s (after s (append_in st i stream msg time s))
  unfolding append_in append_live i_next_seq_for_instance
  append_in-Change i stream msg time preboot e k =
      append_live-Change i stream msg time (live-count s i e (ap in_teardown k)) _
        (next_of_cases s (max_of (event_of i.nodename i.seq) (λ e. e.seq) s.instance_event))
  append_in-Change i stream msg time booted e k =
      append_live-Change i stream msg time (live-count s i e (ap in_teardown k)) _
        (next_of_cases s (max_of (event_of i.nodename i.seq) (λ e. e.seq) s.instance_event))
  append_in-Change i stream msg time destroying e k = same refl
  append_in-Change i stream msg time destroyed e k = same refl

  pub instance_append-Change :
      (n : String) (q : ℕ) (stream msg : String) (time : ℕ)
      → Change May s (after s (instance_append n q stream msg time s))
  unfolding instance_append
  instance_append-Change n q stream msg time =
      elim (Option-cases (find (instance_at n q) s.instance_rows)) [
        | inl e ↦ rw e (same refl)
        | inr (i, e) ↦ rw e (append_in-Change i stream msg time i.state (refetch i e) refl)
      ]
    where
      refetch :
          (i : Instance)
          → find (instance_at n q) s.instance_rows ≡ some i
          → find (instance_at i.nodename i.seq) s.instance_rows ≡ some i
      refetch i e =
          let (same_name, same_seq) = fetched n q i s.instance_rows e in
          ap₂ (λ m k. find (instance_at m k) s.instance_rows) same_name same_seq ∙ e
