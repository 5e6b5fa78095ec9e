-- ===== src/Lab/Settled.antt =====
-- What every write of the lab database keeps of an instance that is done.
use buildomat.Prelude.{
  ℕ, ◌<◌, ◌≡◌, refl, subst, inl, inr, ◌⊎◌, true, ◌&&◌, [], ◌∷◌, String, arith, ◌==◌, Bool-cases,
}
use text.Mathlib.Text.{◌==◌ as str_eq}
use text.Mathlib.TextEquality.{eq_iff}
use buildomat.Sql.{count}
use buildomat.Sql.Lemmas.{count-append, count-update}
use buildomat.Sql.Counts.{count-update_All, count_split, All-always, count_mono}
use buildomat.Lab.Models.{destroyed, in_teardown}
use buildomat.Lab.Database.{Database, instance_at, event_of, pending_of, pending_at, set_state}
use buildomat.Lab.Changes.{Change, same, move, finish, flush, create, append, upload, HasKeys}
use buildomat.Lab.Invariants.{
  torn_at, destroyed_at, pending, IsTorn, KeepsEvents, Next-active, moved_live, new_miss,
}

module _ {May : String → ℕ → Type 0} (s : Database) where
  -- What an instance in teardown has uploaded stays so.
  pub Change-settled :
      {s' : Database} (n : String) (q : ℕ)
      → Change May s s'
      → HasKeys s
      → IsTorn n q s
      → pending n q s ≡ 0
      → pending n q s' ≡ 0
  Change-settled n q (same e) keys h none_left = rw e none_left
  Change-settled n q (move n' q' from to next rows e) keys h none_left = rw e none_left
  Change-settled n q (finish n' q' may rows e) keys h none_left = rw e none_left
  Change-settled n q (flush n' q' e) keys h none_left = rw e none_left
  Change-settled n q (create i st active key e) keys h none_left = rw e none_left
  Change-settled n q (append ev live fresh e) keys h none_left =
      elim (Bool-cases (event_of n q ev)) [
        | inl k ↦ absurd (
            omega (
              arith,
              h,
              keys n q,
              count_split (instance_at n q) (λ i. in_teardown i.state) s.instance_rows,
              moved_live s n q ev k live,
            ))
        | inr k ↦
            rw (e, count-append (pending_of n q) s.instance_event (ev ∷ []), none_left)
              (unfold count in rw k refl)
      ]
  Change-settled n q (upload n' q' k e) keys h none_left = rw e (
      omega (
        arith,
        none_left,
        count-update_All (pending_of n q) (pending_at n' q' k) (λ x. record x { uploaded = true })
            s.instance_event (All-always s.instance_event (λ r a p. absurd (ground arith))),
      ))

  -- An instance that is destroyed after a write was so before it, or is the one that was finished.
  destroyed_before :
      {s' : Database} (n : String) (q : ℕ)
      → Change May s s'
      → 0 < count (destroyed_at n q) s'.instance_rows
      → (0 < count (destroyed_at n q) s.instance_rows) ⊎ May n q
  destroyed_before n q (same e) h = inl (rw e at h)
  destroyed_before n q (move n' q' from to next rows e) h = inl (
      omega (
        arith,
        rw e at h,
        count-update_All (destroyed_at n q) (instance_at n' q') (set_state to) s.instance_rows
            (All-always s.instance_rows (λ r a p. absurd (ground (arith, (Next-active next).1)))),
      ))
  destroyed_before n q (finish n' q' may rows e) h = elim (Bool-cases (str_eq n' n && q' == q)) [
    | inl k ↦
        let same_name : n' ≡ n = ground (arith, eq_iff n' n) in
        let same_seq : q' ≡ q = ground arith in
        inr (subst (λ m. May m q) same_name (subst (May n') same_seq may))
    | inr k ↦ inl (
        omega (
          arith,
          rw e at h,
          count-update_All (destroyed_at n q) (instance_at n' q') (set_state destroyed)
              s.instance_rows
              (All-always s.instance_rows (λ r a p.
                absurd (ground (arith, eq_iff r.nodename n, eq_iff r.nodename n', eq_iff n' n)))),
        ))
  ]
  destroyed_before n q (flush n' q' e) h = inl (
      subst (λ t. 0 < t)
        (count-update (destroyed_at n q) (instance_at n' q') (λ i. record i { flushed = true })
          s.instance_rows (λ r. refl))
        (rw e at h))
  destroyed_before n q (create i st active key e) h = inl (
      omega (
        arith,
        subst (λ t. 0 < t) (count-append (destroyed_at n q) s.instance_rows (i ∷ [])) (rw e at h),
        new_miss n q i st,
      ))
  destroyed_before n q (append ev live fresh e) h = inl (rw e at h)
  destroyed_before n q (upload n' q' k e) h = inl (rw e at h)

  pub Change-KeepsEvents :
      {s' : Database}
      → Change May s s'
      → ((n : String) (q : ℕ) → May n q → IsTorn n q s × (pending n q s ≡ 0))
      → HasKeys s
      → KeepsEvents s
      → KeepsEvents s'
  Change-KeepsEvents c may keys h n q k = elim (destroyed_before n q c k) [
    | inl old ↦
        Change-settled n q c keys
          (omega (
            arith,
            old,
            count_mono (destroyed_at n q) (torn_at n q) s.instance_rows (λ r t. ground arith),
          ))
          (h n q old)
    | inr m ↦ Change-settled n q c keys (may n q m).0 (may n q m).1
  ]
