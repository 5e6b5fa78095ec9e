-- ===== src/Lab/Invariants.antt =====
-- What every write of the lab database keeps.
use buildomat.Prelude.{
  ℕ, ◌+◌, ◌≤◌, ◌<◌, ◌≡◌, refl, sym, ap, subst, ap₂, ◌∙◌, inl, inr, Bool, true, false, List, ◌&&◌,
  [], ◌∷◌, String, arith, ◌==◌, Bool-cases,
}
use text.Mathlib.TextEquality.{eq_iff}
use buildomat.Sql.{count}
use buildomat.Sql.Lemmas.{count-append, count-update, map-All}
use buildomat.Sql.Counts.{count-update_All, count-update_grow, All-always, count_mono}
use buildomat.Lab.Models.{
  Instance, InstanceState, InstanceEvent, preboot, destroyed, in_teardown, is_destroyed,
}
use buildomat.Lab.Database.{
  Database, instance_at, active_on, event_of, pending_of, pending_at, same_event, set_state,
}
use buildomat.Lab.Changes.{
  Change, same, move, finish, flush, create, append, upload, Next, boot, abort, destroy, HasKeys,
  live_at, InState,
}

abbrev pub torn_at : String → ℕ → Instance → Bool
torn_at n q i = instance_at n q i && in_teardown i.state

abbrev pub destroyed_at : String → ℕ → Instance → Bool
destroyed_at n q i = instance_at n q i && is_destroyed i.state

abbrev pub pending : String → ℕ → Database → ℕ
pending n q s = count (pending_of n q) s.instance_event

-- No host has two active instances.
abbrev pub IsExclusive : Database → Type 0
IsExclusive s = (n : String) → count (active_on n) s.instance_rows ≤ 1

-- An instance is in teardown, or beyond it.
abbrev pub IsTorn : String → ℕ → Database → Type 0
IsTorn n q s = 0 < count (torn_at n q) s.instance_rows

-- No event of an instance that is destroyed is still to be uploaded.
abbrev pub KeepsEvents : Database → Type 0
KeepsEvents s =
    (n : String) (q : ℕ) → 0 < count (destroyed_at n q) s.instance_rows → pending n q s ≡ 0

key_eq :
    (n : String) (q : ℕ) (i : Instance) → instance_at n q i ≡ true → (i.nodename ≡ n) × (i.seq ≡ q)
key_eq n q i h = ground (arith, eq_iff i.nodename n)

pub Next-active :
    {from to : InstanceState}
    → Next from to
    → (is_destroyed from ≡ false) × (is_destroyed to ≡ false) × (in_teardown from ≡ false)
Next-active boot = (refl, refl, refl)
Next-active abort = (refl, refl, refl)
Next-active destroy = (refl, refl, refl)

event_key :
    (n : String) (q : ℕ) (e : InstanceEvent)
    → event_of n q e ≡ true
    → (e.nodename ≡ n) × (e.instance_seq ≡ q)
event_key n q e h = ground (arith, eq_iff e.nodename n)

pub moved_live :
    (s : Database) (n : String) (q : ℕ) (e : InstanceEvent)
    → event_of n q e ≡ true
    → 0 < count (live_at e.nodename e.instance_seq) s.instance_rows
    → 0 < count (live_at n q) s.instance_rows
moved_live s n q e k live =
    let (same_name, same_seq) = event_key n q e k in
    subst (λ t. 0 < t) (ap₂ (λ m k. count (live_at m k) s.instance_rows) same_name same_seq) live

pub new_miss :
    (n : String) (q : ℕ) (i : Instance) → InState preboot i → count (destroyed_at n q) (i ∷ []) ≡ 0
unfolding count
new_miss n q i st = ground (arith, ap is_destroyed st)

abbrev pub event_at : String → ℕ → ℕ → InstanceEvent → Bool
event_at n q k e = event_of n q e && e.seq == k

-- No two events have one key.
abbrev pub HasEventKeys : Database → Type 0
HasEventKeys s = (n : String) (q k : ℕ) → count (event_at n q k) s.instance_event ≤ 1

one_more :
    (es : List InstanceEvent) (e : InstanceEvent) (n : String) (q k : ℕ)
    → count (same_event e) es ≡ 0
    → count (event_at n q k) es ≤ 1
    → count (event_at n q k) es + count (event_at n q k) (e ∷ []) ≤ 1
unfolding count
one_more es e n q k fresh h = elim (Bool-cases (event_at n q k e)) [
  | inl y ↦
      let same_name : e.nodename ≡ n = ground (arith, eq_iff e.nodename n) in
      ground (
        arith,
        count_mono (event_at n q k) (same_event e) es
            (λ x t. ground (arith, eq_iff x.nodename n, eq_iff x.nodename e.nodename)),
      )
  | inr m ↦ ground arith
]

module _ {May : String → ℕ → Type 0} (s : Database) where
  pub Change-HasKeys : {s' : Database} → Change May s s' → HasKeys s → HasKeys s'
  Change-HasKeys (same e) h n q = rw e (h n q)
  Change-HasKeys (move n' q' from to next rows e) h n q =
      rw
        (
          e,
          count-update (instance_at n q) (instance_at n' q') (set_state to) s.instance_rows
              (λ r. refl),
        )
        (h n q)
  Change-HasKeys (finish n' q' may rows e) h n q =
      rw
        (
          e,
          count-update (instance_at n q) (instance_at n' q') (set_state destroyed) s.instance_rows
              (λ r. refl),
        )
        (h n q)
  Change-HasKeys (flush n' q' e) h n q =
      rw
        (
          e,
          count-update (instance_at n q) (instance_at n' q') (λ i. record i { flushed = true })
              s.instance_rows (λ r. refl),
        )
        (h n q)
  Change-HasKeys (create i st active key e) h n q = elim (Bool-cases (instance_at n q i)) [
    | inl k ↦
        let (same_name, same_seq) = key_eq n q i k in
        let none_yet : count (instance_at n q) s.instance_rows ≡ 0 =
          sym (ap₂ (λ m k. count (instance_at m k) s.instance_rows) same_name same_seq) ∙ key in
        rw (e, count-append (instance_at n q) s.instance_rows (i ∷ []), none_yet)
          (unfold count in rw k (omega arith))
    | inr k ↦
        rw (e, count-append (instance_at n q) s.instance_rows (i ∷ []))
          (unfold count in rw k (omega (arith, h n q)))
  ]
  Change-HasKeys (append ev live fresh e) h n q = rw e (h n q)
  Change-HasKeys (upload n' q' k e) h n q = rw e (h n q)

  pub Change-HasEventKeys : {s' : Database} → Change May s s' → HasEventKeys s → HasEventKeys s'
  Change-HasEventKeys (same e) h n q k = rw e (h n q k)
  Change-HasEventKeys (move n' q' from to next rows e) h n q k = rw e (h n q k)
  Change-HasEventKeys (finish n' q' may rows e) h n q k = rw e (h n q k)
  Change-HasEventKeys (flush n' q' e) h n q k = rw e (h n q k)
  Change-HasEventKeys (create i st active key e) h n q k = rw e (h n q k)
  Change-HasEventKeys (append ev live fresh e) h n q k =
      rw (e, count-append (event_at n q k) s.instance_event (ev ∷ []))
        (one_more s.instance_event ev n q k fresh (h n q k))
  Change-HasEventKeys (upload n' q' j e) h n q k =
      rw
        (
          e,
          count-update (event_at n q k) (pending_at n' q' j) (λ x. record x { uploaded = true })
              s.instance_event (λ x. refl),
        )
        (h n q k)

  pub Change-IsExclusive : {s' : Database} → Change May s s' → IsExclusive s → IsExclusive s'
  Change-IsExclusive (same e) h n = rw e (h n)
  Change-IsExclusive (move n' q' from to next rows e) h n = rw e (
      omega (
        arith,
        h n,
        count-update_All (active_on n) (instance_at n' q') (set_state to) s.instance_rows (
            map-All s.instance_rows
              (λ r st a p. ground (arith, ap is_destroyed (st a), (Next-active next).0)) rows),
      ))
  Change-IsExclusive (finish n' q' may rows e) h n = rw e (
      omega (
        arith,
        h n,
        count-update_All (active_on n) (instance_at n' q') (set_state destroyed) s.instance_rows
            (All-always s.instance_rows (λ r a p. absurd (ground arith))),
      ))
  Change-IsExclusive (flush n' q' e) h n =
      rw
        (
          e,
          count-update (active_on n) (instance_at n' q') (λ i. record i { flushed = true })
              s.instance_rows (λ r. refl),
        )
        (h n)
  Change-IsExclusive (create i st active key e) h n = elim (Bool-cases (active_on n i)) [
    | inl k ↦
        let same_name : i.nodename ≡ n = ground (arith, eq_iff i.nodename n) in
        let none_yet : count (active_on n) s.instance_rows ≡ 0 =
          sym (ap (λ m. count (active_on m) s.instance_rows) same_name) ∙ active in
        rw (e, count-append (active_on n) s.instance_rows (i ∷ []), none_yet)
          (unfold count in rw k (omega arith))
    | inr k ↦
        rw (e, count-append (active_on n) s.instance_rows (i ∷ []))
          (unfold count in rw k (omega (arith, h n)))
  ]
  Change-IsExclusive (append ev live fresh e) h n = rw e (h n)
  Change-IsExclusive (upload n' q' k e) h n = rw e (h n)

  pub Change-IsTorn :
      {s' : Database} (n : String) (q : ℕ) → Change May s s' → IsTorn n q s → IsTorn n q s'
  Change-IsTorn n q (same e) h = rw e h
  Change-IsTorn n q (move n' q' from to next rows e) h = rw e (
      omega (
        arith,
        h,
        count-update_grow (torn_at n q) (instance_at n' q') (set_state to) s.instance_rows (
            map-All s.instance_rows
              (λ r st a p. absurd (ground (arith, ap in_teardown (st a), (Next-active next).2)))
              rows),
      ))
  Change-IsTorn n q (finish n' q' may rows e) h = rw e (
      omega (
        arith,
        h,
        count-update_grow (torn_at n q) (instance_at n' q') (set_state destroyed) s.instance_rows
            (All-always s.instance_rows (λ r a p. ground arith)),
      ))
  Change-IsTorn n q (flush n' q' e) h =
      rw
        (
          e,
          count-update (torn_at n q) (instance_at n' q') (λ i. record i { flushed = true })
              s.instance_rows (λ r. refl),
        )
        h
  Change-IsTorn n q (create i st active key e) h =
      rw (e, count-append (torn_at n q) s.instance_rows (i ∷ [])) (omega (arith, h))
  Change-IsTorn n q (append ev live fresh e) h = rw e h
  Change-IsTorn n q (upload n' q' k e) h = rw e h
