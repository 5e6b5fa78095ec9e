-- ===== src/Lab/Upload/Drains.antt =====
-- The upload loop loses no event, and ends once the server takes them.
use buildomat.Prelude.{
  ℕ, suc, ◌+◌, ◌≤◌, ◌<◌, ◌≡◌, refl, sym, ◌∙◌, inl, inr, Bool, true, false, not, ◌&&◌, List, [], ◌∷◌,
  none, some, String, ok, arith, ◌==◌, All, length, ltb, any, Option-cases, Bool-cases,
  if◌then◌else◌,
}
use buildomat.Sql.{select, count, update, order_by}
use buildomat.Sql.Lemmas.{any-order_by, count-update}
use buildomat.Sql.Counts.{any-select_and, any-count_pos, count_mono, count_split, select-nil}
use buildomat.Lab.Models.{InstanceEvent}
use buildomat.Lab.Database.{
  Database, pending_of, pending_at, first, instance_next_event_to_upload,
  instance_mark_event_uploaded,
}
use buildomat.Lab.Invariants.{pending, HasEventKeys, event_at}
use buildomat.Lab.Upload.{
  Reply, lost, retry, accepted, done, waiting, held, request_failed, stopped, upload_events,
  next_event, took,
}

first_any :
    (t : InstanceEvent → Bool) (xs : List InstanceEvent) (e : InstanceEvent)
    → first xs ≡ some e
    → t e ≡ true
    → any t xs ≡ true
first_any t [] e h y = absurd (ground arith)
first_any t (x ∷ xs) e h y = let same : x ≡ e = ground arith in rw same (ground arith)

no_row : (xs : List InstanceEvent) → any (λ _. true) xs ≡ false → xs ≡ []
no_row [] h = refl
no_row (x ∷ xs) h = absurd (ground arith)

no_first : (xs : List InstanceEvent) → first xs ≡ none → any (λ _. true) xs ≡ false
no_first [] h = refl
no_first (x ∷ xs) h = absurd (ground arith)

next_none :
    (n : String) (q : ℕ) (s : Database)
    → next_event s (instance_next_event_to_upload n q s) ≡ none
    → pending n q s ≡ 0
unfolding instance_next_event_to_upload
next_none n q s h =
    let rows : List InstanceEvent = select (pending_of n q) s.instance_event in
    select-nil (pending_of n q) s.instance_event (
      no_row rows (
        sym (any-order_by (λ _. true) (λ x. x.seq) rows) ∙ no_first (order_by (λ x. x.seq) rows) h))

-- The event that the query gives is one that is pending.
next_some :
    (t : InstanceEvent → Bool) (n : String) (q : ℕ) (s : Database) (e : InstanceEvent)
    → next_event s (instance_next_event_to_upload n q s) ≡ some e
    → t e ≡ true
    → 0 < count (λ x. pending_of n q x && t x) s.instance_event
unfolding instance_next_event_to_upload
next_some t n q s e h y =
    let rows : List InstanceEvent = select (pending_of n q) s.instance_event in
    any-count_pos (λ x. pending_of n q x && t x) s.instance_event
      (sym (any-select_and t (pending_of n q) s.instance_event)
        ∙ sym (any-order_by t (λ x. x.seq) rows)
        ∙ first_any t (order_by (λ x. x.seq) rows) e h y)

next_pending :
    (n : String) (q : ℕ) (s : Database) (e : InstanceEvent)
    → next_event s (instance_next_event_to_upload n q s) ≡ some e
    → 0 < count (pending_at n q e.seq) s.instance_event
next_pending n q s e h = next_some (λ x. x.seq == e.seq) n q s e h (ground arith)

-- The pending events that pass a test.
abbrev pub pending_if : (InstanceEvent → Bool) → String → ℕ → InstanceEvent → Bool
pending_if p n q e = pending_of n q e && p e

-- What the mark does to the number of pending events that pass a test.
count-mark_if :
    (p : InstanceEvent → Bool) (n : String) (q k : ℕ) (es : List InstanceEvent)
    → count (pending_if p n q) (update (pending_at n q k) (λ e. record e { uploaded = true }) es)
        + count (λ e. pending_at n q k e && p e) es
      ≡ count (pending_if p n q) es
unfolding count update
count-mark_if p n q k [] = refl
count-mark_if p n q k (e ∷ es) = ground (arith, count-mark_if p n q k es)

-- The event that the query gives is the one pending event with its number.
one_at :
    (p : InstanceEvent → Bool) (n : String) (q : ℕ) (s : Database) (e : InstanceEvent)
    → HasEventKeys s
    → next_event s (instance_next_event_to_upload n q s) ≡ some e
    → count (λ x. pending_at n q e.seq x && p x) s.instance_event ≡ (if p e then 1 else 0)
one_at p n q s e keys h =
    let at = pending_at n q e.seq in
    let one = count_mono at (event_at n q e.seq) s.instance_event (λ x t. ground arith) in
    let both = count_split at p s.instance_event in
    elim (Bool-cases (p e)) [
      | inl y ↦
          let has = next_some (λ x. x.seq == e.seq && p x) n q s e h (ground arith) in
          let as_at =
            count_mono (λ x. pending_of n q x && (x.seq == e.seq && p x)) (λ x. at x && p x)
              s.instance_event (λ x t. ground arith) in
          rw y (omega (arith, one, both, has, as_at, keys n q e.seq))
      | inr m ↦
          let has = next_some (λ x. x.seq == e.seq && not (p x)) n q s e h (ground arith) in
          let as_at =
            count_mono (λ x. pending_of n q x && (x.seq == e.seq && not (p x)))
              (λ x. at x && not (p x)) s.instance_event (λ x t. ground arith) in
          rw m (omega (arith, one, both, has, as_at, keys n q e.seq))
    ]

-- What the mark does to the number of pending events.
count-mark :
    (n : String) (q k : ℕ) (es : List InstanceEvent)
    → count (pending_of n q) (update (pending_at n q k) (λ e. record e { uploaded = true }) es)
        + count (pending_at n q k) es
      ≡ count (pending_of n q) es
unfolding count update
count-mark n q k [] = refl
count-mark n q k (e ∷ es) = ground (arith, count-mark n q k es)

-- A pending event is marked, and no other.
mark_one :
    (n : String) (q : ℕ) (s : Database) (e : InstanceEvent)
    → HasEventKeys s
    → 0 < count (pending_at n q e.seq) s.instance_event
    → (t : Database) × (instance_mark_event_uploaded n q e.seq s ≡ ok (tt, t))
      × (suc (pending n q t) ≡ pending n q s)
      × HasEventKeys t
      × ((p : InstanceEvent → Bool)
          → count (pending_if p n q) t.instance_event
              + count (λ x. pending_at n q e.seq x && p x) s.instance_event
            ≡ count (pending_if p n q) s.instance_event)
unfolding instance_mark_event_uploaded
mark_one n q s e keys h =
    let one : count (pending_at n q e.seq) s.instance_event
        ≤ count (event_at n q e.seq) s.instance_event =
      count_mono (pending_at n q e.seq) (event_at n q e.seq) s.instance_event
        (λ x t. ground arith) in
    let test : ltb (count (pending_at n q e.seq) s.instance_event) 2 ≡ true =
      ground (arith, keys n q e.seq) in
    rw test (
      _,
      refl,
      omega (arith, one, keys n q e.seq, h, count-mark n q e.seq s.instance_event),
      λ m p k.
          rw
            (count-update (event_at m p k) (pending_at n q e.seq)
              (λ x. record x { uploaded = true }) s.instance_event (λ x. refl))
            (keys m p k),
      λ p. count-mark_if p n q e.seq s.instance_event,
    )

left :
    (n : String) (q : ℕ) (s : Database) (e : InstanceEvent)
    → 0 < count (pending_at n q e.seq) s.instance_event
    → 0 < pending n q s
left n q s e h = omega (
  arith,
  h,
  count_mono (pending_at n q e.seq) (pending_of n q) s.instance_event (λ x t. ground arith),
)

module _ (n : String) (q : ℕ) (s : Database) where
  -- The loop, turn by turn.
  at_end :
      (rs : List Reply)
      → next_event s (instance_next_event_to_upload n q s) ≡ none
      → upload_events rs n q s ≡ stopped s done
  unfolding upload_events
  at_end [] e = rw (e, upload_events) refl
  at_end (r ∷ rs) e = rw (e, upload_events) refl

  at_wait :
      (e : InstanceEvent)
      → next_event s (instance_next_event_to_upload n q s) ≡ some e
      → upload_events [] n q s ≡ stopped s waiting
  unfolding upload_events
  at_wait e h = rw (h, upload_events) refl

  at_lost :
      (e : InstanceEvent) (rs : List Reply)
      → next_event s (instance_next_event_to_upload n q s) ≡ some e
      → upload_events (lost ∷ rs) n q s ≡ stopped s request_failed
  unfolding upload_events
  at_lost e rs h = rw (h, upload_events) refl

  at_retry :
      (e : InstanceEvent) (rs : List Reply)
      → next_event s (instance_next_event_to_upload n q s) ≡ some e
      → upload_events (retry ∷ rs) n q s ≡ stopped s held
  unfolding upload_events
  at_retry e rs h = rw (h, upload_events) refl

  at_accepted :
      (e : InstanceEvent) (rs : List Reply) (t : Database)
      → next_event s (instance_next_event_to_upload n q s) ≡ some e
      → instance_mark_event_uploaded n q e.seq s ≡ ok (tt, t)
      → upload_events (accepted ∷ rs) n q s ≡ took e (upload_events rs n q t)
  unfolding upload_events
  at_accepted e rs t h k = rw (h, k, upload_events) refl

-- Take a database without two events of one key, and any test on events, such as being equal to one.
-- However the server replies, the events that it took and the events that are left pending are those that
-- were pending: of those that pass the test, the two numbers sum to the number that there was.
pub upload_events_conserves :
    (p : InstanceEvent → Bool) (rs : List Reply) (n : String) (q : ℕ) (s : Database)
    → HasEventKeys s
    → count p (upload_events rs n q s).sent
        + count (pending_if p n q) (upload_events rs n q s).db.instance_event
      ≡ count (pending_if p n q) s.instance_event
unfolding count
upload_events_conserves p [] n q s keys =
    elim (Option-cases (next_event s (instance_next_event_to_upload n q s))) [
      | inl e ↦ rw (at_end n q s [] e) (omega arith)
      | inr (x, e) ↦ rw (at_wait n q s x e) (omega arith)
    ]
upload_events_conserves p (lost ∷ rs) n q s keys =
    elim (Option-cases (next_event s (instance_next_event_to_upload n q s))) [
      | inl e ↦ rw (at_end n q s (lost ∷ rs) e) (omega arith)
      | inr (x, e) ↦ rw (at_lost n q s x rs e) (omega arith)
    ]
upload_events_conserves p (retry ∷ rs) n q s keys =
    elim (Option-cases (next_event s (instance_next_event_to_upload n q s))) [
      | inl e ↦ rw (at_end n q s (retry ∷ rs) e) (omega arith)
      | inr (x, e) ↦ rw (at_retry n q s x rs e) (omega arith)
    ]
upload_events_conserves p (accepted ∷ rs) n q s keys =
    elim (Option-cases (next_event s (instance_next_event_to_upload n q s))) [
      | inl e ↦ rw (at_end n q s (accepted ∷ rs) e) (omega arith)
      | inr (x, e) ↦
          let (t, k, less, keys', marks) = mark_one n q s x keys (next_pending n q s x e) in
          let it = one_at p n q s x keys e in
          let m = marks p in
          rw (at_accepted n q s x rs t e k)
            (ground (arith, it, m, upload_events_conserves p rs n q t keys'))
    ]

-- Take a database without two events of one key, to which nothing else writes. Where the server accepts
-- every event, the loop ends after as many replies as events are pending, with none of them left.
pub upload_events_drains :
    (rs : List Reply) (n : String) (q : ℕ) (s : Database)
    → HasEventKeys s
    → All (λ r. r ≡ accepted) rs
    → pending n q s ≤ length rs
    → ((upload_events rs n q s).ended ≡ done)
      × (length (upload_events rs n q s).sent ≡ pending n q s)
      × (pending n q (upload_events rs n q s).db ≡ 0)
upload_events_drains [] n q s keys took_all enough =
    elim (Option-cases (next_event s (instance_next_event_to_upload n q s))) [
      | inl e ↦ rw (at_end n q s [] e) (refl, omega (arith, enough), omega (arith, enough))
      | inr (x, e) ↦ absurd (omega (arith, enough, left n q s x (next_pending n q s x e)))
    ]
upload_events_drains (r ∷ rs) n q s keys took_all enough =
    elim (Option-cases (next_event s (instance_next_event_to_upload n q s))) [
      | inl e ↦
          rw (at_end n q s (r ∷ rs) e) (refl, omega (arith, next_none n q s e), next_none n q s e)
      | inr (x, e) ↦
          let (t, k, less, keys', _) = mark_one n q s x keys (next_pending n q s x e) in
          let (d, m, z) =
            upload_events_drains rs n q t keys' took_all.1 (omega (arith, less, enough)) in
          rw (took_all.0, at_accepted n q s x rs t e k) (d, omega (arith, less, m), z)
    ]
