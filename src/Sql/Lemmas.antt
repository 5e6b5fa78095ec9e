-- ===== src/Sql/Lemmas.antt =====
-- How the statements move a predicate on rows, a count and a search.
use buildomat.Prelude.{
  String, ◌+◌, ◌≤◌, ◌≡◌, refl, subst, ◌⊎◌, ◌<◌, Bool, true, false, List, [], ◌∷◌, ◌++◌, Option,
  none, some, arith, All, any, ℕ, length, if◌then◌else◌, inl, inr, Bool-cases,
}
use buildomat.Sql.{select, find, count, update, insert_by, order_by, insert_by_text, order_by_text}
use Prim.Native.String.{compare}
use text.Mathlib.Text.{is_le}

-- What a write makes of a row that was found.
abbrev pub written : {R : Type 0} → (R → Bool) → (R → R) → Option R → Option R
written q f none = none
written q f (some r) = some (if q r then f r else r)

module _ {R : Type 0} where
  pub count-append : (p : R → Bool) (xs ys : List R) → count p (xs ++ ys) ≡ count p xs + count p ys
  unfolding count
  count-append p [] ys = omega arith
  count-append p (x ∷ xs) ys = ground (arith, count-append p xs ys)

  -- A write that leaves the test as it is on every row leaves the count as it is.
  pub count-update :
      (p q : R → Bool) (f : R → R) (rs : List R)
      → ((r : R) → p (f r) ≡ p r)
      → count p (update q f rs) ≡ count p rs
  unfolding count update
  count-update p q f [] h = refl
  count-update p q f (r ∷ rs) h = ground (arith, h r, count-update p q f rs h)

  -- The row that a search finds, and that it finds one.
  pub find-eq-some :
      (p : R → Bool) (rs : List R) (r : R) → find p rs ≡ some r → (p r ≡ true) × (0 < count p rs)
  unfolding find count
  find-eq-some p [] r h = absurd (ground arith)
  find-eq-some p (x ∷ xs) r h = ground (arith, find-eq-some p xs r)

  -- A search by a key that the write keeps finds the row as it was written.
  pub find-update :
      (p q : R → Bool) (f : R → R) (rs : List R)
      → ((r : R) → p (f r) ≡ p r)
      → find p (update q f rs) ≡ written q f (find p rs)
  unfolding find update
  find-update p q f [] h = refl
  find-update p q f (r ∷ rs) h = ground (arith, h r, find-update p q f rs h)

  pub All-append {κ} : (P : R → Type κ) (xs ys : List R) → All P xs → All P ys → All P (xs ++ ys)
  All-append P [] ys hx hy = hy
  All-append P (x ∷ xs) ys hx hy = (hx.0, All-append P xs ys hx.1 hy)

  pub All-update {κ} :
      {P Q : R → Type κ} (p : R → Bool) (f : R → R) (rs : List R)
      → ((r : R) → p r ≡ true → P r → Q (f r))
      → ((r : R) → p r ≡ false → P r → Q r)
      → All P rs
      → All Q (update p f rs)
  unfolding update
  All-update p f [] hit miss h = tt
  All-update {Q = Q} p f (r ∷ rs) hit miss h =
      (step (Bool-cases (p r)), All-update p f rs hit miss h.1)
    where
      step : (p r ≡ true) ⊎ (p r ≡ false) → Q (if p r then f r else r)
      step (inl e) = rw e (hit r e h.0)
      step (inr e) = rw e (miss r e h.0)

  pub map-All {κ} : {P Q : R → Type κ} (rs : List R) → ((r : R) → P r → Q r) → All P rs → All Q rs
  map-All [] k h = tt
  map-All (r ∷ rs) k h = (k r h.0, map-All rs k h.1)

  pub All-find {κ} :
      (P : R → Type κ) (p : R → Bool) (rs : List R) (r : R) → find p rs ≡ some r → All P rs → P r
  unfolding find
  All-find P p [] r e h = absurd (ground arith)
  All-find P p (x ∷ xs) r e h = elim (Bool-cases (p x)) [
    | inl hit ↦ subst P (ground (arith, hit)) h.0
    | inr miss ↦ All-find P p xs r (rw miss at e) h.1
  ]

module _ {R : Type 0} where
  -- A write adds to a count at most the rows that it picks.
  pub count-update_le :
      (p q : R → Bool) (f : R → R) (rs : List R) → count p (update q f rs) ≤ count p rs + count q rs
  unfolding count update
  count-update_le p q f [] = omega arith
  count-update_le p q f (r ∷ rs) = ground (arith, count-update_le p q f rs)

  -- It adds nothing where no row that it writes passes the test.
  pub count-update_miss :
      (p q : R → Bool) (f : R → R) (rs : List R)
      → ((r : R) → p (f r) ≡ false)
      → count p (update q f rs) ≤ count p rs
  unfolding count update
  count-update_miss p q f [] h = omega arith
  count-update_miss p q f (r ∷ rs) h = ground (arith, h r, count-update_miss p q f rs h)

  pub length-select : (p : R → Bool) (rs : List R) → length (select p rs) ≡ count p rs
  unfolding select count
  length-select p [] = refl
  length-select p (r ∷ rs) = ground (arith, length-select p rs)

  -- A search that has found a row finds the same one after an insert.
  pub find-append :
      (p : R → Bool) (rs xs : List R) (r : R) → find p rs ≡ some r → find p (rs ++ xs) ≡ some r
  unfolding find
  find-append p [] xs r h = absurd (ground arith)
  find-append p (x ∷ rs) xs r h = ground (arith, find-append p rs xs r)

  any-insert_by :
      (p : R → Bool) (key : R → ℕ) (r : R) (rs : List R)
      → any p (insert_by key r rs) ≡ any p (r ∷ rs)
  unfolding insert_by
  any-insert_by p key r [] = refl
  any-insert_by p key r (x ∷ xs) = ground (arith, any-insert_by p key r xs)

  -- An order changes nothing that a test on all rows sees.
  pub any-order_by : (p : R → Bool) (key : R → ℕ) (rs : List R) → any p (order_by key rs) ≡ any p rs
  unfolding order_by
  any-order_by p key [] = refl
  any-order_by p key (r ∷ rs) =
      ground (arith, any-insert_by p key r (order_by key rs), any-order_by p key rs)

  any-insert_by_text :
      (p : R → Bool) (key : R → String) (r : R) (rs : List R)
      → any p (insert_by_text key r rs) ≡ any p (r ∷ rs)
  unfolding insert_by_text
  any-insert_by_text p key r [] = refl
  any-insert_by_text p key r (x ∷ xs) = elim (Bool-cases (is_le (compare (key r) (key x)))) [
    | inl e ↦ rw e refl
    | inr e ↦ rw (e, any-insert_by_text p key r xs) (ground arith)
  ]

  pub any-order_by_text :
      (p : R → Bool) (key : R → String) (rs : List R) → any p (order_by_text key rs) ≡ any p rs
  unfolding order_by_text
  any-order_by_text p key [] = refl
  any-order_by_text p key (r ∷ rs) =
      ground (arith, any-insert_by_text p key r (order_by_text key rs), any-order_by_text p key rs)
