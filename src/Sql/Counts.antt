-- ===== src/Sql/Counts.antt =====
-- How the statements move a count and an answer, and how these are related.
use buildomat.Prelude.{
  ◌+◌, ◌≤◌, ◌≡◌, refl, ◌<◌, Bool, true, false, List, [], ◌∷◌, none, some, arith, All, any, ℕ, inl,
  inr, Bool-cases, Option-cases, ◌&&◌, ◌==◌, not,
}
use buildomat.Sql.{select, find, count, update, max_of}

module _ {R : Type 0} where
  -- A row that is the only one to pass a test.
  pub All-unique :
      (p : R → Bool) (rs : List R) (r : R)
      → find p rs ≡ some r
      → count p rs ≤ 1
      → All (λ x. p x ≡ true → x ≡ r) rs
  unfolding find count
  All-unique p [] r e h = tt
  All-unique p (x ∷ rs) r e h = elim (Bool-cases (p x)) [
    | inl k ↦ let same : x ≡ r = ground arith in (λ _. same, All-none p rs (ground arith))
    | inr k ↦ (λ t. absurd (ground arith), All-unique p rs r (ground arith) (ground arith))
  ]
    where
      All-none : (p : R → Bool) (rs : List R) → count p rs ≡ 0 → All (λ x. p x ≡ true → x ≡ r) rs
      All-none p [] h = tt
      All-none p (y ∷ ys) h = (λ t. absurd (ground arith), All-none p ys (ground arith))

  -- A write after which no row passes a test that it did not pass.
  pub count-update_All :
      (p q : R → Bool) (f : R → R) (rs : List R)
      → All (λ x. q x ≡ true → p (f x) ≡ true → p x ≡ true) rs
      → count p (update q f rs) ≤ count p rs
  unfolding count update
  count-update_All p q f [] h = omega arith
  count-update_All p q f (x ∷ rs) h = elim (Bool-cases (q x)) [
    | inl k ↦ elim (Bool-cases (p (f x))) [
      | inl l ↦ let old : p x ≡ true = h.0 k l in ground (arith, count-update_All p q f rs h.1)
      | inr l ↦ ground (arith, count-update_All p q f rs h.1)
    ]
    | inr k ↦ ground (arith, count-update_All p q f rs h.1)
  ]

  pub select-nil : (p : R → Bool) (rs : List R) → select p rs ≡ [] → count p rs ≡ 0
  unfolding select count
  select-nil p [] h = refl
  select-nil p (x ∷ rs) h = ground (arith, select-nil p rs)

  -- No row has a key above the highest.
  pub max_of-none :
      (p : R → Bool) (key : R → ℕ) (rs : List R) → max_of p key rs ≡ none → count p rs ≡ 0
  unfolding max_of count
  max_of-none p key [] h = refl
  max_of-none p key (x ∷ rs) h = elim (Option-cases (max_of p key rs)) [
    | inl e ↦ ground (arith, max_of-none p key rs)
    | inr (m, e) ↦ absurd (ground arith)
  ]

  pub count-and_le : (p q : R → Bool) (rs : List R) → count (λ r. p r && q r) rs ≤ count p rs
  unfolding count
  count-and_le p q [] = omega arith
  count-and_le p q (x ∷ rs) = ground (arith, count-and_le p q rs)

  pub max_of-some :
      (p : R → Bool) (key : R → ℕ) (rs : List R) (m n : ℕ)
      → max_of p key rs ≡ some m
      → m < n
      → count (λ r. p r && key r == n) rs ≡ 0
  unfolding max_of count
  max_of-some p key [] m n h l = refl
  max_of-some p key (x ∷ rs) m n h l = elim (Option-cases (max_of p key rs)) [
    | inl e ↦ ground (arith, max_of-none p key rs e, count-and_le p (λ r. key r == n) rs)
    | inr (k, e) ↦ ground (arith, max_of-some p key rs k n e)
  ]

  pub any_miss :
      (p q : R → Bool) (rs : List R)
      → ((x : R) → q x ≡ true → p x ≡ true)
      → any p rs ≡ false
      → any q rs ≡ false
  any_miss p q [] h k = refl
  any_miss p q (x ∷ rs) h k = ground (arith, h x, any_miss p q rs h)

  pub count-any : (p : R → Bool) (rs : List R) → any p rs ≡ false → count p rs ≡ 0
  unfolding count
  count-any p [] h = refl
  count-any p (x ∷ rs) h = ground (arith, count-any p rs)

  pub any-count : (p : R → Bool) (rs : List R) → count p rs ≡ 0 → any p rs ≡ false
  unfolding count
  any-count p [] h = refl
  any-count p (x ∷ rs) h = ground (arith, any-count p rs)

  -- A row that was found is counted with what else it passes.
  pub count-find :
      (p q : R → Bool) (rs : List R) (r : R)
      → find p rs ≡ some r
      → q r ≡ true
      → 0 < count (λ x. p x && q x) rs
  unfolding find count
  count-find p q [] r e k = absurd (ground arith)
  count-find p q (x ∷ rs) r e k = ground (arith, count-find p q rs r)

  -- A write after which every row passes a test that it passed.
  pub count-update_grow :
      (p q : R → Bool) (f : R → R) (rs : List R)
      → All (λ x. q x ≡ true → p x ≡ true → p (f x) ≡ true) rs
      → count p rs ≤ count p (update q f rs)
  unfolding count update
  count-update_grow p q f [] h = omega arith
  count-update_grow p q f (x ∷ rs) h = elim (Bool-cases (q x)) [
    | inl k ↦ elim (Bool-cases (p x)) [
      | inl l ↦ let new : p (f x) ≡ true = h.0 k l in ground (arith, count-update_grow p q f rs h.1)
      | inr l ↦ ground (arith, count-update_grow p q f rs h.1)
    ]
    | inr k ↦ ground (arith, count-update_grow p q f rs h.1)
  ]

  pub count_split :
      (p q : R → Bool) (rs : List R)
      → count (λ x. p x && q x) rs + count (λ x. p x && not (q x)) rs ≡ count p rs
  unfolding count
  count_split p q [] = refl
  count_split p q (x ∷ rs) = ground (arith, count_split p q rs)

  pub All-always {κ} : {P : R → Type κ} (rs : List R) → ((r : R) → P r) → All P rs
  All-always [] h = tt
  All-always (r ∷ rs) h = (h r, All-always rs h)

  pub count_mono :
      (p q : R → Bool) (rs : List R) → ((r : R) → p r ≡ true → q r ≡ true) → count p rs ≤ count q rs
  unfolding count
  count_mono p q [] h = omega arith
  count_mono p q (x ∷ rs) h = ground (arith, h x, count_mono p q rs h)

  pub any-select : (p q : R → Bool) (rs : List R) → any p (select q rs) ≡ true → any p rs ≡ true
  unfolding select
  any-select p q [] h = h
  any-select p q (x ∷ rs) h = ground (arith, any-select p q rs)

  pub any-count_pos : (p : R → Bool) (rs : List R) → any p rs ≡ true → 0 < count p rs
  unfolding count
  any-count_pos p [] h = absurd (ground arith)
  any-count_pos p (x ∷ rs) h = ground (arith, any-count_pos p rs)

  pub select-none : (p : R → Bool) (rs : List R) → count p rs ≡ 0 → select p rs ≡ []
  unfolding select count
  select-none p [] h = refl
  select-none p (x ∷ rs) h = ground (arith, select-none p rs)

  pub find-none : (p : R → Bool) (rs : List R) → find p rs ≡ none → count p rs ≡ 0
  unfolding find count
  find-none p [] h = refl
  find-none p (x ∷ rs) h = ground (arith, find-none p rs)

  -- `DELETE` as a selection of the other rows.
  pub count-select :
      (p q : R → Bool) (rs : List R) → count p (select q rs) ≡ count (λ r. p r && q r) rs
  unfolding select count
  count-select p q [] = refl
  count-select p q (x ∷ rs) = ground (arith, count-select p q rs)

  pub count-never : (p : R → Bool) (rs : List R) → ((r : R) → p r ≡ false) → count p rs ≡ 0
  unfolding count
  count-never p [] h = refl
  count-never p (x ∷ rs) h = ground (arith, h x, count-never p rs h)

  pub any-select_and :
      (p q : R → Bool) (rs : List R) → any p (select q rs) ≡ any (λ r. q r && p r) rs
  unfolding select
  any-select_and p q [] = refl
  any-select_and p q (x ∷ rs) = ground (arith, any-select_and p q rs)

  -- A query after a write that keeps its test on the rows that are written.
  pub select-update :
      (p q : R → Bool) (f : R → R) (rs : List R)
      → All (λ r. q r ≡ true → p (f r) ≡ p r) rs
      → select p (update q f rs) ≡ update q f (select p rs)
  unfolding select update
  select-update p q f [] h = refl
  select-update p q f (x ∷ rs) h = elim (Bool-cases (q x)) [
    | inl k ↦ let e : p (f x) ≡ p x = h.0 k in ground (arith, select-update p q f rs h.1)
    | inr k ↦ ground (arith, select-update p q f rs h.1)
  ]

  pub All-select {κ} :
      (P : R → Type κ) (p : R → Bool) (rs : List R) → All P rs → All P (select p rs)
  unfolding select
  All-select P p [] h = tt
  All-select P p (x ∷ rs) h = elim (Bool-cases (p x)) [
    | inl k ↦ rw k (h.0, All-select P p rs h.1)
    | inr k ↦ rw k (All-select P p rs h.1)
  ]

  -- A row of an answer is in the table.
  pub select-count :
      (p q : R → Bool) (rs xs : List R) (r : R)
      → select p rs ≡ r ∷ xs
      → q r ≡ true
      → (p r ≡ true) × (0 < count q rs)
  unfolding select count
  select-count p q [] xs r e k = absurd (ground arith)
  select-count p q (x ∷ rs) xs r e k = ground (arith, select-count p q rs xs r)
