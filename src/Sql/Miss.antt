-- ===== src/Sql/Miss.antt =====
-- A statement that does not touch the rows of a query leaves its answer as it is.
use buildomat.Prelude.{
  ◌≡◌, refl, Bool, true, false, List, [], ◌∷◌, ◌++◌, some, arith, Bool-cases, inl, inr,
}
use buildomat.Sql.{select, update, insert, insert_or_ignore}

module _ {R : Type 0} (q : R → Bool) where
  pub select-snoc : (rs : List R) (r : R) → q r ≡ false → select q (rs ++ r ∷ []) ≡ select q rs
  unfolding select
  select-snoc [] r h = ground (arith, h)
  select-snoc (x ∷ rs) r h = ground (arith, h, select-snoc rs r h)

  pub select-insert :
      (same : R → R → Bool) (r : R) (rs rs' : List R)
      → q r ≡ false
      → insert same r rs ≡ some rs'
      → select q rs' ≡ select q rs
  unfolding insert
  select-insert same r rs rs' h e = ground (arith, h, e, select-snoc rs r h)

  pub select-insert_or_ignore :
      (same : R → R → Bool) (r : R) (rs : List R)
      → q r ≡ false
      → select q (insert_or_ignore same r rs) ≡ select q rs
  unfolding insert_or_ignore
  select-insert_or_ignore same r rs h = ground (arith, h, select-snoc rs r h)

  pub select-update_miss :
      (p : R → Bool) (f : R → R) (rs : List R)
      → ((r : R) → p r ≡ true → (q r ≡ false) × (q (f r) ≡ false))
      → select q (update p f rs) ≡ select q rs
  unfolding select update
  select-update_miss p f [] h = refl
  select-update_miss p f (x ∷ rs) h = elim (Bool-cases (p x)) [
    | inl e ↦ ground (arith, e, h x e, select-update_miss p f rs h)
    | inr e ↦ ground (arith, e, select-update_miss p f rs h)
  ]
