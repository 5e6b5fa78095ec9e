-- ===== src/Sql.antt =====
-- The SQL statements that the database modules spell through Diesel: a table is the list of its rows
-- in the order of their insertion, and a `WHERE` clause is a test on a row.
pub mod Lemmas
pub mod Counts
pub mod Miss
use Prim.Native.String.{compare}
use Prim.Native.Nat.{max}
use text.Mathlib.Text.{is_le}
use buildomat.Prelude.{
  String, ℕ, zero, suc, ◌+◌, Bool, true, false, List, [], ◌∷◌, ◌++◌, Option, none, some, leb,
  if◌then◌else◌, any,
}

abbrev pub max_with : ℕ → Option ℕ → Option ℕ
max_with n none = some n
max_with n (some m) = some (max n m)

module _ {R : Type 0} where
  -- `SELECT … WHERE p`, no order stated.
  unfoldable pub select : (R → Bool) → List R → List R
  select p [] = []
  select p (r ∷ rs) = if p r then r ∷ select p rs else select p rs

  -- The first row of such a query.
  unfoldable pub find : (R → Bool) → List R → Option R
  find p [] = none
  find p (r ∷ rs) = if p r then some r else find p rs

  -- `SELECT COUNT(*)`, and the number of rows that an `UPDATE` reports.
  unfoldable pub count : (R → Bool) → List R → ℕ
  count p [] = 0
  count p (r ∷ rs) = if p r then suc (count p rs) else count p rs

  -- `UPDATE … SET … WHERE p`.
  unfoldable pub update : (R → Bool) → (R → R) → List R → List R
  update p f [] = []
  update p f (r ∷ rs) = (if p r then f r else r) ∷ update p f rs

  -- `INSERT`, where `same` says that two rows have one key; `none` is the constraint's refusal.
  unfoldable pub insert : (R → R → Bool) → R → List R → Option (List R)
  insert same r rs = if any (same r) rs then none else some (rs ++ r ∷ [])

  -- `INSERT … ON CONFLICT DO NOTHING`.
  unfoldable pub insert_or_ignore : (R → R → Bool) → R → List R → List R
  insert_or_ignore same r rs = if any (same r) rs then rs else rs ++ r ∷ []

  insert_by : (R → ℕ) → R → List R → List R
  insert_by key r [] = r ∷ []
  insert_by key r (x ∷ xs) = if leb (key r) (key x) then r ∷ x ∷ xs else x ∷ insert_by key r xs

  -- `ORDER BY key ASC`.
  unfoldable pub order_by : (R → ℕ) → List R → List R
  unfolding insert_by
  order_by key [] = []
  order_by key (r ∷ rs) = insert_by key r (order_by key rs)

  insert_by_text : (R → String) → R → List R → List R
  insert_by_text key r [] = r ∷ []
  insert_by_text key r (x ∷ xs) =
      let rest = insert_by_text key r xs in
      if is_le (compare (key r) (key x)) then r ∷ x ∷ xs else x ∷ rest

  -- The same on a text, in the order of its bytes.
  unfoldable pub order_by_text : (R → String) → List R → List R
  unfolding insert_by_text
  order_by_text key [] = []
  order_by_text key (r ∷ rs) = insert_by_text key r (order_by_text key rs)

  -- `SELECT MAX(key) … WHERE p`.
  unfoldable pub max_of : (R → Bool) → (R → ℕ) → List R → Option ℕ
  max_of p key [] = none
  max_of p key (r ∷ rs) = let rest = max_of p key rs in if p r then max_with (key r) rest else rest
