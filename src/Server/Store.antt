-- ===== src/Server/Store.antt =====
-- server/src/db.rs: `job_store_put`, the values that the tasks of a job share.
pub mod Lookup
pub mod Bounds
pub mod Examples
use buildomat.Prelude.{
  ℕ, ◌+◌, ◌*◌, Bool, true, not, ◌&&◌, ◌||◌, List, [], ◌∷◌, Option, none, some, String, err, ok,
  ◌==◌, ltb, leb, if◌then◌else◌, is_empty, all, codes, is_ascii_alphanumeric, utf8_width,
}
use text.Mathlib.Text.{◌==◌ as str_eq}
use buildomat.Sql.{find, count, update, insert}
use buildomat.Server.Models.{JobStore}
use buildomat.Server.State.{
  Tx, gets, stored, conflict, panic, invalid_store_name, store_value_too_large, store_full,
  job_already_complete, ◌>>=◌, ◌>>◌, refuse_if, find_job,
}

unfoldable pub is_store_name : String → Bool
unfolding is_ascii_alphanumeric
is_store_name name =
    not (is_empty (codes name)) && all (λ c. is_ascii_alphanumeric c || c == b'_') (codes name)

-- `as_bytes().len()`.
unfoldable pub byte_len : List ℕ → ℕ
unfolding utf8_width
byte_len [] = 0
byte_len (c ∷ cs) = utf8_width c + byte_len cs

abbrev pub max_val_count : ℕ
max_val_count = 100

abbrev pub max_val_kib : ℕ
max_val_kib = 10

abbrev pub store_is : ℕ → String → JobStore → Bool
store_is job name r = r.job == job && str_eq r.name name

abbrev pub store_of : ℕ → JobStore → Bool
store_of job r = r.job == job

-- PRIMARY KEY (job, name)
abbrev pub same_entry : JobStore → JobStore → Bool
same_entry a b = a.job == b.job && str_eq a.name b.name

unfoldable pub update_store : (JobStore → Bool) → (JobStore → JobStore) → Tx (Unit {0})
update_store p f s =
    if count p s.job_store == 1
    then ok (tt, record s { job_store = update p f s.job_store })
    else err panic

-- A value that replaces a secret is a secret.
abbrev pub overwritten : String → Bool → String → ℕ → JobStore → JobStore → JobStore
overwritten value secret source now pre r = record r {
  value = value;
  secret = if pre.secret then true else secret;
  source = source;
  time_update = now;
}

unfoldable pub store_entry :
    ℕ → ℕ → String → String → Bool → String → Option JobStore → Tx (Unit {0})
store_entry now job name value secret source (some pre) =
    update_store (store_is job name) (overwritten value secret source now pre)
store_entry now job name value secret source none = do
  n ← gets (λ s. count (store_of job) s.job_store)
  refuse_if (leb max_val_count n) (conflict (store_full job n))
  rows ← gets (λ s.
      insert same_entry
        (record {
          job = job;
          name = name;
          value = value;
          secret = secret;
          source = source;
          time_update = now;
        })
        s.job_store)
  stored rows (λ s rs. record s { job_store = rs })

unfoldable pub job_store_put : ℕ → ℕ → String → String → Bool → String → Tx (Unit {0})
job_store_put now job name value secret source = do
  refuse_if (not (is_store_name name)) (conflict invalid_store_name)
  refuse_if (ltb (max_val_kib * 1024) (byte_len (codes value))) (conflict store_value_too_large)
  j ← find_job job
  refuse_if j.complete (conflict (job_already_complete job))
  pre ← gets (λ s. find (store_is job name) s.job_store)
  store_entry now job name value secret source pre
