-- ===== src/Server/Store/Bounds.antt =====
-- The limits of the store, under `job_store_put` of server/src/db.rs.
use buildomat.Prelude.{
  ℕ, ◌*◌, ◌≤◌, ◌<◌, ◌≡◌, refl, sym, subst, Bool, true, List, [], ◌∷◌, ◌++◌, Option, none, some,
  String, ok, arith, All, codes,
}
use buildomat.Sql.{count}
use buildomat.Sql.Lemmas.{count-append, count-update, All-append, All-update}
use buildomat.Server.Models.{JobStore}
use buildomat.Server.State.{Database}
use buildomat.Server.Store.{
  is_store_name, byte_len, max_val_count, max_val_kib, store_is, store_of, overwritten,
  job_store_put,
}
use buildomat.Server.Store.Lookup.{IsPut, job_store_put-IsPut, new_entry}

-- An entry as the server lets it be: a name of letters, digits and underscores, and at most 10 KiB.
abbrev pub IsEntry : JobStore → Type 0
IsEntry r = (is_store_name r.name ≡ true) × (byte_len (codes r.value) ≤ max_val_kib * 1024)

-- And at most 100 entries for any job.
pub record IsBounded (rows : List JobStore) : Type 0 where
  pub entries : All IsEntry rows
  pub few : (job : ℕ) → count (store_of job) rows ≤ max_val_count

module _ (now job : ℕ) (name value : String) (secret : Bool) (source : String) where
  one_more :
      (rows : List JobStore) (k : ℕ)
      → count (store_of k) rows ≤ max_val_count
      → count (store_of job) rows < max_val_count
      → count (store_of k) (rows ++ new_entry now job name value secret source ∷ []) ≤ max_val_count
  unfolding count
  one_more rows k h room =
      ground
        (arith, count-append (store_of k) rows (new_entry now job name value secret source ∷ []))

  written-IsBounded :
      (pre : Option JobStore) (rows rows' : List JobStore)
      → is_store_name name ≡ true
      → byte_len (codes value) ≤ max_val_kib * 1024
      → IsPut now job name value secret source pre rows rows'
      → IsBounded rows
      → IsBounded rows'
  written-IsBounded none rows rows' n v p h = subst IsBounded (sym (p.appended refl).0) (record {
    entries = All-append IsEntry rows _ h.entries ((n, v), tt);
    few = λ k. one_more rows k (h.few k) (p.appended refl).1;
  })
  written-IsBounded (some q) rows rows' n v p h =
      subst IsBounded (sym (p.overwrote q refl)) (record {
        entries =
            All-update {P = IsEntry} {Q = IsEntry} _ _ rows (λ r hit e. (e.0, v)) (λ r miss e. e)
              h.entries;
        few = λ k.
            rw
              (count-update (store_of k) (store_is job name) (overwritten value secret source now q)
                rows (λ r. refl))
              (h.few k);
      })

  -- A put that succeeds keeps the limits of the store: names of letters, digits and underscores, values
  -- of at most 10 KiB, and at most 100 entries for every job.
  pub job_store_put-IsBounded :
      (s t : Database)
      → IsBounded s.job_store
      → job_store_put now job name value secret source s ≡ ok (tt, t)
      → IsBounded t.job_store
  job_store_put-IsBounded s t b h =
      let (n, v, p) = job_store_put-IsPut now job name value secret source s t h in
      written-IsBounded _ s.job_store t.job_store n v p b
