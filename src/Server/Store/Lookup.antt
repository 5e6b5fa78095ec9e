-- ===== src/Server/Store/Lookup.antt =====
-- What is read from a job's store behind `job_store_put`.
use buildomat.Prelude.{
  ℕ, ◌*◌, ◌≤◌, ◌<◌, ◌≡◌, refl, sym, ap, ap₂, ==_iff, ◌∙◌, Bool, true, false, ◌&&◌, ◌||◌, List, [],
  ◌∷◌, ◌++◌, Option, none, some, String, ok, arith, ◌==◌, Bool-cases, inl, inr, if◌then◌else◌,
  codes,
}
use text.Mathlib.Text.{◌==◌ as str_eq}
use text.Mathlib.TextEquality.{eq_iff}
use buildomat.Sql.{find, count, update, insert}
use buildomat.Sql.Lemmas.{find-update, find-eq-some, written}
use buildomat.Server.Models.{JobStore}
use buildomat.Server.State.{Database}
use buildomat.Server.Store.{
  is_store_name, byte_len, max_val_count, max_val_kib, store_is, store_of, same_entry, update_store,
  overwritten, store_entry, job_store_put,
}
use buildomat.Server.State.Bind.{
  refuse_if-eq-ok, refuse_if-false, stored-eq-ok, gets-bind, find_job-eq-ok,
}

abbrev pub new_entry : ℕ → ℕ → String → String → Bool → String → JobStore
new_entry now job name value secret source = record {
  job = job;
  name = name;
  value = value;
  secret = secret;
  source = source;
  time_update = now;
}

abbrev pub was_secret : Option JobStore → Bool
was_secret none = false
was_secret (some pre) = pre.secret

-- The entry that a put leaves, from the one that was there: what was a secret stays one.
abbrev pub put_entry : ℕ → ℕ → String → String → Bool → String → Option JobStore → JobStore
put_entry now job name value secret source pre =
    new_entry now job name value (secret || was_secret pre) source

module _ (now job : ℕ) (name value : String) (secret : Bool) (source : String) where
  -- How a put changes the table.
  pub record IsPut (pre : Option JobStore) (rows rows' : List JobStore) : Type 0 where
    pub overwrote :
        (p : JobStore)
        → pre ≡ some p
        → rows' ≡ update (store_is job name) (overwritten value secret source now p) rows
    pub appended :
        pre ≡ none
        → (rows' ≡ rows ++ new_entry now job name value secret source ∷ [])
          × (count (store_of job) rows < max_val_count)

  inserted :
      (rows rs : List JobStore) (r : JobStore)
      → insert same_entry r rows ≡ some rs
      → rs ≡ rows ++ r ∷ []
  unfolding insert
  inserted rows rs r h = ground arith

  entry-IsPut :
      (pre : Option JobStore) (s t : Database)
      → store_entry now job name value secret source pre s ≡ ok (tt, t)
      → IsPut pre s.job_store t.job_store
  unfolding store_entry update_store
  entry-IsPut none s t h =
      let h1 = sym (gets-bind _ _ s) ∙ h in
      let room = refuse_if-false _ _ _ s (tt, t) h1 in
      let h2 = sym (gets-bind _ _ s) ∙ refuse_if-eq-ok _ _ _ s (tt, t) h1 in
      let (rs, e, w) = stored-eq-ok _ _ s t h2 in
      record {
        overwrote = λ p q. absurd (ground arith);
        appended = λ q. (
          sym (ap (λ (d : Database). d.job_store) w)
              ∙ inserted s.job_store rs (new_entry now job name value secret source) e,
          ground (arith, room),
        );
      }
  entry-IsPut (some p) s t h = record {
    overwrote = λ q e. ground arith;
    appended = λ e. absurd (ground arith);
  }

  pub job_store_put-IsPut :
      (s t : Database)
      → job_store_put now job name value secret source s ≡ ok (tt, t)
      → (is_store_name name ≡ true)
        × (byte_len (codes value) ≤ max_val_kib * 1024)
        × IsPut (find (store_is job name) s.job_store) s.job_store t.job_store
  unfolding job_store_put
  job_store_put-IsPut s t h =
      let h1 = refuse_if-eq-ok _ _ _ s (tt, t) h in
      let h2 = refuse_if-eq-ok _ _ _ s (tt, t) h1 in
      let (j, _, h3) = find_job-eq-ok job _ s (tt, t) h2 in
      let h4 = refuse_if-eq-ok _ _ _ s (tt, t) h3 in
      let h5 = sym (gets-bind _ _ s) ∙ h4 in
      (
        ground (arith, refuse_if-false _ _ _ s (tt, t) h),
        ground (arith, refuse_if-false _ _ _ s (tt, t) h1),
        entry-IsPut _ s t h5,
      )

module _ {R : Type 0} where
  find-snoc_none :
      (p : R → Bool) (rs : List R) (r : R)
      → find p rs ≡ none
      → p r ≡ true
      → find p (rs ++ r ∷ []) ≡ some r
  unfolding find
  find-snoc_none p [] r h k = ground arith
  find-snoc_none p (x ∷ rs) r h k = ground (arith, find-snoc_none p rs r)

  find-snoc_miss :
      (p : R → Bool) (rs : List R) (r : R) → p r ≡ false → find p (rs ++ r ∷ []) ≡ find p rs
  unfolding find
  find-snoc_miss p [] r k = ground arith
  find-snoc_miss p (x ∷ rs) r k = ground (arith, find-snoc_miss p rs r k)

and_left : (a b : Bool) → (a && b) ≡ true → a ≡ true
and_left a b h = ground arith

and_right : (a b : Bool) → (a && b) ≡ true → b ≡ true
and_right a b h = ground arith

-- Two keys that a row has are one key.
other_key :
    (job job' : ℕ) (name name' : String) (q : JobStore)
    → (job' == job && str_eq name' name) ≡ false
    → store_is job' name' q ≡ true
    → store_is job name q ≡ false
other_key job job' name name' q c h = elim (Bool-cases (store_is job name q)) [
  | inr e ↦ e
  | inl e ↦
      let a : q.name ≡ name' = (eq_iff q.name name').0 (ground arith) in
      let b : q.name ≡ name = (eq_iff q.name name).0 (ground arith) in
      let n : str_eq name' name ≡ true = (eq_iff name' name).1 (sym a ∙ b) in absurd (ground arith)
]

module _ (now job : ℕ) (name value : String) (secret : Bool) (source : String) where
  entry_key : store_is job name (new_entry now job name value secret source) ≡ true
  entry_key = let e : str_eq name name ≡ true = (eq_iff name name).1 refl in ground arith

  overwritten-entry :
      (p : JobStore)
      → store_is job name p ≡ true
      → overwritten value secret source now p p
        ≡ put_entry now job name value secret source (some p)
  overwritten-entry p h =
      let i : p.job ≡ job = (==_iff p.job job).0 (and_left _ _ h) in
      let n : p.name ≡ name = (eq_iff p.name name).0 (and_right _ _ h) in
      let b : (if p.secret then true else secret) ≡ (secret || p.secret) = ground arith in
      ap (λ x. new_entry now p.job p.name value x source) b
      ∙ ap₂ (λ x y. new_entry now x y value (secret || p.secret) source) i n

  put_found :
      (pre : Option JobStore) (rows rows' : List JobStore)
      → find (store_is job name) rows ≡ pre
      → IsPut now job name value secret source pre rows rows'
      → find (store_is job name) rows' ≡ some (put_entry now job name value secret source pre)
  put_found none rows rows' e h =
      let b : secret ≡ (secret || false) = ground arith in
      ap (find (store_is job name)) (h.appended refl).0
      ∙ find-snoc_none (store_is job name) rows _ e entry_key
      ∙ ap (λ x. some (new_entry now job name value x source)) b
  put_found (some p) rows rows' e h =
      ap (find (store_is job name)) (h.overwrote p refl)
      ∙ find-update (store_is job name) (store_is job name) (overwritten value secret source now p)
          rows (λ r. refl)
      ∙ ap (written (store_is job name) (overwritten value secret source now p)) e
      ∙ rw ((find-eq-some (store_is job name) rows p e).0)
          (ap some (overwritten-entry p (find-eq-some (store_is job name) rows p e).0))

  new_key :
      (job' : ℕ) (name' : String)
      → (job' == job && str_eq name' name) ≡ false
      → store_is job' name' (new_entry now job name value secret source) ≡ false
  new_key job' name' c =
      let r = new_entry now job name value secret source in
      elim (Bool-cases (store_is job' name' r)) [
        | inl e ↦ absurd (ground (arith, other_key job job' name name' r c e, entry_key))
        | inr e ↦ e
      ]

  put_missed :
      (job' : ℕ) (name' : String) (pre : Option JobStore) (rows rows' : List JobStore)
      → (job' == job && str_eq name' name) ≡ false
      → IsPut now job name value secret source pre rows rows'
      → find (store_is job' name') rows' ≡ find (store_is job' name') rows
  put_missed job' name' none rows rows' c h =
      ap (find (store_is job' name')) (h.appended refl).0
      ∙ find-snoc_miss (store_is job' name') rows _ (new_key job' name' c)
  put_missed job' name' (some p) rows rows' c h =
      ap (find (store_is job' name')) (h.overwrote p refl)
      ∙ find-update (store_is job' name') (store_is job name)
          (overwritten value secret source now p) rows (λ r. refl)
      ∙ kept (find (store_is job' name') rows) refl
    where
      kept :
          (o : Option JobStore)
          → find (store_is job' name') rows ≡ o
          → written (store_is job name) (overwritten value secret source now p) o ≡ o
      kept none e = refl
      kept (some q) e =
          rw (other_key job job' name name' q c (find-eq-some (store_is job' name') rows q e).0)
            refl

  -- After a put that succeeds, a look at the entry of that job and name finds the value, the source and
  -- the time of the put, and a secret if the put says so or the entry was one already; a look at any
  -- other entry finds what it found before.
  pub job_store_put-find :
      (job' : ℕ) (name' : String) (s t : Database)
      → job_store_put now job name value secret source s ≡ ok (tt, t)
      → find (store_is job' name') t.job_store ≡ (
          if job' == job && str_eq name' name
          then some
              (put_entry now job name value secret source (find (store_is job name) s.job_store))
          else find (store_is job' name') s.job_store)
  job_store_put-find job' name' s t h =
      let (_, _, p) = job_store_put-IsPut now job name value secret source s t h in
      elim (Bool-cases (job' == job && str_eq name' name)) [
        | inl c ↦
            let i : job' ≡ job = (==_iff job' job).0 (and_left _ _ c) in
            let n : name' ≡ name = (eq_iff name' name).0 (and_right _ _ c) in
            rw c (
              ap₂ (λ x y. find (store_is x y) t.job_store) i n
              ∙ put_found _ s.job_store t.job_store refl p)
        | inr c ↦ rw c (put_missed job' name' _ s.job_store t.job_store c p)
      ]
