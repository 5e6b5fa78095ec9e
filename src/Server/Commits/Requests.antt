-- ===== src/Server/Commits/Requests.antt =====
-- Requests and completions keep the commits sound, and no assertion in them fails.
use buildomat.Prelude.{
  ℕ, ◌≡◌, refl, sym, ap, subst, ◌∙◌, inl, inr, Bool, true, false, not, ◌&&◌, ◌||◌, List, [], ◌∷◌,
  ◌++◌, Option, some, arith, ◌==◌, any, Bool-cases, Option-cases,
}
use buildomat.Sql.{find, count, select}
use buildomat.Sql.Lemmas.{count-append}
use buildomat.Sql.Counts.{
  find-none, count_split, count_mono, count-select, count-any, any-count, count-and_le,
}
use buildomat.Server.Commits.{
  BackgroundId, FileCommit, FileKind, CommitState, queued, same_commit, commit_is, of_job,
  same_kind, same_list, is_queued, is_working, still_pending, commit_again, commit_new, commit_file,
  mark_job_completed, forget_job,
}
use buildomat.Server.Commits.History.{Uploads, answered, marked, forgotten}
use buildomat.Server.Commits.Sound.{
  IsSound, commit_in, job_pending, has_job, queued_pending, working_pending, queue_without,
}

-- What a step does: it does not panic, and leaves a sound state.
abbrev pub Goes : Option Uploads → Type 0
Goes r = (v : Uploads) × (r ≡ some v) × IsSound v

has_job-false :
    (j id : ℕ) (js : List ℕ) → has_job id js ≡ false → has_job j js ≡ true → (id == j) ≡ false
has_job-false j id js h k = elim (Bool-cases (id == j)) [
  | inr n ↦ n
  | inl y ↦
      let e : id ≡ j = ground arith in
      let k' : has_job id js ≡ true = ap (λ t. has_job t js) e ∙ k in ground arith
]

module _ (u : Uploads) (s : IsSound u) where
  added :
      (c : FileCommit)
      → c.state ≡ queued
      → count (commit_is c.id) u.inner.commits ≡ 0
      → has_job c.id.job u.inner.completed_jobs ≡ false
      → IsSound (record u {
        inner = record (u.inner) {
          commits = u.inner.commits ++ c ∷ [];
          queue = u.inner.queue ++ c.id ∷ [];
        };
      })
  unfolding count
  added c st fresh free = record {
    keyed = λ k. ground (
      arith,
      s.keyed k,
      count-append (commit_is k) u.inner.commits (c ∷ []),
      count_mono (commit_is k) (commit_is c.id) u.inner.commits,
    );
    waiting = λ k. ground (
      arith,
      s.waiting k,
      count-append (same_commit k) u.inner.queue (c.id ∷ []),
      count-append (commit_in is_queued k) u.inner.commits (c ∷ []),
      ap is_queued st,
    );
    busy = λ k. ground (
      arith,
      s.busy k,
      count-append (commit_in is_working k) u.inner.commits (c ∷ []),
      ap is_working st,
    );
    closed = λ j h. ground (
      arith,
      s.closed j h,
      count-append (job_pending j) u.inner.commits (c ∷ []),
      has_job-false j c.id.job u.inner.completed_jobs free h,
    );
    marked = s.marked;
  }

  commit_new-Goes :
      (id : BackgroundId) (kind : FileKind) (size : ℕ) (chunks : List ℕ)
      → count (commit_is id) u.inner.commits ≡ 0
      → Goes (answered u (commit_new id kind size chunks u.inner))
  unfolding commit_new
  commit_new-Goes id kind size chunks fresh =
      elim (Bool-cases (has_job id.job u.inner.completed_jobs)) [
        | inl y ↦ rw y (u, refl, s)
        | inr n ↦ rw n (
          _,
          refl,
          added
              (record {
                id = id;
                expected_size = size;
                chunks = chunks;
                kind = kind;
                state = queued;
              })
              refl fresh n,
        )
      ]

  commit_again-Goes :
      (fc : FileCommit) (kind : FileKind) (size : ℕ) (chunks : List ℕ)
      → Goes (answered u (commit_again fc kind size chunks u.inner))
  unfolding commit_again
  commit_again-Goes fc kind size chunks =
      elim (Bool-cases (
        not (same_kind fc.kind kind)
        || (not (fc.expected_size == size) || not (same_list fc.chunks chunks)))) [
          | inl y ↦ rw y (u, refl, s)
          | inr n ↦ rw n (u, refl, s)
        ]

  pub commit_file-Goes :
      (id : BackgroundId) (kind : FileKind) (size : ℕ) (chunks : List ℕ)
      → Goes (answered u (commit_file id kind size chunks u.inner))
  unfolding commit_file
  commit_file-Goes id kind size chunks = elim (Option-cases (find (commit_is id) u.inner.commits)) [
    | inl e ↦
        rw (e, commit_file)
          (commit_new-Goes id kind size chunks (find-none (commit_is id) u.inner.commits e))
    | inr (fc, e) ↦ rw (e, commit_file) (commit_again-Goes fc kind size chunks)
  ]

  pub mark_job_completed-Goes : (job : ℕ) → Goes (marked u job (mark_job_completed job u.inner))
  unfolding mark_job_completed
  mark_job_completed-Goes job = elim (Bool-cases (any (job_pending job) u.inner.commits)) [
    | inl y ↦ rw y (u, refl, s)
    | inr n ↦
        let none_left : count (job_pending job) u.inner.commits ≡ 0 =
          count-any (job_pending job) u.inner.commits n in
        rw (n, queue_without u s job none_left)
          (
            _,
            refl,
            record {
              keyed = s.keyed;
              waiting = s.waiting;
              busy = s.busy;
              closed = λ j h. closed_by job none_left j h;
              marked = λ j h. elim (Bool-cases (job == j)) [
                | inl y ↦ ground arith
                | inr m ↦ ground (arith, s.marked j)
              ];
            },
          )
  ]
    where
      closed_by :
          (job : ℕ)
          → count (job_pending job) u.inner.commits ≡ 0
          → (j : ℕ) → has_job j (job ∷ u.inner.completed_jobs) ≡ true
          → count (job_pending j) u.inner.commits ≡ 0
      closed_by job none_left j h = elim (Bool-cases (job == j)) [
        | inl y ↦
            let e : job ≡ j = ground arith in
            subst (λ j. count (job_pending j) u.inner.commits ≡ 0) e none_left
        | inr m ↦ s.closed j (ground arith)
      ]

  -- The commits of a job with none pending may go.
  kept :
      (t : CommitState → Bool) (k : BackgroundId) (job : ℕ)
      → ((st : CommitState) → t st ≡ true → still_pending st ≡ true)
      → count (job_pending job) u.inner.commits ≡ 0
      → count (commit_in t k) (select (λ c. not (of_job job c)) u.inner.commits)
        ≡ count (commit_in t k) u.inner.commits
  kept t k job h gone = omega (
    arith,
    gone,
    count-select (commit_in t k) (λ c. not (of_job job c)) u.inner.commits,
    count_split (commit_in t k) (of_job job) u.inner.commits,
    count_mono (λ c. commit_in t k c && of_job job c) (job_pending job) u.inner.commits
        (λ c e. ground (arith, h c.state)),
  )

  pub forget_job-Goes :
      (job : ℕ) → has_job job u.closing ≡ true → Goes (forgotten u (forget_job job u.inner))
  unfolding forget_job
  forget_job-Goes job h =
      let gone : count (job_pending job) u.inner.commits ≡ 0 = s.closed job (s.marked job h) in
      rw
        (
          s.marked job h,
          queue_without u s job gone,
          any-count (job_pending job) u.inner.commits gone,
        )
        (
          _,
          refl,
          record {
            keyed = λ k. omega (
              arith,
              s.keyed k,
              count-select (commit_is k) (λ c. not (of_job job c)) u.inner.commits,
              count-and_le (commit_is k) (λ c. not (of_job job c)) u.inner.commits,
            );
            waiting = λ k. s.waiting k ∙ sym (kept is_queued k job queued_pending gone);
            busy = λ k. omega (arith, s.busy k, kept is_working k job working_pending gone);
            closed = λ j h. omega (
              arith,
              s.closed j h,
              count-select (job_pending j) (λ c. not (of_job job c)) u.inner.commits,
              count-and_le (job_pending j) (λ c. not (of_job job c)) u.inner.commits,
            );
            marked = s.marked;
          },
        )
