-- ===== src/Server/Commits/Sound.antt =====
-- What the commits keep: the queue holds the commits that are queued, a thread has in hand only one that
-- is active, and a job that is marked as completed has neither.
use buildomat.Prelude.{
  ℕ, ◌+◌, ◌≤◌, ◌<◌, ◌≡◌, refl, ap, inl, inr, ◌⊎◌, Bool, true, false, not, ◌&&◌, List, [], ◌∷◌, some,
  arith, ◌==◌, if◌then◌else◌, any, Bool-cases, Option-cases,
}
use buildomat.Sql.{find, count, update}
use buildomat.Sql.Counts.{
  count-find, find-none, count_split, count_mono, count-update_All, All-always,
}
use buildomat.Server.Commits.{
  BackgroundId, FileCommit, CommitState, queued, active, complete, same_commit, commit_is, of_job,
  is_queued, is_working, still_pending, put_state,
}
use buildomat.Server.Commits.History.{Uploads, work_at}

abbrev pub commit_in : (CommitState → Bool) → BackgroundId → FileCommit → Bool
commit_in t k c = commit_is k c && t c.state

abbrev pub job_pending : ℕ → FileCommit → Bool
job_pending job c = of_job job c && still_pending c.state

abbrev pub has_job : ℕ → List ℕ → Bool
has_job job js = any (λ j. j == job) js

pub record IsSound (u : Uploads) : Type 0 where
  pub keyed : (k : BackgroundId) → count (commit_is k) u.inner.commits ≤ 1
  pub waiting :
      (k : BackgroundId)
      → count (same_commit k) u.inner.queue ≡ count (commit_in is_queued k) u.inner.commits
  pub busy :
      (k : BackgroundId)
      → count (work_at k) u.working ≤ count (commit_in is_working k) u.inner.commits
  pub closed :
      (job : ℕ)
      → has_job job u.inner.completed_jobs ≡ true
      → count (job_pending job) u.inner.commits ≡ 0
  pub marked : (job : ℕ) → has_job job u.closing ≡ true → has_job job u.inner.completed_jobs ≡ true

-- What a write of a state does to the commits in some states.
pub count-put_state :
    (t : CommitState → Bool) (st : CommitState) (id k : BackgroundId) (cs : List FileCommit)
    → count (commit_in t k) (update (commit_is id) (put_state st) cs) ≡ (
        if same_commit k id
        then if t st then count (commit_is id) cs else 0
        else count (commit_in t k) cs)
unfolding count update
count-put_state t st id k [] = ground arith
count-put_state t st id k (c ∷ cs) = ground (arith, count-put_state t st id k cs)

-- A commit of a key in one state is the only one of that key.
pub only_in :
    (t : CommitState → Bool) (k : BackgroundId) (cs : List FileCommit) (c : FileCommit)
    → count (commit_is k) cs ≤ 1
    → 0 < count (commit_in t k) cs
    → find (commit_is k) cs ≡ some c
    → t c.state ≡ true
only_in t k cs c one some_in e = elim (Bool-cases (t c.state)) [
  | inl y ↦ y
  | inr n ↦ absurd (
      omega (
        arith,
        one,
        some_in,
        count_split (commit_is k) (λ c. t c.state) cs,
        count-find (commit_is k) (λ c. not (t c.state)) cs c e (ap not n),
      ))
]

-- A write to the commits of a key leaves the pending commits of other jobs.
pub pending-put_state :
    (st : CommitState) (id : BackgroundId) (job : ℕ) (cs : List FileCommit)
    → count (job_pending job) cs ≡ 0
    → (still_pending st ≡ false) ⊎ ((id.job == job) ≡ false)
    → count (job_pending job) (update (commit_is id) (put_state st) cs) ≡ 0
pending-put_state st id job cs h (inl over) = omega (
  arith,
  h,
  count-update_All (job_pending job) (commit_is id) (put_state st) cs
      (All-always cs (λ c a p. absurd (ground (arith, over)))),
)
pending-put_state st id job cs h (inr other) = omega (
  arith,
  h,
  count-update_All (job_pending job) (commit_is id) (put_state st) cs
      (All-always cs (λ c a p. absurd (ground (arith, other)))),
)

-- A commit that is queued or active, for each entry of the queue and each thread.
pub pending_le :
    (t : CommitState → Bool) (k : BackgroundId) (cs : List FileCommit)
    → ((st : CommitState) → t st ≡ true → still_pending st ≡ true)
    → count (commit_in t k) cs ≤ count (job_pending k.job) cs
pending_le t k cs h =
    count_mono (commit_in t k) (job_pending k.job) cs (λ c e. ground (arith, h c.state))

pub queued_pending : (st : CommitState) → is_queued st ≡ true → still_pending st ≡ true
queued_pending queued e = refl
queued_pending (active t) e = refl
queued_pending (complete d m) e = absurd (ground arith)

pub working_pending : (st : CommitState) → is_working st ≡ true → still_pending st ≡ true
working_pending queued e = refl
working_pending (active t) e = refl
working_pending (complete d m) e = absurd (ground arith)

queued_or_working : (st : CommitState) → is_queued st ≡ true → is_working st ≡ false
queued_or_working queued e = refl
queued_or_working (active t) e = absurd (ground arith)
queued_or_working (complete d m) e = refl

-- One key cannot be both queued and active.
pub one_state :
    (k : BackgroundId) (cs : List FileCommit)
    → count (commit_is k) cs ≤ 1
    → count (commit_in is_queued k) cs + count (commit_in is_working k) cs ≤ 1
one_state k cs one = omega (
  arith,
  one,
  count_split (commit_is k) (λ c. is_queued c.state) cs,
  count_mono (commit_in is_working k) (λ c. commit_is k c && not (is_queued c.state)) cs
      (λ c e. ground (arith, queued_or_working c.state)),
)

entry :
    (job : ℕ) (q : List BackgroundId)
    → any (λ id. id.job == job) q ≡ true
    → (id : BackgroundId) × (id.job ≡ job) × (0 < count (same_commit id) q)
unfolding count
entry job [] h = absurd (ground arith)
entry job (x ∷ q) h = elim (Bool-cases (x.job == job)) [
  | inl y ↦ (x, ground arith, ground arith)
  | inr n ↦ let (id, same_job, once) = entry job q (ground arith) in (id, same_job, ground arith)
]

counted : (id : BackgroundId) (rest : List BackgroundId) → 0 < count (same_commit id) (id ∷ rest)
unfolding count
counted id rest = ground arith

module _ (u : Uploads) (s : IsSound u) where
  -- The entry at the head of the queue has its commit, and that is queued.
  pub head_queued :
      (id : BackgroundId) (rest : List BackgroundId)
      → u.inner.queue ≡ id ∷ rest
      → 0 < count (commit_in is_queued id) u.inner.commits
  head_queued id rest e =
      omega (arith, s.waiting id, ap (count (same_commit id)) e, counted id rest)

  pub exists :
      (t : CommitState → Bool) (id : BackgroundId)
      → 0 < count (commit_in t id) u.inner.commits
      → (c : FileCommit) × (find (commit_is id) u.inner.commits ≡ some c) × (t c.state ≡ true)
  exists t id h = elim (Option-cases (find (commit_is id) u.inner.commits)) [
    | inl e ↦ absurd (
        omega (
          arith,
          h,
          find-none (commit_is id) u.inner.commits e,
          count_split (commit_is id) (λ c. t c.state) u.inner.commits,
        ))
    | inr (c, e) ↦ (c, e, only_in t id u.inner.commits c (s.keyed id) h e)
  ]

  -- No entry of the queue belongs to a job without pending commits.
  pub queue_without :
      (job : ℕ)
      → count (job_pending job) u.inner.commits ≡ 0
      → any (λ id. id.job == job) u.inner.queue ≡ false
  queue_without job h = elim (Bool-cases (any (λ id. id.job == job) u.inner.queue)) [
    | inr n ↦ n
    | inl y ↦
        let (id, same_job, queued_once) = entry job u.inner.queue y in
        let one : count (commit_in is_queued id) u.inner.commits
            ≤ count (job_pending id.job) u.inner.commits =
          pending_le is_queued id u.inner.commits queued_pending in
        absurd (
          omega (
            arith,
            s.waiting id,
            queued_once,
            one,
            h,
            ap (λ j. count (job_pending j) u.inner.commits) same_job,
          ))
  ]
