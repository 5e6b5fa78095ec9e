-- ===== src/Server/Commits/Threads.antt =====
-- The worker threads keep the commits sound, and no assertion in them fails.
use buildomat.Prelude.{
  ℕ, ◌-◌, ◌<◌, ◌≡◌, refl, sym, ap, subst, inl, inr, Bool, true, false, not, ◌&&◌, List, [], ◌∷◌,
  Option, none, some, arith, ◌==◌, if◌then◌else◌, Bool-cases, Option-cases,
}
use buildomat.Sql.{find, count, update, select}
use buildomat.Sql.Lemmas.{count-update, find-eq-some}
use buildomat.Sql.Counts.{count-select}
use buildomat.Server.State.{Database}
use buildomat.Server.Commits.{
  BackgroundId, FileCommit, CommitState, CommitError, queued, active, complete, same_commit,
  commit_is, is_queued, is_working, still_pending, put_state, mark_active, take_work, mark_complete,
  commit_work,
}
use buildomat.Server.Commits.History.{
  Work, Uploads, Action, work_at, taken, finished, finish_off, work_on, worked, step, submit, take,
  work, finish, mark, forget, elsewhere,
}
use buildomat.Server.Commits.Sound.{
  IsSound, commit_in, job_pending, has_job, pending_le, queued_pending, head_queued, exists,
  one_state, count-put_state, pending-put_state,
}
use buildomat.Server.Commits.Requests.{
  Goes, commit_file-Goes, mark_job_completed-Goes, forget_job-Goes,
}

-- The work of the other threads.
left_over :
    (id k : BackgroundId) (ws : List Work)
    → count (λ w. work_at k w && not (work_at id w)) ws
      ≡ (if same_commit k id then 0 else count (work_at k) ws)
unfolding count
left_over id k [] = ground arith
left_over id k (w ∷ ws) = ground (arith, left_over id k ws)

active_state : (st : CommitState) → is_working st ≡ true → (t : ℕ) × (st ≡ active t)
active_state queued e = absurd (ground arith)
active_state (active t) e = (t, refl)
active_state (complete d m) e = absurd (ground arith)

module _ (u : Uploads) (s : IsSound u) where
  -- A commit that is pending belongs to a job that is not completed.
  open_job :
      (t : CommitState → Bool) (id : BackgroundId) (j : ℕ)
      → ((st : CommitState) → t st ≡ true → still_pending st ≡ true)
      → 0 < count (commit_in t id) u.inner.commits
      → has_job j u.inner.completed_jobs ≡ true
      → (id.job == j) ≡ false
  open_job t id j h some_in k = elim (Bool-cases (id.job == j)) [
    | inr n ↦ n
    | inl y ↦
        let e : id.job ≡ j = ground arith in
        absurd (
          omega (
            arith,
            some_in,
            pending_le t id u.inner.commits h,
            s.closed j k,
            ap (λ j. count (job_pending j) u.inner.commits) e,
          ))
  ]

  abbrev with_taken : ℕ → BackgroundId → List BackgroundId → FileCommit → Uploads
  with_taken now id rest fc = record u {
    inner = record (u.inner) {
      queue = rest;
      commits = update (commit_is id) (put_state (active now)) u.inner.commits;
    };
    working = record { fc = fc; result = none } ∷ u.working;
  }

  taken-IsSound :
      (now : ℕ) (id : BackgroundId) (rest : List BackgroundId) (fc : FileCommit)
      → u.inner.queue ≡ id ∷ rest
      → find (commit_is id) u.inner.commits ≡ some fc
      → IsSound (with_taken now id rest fc)
  unfolding count
  taken-IsSound now id rest fc e f = record {
    keyed = λ k. omega (
      arith,
      s.keyed k,
      count-update (commit_is k) (commit_is id) (put_state (active now)) u.inner.commits
          (λ c. refl),
    );
    waiting = λ k. ground (
      arith,
      s.waiting k,
      ap (count (same_commit k)) e,
      count-put_state is_queued (active now) id k u.inner.commits,
      one_state k u.inner.commits (s.keyed k),
    );
    busy = λ k. ground (
      arith,
      s.waiting k,
      s.busy k,
      ap (count (same_commit k)) e,
      (find-eq-some (commit_is id) u.inner.commits fc f).0,
      (find-eq-some (commit_is id) u.inner.commits fc f).1,
      s.keyed id,
      count-put_state is_working (active now) id k u.inner.commits,
      one_state k u.inner.commits (s.keyed k),
    );
    closed = λ j h.
        pending-put_state (active now) id j u.inner.commits (s.closed j h)
          (inr (open_job is_queued id j queued_pending (head_queued u s id rest e) h));
    marked = s.marked;
  }

  take_work-Goes : (now : ℕ) → Goes (taken u (take_work now u.inner))
  unfolding take_work mark_active
  take_work-Goes now = by_queue u.inner.queue refl
    where
      by_queue :
          (q : List BackgroundId) → u.inner.queue ≡ q → Goes (taken u (take_work now u.inner))
      by_queue [] e = rw (e, take_work) (u, refl, s)
      by_queue (id ∷ rest) e =
          let (fc, f, is_in) = exists u s is_queued id (head_queued u s id rest e) in
          let same : fc.id ≡ id =
            ground (arith, (find-eq-some (commit_is id) u.inner.commits fc f).0) in
          rw (e, f, is_in, take_work)
            (
              _,
              refl,
              subst (λ k. IsSound (with_taken now k rest fc)) (sym same)
                  (taken-IsSound now id rest fc e f),
            )

  at_key :
      (id k : BackgroundId)
      → 0 < count (commit_in is_working id) u.inner.commits
      → same_commit k id ≡ true
      → 0 < count (commit_in is_working k) u.inner.commits
  at_key id k h y =
      let e : id ≡ k = ground arith in
      subst (λ k. 0 < count (commit_in is_working k) u.inner.commits) e h

  finished-IsSound :
      (id : BackgroundId) (d : ℕ) (msg : Option CommitError)
      → 0 < count (commit_in is_working id) u.inner.commits
      → IsSound (record u {
        inner = record (u.inner) {
          commits = update (commit_is id) (put_state (complete d msg)) u.inner.commits;
        };
        working = select (λ w. not (work_at id w)) u.working;
      })
  finished-IsSound id d msg some_in = record {
    keyed = λ k. omega (
      arith,
      s.keyed k,
      count-update (commit_is k) (commit_is id) (put_state (complete d msg)) u.inner.commits
          (λ c. refl),
    );
    waiting = λ k. ground (
      arith,
      s.waiting k,
      one_state k u.inner.commits (s.keyed k),
      at_key id k some_in,
      count-put_state is_queued (complete d msg) id k u.inner.commits,
    );
    busy = λ k. ground (
      arith,
      s.busy k,
      count-select (work_at k) (λ w. not (work_at id w)) u.working,
      left_over id k u.working,
      count-put_state is_working (complete d msg) id k u.inner.commits,
    );
    closed =
        λ j h. pending-put_state (complete d msg) id j u.inner.commits (s.closed j h) (inl refl);
    marked = s.marked;
  }

  mark_complete-Goes :
      (now : ℕ) (id : BackgroundId) (msg : Option CommitError)
      → 0 < count (commit_in is_working id) u.inner.commits
      → Goes (finished u id (mark_complete now id msg u.inner))
  unfolding mark_complete
  mark_complete-Goes now id msg some_in =
      let (fc, f, is_in) = exists u s is_working id some_in in
      let (t, e) = active_state fc.state is_in in
      rw (f, e, mark_complete) (_, refl, finished-IsSound id (now - t) msg some_in)

  finish-Goes :
      (now : ℕ) (id : BackgroundId) → Goes (finish_off now u id (find (work_at id) u.working))
  finish-Goes now id = by_work (find (work_at id) u.working) refl
    where
      by_result :
          (w : Work) (r : Option (Option CommitError))
          → find (work_at id) u.working ≡ some w
          → w.result ≡ r
          → Goes (finish_off now u id (some w))
      by_result w none f e = rw (e, finish_off) (u, refl, s)
      by_result w (some msg) f e =
          rw (e, finish_off)
            (mark_complete-Goes now id msg
              (omega (arith, s.busy id, (find-eq-some (work_at id) u.working w f).1)))

      by_work : (o : Option Work) → find (work_at id) u.working ≡ o → Goes (finish_off now u id o)
      by_work none f = (u, refl, s)
      by_work (some w) f = by_result w w.result f refl

  worked-Goes :
      (id : BackgroundId) (r : Option (Option CommitError × Database)) → Goes (worked u id r)
  worked-Goes id none = (
    _,
    refl,
    record {
      keyed = s.keyed;
      waiting = s.waiting;
      busy = λ k. ground (
        arith,
        s.busy k,
        count-select (work_at k) (λ w. not (work_at id w)) u.working,
        left_over id k u.working,
      );
      closed = s.closed;
      marked = s.marked;
    },
  )
  worked-Goes id (some (r, db)) = (
    _,
    refl,
    record {
      keyed = s.keyed;
      waiting = s.waiting;
      busy = λ k. omega (
        arith,
        s.busy k,
        count-update (work_at k) (work_at id) (λ w. record w { result = some r }) u.working
            (λ w. refl),
      );
      closed = s.closed;
      marked = s.marked;
    },
  )

  work-Goes :
      (len : ℕ → ℕ → Option ℕ) (copied : Option ℕ) (fid : ℕ) (id : BackgroundId) (o : Option Work)
      → Goes (work_on len copied fid u id o)
  work-Goes len copied fid id none = (u, refl, s)
  work-Goes len copied fid id (some w) = elim (Option-cases w.result) [
    | inl e ↦ rw (e, work_on) (worked-Goes id (commit_work len copied fid w.fc u.db))
    | inr (r, e) ↦ rw (e, work_on) (u, refl, s)
  ]

  pub step-Goes : (a : Action) → Goes (step a u)
  unfolding step
  step-Goes (submit id kind size chunks) = commit_file-Goes u s id kind size chunks
  step-Goes (take now) = take_work-Goes now
  step-Goes (work id len copied fid) = work-Goes len copied fid id (find (work_at id) u.working)
  step-Goes (finish id now) = finish-Goes now id
  step-Goes (mark job) = mark_job_completed-Goes u s job
  step-Goes (forget job) = elim (Bool-cases (has_job job u.closing)) [
    | inl y ↦ rw y (forget_job-Goes u s job y)
    | inr n ↦ rw n (u, refl, s)
  ]
  step-Goes (elsewhere db) = (
    _,
    refl,
    record {
      keyed = s.keyed;
      waiting = s.waiting;
      busy = s.busy;
      closed = s.closed;
      marked = s.marked;
    },
  )
