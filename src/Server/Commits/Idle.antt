-- ===== src/Server/Commits/Idle.antt =====
-- The commits over every history of a server.
use buildomat.Prelude.{
  ℕ, ◌<◌, ◌≡◌, refl, ap, subst, inl, inr, true, false, List, [], ◌∷◌, some, arith, ◌==◌, any,
  Bool-cases,
}
use buildomat.Sql.{count}
use buildomat.Sql.Counts.{any-count}
use buildomat.Server.State.{Database}
use buildomat.Server.Commits.{BackgroundId, is_working}
use buildomat.Server.Commits.History.{Work, Uploads, Action, work_at, run, start}
use buildomat.Server.Commits.Sound.{
  IsSound, job_pending, has_job, pending_le, working_pending, queue_without,
}
use buildomat.Server.Commits.Requests.{Goes}
use buildomat.Server.Commits.Threads.{step-Goes}

run-Goes : (acts : List Action) (u : Uploads) → IsSound u → Goes (run acts u)
unfolding run
run-Goes [] u s = (u, refl, s)
run-Goes (a ∷ rest) u s =
    let (v, e, t) = step-Goes u s a in let (w, f, r) = run-Goes rest v t in (w, rw (e, run) f, r)

start-IsSound : (db : Database) → IsSound (start db)
unfolding count
start-IsSound db = record {
  keyed = λ k. omega arith;
  waiting = λ k. refl;
  busy = λ k. omega arith;
  closed = λ j h. absurd (ground arith);
  marked = λ j h. absurd (ground arith);
}

in_hand :
    (job : ℕ) (ws : List Work)
    → any (λ w. w.fc.id.job == job) ws ≡ true
    → (id : BackgroundId) × (id.job ≡ job) × (0 < count (work_at id) ws)
unfolding count
in_hand job [] h = absurd (ground arith)
in_hand job (w ∷ ws) h = elim (Bool-cases (w.fc.id.job == job)) [
  | inl y ↦ (w.fc.id, ground arith, ground arith)
  | inr n ↦ let (id, same_job, once) = in_hand job ws (ground arith) in (id, same_job, ground arith)
]

working_without :
    (u : Uploads)
    → IsSound u
    → (job : ℕ) → count (job_pending job) u.inner.commits ≡ 0
    → any (λ w. w.fc.id.job == job) u.working ≡ false
working_without u s job h = elim (Bool-cases (any (λ w. w.fc.id.job == job) u.working)) [
  | inr n ↦ n
  | inl y ↦
      let (id, same_job, once) = in_hand job u.working y in
      absurd (
        omega (
          arith,
          s.busy id,
          once,
          pending_le is_working id u.inner.commits working_pending,
          h,
          ap (λ j. count (job_pending j) u.inner.commits) same_job,
        ))
]

-- Whatever requests, threads and completions do from a start without commits, in whatever order: none of
-- the assertions and `unwrap`s of files.rs about the commits, the queue and the completed jobs fails. That
-- holds too where a panic of the database kills the thread that records a file, which leaves its commit
-- active.
pub run_total :
    (acts : List Action) (db : Database) → (u : Uploads) × (run acts (start db) ≡ some u)
run_total acts db = let (u, e, s) = run-Goes acts (start db) (start-IsSound db) in (u, e)

-- Whatever requests, threads and completions do from a start without commits, in whatever order: once a
-- job is marked as completed, none of its commits waits in the queue, no thread has one in hand, and none
-- is pending.
pub completed_idle :
    (acts : List Action) (db : Database) (u : Uploads) (job : ℕ)
    → run acts (start db) ≡ some u
    → has_job job u.inner.completed_jobs ≡ true
    → (any (λ id. id.job == job) u.inner.queue ≡ false)
      × (any (λ w. w.fc.id.job == job) u.working ≡ false)
      × (any (job_pending job) u.inner.commits ≡ false)
completed_idle acts db u job e h =
    let (v, f, t) = run-Goes acts (start db) (start-IsSound db) in
    let s : IsSound u = subst IsSound (ground arith) t in
    let gone : count (job_pending job) u.inner.commits ≡ 0 = s.closed job h in
    (
      queue_without u s job gone,
      working_without u s job gone,
      any-count (job_pending job) u.inner.commits gone,
    )
