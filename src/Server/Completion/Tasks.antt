-- ===== src/Server/Completion/Tasks.antt =====
-- The loop of `job_complete` over the tasks.
use buildomat.Prelude.{
  ℕ, ◌+◌, ◌≡◌, sym, ap, subst, ◌∙◌, Bool, true, false, not, ◌&&◌, ◌||◌, List, [], ◌∷◌, none, ok,
  arith, ◌==◌, Bool-cases, inl, inr, any, All, ==_refl, if◌then◌else◌,
}
use buildomat.Sql.{select, update, order_by}
use buildomat.Sql.Lemmas.{All-update, map-All, any-order_by}
use buildomat.Server.Models.{Task, Job, task_incomplete}
use buildomat.Server.State.{Database, pure, ◌>>◌}
use buildomat.Server.Events.{i_job_event_insert}
use buildomat.Server.Events.Sequence.{event_insert_lem}
use buildomat.Server.Jobs.{Clock, task_is, task_of, update_task, mark_incomplete, mark_tasks}
use buildomat.Server.State.Bind.{bind-eq-ok}

abbrev pub has_failed : Task → Bool
has_failed t = t.failed

-- A task that the loop would mark.
abbrev pub is_left : ℕ → Task → Bool
is_left seq t = t.seq == seq && not t.failed && not t.complete

-- A row that needs nothing more once the tasks `ts` have been looked at.
abbrev pub is_covered : ℕ → List Task → Task → Bool
is_covered job ts r = not (task_of job r) || r.complete || any (is_left r.seq) ts

module _ (now : Clock) (j : Job) where
  -- The flag of the loop.
  pub mark_tasks-failed :
      (ts : List Task) (n : ℕ) (b : Bool) (s : Database) (m : ℕ × Bool) (s' : Database)
      → mark_tasks now j n b ts s ≡ ok (m, s')
      → m.1 ≡ (b || any has_failed ts)
  unfolding mark_tasks pure
  mark_tasks-failed [] n b s m s' h = ground arith
  mark_tasks-failed (t ∷ ts) n b s m s' h =
      let (n', u, _, k) = bind-eq-ok _ _ s m s' h in
      mark_tasks-failed ts n' (b || t.failed) u m s' k ∙ ground arith

  event_insert-task :
      (s t : Database) (seq n : ℕ)
      → i_job_event_insert j.id none "control" (now n) none (task_incomplete seq) s ≡ ok (tt, t)
      → t.task ≡ s.task
  event_insert-task s t seq n h =
      ground (arith, event_insert_lem j.id none "control" (now n) none (task_incomplete seq) s)

  update_task-eq-ok :
      (p : Task → Bool) (f : Task → Task) (s t : Database)
      → update_task p f s ≡ ok (tt, t)
      → t.task ≡ update p f s.task
  unfolding update_task
  update_task-eq-ok p f s t h = ground arith

  -- What one turn does to the rows.
  abbrev marked : Task → List Task → List Task
  marked t rows =
      if t.failed || t.complete
      then rows
      else update (λ r. task_is j.id t.seq r && not r.complete)
          (λ r. record r { failed = true; complete = true }) rows

  turn_task :
      (n : ℕ) (t : Task) (s : Database) (n' : ℕ) (s' : Database)
      → (i_job_event_insert j.id none "control" (now n) none (task_incomplete t.seq)
            >> (update_task
                  (λ r. task_is j.id t.seq r && not r.complete)
                  (λ r. record r { failed = true; complete = true })
                >> pure (n + 1)))
          s
        ≡ ok (n', s')
      → s'.task
        ≡ update
            (λ r. task_is j.id t.seq r && not r.complete)
            (λ r. record r { failed = true; complete = true })
            s.task
  unfolding pure
  turn_task n t s n' s' h =
      let (_, u, e, k) = bind-eq-ok _ _ s n' s' h in
      let (_, v, e', k') = bind-eq-ok _ _ u n' s' k in
      let same : u.task ≡ s.task = event_insert-task s u t.seq n e in
      let wrote = update_task-eq-ok _ _ u v e' in
      let last : s' ≡ v = ground arith in
      ap (λ (d : Database). d.task) last ∙ wrote ∙ ap (update _ _) same

  mark_incomplete-task :
      (n : ℕ) (t : Task) (s : Database) (n' : ℕ) (s' : Database)
      → j.cancelled ≡ false
      → mark_incomplete now j n t s ≡ ok (n', s')
      → s'.task ≡ marked t s.task
  unfolding mark_incomplete pure
  mark_incomplete-task n t s n' s' c h = elim (Bool-cases (t.failed || t.complete)) [
    | inl e ↦ rw e (ground (arith, rw e at h))
    | inr e ↦ rw e (turn_task n t s n' s' (rw (e, c) at h))
  ]

  covered_next :
      (t : Task) (ts rows : List Task)
      → All (λ r. is_covered j.id (t ∷ ts) r ≡ true) rows
      → All (λ r. is_covered j.id ts r ≡ true) (marked t rows)
  covered_next t ts rows h = elim (Bool-cases (t.failed || t.complete)) [
    | inl e ↦ rw e (map-All rows (λ r k. ground arith) h)
    | inr e ↦ rw e (All-update _ _ rows (λ r hit k. ground arith) (λ r miss k. ground arith) h)
  ]

  -- The loop leaves nothing of the tasks that it was given.
  pub mark_tasks-covered :
      (ts : List Task) (n : ℕ) (b : Bool) (s : Database) (m : ℕ × Bool) (s' : Database)
      → j.cancelled ≡ false
      → mark_tasks now j n b ts s ≡ ok (m, s')
      → All (λ r. is_covered j.id ts r ≡ true) s.task
      → All (λ r. is_covered j.id [] r ≡ true) s'.task
  unfolding mark_tasks pure
  mark_tasks-covered [] n b s m s' c h k =
      let e : s ≡ s' = ground arith in
      subst (λ (d : Database). All (λ r. is_covered j.id [] r ≡ true) d.task) e k
  mark_tasks-covered (t ∷ ts) n b s m s' c h k =
      let (n', u, e, l) = bind-eq-ok _ _ s m s' h in
      mark_tasks-covered ts n' (b || t.failed) u m s' c l (
        subst (All (λ r. is_covered j.id ts r ≡ true)) (sym (mark_incomplete-task n t s n' u c e))
          (covered_next t ts s.task k))

-- A task that has failed is complete.
abbrev pub is_consistent : Task → Bool
is_consistent r = not r.failed || r.complete

weaker_cover :
    (job : ℕ) (t r : Task) (rows : List Task)
    → is_covered job (select (task_of job) rows) r ≡ true
    → is_covered job (select (task_of job) (t ∷ rows)) r ≡ true
unfolding select
weaker_cover job t r rows h = ground arith

own_cover :
    (job : ℕ) (r : Task) (rows : List Task)
    → is_consistent r ≡ true
    → is_covered job (select (task_of job) (r ∷ rows)) r ≡ true
unfolding select
own_cover job r rows h = ground (arith, ==_refl r.seq)

-- Before the loop, its tasks cover every row.
select-covered :
    (job : ℕ) (rows : List Task)
    → All (λ r. is_consistent r ≡ true) rows
    → All (λ r. is_covered job (select (task_of job) rows) r ≡ true) rows
select-covered job [] h = tt
select-covered job (t ∷ rows) h = (
  own_cover job t rows h.0,
  map-All rows (λ r k. weaker_cover job t r rows k) (select-covered job rows h.1),
)

pub query-covered :
    (job : ℕ) (rows : List Task)
    → All (λ r. is_consistent r ≡ true) rows
    → All (λ r. is_covered job (order_by (λ t. t.seq) (select (task_of job) rows)) r ≡ true) rows
query-covered job rows h =
    map-All rows
      (λ r k. rw (any-order_by (is_left r.seq) (λ t. t.seq) (select (task_of job) rows)) k)
      (select-covered job rows h)
