-- ===== src/Server/Api/Calls.antt =====
-- The calls that the requests of a worker make for one job, on what the database has of another.
use buildomat.Prelude.{
  ℕ, ◌≡◌, refl, Bool, true, false, List, [], ◌∷◌, Option, none, some, String, arith, Bool-cases,
  inl, inr, ◌==◌, not, ◌&&◌,
}
use buildomat.Sql.{count}
use buildomat.Sql.Miss.{select-insert, select-update_miss}
use buildomat.Server.Models.{Task, Job, JobStore, Payload}
use buildomat.Server.State.Keeps.{
  Keeps, Keeps-bind, Keeps-if, Keeps-gets, Keeps-refuse_if, Keeps-found, Keeps-pure,
}
use buildomat.Server.Jobs.{
  Clock, task_is, job_append_event, update_task, mark_incomplete, mark_tasks, job_outcome,
  finish_job, job_complete, task_complete,
}
use buildomat.Server.Store.{store_is, update_store, store_entry, job_store_put}
use buildomat.Server.Files.{insert_file, job_add_output}
use buildomat.Server.Api.Parts.{
  Part, IsPart, Part-same, find_job-Part, insert-Part, update_task-Part, update_job-Part,
  event_insert-Part, time_record-Part, with_store, with_file, with_output, part_rules,
}

moved : (k job id : ℕ) → (job == k) ≡ false → id ≡ job → (id == k) ≡ false
moved k job id other same = ground arith

module _ {k : ℕ} {p : Part} (job : ℕ) (other : (job == k) ≡ false) where
  pub job_append_event-Part :
      (task : Option ℕ) (stream : String) (time : ℕ) (remote : Option ℕ) (payload : Payload)
      → Keeps (IsPart k p) (job_append_event job task stream time remote payload)
  unfolding job_append_event
  job_append_event-Part task stream time remote payload = find_job-Part job _ λ j same.
      Keeps-bind _ _ (Keeps-refuse_if _ _)
        λ _. event_insert-Part j.id _ _ _ _ _ (moved k job j.id other same)

  mark_task-Part :
      (id seq : ℕ) (f : Task → Task)
      → id ≡ job
      → ((r : Task) → (f r).job ≡ r.job)
      → Keeps (IsPart k p) (update_task (λ r. task_is id seq r && not r.complete) f)
  mark_task-Part id seq f here same = update_task-Part _ f (λ r h. ground (arith, same r))

  mark_incomplete-Part :
      (now : Clock) (j : Job) (n : ℕ) (t : Task)
      → j.id ≡ job
      → Keeps (IsPart k p) (mark_incomplete now j n t)
  unfolding mark_incomplete
  mark_incomplete-Part now j n t same = Keeps-if _ _ _ (Keeps-pure n) (
      Keeps-bind _ _ (event_insert-Part j.id _ _ _ _ _ (moved k job j.id other same))
        λ _. Keeps-bind _ _ (mark_task-Part j.id t.seq _ same (λ r. refl)) λ _. search part_rules)

  mark_tasks-Part :
      (now : Clock) (j : Job) (n : ℕ) (failed : Bool) (ts : List Task)
      → j.id ≡ job
      → Keeps (IsPart k p) (mark_tasks now j n failed ts)
  unfolding mark_tasks
  mark_tasks-Part now j n failed [] same = search part_rules
  mark_tasks-Part now j n failed (t ∷ ts) same =
      Keeps-bind _ _ (mark_incomplete-Part now j n t same) λ m. mark_tasks-Part now j m _ ts same

  job_outcome-Part :
      (now : Clock) (j : Job) (failed : Bool) (marked : ℕ × Bool)
      → j.id ≡ job
      → Keeps (IsPart k p) (job_outcome now j failed marked)
  unfolding job_outcome
  job_outcome-Part now j true (n, b) same = search part_rules
  job_outcome-Part now j false (n, false) same = search part_rules
  job_outcome-Part now j false (n, true) same =
      let miss = moved k job j.id other same in search (part_rules, miss)

  finish_job-Part :
      (now : Clock) (j : Job) (failed : Bool)
      → j.id ≡ job
      → Keeps (IsPart k p) (finish_job now j failed)
  unfolding finish_job
  finish_job-Part now j failed same = Keeps-bind _ _ (Keeps-refuse_if _ _) λ _.
      Keeps-bind _ _ (Keeps-gets _) λ ts.
        Keeps-bind _ _ (mark_tasks-Part now j 0 false ts same) λ marked.
          Keeps-bind _ _ (job_outcome-Part now j failed marked same) λ outcome.
            Keeps-bind _ _ (update_job-Part _ _ (λ r h. ground (arith, other, same))) λ _.
              Keeps-bind _ _ (time_record-Part j.id _ _ (moved k job j.id other same))
                λ _. search part_rules

  pub job_complete-Part :
      (now : Clock) (failed : Bool) → Keeps (IsPart k p) (job_complete now job failed)
  unfolding job_complete
  job_complete-Part now failed =
      find_job-Part job _
        λ j same. Keeps-if j.complete _ _ (search part_rules) (finish_job-Part now j failed same)

  pub task_complete-Part :
      (seq : ℕ) (failed : Bool) → Keeps (IsPart k p) (task_complete job seq failed)
  unfolding task_complete
  task_complete-Part seq failed = Keeps-bind _ _ (Keeps-gets _) λ row.
      Keeps-bind _ _ (Keeps-found row) λ t.
        Keeps-if t.complete _ _ (search part_rules)
          (Keeps-bind _ _ (mark_task-Part job seq _ refl (λ r. refl)) λ _. search part_rules)

  insert_file-Part : (id size : ℕ) → Keeps (IsPart k p) (insert_file job id size)
  unfolding insert_file
  insert_file-Part id size =
      insert-Part _ _
        λ s rs e. with_file k s rs (select-insert (λ r. r.job == k) _ _ s.job_file rs other e)

  pub job_add_output-Part :
      (path : String) (id size : ℕ) → Keeps (IsPart k p) (job_add_output job path id size)
  unfolding job_add_output
  job_add_output-Part path id size = find_job-Part job _ λ j same.
      Keeps-bind _ _ (Keeps-refuse_if _ _) λ _. Keeps-bind _ _ (insert_file-Part id size) λ _.
        insert-Part _ _
          λ s rs e. with_output k s rs (select-insert (λ r. r.job == k) _ _ s.job_output rs other e)

  update_store-Part :
      (name : String) (f : JobStore → JobStore)
      → ((r : JobStore) → (f r).job ≡ r.job)
      → Keeps (IsPart k p) (update_store (store_is job name) f)
  unfolding update_store
  update_store-Part name f same = Part-same _ (λ s.
      elim (Bool-cases (count (store_is job name) s.job_store == 1)) [
        | inl e ↦ rw e (
            with_store k s _ (
              select-update_miss (λ r. r.job == k) _ f s.job_store (λ r h. ground (arith, same r))))
        | inr e ↦ rw e refl
      ])

  store_entry-Part :
      (now : ℕ) (name value : String) (secret : Bool) (source : String) (pre : Option JobStore)
      → Keeps (IsPart k p) (store_entry now job name value secret source pre)
  unfolding store_entry
  store_entry-Part now name value secret source none = Keeps-bind _ _ (Keeps-gets _) λ n.
      Keeps-bind _ _ (Keeps-refuse_if _ _) λ _.
        insert-Part _ _
          λ s rs e. with_store k s rs (select-insert (λ r. r.job == k) _ _ s.job_store rs other e)
  store_entry-Part now name value secret source (some pre) = update_store-Part name _ (λ r. refl)

  pub job_store_put-Part :
      (now : ℕ) (name value : String) (secret : Bool) (source : String)
      → Keeps (IsPart k p) (job_store_put now job name value secret source)
  unfolding job_store_put
  job_store_put-Part now name value secret source = Keeps-bind _ _ (Keeps-refuse_if _ _) λ _.
      Keeps-bind _ _ (Keeps-refuse_if _ _) λ _. find_job-Part job _ λ j same.
        Keeps-bind _ _ (Keeps-refuse_if _ _) λ _.
          Keeps-bind _ _ (Keeps-gets _) λ pre. store_entry-Part now name value secret source pre
