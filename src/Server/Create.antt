-- ===== src/Server/Create.antt =====
-- server/src/db.rs: `job_create`.
use buildomat.Prelude.{
  ℕ, suc, Bool, false, not, ◌&&◌, ◌||◌, List, [], ◌∷◌, Option, none, some, String, ◌==◌, ltb,
  if◌then◌else◌, length, is_empty, codes, trim, contains,
}
use text.Mathlib.Text.{◌==◌ as str_eq}
use buildomat.Sql.{find, insert}
use buildomat.Server.Models.{
  Task, Job, JobDepend, JobInput, JobOutputRule, JobTag, CreateTask, CreateDepend, CreateOutputRule,
  task_from_create, depend_from_create, input_from_create, rule_from_create,
}
use buildomat.Server.State.{
  Tx, pure, gets, stored, bail, no_tasks, too_many_tasks, too_many_depends, invalid_depend_name,
  no_trigger_condition, too_many_inputs, invalid_input_name, prior_job_missing, ◌>>=◌, ◌>>◌,
  refuse_if, job_is,
}
use buildomat.Server.Events.{i_job_time_record}

-- A name with a slash, or with nothing but white space.
unfoldable pub is_bad_name : String → Bool
unfolding trim
is_bad_name name = contains b'/' (codes name) || is_empty (trim (codes name))

unfoldable pub check_depends : List CreateDepend → Tx (Unit {0})
unfolding is_bad_name
check_depends [] = pure tt
check_depends (cd ∷ cds) = do
  refuse_if (is_bad_name cd.name) (bail invalid_depend_name)
  refuse_if (not cd.on_failed && not cd.on_completed) (bail no_trigger_condition)
  check_depends cds

unfoldable pub check_inputs : List String → Tx (Unit {0})
unfolding is_bad_name
check_inputs [] = pure tt
check_inputs (ci ∷ cis) = do refuse_if (is_bad_name ci) (bail invalid_input_name); check_inputs cis

-- PRIMARY KEY (job, seq), (job, name).
abbrev pub same_task : Task → Task → Bool
same_task a b = a.job == b.job && a.seq == b.seq

abbrev pub same_depend : JobDepend → JobDepend → Bool
same_depend a b = a.job == b.job && str_eq a.name b.name

abbrev pub same_input : JobInput → JobInput → Bool
same_input a b = a.job == b.job && str_eq a.name b.name

abbrev pub same_rule : JobOutputRule → JobOutputRule → Bool
same_rule a b = a.job == b.job && a.seq == b.seq

abbrev pub same_tag : JobTag → JobTag → Bool
same_tag a b = a.job == b.job && str_eq a.name b.name

unfoldable pub insert_job : Job → Tx (Unit {0})
insert_job j = do
  rows ← gets (λ s. insert (λ (a b : Job). a.id == b.id) j s.job)
  stored rows (λ s js. record s { job = js })

unfoldable pub insert_tasks : ℕ → ℕ → List CreateTask → Tx (Unit {0})
insert_tasks job i [] = pure tt
insert_tasks job i (ct ∷ cts) = do
  rows ← gets (λ s. insert same_task (task_from_create ct job i) s.task)
  stored rows (λ s ts. record s { task = ts })
  insert_tasks job (suc i) cts

-- A prior job has to be there already, and to be the owner's.
abbrev pub owned_by : ℕ → Option Job → Bool
owned_by owner none = false
owned_by owner (some j) = j.owner == owner

unfoldable pub insert_depends : ℕ → ℕ → List CreateDepend → Tx (Unit {0})
insert_depends owner job [] = pure tt
insert_depends owner job (cd ∷ cds) = do
  pj ← gets (λ s. find (job_is cd.prior_job) s.job)
  refuse_if (not (owned_by owner pj)) (bail prior_job_missing)
  rows ← gets (λ s. insert same_depend (depend_from_create cd job) s.job_depend)
  stored rows (λ s ds. record s { job_depend = ds })
  insert_depends owner job cds

unfoldable pub insert_inputs : ℕ → List String → Tx (Unit {0})
insert_inputs job [] = pure tt
insert_inputs job (ci ∷ cis) = do
  rows ← gets (λ s. insert same_input (input_from_create ci job) s.job_input)
  stored rows (λ s is. record s { job_input = is })
  insert_inputs job cis

unfoldable pub insert_rules : ℕ → ℕ → List CreateOutputRule → Tx (Unit {0})
insert_rules job i [] = pure tt
insert_rules job i (rule ∷ rules) = do
  rows ← gets (λ s. insert same_rule (rule_from_create rule job i) s.job_output_rule)
  stored rows (λ s rs. record s { job_output_rule = rs })
  insert_rules job (suc i) rules

unfoldable pub insert_tags : ℕ → List (String × String) → Tx (Unit {0})
insert_tags job [] = pure tt
insert_tags job ((n, v) ∷ tags) = do
  rows ← gets (λ s. insert same_tag (record { job = job; name = n; value = v }) s.job_tag)
  stored rows (λ s ts. record s { job_tag = ts })
  insert_tags job tags

pub record NewJob : Type 0 where
  pub owner : ℕ
  pub name : String
  pub target_name : String
  pub target : ℕ
  pub tasks : List CreateTask
  pub output_rules : List CreateOutputRule
  pub inputs : List String
  pub tags : List (String × String)
  pub depends : List CreateDepend

-- Inputs and dependencies make a job wait.
abbrev pub starts_waiting : NewJob → Bool
starts_waiting n = not (is_empty n.inputs) || not (is_empty n.depends)

unfoldable pub new_job : ℕ → NewJob → Job
new_job id n = record {
  id = id;
  owner = n.owner;
  name = n.name;
  target = n.target_name;
  target_id = some n.target;
  waiting = starts_waiting n;
  complete = false;
  failed = false;
  worker = none;
  cancelled = false;
  time_archived = none;
}

unfoldable pub check_request : NewJob → Tx (Unit {0})
check_request n = do
  refuse_if (is_empty n.tasks) (bail no_tasks)
  refuse_if (ltb 64 (length n.tasks)) (bail too_many_tasks)
  refuse_if (ltb 8 (length n.depends)) (bail too_many_depends)
  check_depends n.depends
  refuse_if (ltb 32 (length n.inputs)) (bail too_many_inputs)
  check_inputs n.inputs

-- The ID is made outside, and its time is the time of submission.
module _ (datetime : ℕ → ℕ) where
  unfoldable pub job_create : ℕ → NewJob → Tx Job
  job_create id n = do
    check_request n
    let j = new_job id n
    insert_job j
    i_job_time_record id "submit" (datetime id)
    if starts_waiting n then pure tt else i_job_time_record id "ready" (datetime id)
    insert_tasks id 0 n.tasks
    insert_depends n.owner id n.depends
    insert_inputs id n.inputs
    insert_rules id 0 n.output_rules
    insert_tags id n.tags
    pure j
