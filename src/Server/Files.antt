-- ===== src/Server/Files.antt =====
-- server/src/db.rs: the files of a job, its inputs and outputs, and the files that are published.
use buildomat.Prelude.{
  ℕ, suc, Bool, not, ◌&&◌, ◌||◌, List, [], ◌∷◌, ◌++◌, Option, none, some, String, ok, err, ◌==◌,
  if◌then◌else◌, is_none, codes, contains, holds_id,
}
use text.Mathlib.Text.{◌==◌ as str_eq}
use buildomat.Sql.{select, find, count, update, insert, order_by}
use buildomat.Server.Models.{Job, JobInput, JobOutput, JobFile, PublishedFile}
use buildomat.Server.State.{
  Database, Tx, pure, gets, stored, conflict, bail, panic, job_not_complete, published_differently,
  job_already_complete, job_not_waiting, name_is_a_path, ◌>>=◌, ◌>>◌, refuse_if, fail, found,
  find_job,
}

-- PRIMARY KEY (job, id), (job, path), (owner, series, version, name).
abbrev pub same_file : JobFile → JobFile → Bool
same_file a b = a.job == b.job && a.id == b.id

-- PRIMARY KEY (job, path), and UNIQUE on `id`.
abbrev pub same_output : JobOutput → JobOutput → Bool
same_output a b = (a.job == b.job && str_eq a.path b.path) || a.id == b.id

abbrev pub published_is : ℕ → String → String → String → PublishedFile → Bool
published_is owner series version name p =
    p.owner == owner && str_eq p.series series && str_eq p.version version && str_eq p.name name

abbrev pub same_published : PublishedFile → PublishedFile → Bool
same_published a b = published_is a.owner a.series a.version a.name b

abbrev pub output_is : ℕ → ℕ → JobOutput → Bool
output_is job file o = o.job == job && o.id == file

unfoldable pub insert_file : ℕ → ℕ → ℕ → Tx (Unit {0})
insert_file job id size = do
  rows ← gets (λ s.
      insert same_file (record { job = job; id = id; size = size; time_archived = none })
        s.job_file)
  stored rows (λ s fs. record s { job_file = fs })

unfoldable pub job_add_output : ℕ → String → ℕ → ℕ → Tx (Unit {0})
unfolding insert_file
job_add_output job path id size = do
  j ← find_job job
  refuse_if j.complete (conflict (job_already_complete j.id))
  insert_file job id size
  rows ← gets (λ s. insert same_output (record { job = job; path = path; id = id }) s.job_output)
  stored rows (λ s os. record s { job_output = os })

abbrev pub input_is : ℕ → String → JobInput → Bool
input_is job name i = i.job == job && str_eq i.name name

unfoldable pub update_input : (JobInput → Bool) → (JobInput → JobInput) → Tx (Unit {0})
update_input p f s =
    if count p s.job_input == 1
    then ok (tt, record s { job_input = update p f s.job_input })
    else err panic

unfoldable pub job_add_input : ℕ → String → ℕ → ℕ → Tx (Unit {0})
unfolding insert_file
job_add_input job name id size = do
  refuse_if (contains b'/' (codes name)) (bail name_is_a_path)
  j ← find_job job
  refuse_if (not j.waiting) (conflict (job_not_waiting j.id))
  insert_file job id size
  update_input (input_is job name) (λ i. record i { id = some id })

unfoldable pub insert_published : PublishedFile → Tx (Unit {0})
insert_published row = do
  rows ← gets (λ s. insert same_published row s.published_file)
  stored rows (λ s ps. record s { published_file = ps })

-- The record that stands already has to be the same.
unfoldable pub publish : Job → ℕ → PublishedFile → Option PublishedFile → Tx (Unit {0})
publish j job row none = insert_published row
publish j job row (some pf) =
    if pf.owner == j.owner && pf.job == job && pf.file == row.file
    then pure tt
    else fail (conflict published_differently)

unfoldable pub job_publish_output : ℕ → ℕ → String → String → String → Tx (Unit {0})
job_publish_output job file series version name = do
  j ← find_job job
  refuse_if (not j.complete) (conflict job_not_complete)
  output ← gets (λ s. find (output_is job file) s.job_output)
  jo ← found output
  pf ← gets (λ s. find (published_is j.owner series version name) s.published_file)
  publish j job
      (record {
        owner = j.owner;
        series = series;
        version = version;
        name = name;
        job = job;
        file = file;
      })
      pf

abbrev pub file_is : ℕ → ℕ → JobFile → Bool
file_is job id f = f.job == job && f.id == id

unfoldable pub job_file_mark_archived : JobFile → ℕ → Tx (Unit {0})
job_file_mark_archived file time s =
    let p : JobFile → Bool = λ f. file_is file.job file.id f && is_none f.time_archived in
    if count p s.job_file == 1
    then ok (
      tt,
      record s { job_file = update p (λ f. record f { time_archived = some time }) s.job_file },
    )
    else err panic

-- The join of outputs and files.
unfoldable pub files_of : JobOutput → List JobFile → List (JobOutput × JobFile)
files_of o [] = []
files_of o (f ∷ fs) =
    let rest = files_of o fs in if f.job == o.job && f.id == o.id then (o, f) ∷ rest else rest

unfoldable pub join_outputs : List JobFile → List JobOutput → List (JobOutput × JobFile)
join_outputs fs [] = []
join_outputs fs (o ∷ os) = files_of o fs ++ join_outputs fs os

unfoldable pub i_job_outputs : ℕ → Database → List (JobOutput × JobFile)
i_job_outputs job s =
    order_by (λ r. r.1.id) (select (λ r. r.1.job == job) (join_outputs s.job_file s.job_output))

-- The file of an input is the job's own, or that of the other job.
abbrev pub is_input_file : JobInput → JobFile → Bool
is_input_file i f =
    holds_id i.id f.id
    && (if is_none i.other_job then f.job == i.job else holds_id i.other_job f.job)

-- A left join: an input without a file stands once, without one.
abbrev with_files : JobInput → List JobFile → List (JobInput × Option JobFile)
with_files i [] = (i, none) ∷ []
with_files i (f ∷ []) = (i, some f) ∷ []
with_files i (f ∷ g ∷ fs) = (i, some f) ∷ with_files i (g ∷ fs)

unfoldable pub join_inputs : List JobFile → List JobInput → List (JobInput × Option JobFile)
join_inputs fs [] = []
join_inputs fs (i ∷ is) = with_files i (select (is_input_file i) fs) ++ join_inputs fs is

-- In the order of the file IDs, rows without one first.
abbrev pub id_key : Option ℕ → ℕ
id_key none = 0
id_key (some n) = suc n

unfoldable pub job_inputs : ℕ → Database → List (JobInput × Option JobFile)
job_inputs job s =
    order_by (λ r. id_key r.0.id)
      (select (λ r. r.0.job == job) (join_inputs s.job_file s.job_input))
