-- ===== src/Server/Depends.antt =====
-- server/src/db.rs: `job_depend_satisfy`, which ends the wait of a job for another.
use buildomat.Prelude.{
  ℕ, Bool, true, not, ◌&&◌, List, [], ◌∷◌, some, String, ok, ◌==◌, if◌then◌else◌, text_trim,
  starts_with_slash,
}
use Prim.Native.String.{◌++◌ as push_str}
use text.Mathlib.Text.{◌==◌ as str_eq}
use buildomat.Sql.{find, update, insert_or_ignore}
use buildomat.Server.Models.{Job, JobInput, JobOutput, JobFile, JobDepend}
use buildomat.Server.State.{
  Tx, pure, gets, bail, depend_not_waiting, depend_already_satisfied, prior_job_not_complete, ◌>>=◌,
  ◌>>◌, refuse_if, found, find_job,
}
use buildomat.Server.Create.{same_input}
use buildomat.Server.Files.{i_job_outputs}

abbrev pub depend_is : ℕ → String → JobDepend → Bool
depend_is job name d = d.job == job && str_eq d.name name

-- "builds" and "/work/file.txt" give "builds/work/file.txt".
unfoldable pub input_name : String → String → String
unfolding text_trim
input_name depend path =
    let name = text_trim depend in
    let separated = if not (starts_with_slash path) then push_str name "/" else name in
    push_str separated path

unfoldable pub copied_input : Job → JobDepend → JobOutput × JobFile → JobInput
unfolding input_name
copied_input j d (pjo, pjf) = record {
  job = j.id;
  name = input_name d.name pjo.path;
  id = some pjf.id;
  other_job = some pjf.job;
}

-- The insert's row count is not looked at: an input of that name may be there already.
unfoldable pub add_copy : JobInput → Tx (Unit {0})
add_copy ji s = ok (tt, record s { job_input = insert_or_ignore same_input ji s.job_input })

unfoldable pub copy_outputs_of : Job → JobDepend → List (JobOutput × JobFile) → Tx (Unit {0})
unfolding copied_input
copy_outputs_of j d [] = pure tt
copy_outputs_of j d (o ∷ os) = do add_copy (copied_input j d o); copy_outputs_of j d os

unfoldable pub copy_inputs : Job → JobDepend → Job → Tx (Unit {0})
copy_inputs j d pj =
    if not d.copy_outputs
    then pure tt
    else (do outs ← gets (λ s. i_job_outputs pj.id s); copy_outputs_of j d outs)

unfoldable pub set_satisfied : ℕ → String → Tx (Unit {0})
set_satisfied job name s = ok (
  tt,
  record s {
    job_depend = update (depend_is job name) (λ d. record d { satisfied = true }) s.job_depend;
  },
)

-- Of the record that the caller has, the name is used.
unfoldable pub job_depend_satisfy : ℕ → String → Tx (Unit {0})
job_depend_satisfy jid name = do
  j ← find_job jid
  refuse_if (not j.waiting) (bail depend_not_waiting)
  row ← gets (λ s. find (depend_is j.id name) s.job_depend)
  d ← found row
  refuse_if d.satisfied (bail depend_already_satisfied)
  pj ← find_job d.prior_job
  refuse_if (not pj.complete) (bail prior_job_not_complete)
  copy_inputs j d pj
  set_satisfied j.id d.name
