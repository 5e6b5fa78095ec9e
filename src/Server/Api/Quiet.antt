-- ===== src/Server/Api/Quiet.antt =====
-- server/src/files.rs: what an operation on the files of one job does to those of the others.
use buildomat.Prelude.{
  ℕ, ◌≡◌, refl, false, not, List, [], ◌∷◌, Option, Result, ok, arith, inl, inr, Option-cases, ◌==◌,
  any,
}
use buildomat.Sql.{select, find}
use buildomat.Sql.Miss.{select-snoc}
use buildomat.Server.Commits.{
  FileKind, CommitError, BackgroundId, FileCommit, Inner, queued, of_job, commit_is, commit_again,
  commit_new, commit_file, mark_job_completed, forget_job,
}
use buildomat.Server.Api.{Central}
use buildomat.Server.Api.Parts.{part}
use buildomat.Server.Api.Local.{share}

pub record Quiet (k : ℕ) (i i' : Inner) : Type 0 where
  pub commits : select (of_job k) i'.commits ≡ select (of_job k) i.commits
  pub queue : select (λ id. id.job == k) i'.queue ≡ select (λ id. id.job == k) i.queue
  pub completed : any (λ j. j == k) i'.completed_jobs ≡ any (λ j. j == k) i.completed_jobs

pub Quiet-share :
    (k : ℕ) (c c' : Central)
    → part k c'.database ≡ part k c.database
    → Quiet k c.files c'.files
    → share k c' ≡ share k c
unfolding share
Quiet-share k c c' same quiet = rw (same, quiet.commits, quiet.queue, quiet.completed) refl

module _ (k : ℕ) (id : BackgroundId) (kind : FileKind) (size : ℕ) (chunks : List ℕ) (i i' : Inner)
    (o : Option (Result (CommitError × ℕ) (Unit {0}))) where
  commit_again-Quiet :
      (fc : FileCommit) → commit_again fc kind size chunks i ≡ ok (o, i') → Quiet k i i'
  unfolding commit_again
  commit_again-Quiet fc h = record {
    commits = ground arith;
    queue = ground arith;
    completed = ground arith;
  }

  commit_new-Quiet :
      (id.job == k) ≡ false → commit_new id kind size chunks i ≡ ok (o, i') → Quiet k i i'
  unfolding commit_new
  commit_new-Quiet other h = record {
    commits = ground (
      arith,
      select-snoc (of_job k) i.commits
          (record { id = id; expected_size = size; chunks = chunks; kind = kind; state = queued })
          other,
    );
    queue = ground (arith, select-snoc (λ x. x.job == k) i.queue id other);
    completed = ground arith;
  }

  pub commit_file-Quiet :
      (id.job == k) ≡ false → commit_file id kind size chunks i ≡ ok (o, i') → Quiet k i i'
  unfolding commit_file
  commit_file-Quiet other h = elim (Option-cases (find (commit_is id) i.commits)) [
    | inl e ↦ commit_new-Quiet other (rw (commit_file, e) at h)
    | inr (fc, e) ↦ commit_again-Quiet fc (rw (commit_file, e) at h)
  ]

select-others :
    (k job : ℕ) (cs : List FileCommit)
    → (job == k) ≡ false
    → select (of_job k) (select (λ c. not (of_job job c)) cs) ≡ select (of_job k) cs
unfolding select
select-others k job [] other = refl
select-others k job (c ∷ cs) other = ground (arith, other, select-others k job cs other)

module _ (k job : ℕ) (i i' : Inner) (other : (job == k) ≡ false) where
  pub mark-Quiet : mark_job_completed job i ≡ ok i' → Quiet k i i'
  unfolding mark_job_completed
  mark-Quiet h = record {
    commits = ground arith;
    queue = ground arith;
    completed = ground (arith, other);
  }

  pub forget-Quiet : forget_job job i ≡ ok i' → Quiet k i i'
  unfolding forget_job
  forget-Quiet h = record {
    commits = ground (arith, select-others k job i.commits other);
    queue = ground arith;
    completed = ground arith;
  }
