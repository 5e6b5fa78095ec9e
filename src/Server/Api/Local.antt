-- ===== src/Server/Api/Local.antt =====
-- What a request about one job leaves as it is.
use buildomat.Prelude.{
  ℕ, ◌≡◌, refl, ◌∙◌, Bool, false, List, Option, String, Result, ok, err, ◌⊎◌, inl, inr, ◌==◌, any,
}
use buildomat.Sql.{select}
use buildomat.Server.Models.{Job}
use buildomat.Server.State.{Database, Failure, Tx, after}
use buildomat.Server.State.Keeps.{Keeps}
use buildomat.Server.Commits.{BackgroundId, FileCommit, of_job}
use buildomat.Server.Api.{HttpError, Handler, Central, call, ◌>>=◌}
use buildomat.Server.Api.WorkerRequests.{own_job}
use buildomat.Server.Api.Serve.{answered, on_database}
use buildomat.Server.Api.Parts.{Part, part, IsPart}
use buildomat.Server.Api.Owner.{IsOwner, own_job-cases}
use buildomat.Server.Api.{reply, deny, look, settle, proceed}

-- What the server has of one job.
pub record Share : Type 0 where
  pub database : Part
  pub commits : List FileCommit
  pub queue : List BackgroundId
  pub completed : Bool

unfoldable pub share : ℕ → Central → Share
share k c = record {
  database = part k c.database;
  commits = select (of_job k) c.files.commits;
  queue = select (λ id. id.job == k) c.files.queue;
  completed = any (λ j. j == k) c.files.completed_jobs;
}

-- Everything of the other jobs is as it was.
unfoldable pub Spares : ℕ → Central → Central → Type 0
Spares job c c' = (k : ℕ) → (job == k) ≡ false → share k c' ≡ share k c

-- A handler that leaves everything of the other jobs in the database.
pub record Local {A : Type 0} (job : ℕ) (h : Handler A) : Type 0 where
  pub at : (s : Database) (k : ℕ) → (job == k) ≡ false → part k (h s).1 ≡ part k s

module _ {A : Type 0} (k : ℕ) where
  settle-part :
      (s : Database) (r : Result Failure (A × Database))
      → part k (settle s r).1 ≡ part k (after s r)
  settle-part s (ok (a, t)) = refl
  settle-part s (err e) = refl

module _ {A : Type 0} {job : ℕ} where
  pub Local-call :
      (m : Tx A)
      → ((k : ℕ) (p : Part) → (job == k) ≡ false → Keeps (IsPart k p) m)
      → Local job (call m)
  unfolding call
  Local-call m keeps = record {
    at = λ s k other.
        rw (settle-part k s (m s))
          (((keeps k (part k s) other).at s (record { holds = refl })).holds);
  }

  pub Local-reply : (a : A) → Local job (reply a)
  unfolding reply
  Local-reply a = record { at = λ s k other. refl }

  pub Local-deny : (e : HttpError) → Local {A = A} job (deny e)
  unfolding deny
  Local-deny e = record { at = λ s k other. refl }

  pub Local-look : (f : Database → A) → Local job (look f)
  unfolding look
  Local-look f = record { at = λ s k other. refl }

module _ {A B : Type 0} {job : ℕ} where
  proceed-part :
      (r : Result HttpError A × Database) (f : A → Handler B) (k : ℕ)
      → (job == k) ≡ false
      → ((a : A) → Local job (f a))
      → part k (proceed r f).1 ≡ part k r.1
  proceed-part (ok a, s) f k other lf = (lf a).at s k other
  proceed-part (err e, s) f k other lf = refl

  pub Local-bind :
      (m : Handler A) (f : A → Handler B)
      → Local job m
      → ((a : A) → Local job (f a))
      → Local job (m >>= f)
  unfolding ◌>>=◌
  Local-bind m f lm lf = record {
    at = λ s k other. proceed-part (m s) f k other lf ∙ lm.at s k other;
  }

module _ {A : Type 0} (c : Central) (k : ℕ) where
  answered-share :
      (r : Result HttpError A × Database)
      → part k r.1 ≡ part k c.database
      → share k (answered (λ s. record c { database = s }) r).1 ≡ share k c
  unfolding share
  answered-share (ok a, s) same = rw same refl
  answered-share (err e, s) same = rw same refl

unfoldable pub Isolated : Option String → Option ℕ → Central → Central → Type 0
Isolated token job c c' = (c' ≡ c) ⊎ ((j : Job) × IsOwner token job j c.database × Spares j.id c c')

module _ (token : Option String) (job : Option ℕ) where
  pub own_job-Isolated :
      {A : Type 0} (f : Job → Handler A) (c : Central)
      → ((j : Job) → Local j.id (f j))
      → Isolated token job c (on_database (own_job token job >>= f) c).1
  unfolding Isolated on_database Spares ◌>>=◌
  own_job-Isolated f c local = elim (own_job-cases token job c.database) [
    | inl (e, h) ↦ inl (rw h refl)
    | inr (j, owner, h) ↦ inr (
      j,
      owner,
      λ k other. rw h (answered-share c k (f j c.database) ((local j).at c.database k other)),
    )
  ]
