-- ===== src/Server/Waiters/Satisfied.antt =====
-- What `job_depend_satisfy` does to the dependencies.
use buildomat.Prelude.{
  ℕ, ◌≡◌, refl, sym, ap, ap₂, subst, ◌&&◌, ◌∙◌, Bool, true, false, List, [], ◌∷◌, some, String,
  Result, ok, arith, ◌==◌,
}
use text.Mathlib.Text.{◌==◌ as str_eq}
use text.Mathlib.TextEquality.{eq_iff}
use buildomat.Sql.{find, update}
use buildomat.Sql.Lemmas.{find-eq-some}
use buildomat.Server.Models.{Job, JobInput, JobOutput, JobFile, JobDepend}
use buildomat.Server.State.{Database, Failure, Tx, after, job_is}
use buildomat.Server.State.Keeps.{Keeps, Keeps-bind, keeps_rules}
use buildomat.Server.Depends.{
  depend_is, add_copy, copy_outputs_of, copy_inputs, set_satisfied, job_depend_satisfy,
}
use buildomat.Server.State.Bind.{
  bind-eq-ok, refuse_if-eq-ok, gets-bind, found-eq-ok, find_job-eq-ok,
}

pub record OnDepends (l : List JobDepend) (s : Database) : Type 0 where
  pub depends : s.job_depend ≡ l

module _ {l : List JobDepend} where
  add_copy-OnDepends : (ji : JobInput) → Keeps (OnDepends l) (add_copy ji)
  unfolding add_copy
  add_copy-OnDepends ji = record { at = λ s h. record { depends = h.depends } }

  copy_outputs-OnDepends :
      (j : Job) (d : JobDepend) (os : List (JobOutput × JobFile))
      → Keeps (OnDepends l) (copy_outputs_of j d os)
  unfolding copy_outputs_of
  copy_outputs-OnDepends j d [] = search keeps_rules
  copy_outputs-OnDepends j d (o ∷ os) =
      Keeps-bind _ _ (add_copy-OnDepends _) λ _. copy_outputs-OnDepends j d os

  copy_inputs-OnDepends :
      (j : Job) (d : JobDepend) (pj : Job) → Keeps (OnDepends l) (copy_inputs j d pj)
  unfolding copy_inputs
  copy_inputs-OnDepends j d pj = search (keeps_rules, copy_outputs-OnDepends) depth 8

same_depends :
    {A : Type 0} (m : Tx A) (s : Database) (a : A) (t : Database)
    → Keeps (OnDepends s.job_depend) m
    → m s ≡ ok (a, t)
    → t.job_depend ≡ s.job_depend
same_depends m s a t k h =
    subst (λ (r : Result Failure (_ × Database)). (after s r).job_depend ≡ s.job_depend) h
      (k.at s (record { depends = refl })).depends

abbrev pub satisfied : JobDepend → JobDepend
satisfied d = record d { satisfied = true }

set_satisfied-eq-ok :
    (job : ℕ) (name : String) (s t : Database)
    → set_satisfied job name s ≡ ok (tt, t)
    → t.job_depend ≡ update (depend_is job name) satisfied s.job_depend
unfolding set_satisfied
set_satisfied-eq-ok job name s t h = ground arith

and_right : (a b : Bool) → (a && b) ≡ true → b ≡ true
and_right true b h = h
and_right false b h = absurd (ground arith)

-- The row found is the one with that name, so the write is by the name that was asked for.
steps-satisfied :
    (jid : ℕ) (name : String) (s t u : Database) (j : Job) (d : JobDepend) (pj : Job)
    → find (job_is jid) s.job ≡ some j
    → find (depend_is j.id name) s.job_depend ≡ some d
    → copy_inputs j d pj s ≡ ok (tt, u)
    → set_satisfied j.id d.name u ≡ ok (tt, t)
    → t.job_depend ≡ update (depend_is jid name) satisfied s.job_depend
steps-satisfied jid name s t u j d pj ej ed ec es =
    let i : j.id ≡ jid = ground (arith, find-eq-some (job_is jid) s.job j ej) in
    let n : d.name ≡ name = (eq_iff d.name name).0 (
      and_right (d.job == j.id) (str_eq d.name name)
        (find-eq-some (depend_is j.id name) s.job_depend d ed).0) in
    set_satisfied-eq-ok j.id d.name u t es
    ∙ ap (update (depend_is j.id d.name) satisfied)
        (same_depends (copy_inputs j d pj) s tt u (copy_inputs-OnDepends j d pj) ec)
    ∙ ap₂ (λ x y. update (depend_is x y) satisfied s.job_depend) i n

pub satisfy-eq-ok :
    (jid : ℕ) (name : String) (s t : Database)
    → job_depend_satisfy jid name s ≡ ok (tt, t)
    → t.job_depend ≡ update (depend_is jid name) satisfied s.job_depend
unfolding job_depend_satisfy
satisfy-eq-ok jid name s t h =
    let (j, ej, h1) = find_job-eq-ok jid _ s (tt, t) h in
    let h2 = refuse_if-eq-ok _ _ _ s (tt, t) h1 in
    let h3 = sym (gets-bind _ _ s) ∙ h2 in
    let (d, ed, h4) = found-eq-ok _ _ s (tt, t) h3 in
    let h5 = refuse_if-eq-ok _ _ _ s (tt, t) h4 in
    let (pj, _, h6) = find_job-eq-ok d.prior_job _ s (tt, t) h5 in
    let h7 = refuse_if-eq-ok _ _ _ s (tt, t) h6 in
    let (_, u, e8, h8) = bind-eq-ok _ _ s tt t h7 in
    steps-satisfied jid name s t u j d pj ej ed e8 h8
