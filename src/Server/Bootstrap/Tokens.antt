-- ===== src/Server/Bootstrap/Tokens.antt =====
-- The tokens of workers: `worker_bootstrap` against `worker_auth`, server/src/db.rs.
use buildomat.Prelude.{
  ℕ, ◌≤◌, ◌<◌, ◌≡◌, refl, sym, ap, subst, ◌∙◌, Bool, true, false, ◌&&◌, List, [], ◌∷◌, Option, none,
  some, String, ok, arith, Bool-cases, Option-cases, inl, inr, any, is_none, ==_refl, if◌then◌else◌,
}
use text.Mathlib.Text.{◌==◌ as str_eq}
use text.Mathlib.TextEquality.{eq_iff}
use buildomat.Sql.{select, find, count, update}
use buildomat.Sql.Lemmas.{find-eq-some, find-update, written, count-update_le}
use buildomat.Sql.Counts.{select-none}
use buildomat.Server.Models.{Worker}
use buildomat.Server.State.{Database, Tx, pure, worker_is, find_worker, ◌>>=◌}
use buildomat.Server.State.Bind.{
  bind-eq-ok, refuse_if-false, refuse_if-eq-ok, gets-bind, found-eq-ok,
}
use buildomat.Server.Bootstrap.{
  has_token, has_bootstrap, update_worker, give_token, reread, bootstrap_token, worker_bootstrap,
  one_worker, worker_auth,
}

-- A query that finds one row, and no more, gives that row.
select-one :
    (p : Worker → Bool) (ws : List Worker) (w : Worker)
    → find p ws ≡ some w
    → count p ws ≤ 1
    → select p ws ≡ w ∷ []
unfolding select find count
select-one p [] w e h = absurd (ground arith)
select-one p (x ∷ ws) w e h = elim (Bool-cases (p x)) [
  | inl k ↦
      let same : x ≡ w = ground arith in
      let last : count p ws ≡ 0 = ground arith in rw (k, select-none p ws last, same) refl
  | inr k ↦ rw k (select-one p ws w (ground arith) (ground arith))
]

found-count :
    (p q : Worker → Bool) (ws : List Worker) (w : Worker)
    → find p ws ≡ some w
    → q w ≡ true
    → 0 < count q ws
unfolding find count
found-count p q [] w e k = absurd (ground arith)
found-count p q (x ∷ ws) w e k = ground (arith, found-count p q ws w)

-- A row that passes another test too, which only one row passes, is what the other query finds.
find_unique :
    (p q : Worker → Bool) (ws : List Worker) (w : Worker)
    → find p ws ≡ some w
    → q w ≡ true
    → count q ws ≤ 1
    → find q ws ≡ some w
unfolding find count
find_unique p q [] w e k h = absurd (ground arith)
find_unique p q (x ∷ ws) w e k h = elim (Bool-cases (p x)) [
  | inl a ↦ let same : x ≡ w = ground arith in rw (same, k) refl
  | inr a ↦
      let e' : find p ws ≡ some w = ground arith in
      let some_row = found-count p q ws w e' k in
      let miss : q x ≡ false = ground arith in rw miss (find_unique p q ws w e' k (ground arith))
]

-- Whoever holds a token is the one that authenticates with it.
pub worker_auth-one :
    (token : String) (w : Worker) (s : Database)
    → find (has_token token) s.worker ≡ some w
    → count (has_token token) s.worker ≤ 1
    → worker_auth token s ≡ ok (w, s)
unfolding worker_auth ◌>>=◌ one_worker
worker_auth-one token w s e h = rw (select-one (has_token token) s.worker w e h) refl

-- The row that `find_worker` reads.
reread-eq-ok :
    (id : ℕ) (s : Database) (o : Option Worker) (t : Database)
    → reread id s ≡ ok (o, t)
    → (w : Worker) × (find (worker_is id) s.worker ≡ some w) × (o ≡ some w) × (t ≡ s)
unfolding reread find_worker ◌>>=◌
reread-eq-ok id s o t h = elim (Option-cases (find (worker_is id) s.worker)) [
  | inl e ↦ absurd (ground arith)
  | inr (w, e) ↦ (w, e, ground arith, ground arith)
]

reread_if :
    (c : Bool) (id : ℕ) (s : Database) (w : Worker) (t : Database)
    → (if c then reread id else pure none) s ≡ ok (some w, t)
    → (c ≡ true) × (reread id s ≡ ok (some w, t))
unfolding pure
reread_if true id s w t h = (refl, h)
reread_if false id s w t h = absurd (ground arith)

not_counted : (p : Worker → Bool) (ws : List Worker) → any p ws ≡ false → count p ws ≡ 0
unfolding count
not_counted p [] h = refl
not_counted p (x ∷ ws) h = ground (arith, not_counted p ws)

give_token-eq-ok :
    (now : ℕ) (w : Worker) (bootstrap token : String) (s t : Database)
    → give_token now w bootstrap token s ≡ ok (tt, t)
    → (any (has_token token) s.worker ≡ false)
      × (count (λ r. worker_is w.id r && has_bootstrap bootstrap r && is_none r.token) s.worker ≡ 1)
      × (t.worker
          ≡ update
              (λ r. worker_is w.id r && has_bootstrap bootstrap r && is_none r.token)
              (λ r. record r { token = some token; lastping = some now })
              s.worker)
unfolding give_token update_worker
give_token-eq-ok now w bootstrap token s t h =
    let h1 = sym (gets-bind _ _ s) ∙ h in
    let free = refuse_if-false _ _ _ s (tt, t) h1 in
    let h2 = refuse_if-eq-ok _ _ _ s (tt, t) h1 in (free, ground arith, ground arith)

-- The rows have different keys, and different tokens.
pub record IsDistinct (ws : List Worker) : Type 0 where
  pub ids : (id : ℕ) → count (worker_is id) ws ≤ 1
  pub tokens : (token : String) → count (has_token token) ws ≤ 1

-- What authenticates a worker afterwards.
record Holds (token : String) (w : Worker) (s : Database) : Type 0 where
  stands : find (worker_is w.id) s.worker ≡ some w
  holds : has_token token w ≡ true
  alone : count (has_token token) s.worker ≤ 1

Holds-auth :
    (token : String) (w : Worker) (s : Database) → Holds token w s → worker_auth token s ≡ ok (w, s)
Holds-auth token w s h =
    worker_auth-one token w s
      (find_unique (worker_is w.id) (has_token token) s.worker w h.stands h.holds h.alone) h.alone

module _ (now : ℕ) (bootstrap token : String) where
  abbrev given : Worker → Worker
  given r = record r { token = some token; lastping = some now }

  abbrev takes : Worker → Worker → Bool
  takes w r = worker_is w.id r && has_bootstrap bootstrap r && is_none r.token

  -- The worker that has just been given the token.
  given-Holds :
      (w : Worker) (s t : Database)
      → find (worker_is w.id) s.worker ≡ some w
      → has_bootstrap bootstrap w ≡ true
      → w.token ≡ none
      → give_token now w bootstrap token s ≡ ok (tt, t)
      → Holds token (given w) t
  given-Holds w s t e b n h =
      let (free, one, wrote) = give_token-eq-ok now w bootstrap token s t h in
      let self : takes w w ≡ true = ground (arith, n) in
      let tok : str_eq token token ≡ true = (eq_iff token token).1 refl in
      record {
        stands =
            ap (find (worker_is w.id)) wrote
            ∙ find-update (worker_is w.id) (takes w) given s.worker (λ r. refl)
            ∙ ap (written (takes w) given) e
            ∙ rw self refl;
        holds = tok;
        alone = rw wrote (
            omega (
              arith,
              one,
              not_counted (has_token token) s.worker free,
              count-update_le (has_token token) (takes w) given s.worker,
            ));
      }

  held_before :
      (w : Worker) (current : String) (s : Database)
      → find (worker_is w.id) s.worker ≡ some w
      → w.token ≡ some current
      → str_eq current token ≡ true
      → IsDistinct s.worker
      → Holds token w s
  held_before w current s e n c d = record { stands = e; holds = rw n c; alone = d.tokens token }

  bootstrap_token-Holds :
      (w0 w : Worker) (o : Option String) (s t : Database)
      → find (worker_is w0.id) s.worker ≡ some w0
      → has_bootstrap bootstrap w0 ≡ true
      → w0.token ≡ o
      → IsDistinct s.worker
      → bootstrap_token now w0 bootstrap token o s ≡ ok (some w, t)
      → Holds token w t
  unfolding bootstrap_token
  bootstrap_token-Holds w0 w none s t e b n d h =
      let (_, u, eg, h1) = bind-eq-ok _ _ s (some w) t h in
      let (w', e', k, l) = reread-eq-ok w0.id u (some w) t h1 in
      let g = given-Holds w0 s u e b n eg in
      let same : given w0 ≡ w = ground (arith, g.stands) in
      subst (λ x. Holds token w x) (sym l) (subst (λ x. Holds token x u) same g)
  bootstrap_token-Holds w0 w (some current) s t e b n d h =
      let (c, h1) = reread_if (str_eq current token) w0.id s w t h in
      let (w', e', k, l) = reread-eq-ok w0.id s (some w) t h1 in
      let same : w0 ≡ w = ground arith in
      subst (λ x. Holds token w x) (sym l)
        (subst (λ x. Holds token x s) same (held_before w0 current s e n c d))

  private_branch :
      (a b : Bool) (m : Tx (Option Worker)) (s : Database) (w : Worker) (t : Database)
      → (if a then pure none else (if b then pure none else m)) s ≡ ok (some w, t)
      → m s ≡ ok (some w, t)
  unfolding pure
  private_branch true b m s w t h = absurd (ground arith)
  private_branch false true m s w t h = absurd (ground arith)
  private_branch false false m s w t h = h

  -- Take a table in which no two workers have one ID or one token. When a bootstrap gives a worker, for
  -- the first time or again, then the token authenticates that worker and no other.
  pub worker_bootstrap-auth :
      (w : Worker) (s t : Database)
      → IsDistinct s.worker
      → worker_bootstrap now bootstrap token s ≡ ok (some w, t)
      → worker_auth token t ≡ ok (w, t)
  unfolding worker_bootstrap
  worker_bootstrap-auth w s t d h =
      let h1 = sym (gets-bind _ _ s) ∙ h in
      let (w0, e, h2) = found-eq-ok _ _ s (some w, t) h1 in
      let h3 = private_branch w0.deleted (is_none w0.factory_private) _ s w t h2 in
      let own : worker_is w0.id w0 ≡ true = ==_refl w0.id in
      let b = (find-eq-some (has_bootstrap bootstrap) s.worker w0 e).0 in
      Holds-auth token w t (
        bootstrap_token-Holds w0 w w0.token s t
          (find_unique (has_bootstrap bootstrap) (worker_is w0.id) s.worker w0 e own (d.ids w0.id))
          b refl d h3)
