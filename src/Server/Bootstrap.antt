-- ===== src/Server/Bootstrap.antt =====
-- server/src/db.rs: a worker's agent and its factory make themselves known, `worker_bootstrap`,
-- `worker_associate` and `worker_auth`.
pub mod Tokens
pub mod Examples
use buildomat.Prelude.{
  ℕ, Bool, true, false, not, ◌&&◌, List, [], ◌∷◌, Option, none, some, String, ok, err, ◌==◌,
  if◌then◌else◌, is_none, any,
}
use text.Mathlib.Text.{◌==◌ as str_eq}
use buildomat.Sql.{select, find, count, update}
use buildomat.Server.Models.{
  Worker, JsonValue, null, bool, number, string, array, object, Values, nil, cons, Members, end,
  member,
}
use buildomat.Server.State.{
  Tx, pure, gets, conflict, bail, panic, constraint, worker_already_deleted, associated_differently,
  metadata_mismatch, auth_failure, token_error, ◌>>=◌, ◌>>◌, refuse_if, fail, found, worker_is,
  find_worker,
}

abbrev pub holds_text : Option String → String → Bool
holds_text none t = false
holds_text (some s) t = str_eq s t

abbrev pub has_bootstrap : String → Worker → Bool
has_bootstrap bootstrap w = str_eq w.bootstrap bootstrap

abbrev pub has_token : String → Worker → Bool
has_token token w = holds_text w.token token

-- `update(worker)` and `assert_eq!(count, 1)`.
unfoldable pub update_worker : (Worker → Bool) → (Worker → Worker) → Tx (Unit {0})
update_worker p f s =
    if count p s.worker == 1 then ok (tt, record s { worker = update p f s.worker }) else err panic

unfoldable pub reread : ℕ → Tx (Option Worker)
reread id = do w ← find_worker id; pure (some w)

-- The column is UNIQUE, so the token of another worker is refused.
unfoldable pub give_token : ℕ → Worker → String → String → Tx (Unit {0})
give_token now w bootstrap token = do
  taken ← gets (λ s. any (has_token token) s.worker)
  refuse_if taken constraint
  update_worker (λ r. worker_is w.id r && has_bootstrap bootstrap r && is_none r.token)
      (λ r. record r { token = some token; lastping = some now })

unfoldable pub bootstrap_token : ℕ → Worker → String → String → Option String → Tx (Option Worker)
unfolding reread
bootstrap_token now w bootstrap token (some current) =
    if str_eq current token then reread w.id else pure none
bootstrap_token now w bootstrap token none = do give_token now w bootstrap token; reread w.id

unfoldable pub worker_bootstrap : ℕ → String → String → Tx (Option Worker)
worker_bootstrap now bootstrap token = do
  row ← gets (λ s. find (has_bootstrap bootstrap) s.worker)
  w ← found row
  if w.deleted
      then pure none
      else (if is_none w.factory_private
          then pure none
          else bootstrap_token now w bootstrap token w.token)

-- `==` on `serde_json::Value`; an object's members stand in the order of their keys.
unfoldable mutual
  pub json_eq : JsonValue → JsonValue → Bool
  json_eq null null = true
  json_eq (bool true) (bool b) = b
  json_eq (bool false) (bool b) = not b
  json_eq (number a) (number b) = a == b
  json_eq (string a) (string b) = str_eq a b
  json_eq (array a) (array b) = values_eq a b
  json_eq (object a) (object b) = members_eq a b
  json_eq _ _ = false

  pub values_eq : Values → Values → Bool
  values_eq nil nil = true
  values_eq (cons a xs) (cons b ys) = json_eq a b && values_eq xs ys
  values_eq _ _ = false

  pub members_eq : Members → Members → Bool
  members_eq end end = true
  members_eq (member k a xs) (member l b ys) = str_eq k l && json_eq a b && members_eq xs ys
  members_eq _ _ = false

unfoldable pub associate_private : Worker → String → Option String → Tx (Unit {0})
associate_private w factory_private (some current) =
    if str_eq current factory_private
    then pure tt
    else fail (conflict (associated_differently w.id))
associate_private w factory_private none =
    update_worker (worker_is w.id) (λ r. record r { factory_private = some factory_private })

unfoldable pub associate_metadata : Worker → Option JsonValue → Option JsonValue → Tx (Unit {0})
unfolding json_eq
associate_metadata w none _ = pure tt
associate_metadata w (some new) (some current) =
    if json_eq current new then pure tt else fail (conflict (metadata_mismatch w.id))
associate_metadata w (some new) none =
    update_worker (worker_is w.id) (λ r. record r { factory_metadata = some new })

-- The metadata comes as the JSON value that `to_value` makes of it.
unfoldable pub worker_associate : ℕ → String → Option JsonValue → Tx (Unit {0})
worker_associate wid factory_private factory_metadata = do
  w ← find_worker wid
  refuse_if w.deleted (conflict (worker_already_deleted w.id))
  associate_private w factory_private w.factory_private
  associate_metadata w factory_metadata w.factory_metadata

unfoldable pub one_worker : List Worker → Tx Worker
one_worker [] = fail (bail auth_failure)
one_worker (w ∷ []) = pure w
one_worker (w ∷ x ∷ ws) = fail (bail token_error)

unfoldable pub worker_auth : String → Tx Worker
worker_auth token = do ws ← gets (λ s. select (has_token token) s.worker); one_worker ws
