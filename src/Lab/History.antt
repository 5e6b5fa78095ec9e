-- ===== src/Lab/History.antt =====
-- Histories of the lab factory: the calls of its threads on the database, in any order. The host
-- manager (factory/lab/src/host.rs) lists the active instances, looks for events of those that are
-- being destroyed, and marks the ones without an event as destroyed; other threads may call between
-- these steps.
pub mod Sound
pub mod Forward
use buildomat.Prelude.{
  ℕ, ◌≤◌, ◌<◌, ◌≡◌, refl, ap, ◌∙◌, sym, subst, Bool, true, false, ◌&&◌, ◌||◌, List, [], ◌∷◌, Option,
  none, some, String, Result, ok, err, arith, ◌==◌, All, any, is_none, if◌then◌else◌, inl, inr,
  Bool-cases, map,
}
use text.Mathlib.Text.{◌==◌ as str_eq}
use text.Mathlib.TextEquality.{eq_iff}
use buildomat.Sql.{select, find, count, order_by}
use buildomat.Sql.Lemmas.{map-All, length-select, any-order_by, any-order_by_text}
use buildomat.Sql.Counts.{
  count-find, select-nil, select-none, any-select, any-count_pos, count_mono,
}
use buildomat.Lab.Models.{
  Instance, InstanceEvent, InstanceState, destroying, destroyed, is_destroyed, in_teardown,
  destroyed_row,
}
use buildomat.Lab.Database.{
  Database, Tx, instance_create, instance_boot, instance_destroy, instance_mark_destroyed,
  instance_mark_flushed, instance_append, instance_mark_event_uploaded, instance_for_host,
  instance_next_event_to_upload, instance_get, instance_at, active_on, pending_of, one_active,
  active_rows, is_active, Failure, first,
}
use buildomat.Lab.Changes.{Change, HasKeys, after}
use buildomat.Lab.Refines.{
  instance_create-Change, instance_boot-Change, instance_destroy-Change,
  instance_mark_destroyed-Change, instance_mark_flushed-Change, instance_append-Change,
  instance_mark_event_uploaded-Change,
}
use buildomat.Lab.Invariants.{
  IsExclusive, IsTorn, KeepsEvents, pending, torn_at, destroyed_at, Change-HasKeys,
  Change-IsExclusive, Change-IsTorn,
}
use buildomat.Lab.Settled.{Change-settled, Change-KeepsEvents}

abbrev pub Key : Type 0
Key = String × ℕ

abbrev pub key_in : String → ℕ → List Key → Bool
key_in n q ks = any (λ k. str_eq k.0 n && k.1 == q) ks

-- The database, and what the manager's pass knows: the instances that its list showed, and the keys
-- of those being destroyed for which it then found no event.
pub record Lab : Type 0 where
  pub db : Database
  pub listed : List Instance
  pub settled : List Key

pub data Call : Type 0 where
  on_create : String → String → String → String → String → Call
  on_boot on_destroy on_flush : String → ℕ → Call
  on_append : String → ℕ → String → String → ℕ → Call
  on_uploaded : String → ℕ → ℕ → Call
  list_active : Call
  inspect retire : String → ℕ → Call

abbrev pub destroying_at : String → ℕ → Instance → Bool
destroying_at n q i = instance_at n q i && (in_teardown i.state && is_active i)

unfoldable pub nothing_left : Result Failure (Option InstanceEvent × Database) → Bool
nothing_left (ok (none, s)) = true
nothing_left (ok (some e, s)) = false
nothing_left (err e) = false

-- A call that fails leaves the database as it was.
unfoldable pub step : Call → Lab → Lab
step (on_create n target worker bootstrap key) l = record l {
  db = after l.db (instance_create n target worker bootstrap key l.db);
}
step (on_boot n q) l = record l { db = after l.db (instance_boot n q l.db) }
step (on_destroy n q) l = record l { db = after l.db (instance_destroy n q l.db) }
step (on_flush n q) l = record l { db = after l.db (instance_mark_flushed n q l.db) }
step (on_append n q stream msg time) l = record l {
  db = after l.db (instance_append n q stream msg time l.db);
}
step (on_uploaded n q k) l = record l { db = after l.db (instance_mark_event_uploaded n q k l.db) }
step list_active l = record l { listed = active_rows l.db; settled = [] }
step (inspect n q) l =
    if any (destroying_at n q) l.listed && nothing_left (instance_next_event_to_upload n q l.db)
    then record l { settled = (n, q) ∷ l.settled }
    else l
step (retire n q) l =
    if key_in n q l.settled
    then record l { db = after l.db (instance_mark_destroyed n q l.db) }
    else l

unfoldable pub run : List Call → Lab → Lab
run [] l = l
run (c ∷ cs) l = run cs (step c l)

abbrev pub empty : Lab
empty = record {
  db = record { instance_rows = []; instance_event = [] };
  listed = [];
  settled = [];
}
