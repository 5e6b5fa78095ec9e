-- ===== src/Lab/Upload.antt =====
-- factory/lab/src/worker.rs: `upload_worker_one`, which sends the events of an instance to the server
-- and marks those that the server has taken. What the server replies is an argument.
pub mod Drains
use buildomat.Prelude.{
  ℕ, Bool, true, false, not, List, [], ◌∷◌, Option, none, some, String, Result, ok, err,
  if◌then◌else◌,
}
use buildomat.Sql.{select, order_by}
use buildomat.Lab.Models.{Instance, InstanceEvent}
use buildomat.Lab.Database.{
  Database, Failure, instance_next_event_to_upload, instance_mark_event_uploaded,
  instance_mark_flushed,
}

-- The reply to an append: an error, or the flag `retry`.
pub data Reply : Type 0 where
  lost retry accepted : Reply

-- How the loop over the events of one instance ended: no event was left, the server asked for a
-- retry, the request or the database failed, or (in the model) no reply has come yet.
pub data Ended : Type 0 where
  done held request_failed waiting : Ended
  database_failed : Failure → Ended

pub record Upload : Type 0 where
  pub db : Database
  pub sent : List InstanceEvent
  pub ended : Ended

abbrev pub took : InstanceEvent → Upload → Upload
took e r = record r { sent = e ∷ r.sent }

abbrev pub stopped : Database → Ended → Upload
stopped s why = record { db = s; sent = []; ended = why }

abbrev pub next_event :
    Database → Result Failure (Option InstanceEvent × Database) → Option InstanceEvent
next_event s (ok (o, t)) = o
next_event s (err e) = none

-- `sent` are the events that the server took.
unfoldable pub upload_events : List Reply → String → ℕ → Database → Upload
upload_events [] n q s = elim (next_event s (instance_next_event_to_upload n q s)) [
  | none ↦ stopped s done
  | some e ↦ stopped s waiting
]
upload_events (r ∷ rs) n q s = elim (next_event s (instance_next_event_to_upload n q s)) [
  | none ↦ stopped s done
  | some e ↦ elim r [
    | lost ↦ stopped s request_failed
    | retry ↦ stopped s held
    | accepted ↦ elim (instance_mark_event_uploaded n q e.seq s) [
      | ok (u, t) ↦ took e (upload_events rs n q t)
      | err f ↦ stopped s (database_failed f)
    ]
  ]
]

-- The part behind the loop: whether the worker is online, and the flush that the server confirms.
-- The flags are the replies, `none` for a request that failed.
unfoldable pub flush_instance :
    Option (Option Bool) → Bool → Instance → Database → Result Failure Database
flush_instance online flushed i s = if i.flushed then ok s else elim online [
  | none ↦ ok s
  | some w ↦ elim w [
    | none ↦ ok s
    | some up ↦
        if up
        then if flushed
          then elim (instance_mark_flushed i.nodename i.seq s) [ ok (u, t) ↦ ok t | err f ↦ err f ]
          else ok s
        else ok s
  ]
]
