-- ===== src/Server/Events.antt =====
-- server/src/db.rs: the event log and the time stamps of a job, `i_job_event_insert`,
-- `i_job_time_record` and `i_job_time_delta`.
pub mod Sequence
use buildomat.Prelude.{
  ℕ, suc, ◌+◌, ◌-◌, ◌^◌, ◌%◌, Bool, true, false, ◌&&◌, List, [], ◌∷◌, Option, none, some, String,
  ok, err, leb, ◌==◌, if◌then◌else◌,
}
use text.Mathlib.Text.{◌==◌ as str_eq}
use buildomat.Sql.{find, insert, insert_or_ignore}
use buildomat.Server.Models.{JobEvent, JobTime, Payload}
use buildomat.Server.State.{Database, Tx, stored, bail, negative_duration, ◌>>=◌, ◌>>◌}

-- `n as i32`. The columns `seq` and `task` are i32: they stand for their 32 bits.
abbrev pub as_i32 : ℕ → ℕ
as_i32 n = n % 2 ^ 32

abbrev pub task_i32 : Option ℕ → Option ℕ
task_i32 none = none
task_i32 (some n) = some (as_i32 n)

-- The order of two i32 is the order of these numbers of their bits.
abbrev pub signed : ℕ → ℕ
signed n = (n + 2 ^ 31) % 2 ^ 32

abbrev pub max_with : ℕ → Option ℕ → Option ℕ
max_with n none = some n
max_with n (some m) = if leb (signed n) (signed m) then some m else some n

-- `SELECT MAX(seq) … WHERE job = ?`.
unfoldable pub max_seq : ℕ → List JobEvent → Option ℕ
max_seq job [] = none
max_seq job (e ∷ es) =
    let rest = max_seq job es in if e.job == job then max_with e.seq rest else rest

abbrev pub unwrap_or : Option ℕ → ℕ → ℕ
unwrap_or none d = d
unwrap_or (some n) d = n

-- PRIMARY KEY (job, seq)
abbrev pub same_event : JobEvent → JobEvent → Bool
same_event a b = a.job == b.job && a.seq == b.seq

-- The sum wraps around where it does not fit, as in a release build.
unfoldable pub i_job_event_insert : ℕ → Option ℕ → String → ℕ → Option ℕ → Payload → Tx (Unit {0})
unfolding stored
i_job_event_insert job task stream time time_remote payload s =
    let seq = as_i32 (unwrap_or (max_seq job s.job_event) 0 + 1) in
    let row : JobEvent = record {
      job = job;
      task = task_i32 task;
      seq = seq;
      stream = stream;
      time = time;
      payload = payload;
      time_remote = time_remote;
    } in
    stored (insert same_event row s.job_event) (λ t rows. record t { job_event = rows }) s

-- PRIMARY KEY (job, name)
abbrev pub same_time : JobTime → JobTime → Bool
same_time a b = a.job == b.job && str_eq a.name b.name

unfoldable pub i_job_time_record : ℕ → String → ℕ → Tx (Unit {0})
i_job_time_record job name when s = ok (
  tt,
  record s {
    job_time =
        insert_or_ignore same_time (record { job = job; name = name; time = when }) s.job_time;
  },
)

-- The time between two stamps. Chrono rounds a negative span of less than a millisecond to 0, and
-- `to_std` then fails on it.
time_delta : Option JobTime → Option JobTime → Tx (Option ℕ)
time_delta none _ s = ok (none, s)
time_delta (some from) none s = ok (none, s)
time_delta (some from) (some until) s =
    if leb from.time until.time
    then ok (some (until.time - from.time), s)
    else if leb 1_000_000 (from.time - until.time)
    then ok (none, s)
    else err (bail negative_duration)

abbrev pub time_is : ℕ → String → JobTime → Bool
time_is job name t = t.job == job && str_eq t.name name

unfoldable pub i_job_time_delta : ℕ → String → String → Tx (Option ℕ)
unfolding time_delta
i_job_time_delta job from until s =
    time_delta (find (time_is job from) s.job_time) (find (time_is job until) s.job_time) s
