-- ===== src/Server/Models.antt =====
-- server/src/db/models.rs: the rows of the tables. A ULID is its 128-bit number, a time the
-- nanoseconds of its ISO 8601 text.
use buildomat.Prelude.{ℕ, Bool, false, List, Option, none, String, is_some, none, some}

-- `serde_json::Value`, less the numbers that no record of this system holds.
mutual
  pub data JsonValue : Type 0 where
    null : JsonValue
    bool : Bool → JsonValue
    number : ℕ → JsonValue
    string : String → JsonValue
    array : Values → JsonValue
    object : Members → JsonValue

  pub data Values : Type 0 where
    nil : Values
    cons : JsonValue → Values → Values

  pub data Members : Type 0 where
    end : Members
    member : String → JsonValue → Members → Members

pub record Task : Type 0 where
  pub job : ℕ
  pub seq : ℕ
  pub name : String
  pub script : String
  pub env_clear : Bool
  pub env : List (String × String)
  pub user_id : Option ℕ
  pub group_id : Option ℕ
  pub workdir : Option String
  pub complete : Bool
  pub failed : Bool

-- What the server writes into an event, with the values that it formats; `text` is a payload that
-- came from outside.
pub data Payload : Type 0 where
  text : String → Payload
  job_assigned : ℕ → Option ℕ → Payload
  dependencies_complete : Option ℕ → Payload
  job_cancelled : Payload
  task_incomplete : ℕ → Payload
  task_failures : Payload
  prior_job_failed prior_job_succeeded prior_job_deleted : ℕ → String → Payload
  worker_failed : Payload
  ran_too_long : ℕ → ℕ → Payload

pub record JobEvent : Type 0 where
  pub job : ℕ
  pub task : Option ℕ
  pub seq : ℕ
  pub stream : String
  pub time : ℕ
  pub payload : Payload
  pub time_remote : Option ℕ

pub record JobOutputRule : Type 0 where
  pub job : ℕ
  pub seq : ℕ
  pub rule : String
  pub ignore : Bool
  pub size_change_ok : Bool
  pub require_match : Bool

pub record JobOutput : Type 0 where
  pub job : ℕ
  pub path : String
  pub id : ℕ

pub record JobInput : Type 0 where
  pub job : ℕ
  pub name : String
  pub id : Option ℕ
  pub other_job : Option ℕ

pub record JobFile : Type 0 where
  pub job : ℕ
  pub id : ℕ
  pub size : ℕ
  pub time_archived : Option ℕ

pub record PublishedFile : Type 0 where
  pub owner : ℕ
  pub series : String
  pub version : String
  pub name : String
  pub job : ℕ
  pub file : ℕ

pub record JobTag : Type 0 where
  pub job : ℕ
  pub name : String
  pub value : String

pub record Worker : Type 0 where
  pub id : ℕ
  pub bootstrap : String
  pub token : Option String
  pub factory_private : Option String
  pub deleted : Bool
  pub recycle : Bool
  pub lastping : Option ℕ
  pub factory : Option ℕ
  pub target : Option ℕ
  pub wait_for_flush : Bool
  pub factory_metadata : Option JsonValue

pub record Job : Type 0 where
  pub id : ℕ
  pub owner : ℕ
  pub name : String
  pub target : String
  pub complete : Bool
  pub failed : Bool
  pub worker : Option ℕ
  pub waiting : Bool
  pub target_id : Option ℕ
  pub cancelled : Bool
  pub time_archived : Option ℕ

-- The ID of the canned "default" target, for records from before targets had one.
abbrev pub legacy_target : ℕ
legacy_target = 592029349537742049217069921103314944

abbrev id_or_legacy : Option ℕ → ℕ
id_or_legacy none = legacy_target
id_or_legacy (some t) = t

unfoldable pub job_target : Job → ℕ
job_target j = id_or_legacy j.target_id

unfoldable pub worker_target : Worker → ℕ
worker_target w = id_or_legacy w.target

unfoldable pub is_archived : Job → Bool
is_archived j = is_some j.time_archived

pub record JobDepend : Type 0 where
  pub job : ℕ
  pub name : String
  pub prior_job : ℕ
  pub copy_outputs : Bool
  pub on_failed : Bool
  pub on_completed : Bool
  pub satisfied : Bool

pub record JobTime : Type 0 where
  pub job : ℕ
  pub name : String
  pub time : ℕ

pub record JobStore : Type 0 where
  pub job : ℕ
  pub name : String
  pub value : String
  pub secret : Bool
  pub source : String
  pub time_update : ℕ

-- server/src/db.rs: what the API asks for.
pub record CreateTask : Type 0 where
  pub name : String
  pub script : String
  pub env_clear : Bool
  pub env : List (String × String)
  pub user_id : Option ℕ
  pub group_id : Option ℕ
  pub workdir : Option String

pub record CreateDepend : Type 0 where
  pub name : String
  pub prior_job : ℕ
  pub copy_outputs : Bool
  pub on_failed : Bool
  pub on_completed : Bool

pub record CreateOutputRule : Type 0 where
  pub rule : String
  pub ignore : Bool
  pub size_change_ok : Bool
  pub require_match : Bool

-- The rows that a new job is made of.
unfoldable pub task_from_create : CreateTask → ℕ → ℕ → Task
task_from_create ct job seq = record {
  job = job;
  seq = seq;
  name = ct.name;
  script = ct.script;
  env_clear = ct.env_clear;
  env = ct.env;
  user_id = ct.user_id;
  group_id = ct.group_id;
  workdir = ct.workdir;
  complete = false;
  failed = false;
}

unfoldable pub depend_from_create : CreateDepend → ℕ → JobDepend
depend_from_create cd job = record {
  job = job;
  name = cd.name;
  prior_job = cd.prior_job;
  copy_outputs = cd.copy_outputs;
  on_failed = cd.on_failed;
  on_completed = cd.on_completed;
  satisfied = false;
}

unfoldable pub input_from_create : String → ℕ → JobInput
input_from_create name job = record { job = job; name = name; id = none; other_job = none }

unfoldable pub rule_from_create : CreateOutputRule → ℕ → ℕ → JobOutputRule
rule_from_create cd job seq = record {
  job = job;
  seq = seq;
  rule = cd.rule;
  ignore = cd.ignore;
  size_change_ok = cd.size_change_ok;
  require_match = cd.require_match;
}
