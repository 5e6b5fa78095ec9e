-- ===== src/Lab/Models.antt =====
-- factory/lab/src/db/models.rs: instances of lab hosts, and the events of their consoles.
use buildomat.Prelude.{ℕ, Bool, true, false, Option, none, some, String, if◌then◌else◌}
use text.Mathlib.Text.{◌==◌ as str_eq}

pub data InstanceState : Type 0 where
  preboot booted destroying destroyed : InstanceState

-- `from_str`, and `Display`.
unfoldable pub state_from_str : String → Option InstanceState
state_from_str s =
    if str_eq s "preboot"
    then some preboot
    else if str_eq s "booted"
    then some booted
    else if str_eq s "destroying"
    then some destroying
    else if str_eq s "destroyed"
    then some destroyed
    else none

unfoldable pub state_to_string : InstanceState → String
state_to_string preboot = "preboot"
state_to_string booted = "booted"
state_to_string destroying = "destroying"
state_to_string destroyed = "destroyed"

-- A time is the nanoseconds of its ISO 8601 text.
pub record Instance : Type 0 where
  pub nodename : String
  pub seq : ℕ
  pub worker : String
  pub target : String
  pub state : InstanceState
  pub key : String
  pub bootstrap : String
  pub flushed : Bool

pub record InstanceEvent : Type 0 where
  pub nodename : String
  pub instance_seq : ℕ
  pub seq : ℕ
  pub stream : String
  pub payload : String
  pub uploaded : Bool
  pub time : ℕ

abbrev pub is_destroyed : InstanceState → Bool
is_destroyed destroyed = true
is_destroyed _ = false

abbrev pub in_preboot : InstanceState → Bool
in_preboot preboot = true
in_preboot _ = false

abbrev pub in_teardown : InstanceState → Bool
in_teardown destroying = true
in_teardown destroyed = true
in_teardown _ = false

unfoldable pub destroyed_row : Instance → Bool
destroyed_row i = is_destroyed i.state

unfoldable pub is_preboot : Instance → Bool
is_preboot i = in_preboot i.state

unfoldable pub should_teardown : Instance → Bool
should_teardown i = in_teardown i.state
