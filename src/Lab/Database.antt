-- ===== src/Lab/Database.antt =====
-- factory/lab/src/db/mod.rs: the lab factory's database. The lock around the connection makes one
-- operation at a time, and a transaction that fails is rolled back.
use buildomat.Prelude.{
  ℕ, ◌+◌, ◌^◌, Bool, true, false, not, ◌&&◌, List, [], ◌∷◌, Option, none, some, String, Result, ok,
  err, ltb, ◌==◌, if◌then◌else◌,
}
use text.Mathlib.Text.{◌==◌ as str_eq}
use buildomat.Sql.{select, find, count, update, insert, order_by, order_by_text, max_of}
use buildomat.Lab.Models.{
  Instance, InstanceState, InstanceEvent, preboot, booted, destroying, destroyed, is_destroyed,
}

pub record Database : Type 0 where
  pub instance_rows : List Instance
  pub instance_event : List InstanceEvent

-- The reasons of `conflict!`.
pub data Reason : Type 0 where
  many_active host_is_active completely_destroyed not_being_destroyed being_destroyed : Reason

-- `not_found` and `constraint` are Diesel's; `panic` is an assertion or an `unwrap` that fails.
pub data Failure : Type 0 where
  conflict : Reason → Failure
  not_found constraint panic : Failure

abbrev pub Tx : Type 0 → Type 0
Tx A = Database → Result Failure (A × Database)

abbrev pub pure : {A : Type 0} → A → Tx A
pure a s = ok (a, s)

abbrev pub fail : {A : Type 0} → Failure → Tx A
fail e s = err e

abbrev pub gets : {A : Type 0} → (Database → A) → Tx A
gets f s = ok (f s, s)

-- `get_result` on a key.
abbrev pub found : {A : Type 0} → Option A → Tx A
found none s = err not_found
found (some a) s = ok (a, s)

abbrev pub continue :
    {A B : Type 0} → Result Failure (A × Database) → (A → Tx B) → Result Failure (B × Database)
continue (ok (a, s)) f = f a s
continue (err e) f = err e

infixl 5 ◌>>=◌ ◌>>◌
abbrev pub ◌>>=◌ : {A B : Type 0} → Tx A → (A → Tx B) → Tx B
◌>>=◌ m f s = continue (m s) f

abbrev pub ◌>>◌ : {B : Type 0} → Tx (Unit {0}) → Tx B → Tx B
m >> k = m >>= λ _. k

-- PRIMARY KEY (nodename, seq), (nodename, instance, seq)
abbrev pub instance_at : String → ℕ → Instance → Bool
instance_at nodename seq i = str_eq i.nodename nodename && i.seq == seq

abbrev pub same_instance : Instance → Instance → Bool
same_instance a b = instance_at a.nodename a.seq b

abbrev pub event_of : String → ℕ → InstanceEvent → Bool
event_of nodename seq e = str_eq e.nodename nodename && e.instance_seq == seq

abbrev pub same_event : InstanceEvent → InstanceEvent → Bool
same_event a b = event_of a.nodename a.instance_seq b && b.seq == a.seq

abbrev pub on_host : String → Instance → Bool
on_host nodename i = str_eq i.nodename nodename

abbrev pub is_active : Instance → Bool
is_active i = not (is_destroyed i.state)

abbrev pub active_on : String → Instance → Bool
active_on nodename i = on_host nodename i && is_active i

unfoldable pub one_active : List Instance → Tx (Option Instance)
one_active [] = pure none
one_active (i ∷ []) = pure (some i)
one_active (i ∷ k ∷ is) = fail (conflict many_active)

-- `i_instance_for_host`, and `instance_for_host` around it.
unfoldable pub instance_for_host : String → Tx (Option Instance)
unfolding one_active
instance_for_host nodename s = one_active (select (active_on nodename) s.instance_rows) s

-- `max.unwrap_or(0).checked_add(1).unwrap()` on an i64.
unfoldable pub next_of : Option ℕ → Tx ℕ
next_of none = pure 1
next_of (some m) = if ltb (m + 1) (2 ^ 63) then pure (m + 1) else fail panic

unfoldable pub i_next_seq_for_host : String → Tx ℕ
unfolding next_of
i_next_seq_for_host nodename s = next_of (max_of (on_host nodename) (λ i. i.seq) s.instance_rows) s

unfoldable pub i_next_seq_for_instance : Instance → Tx ℕ
unfolding next_of
i_next_seq_for_instance i s =
    next_of (max_of (event_of i.nodename i.seq) (λ e. e.seq) s.instance_event) s

unfoldable pub instance_get : String → ℕ → Tx (Option Instance)
instance_get nodename seq = gets (λ s. find (instance_at nodename seq) s.instance_rows)

unfoldable pub insert_instance : Instance → Option (List Instance) → Tx Instance
insert_instance i none s = err constraint
insert_instance i (some rows) s = ok (i, record s { instance_rows = rows })

abbrev pub new_instance : String → ℕ → String → String → String → String → Instance
new_instance nodename seq target worker bootstrap key = record {
  nodename = nodename;
  seq = seq;
  worker = worker;
  target = target;
  state = preboot;
  key = key;
  bootstrap = bootstrap;
  flushed = false;
}

unfoldable pub create_unless :
    Option Instance → String → String → String → String → String → Tx Instance
unfolding insert_instance
create_unless (some i) nodename target worker bootstrap key = fail (conflict host_is_active)
create_unless none nodename target worker bootstrap key = do
  seq ← i_next_seq_for_host nodename
  let i = new_instance nodename seq target worker bootstrap key
  rows ← gets (λ s. insert same_instance i s.instance_rows)
  insert_instance i rows

-- The key is random, and comes from outside.
unfoldable pub instance_create : String → String → String → String → String → Tx Instance
unfolding create_unless
instance_create nodename target worker bootstrap key = do
  existing ← instance_for_host nodename
  create_unless existing nodename target worker bootstrap key

abbrev pub active_rows : Database → List Instance
active_rows s = order_by_text (λ i. i.nodename) (select is_active s.instance_rows)

unfoldable pub active_instances : Tx (List Instance)
active_instances = gets active_rows

abbrev pub set_state : InstanceState → Instance → Instance
set_state st i = record i { state = st }

-- `update(instance)` by key, and `assert_eq!(uc, 1)`.
unfoldable pub update_instance : String → ℕ → (Instance → Instance) → Tx (Unit {0})
update_instance nodename seq f s =
    if count (instance_at nodename seq) s.instance_rows == 1
    then ok (tt, record s { instance_rows = update (instance_at nodename seq) f s.instance_rows })
    else err panic

abbrev pub fetch : String → ℕ → Tx Instance
fetch nodename seq = do row ← gets (λ s. find (instance_at nodename seq) s.instance_rows); found row

unfoldable pub destroy_from : InstanceState → String → ℕ → Tx (Unit {0})
destroy_from preboot nodename seq = update_instance nodename seq (set_state destroying)
destroy_from booted nodename seq = update_instance nodename seq (set_state destroying)
destroy_from destroying nodename seq = pure tt
destroy_from destroyed nodename seq = fail (conflict completely_destroyed)

unfoldable pub instance_destroy : String → ℕ → Tx (Unit {0})
unfolding destroy_from
instance_destroy nodename seq = do i ← fetch nodename seq; destroy_from i.state i.nodename i.seq

unfoldable pub mark_from : InstanceState → String → ℕ → Tx (Unit {0})
mark_from preboot nodename seq = fail (conflict not_being_destroyed)
mark_from booted nodename seq = fail (conflict not_being_destroyed)
mark_from destroying nodename seq = update_instance nodename seq (set_state destroyed)
mark_from destroyed nodename seq = pure tt

unfoldable pub instance_mark_destroyed : String → ℕ → Tx (Unit {0})
unfolding mark_from
instance_mark_destroyed nodename seq = do i ← fetch nodename seq; mark_from i.state i.nodename i.seq

unfoldable pub instance_mark_flushed : String → ℕ → Tx (Unit {0})
instance_mark_flushed nodename seq = update_instance nodename seq λ i. record i { flushed = true }

unfoldable pub boot_from : InstanceState → String → ℕ → Tx (Unit {0})
boot_from preboot nodename seq = update_instance nodename seq (set_state booted)
boot_from booted nodename seq = pure tt
boot_from destroying nodename seq = fail (conflict being_destroyed)
boot_from destroyed nodename seq = fail (conflict being_destroyed)

unfoldable pub instance_boot : String → ℕ → Tx (Unit {0})
unfolding boot_from
instance_boot nodename seq = do i ← fetch nodename seq; boot_from i.state i.nodename i.seq

unfoldable pub insert_event : InstanceEvent → Option (List InstanceEvent) → Tx InstanceEvent
insert_event e none s = err constraint
insert_event e (some rows) s = ok (e, record s { instance_event = rows })

abbrev pub new_event : Instance → ℕ → String → String → ℕ → InstanceEvent
new_event i seq stream msg time = record {
  nodename = i.nodename;
  instance_seq = i.seq;
  seq = seq;
  stream = stream;
  payload = msg;
  uploaded = false;
  time = time;
}

unfoldable pub append_live : Instance → String → String → ℕ → Tx InstanceEvent
unfolding insert_event
append_live i stream msg time = do
  seq ← i_next_seq_for_instance i
  let e = new_event i seq stream msg time
  rows ← gets (λ s. insert same_event e s.instance_event)
  insert_event e rows

unfoldable pub append_in : InstanceState → Instance → String → String → ℕ → Tx InstanceEvent
append_in preboot i stream msg time = append_live i stream msg time
append_in booted i stream msg time = append_live i stream msg time
append_in destroying i stream msg time = fail (conflict being_destroyed)
append_in destroyed i stream msg time = fail (conflict being_destroyed)

unfoldable pub instance_append : String → ℕ → String → String → ℕ → Tx InstanceEvent
unfolding append_in append_live
instance_append nodename seq stream msg time = do
  i ← fetch nodename seq
  append_in i.state i stream msg time

abbrev pub pending_of : String → ℕ → InstanceEvent → Bool
pending_of nodename seq e = event_of nodename seq e && not e.uploaded

abbrev pub first : {A : Type 0} → List A → Option A
first [] = none
first (x ∷ xs) = some x

-- `ORDER BY seq LIMIT 1`.
unfoldable pub instance_next_event_to_upload : String → ℕ → Tx (Option InstanceEvent)
instance_next_event_to_upload nodename seq =
    gets λ s. first (order_by (λ e. e.seq) (select (pending_of nodename seq) s.instance_event))

abbrev pub pending_at : String → ℕ → ℕ → InstanceEvent → Bool
pending_at nodename seq n e = pending_of nodename seq e && e.seq == n

unfoldable pub instance_mark_event_uploaded : String → ℕ → ℕ → Tx (Unit {0})
instance_mark_event_uploaded nodename seq n s =
    if ltb (count (pending_at nodename seq n) s.instance_event) 2
    then ok (
      tt,
      record s {
        instance_event =
            update (pending_at nodename seq n) (λ e. record e { uploaded = true }) s.instance_event;
      },
    )
    else err panic
