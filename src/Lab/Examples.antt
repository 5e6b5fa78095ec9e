-- ===== src/Lab/Examples.antt =====
-- The lab factory's database on small histories.
use buildomat.Prelude.{
  err, arith, length, ◌==◌, Bool, ◌+◌, ◌≤◌, false, ◌≡◌, refl, false, List, [], ◌∷◌, none, some, ok,
}
use buildomat.Sql.{find, select, count, update, insert, order_by, order_by_text, max_of}
use buildomat.Lab.Models.{
  Instance, InstanceEvent, preboot, destroying, destroyed, destroyed_row, booted, is_preboot,
  should_teardown,
}
use buildomat.Lab.Database.{
  Database, instance_for_host, instance_get, instance_next_event_to_upload, active_on,
  instance_create, instance_boot, instance_destroy, instance_mark_destroyed, instance_append,
  instance_mark_event_uploaded, update_instance, i_next_seq_for_host, i_next_seq_for_instance,
}
use buildomat.Lab.Invariants.{HasEventKeys, pending}
use buildomat.Lab.Upload.{accepted, retry, done, upload_events}
use buildomat.Lab.Upload.Drains.{pending_if, upload_events_conserves, upload_events_drains}
use buildomat.Lab.Changes.{HasKeys}
use buildomat.Lab.Minder.{
  Config, HostConfig, host_config, media_for, media_dir, target_os_dir, below, os_file, signal,
  signal_for, boot_now, postboot_script, ipxe_script, hold_ipxe, access_denied,
}
use buildomat.Lab.Minder.Signal.{signal-denied}
use buildomat.Lab.History.{
  Call, run, step, empty, nothing_left, on_create, on_boot, on_destroy, on_append, on_uploaded,
  list_active, inspect, retire,
}
use buildomat.Lab.History.Sound.{instance_for_host_total, destroyed-uploaded}
use buildomat.Lab.History.Forward.{run-Forward, Forward}

-- One instance from its creation on; the second creation finds it active.
abbrev one_life : List Call
one_life =
    on_create "gzunda" "lab" "w1" "strap" "key"
    ∷ on_create "gzunda" "lab" "w2" "strap2" "key2"
    ∷ on_boot "gzunda" 1
    ∷ on_append "gzunda" 1 "console" "hello" 5
    ∷ on_destroy "gzunda" 1
    ∷ []

-- The manager looks too early once, and again when the event is uploaded.
abbrev its_end : List Call
its_end =
    list_active
    ∷ inspect "gzunda" 1
    ∷ retire "gzunda" 1
    ∷ on_uploaded "gzunda" 1 1
    ∷ inspect "gzunda" 1
    ∷ retire "gzunda" 1
    ∷ []

abbrev gzunda : Instance
gzunda = record {
  nodename = "gzunda";
  seq = 1;
  worker = "w1";
  target = "lab";
  state = preboot;
  key = "key";
  bootstrap = "strap";
  flushed = false;
}

abbrev whole_life : List Call
whole_life =
    on_create "gzunda" "lab" "w1" "strap" "key"
    ∷ on_append "gzunda" 1 "console" "hello" 5
    ∷ on_destroy "gzunda" 1
    ∷ its_end

after_boot :
    instance_get "gzunda" 1 (run one_life empty).db
    ≡ ok (some (record gzunda { state = destroying }), (run one_life empty).db)
unfolding run step instance_get instance_create instance_append instance_boot instance_destroy
    instance_mark_destroyed instance_mark_event_uploaded instance_next_event_to_upload nothing_left
    find order_by_text select instance_for_host i_next_seq_for_host max_of insert
    i_next_seq_for_instance update_instance count update order_by
after_boot = refl

at_the_end :
    instance_get "gzunda" 1 (run whole_life empty).db
    ≡ ok (some (record gzunda { state = destroyed }), (run whole_life empty).db)
unfolding run step instance_get instance_create instance_append instance_boot instance_destroy
    instance_mark_destroyed instance_mark_event_uploaded instance_next_event_to_upload nothing_left
    find order_by_text select instance_for_host i_next_seq_for_host max_of insert
    i_next_seq_for_instance update_instance count update order_by
at_the_end = refl

instance_for_host_total_example :
    instance_for_host "gzunda" (run one_life empty).db
    ≡ ok (find (active_on "gzunda") (run one_life empty).db.instance_rows, (run one_life empty).db)
instance_for_host_total_example = instance_for_host_total one_life "gzunda"

destroyed-uploaded_example :
    instance_next_event_to_upload "gzunda" 1 (run whole_life empty).db
    ≡ ok (none, (run whole_life empty).db)
unfolding destroyed_row
destroyed-uploaded_example =
    destroyed-uploaded whole_life "gzunda" 1 (record gzunda { state = destroyed }) at_the_end refl

run-Forward_example :
    (i' : Instance) × (instance_get "gzunda" 1 (run its_end (run one_life empty)).db
      ≡ ok (some i', (run its_end (run one_life empty)).db))
    × Forward (record gzunda { state = destroying }) i'
run-Forward_example =
    run-Forward one_life its_end "gzunda" 1 (record gzunda { state = destroying }) after_boot

-- Two lines of a console, of which the server takes the first.
abbrev two_lines : Database
two_lines = record {
  instance_rows = gzunda ∷ [];
  instance_event =
      record {
        nodename = "gzunda";
        instance_seq = 1;
        seq = 2;
        stream = "console";
        payload = "world";
        uploaded = false;
        time = 6;
      }
      ∷ record {
        nodename = "gzunda";
        instance_seq = 1;
        seq = 1;
        stream = "console";
        payload = "hello";
        uploaded = false;
        time = 5;
      }
      ∷ [];
}

two_lines-HasEventKeys : HasEventKeys two_lines
unfolding count
two_lines-HasEventKeys n q k = ground arith

abbrev is_second : InstanceEvent → Bool
is_second e = e.seq == 2

upload_events_conserves_example :
    count is_second (upload_events (accepted ∷ retry ∷ []) "gzunda" 1 two_lines).sent
      + count
          (pending_if is_second "gzunda" 1)
          (upload_events (accepted ∷ retry ∷ []) "gzunda" 1 two_lines).db.instance_event
    ≡ count (pending_if is_second "gzunda" 1) two_lines.instance_event
upload_events_conserves_example =
    upload_events_conserves is_second (accepted ∷ retry ∷ []) "gzunda" 1 two_lines
      two_lines-HasEventKeys

two_lines-pending : pending "gzunda" 1 two_lines ≤ length (accepted ∷ accepted ∷ [])
unfolding count
two_lines-pending = omega arith

upload_events_drains_example :
    ((upload_events (accepted ∷ accepted ∷ []) "gzunda" 1 two_lines).ended ≡ done)
    × (length (upload_events (accepted ∷ accepted ∷ []) "gzunda" 1 two_lines).sent
        ≡ pending "gzunda" 1 two_lines)
    × (pending "gzunda" 1 (upload_events (accepted ∷ accepted ∷ []) "gzunda" 1 two_lines).db ≡ 0)
upload_events_drains_example =
    upload_events_drains (accepted ∷ accepted ∷ []) "gzunda" 1 two_lines two_lines-HasEventKeys
      (refl, (refl, tt)) two_lines-pending

abbrev gimlet : HostConfig
gimlet = record { name = "gzunda"; debug_os_dir = none; debug_os_postboot_sh = none }

abbrev one_host : Config
one_host = record { hosts = gimlet ∷ []; targets = record { target = "lab"; os_dir = "/os" } ∷ [] }

abbrev booting_up : Database
booting_up = record { instance_rows = gzunda ∷ []; instance_event = [] }

abbrev booted_up : Database
booted_up = record { instance_rows = record gzunda { state = booted } ∷ []; instance_event = [] }

booting_up-HasKeys : HasKeys booting_up
unfolding count
booting_up-HasKeys n q = ground arith

gzunda_known : host_config one_host "gzunda" ≡ ok gimlet
unfolding host_config find
gzunda_known = refl

-- Before the signal the host may have the media.
before_signal : os_file one_host booting_up "gzunda" ("unix" ∷ []) ≡ ok ("/os" ∷ "unix" ∷ [])
unfolding os_file host_config find media_for instance_for_host select is_preboot media_dir
    target_os_dir below
before_signal = refl

gzunda_signal : signal one_host "gzunda" "key" booting_up ≡ ok booted_up
unfolding signal host_config find instance_for_host select signal_for boot_now should_teardown
    is_preboot instance_boot update_instance count update
gzunda_signal = refl

signal-denied_example :
    (os_file one_host booted_up "gzunda" ("unix" ∷ []) ≡ err access_denied)
    × (postboot_script one_host booted_up "gzunda" ≡ err access_denied)
    × ((i : Instance) × (ipxe_script one_host booted_up "gzunda" ≡ ok (hold_ipxe (some i) false)))
signal-denied_example =
    signal-denied one_host "gzunda" "key" booting_up booted_up gimlet ("unix" ∷ [])
      booting_up-HasKeys gzunda_known refl gzunda_signal
