-- ===== src/Lab/Worker/Examples.antt =====
-- An instance and its worker.
use buildomat.Prelude.{
  ◌≡◌, refl, false, true, List, [], ◌∷◌, All, inl, inr, map, not, some, none, arith, text_trim,
}
use buildomat.Sql.{find, count, select}
use buildomat.Lab.Models.{Instance, booted, destroyed_row}
use buildomat.Lab.Database.{Database}
use buildomat.Lab.InstanceId.{
  digit, digits, to_string, scan, scan_some, u64_from_str, with_seq, id_of, split_slash,
  parse_instance_id,
}
use buildomat.Lab.InstanceId.RoundTrip.{parse_instance_id-id_of}
use buildomat.Lab.Worker.{FactoryWorker, is_detritus, scrubbed}
use buildomat.Lab.Worker.Scrub.{IsNamed, IsAssociated, has_active, scrubbed-active}
use buildomat.Lab.Changes.{HasKeys}

abbrev running : Instance
running = record {
  nodename = "gzunda";
  seq = 5334;
  worker = "w1";
  target = "lab";
  state = booted;
  key = "k";
  bootstrap = "b";
  flushed = true;
}

abbrev lab_running : Database
lab_running = record { instance_rows = running ∷ []; instance_event = [] }

abbrev its_worker : FactoryWorker
its_worker = record { id = "w1"; private = some "gzunda/5334"; recycle = false }

its_id : id_of running ≡ "gzunda/5334"
unfolding id_of with_seq to_string digits digit
its_id = refl

parse_instance_id-id_of_example : parse_instance_id (id_of running) ≡ some ("gzunda", 5334)
unfolding text_trim
parse_instance_id-id_of_example = parse_instance_id-id_of running refl refl (omega arith)

abbrev all_workers : List FactoryWorker
all_workers =
    its_worker
    ∷ record its_worker { id = "w2"; private = some "gzunda/5335" }
    ∷ record its_worker { id = "w3"; private = none }
    ∷ []

running-IsNamed : IsNamed running
unfolding text_trim
running-IsNamed = record { slash = refl; blank = refl; fits = omega arith }

next-IsNamed : IsNamed (record running { seq = 5335 })
unfolding text_trim
next-IsNamed = record { slash = refl; blank = refl; fits = omega arith }

lab_running-HasKeys : HasKeys lab_running
unfolding count
lab_running-HasKeys n q = ground arith

all_workers-IsAssociated : All IsAssociated all_workers
unfolding id_of with_seq to_string digits digit
all_workers-IsAssociated = (
  inr (running, running-IsNamed, refl),
  (inr (record running { seq = 5335 }, next-IsNamed, refl), (inl refl, tt)),
)

scrubbed-active_example :
    scrubbed lab_running all_workers
    ≡ map (λ w. w.id) (select (λ w. not (has_active lab_running w)) all_workers)
scrubbed-active_example =
    scrubbed-active lab_running lab_running-HasKeys (running-IsNamed, tt) all_workers
      all_workers-IsAssociated

-- A worker of an instance that does not exist, and one without an instance.
two_left : scrubbed lab_running all_workers ≡ "w2" ∷ "w3" ∷ []
unfolding scrubbed is_detritus parse_instance_id split_slash u64_from_str scan_some scan text_trim
    find destroyed_row
two_left = refl
