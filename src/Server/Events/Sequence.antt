-- ===== src/Server/Events/Sequence.antt =====
-- The sequence numbers of a job's events.
use buildomat.Prelude.{
  ℕ, ◌+◌, ◌-◌, ◌^◌, ◌≡◌, refl, Bool, true, false, ◌&&◌, List, [], ◌∷◌, ◌++◌, Option, none, some,
  String, ok, err, arith, any, ltb, leb, ◌==◌, if◌then◌else◌, is_some, is_none, inl, inr,
  Bool-cases, ◌<◌,
}
use buildomat.Sql.{insert}
use buildomat.Sql.Counts.{any_miss}
use buildomat.Server.Models.{JobEvent, Payload}
use buildomat.Server.State.{Database, constraint}
use buildomat.Server.Events.{
  as_i32, task_i32, signed, max_seq, max_with, unwrap_or, same_event, i_job_event_insert,
}

abbrev pub next_seq : ℕ → List JobEvent → ℕ
next_seq job es = as_i32 (unwrap_or (max_seq job es) 0 + 1)

abbrev pub event_row : ℕ → Option ℕ → ℕ → String → ℕ → Option ℕ → Payload → JobEvent
event_row job task seq stream time time_remote payload = record {
  job = job;
  task = task_i32 task;
  seq = seq;
  stream = stream;
  time = time;
  payload = payload;
  time_remote = time_remote;
}

-- An event of the job whose number passes the test.
abbrev pub seq_of : ℕ → (ℕ → Bool) → JobEvent → Bool
seq_of job p e = e.job == job && p e.seq

module _ (job : ℕ) where
  -- The maximum, among numbers that are not negative.
  record IsMax (es : List JobEvent) (o : Option ℕ) : Type 0 where
    pub above : any (seq_of job (ltb (unwrap_or o 0))) es ≡ false
    pub reached :
        (if any (λ e. e.job == job) es
          then is_some o && any (seq_of job (λ q. q == unwrap_or o 0)) es
          else is_none o)
        ≡ true
    pub low : unwrap_or o 0 < 2 ^ 31 - 1

  with-IsMax :
      (e : JobEvent) (es : List JobEvent) (o : Option ℕ)
      → (e.job == job) ≡ true
      → any (seq_of job (leb (2 ^ 31 - 1))) (e ∷ es) ≡ false
      → IsMax es o
      → IsMax (e ∷ es) (max_with e.seq o)
  with-IsMax e es none y small m = record {
    above = ground (
      arith,
      m.above,
      any_miss (seq_of job (ltb 0)) (seq_of job (ltb e.seq)) es (λ x h. ground arith),
    );
    reached = ground arith;
    low = ground arith;
  }
  with-IsMax e es (some n) y small m = elim (Bool-cases (leb (signed e.seq) (signed n))) [
    | inl c ↦ rw c (record {
      above = ground (arith, m.above, m.low);
      reached = ground (arith, m.reached, m.low);
      low = m.low;
    })
    | inr c ↦ rw c (record {
      above = ground (
        arith,
        m.above,
        m.low,
        any_miss (seq_of job (ltb n)) (seq_of job (ltb e.seq)) es (λ x h. ground (arith, m.low)),
      );
      reached = ground arith;
      low = ground arith;
    })
  ]

  max_seq-IsMax :
      (es : List JobEvent)
      → any (seq_of job (leb (2 ^ 31 - 1))) es ≡ false
      → IsMax es (max_seq job es)
  unfolding max_seq
  max_seq-IsMax [] small = record { above = refl; reached = refl; low = omega arith }
  max_seq-IsMax (e ∷ es) small =
      let m = max_seq-IsMax es (ground arith) in
      elim (Bool-cases (e.job == job)) [
        | inl y ↦ rw (y, max_seq) (with-IsMax e es (max_seq job es) y small m)
        | inr n ↦
            rw (n, max_seq)
              (record {
                above = ground (arith, m.above);
                reached = ground (arith, m.reached);
                low = m.low;
              })
      ]

module _ (job : ℕ) (task : Option ℕ) (stream : String) (time : ℕ) (time_remote : Option ℕ)
    (payload : Payload) where
  -- The insert appends a row, or meets the key constraint.
  pub event_insert_lem :
      (s : Database)
      → i_job_event_insert job task stream time time_remote payload s ≡ (
          if any
            (same_event
              (event_row job task (next_seq job s.job_event) stream time time_remote payload))
            s.job_event
          then err constraint
          else ok (
            tt,
            record s {
              job_event =
                  s.job_event
                  ++ event_row job task (next_seq job s.job_event) stream time time_remote payload
                    ∷ [];
            },
          ))
  unfolding i_job_event_insert insert
  event_insert_lem s = ground arith

  -- While the numbers of a job's events are below the largest i32, an insert into the event log does not
  -- fail. It appends a row whose number is above those of all events of the job: the number is one more
  -- than that of some event of the job, and 1 if the job has none.
  pub event_insert-next :
      (s : Database)
      → any (seq_of job (leb (2 ^ 31 - 1))) s.job_event ≡ false
      → (n : ℕ) × (i_job_event_insert job task stream time time_remote payload s
          ≡ ok (
            tt,
            record s {
              job_event = s.job_event ++ event_row job task n stream time time_remote payload ∷ [];
            },
          ))
        × (any (seq_of job (leb n)) s.job_event ≡ false)
        × ((if any (λ e. e.job == job) s.job_event
              then any (seq_of job (λ q. q + 1 == n)) s.job_event
              else n == 1)
            ≡ true)
  event_insert-next s small =
      let m = max_seq-IsMax job s.job_event small in
      let top = unwrap_or (max_seq job s.job_event) 0 in
      let next : next_seq job s.job_event ≡ top + 1 = omega (arith, m.low) in
      let row = event_row job task (next_seq job s.job_event) stream time time_remote payload in
      let free =
        any_miss (seq_of job (ltb top)) (seq_of job (leb (next_seq job s.job_event))) s.job_event
          (λ x h. ground (arith, next)) m.above in
      let fresh =
        any_miss (seq_of job (leb (next_seq job s.job_event))) (same_event row) s.job_event
          (λ x h. ground arith) free in
      let below =
        any_miss (seq_of job (λ q. q + 1 == next_seq job s.job_event)) (seq_of job (λ q. q == top))
          s.job_event (λ x h. ground (arith, next)) in
      (
        next_seq job s.job_event,
        rw (event_insert_lem s, fresh) refl,
        free,
        ground (arith, m.reached, next, below),
      )
