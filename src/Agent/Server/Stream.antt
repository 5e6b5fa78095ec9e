-- ===== src/Agent/Server/Stream.antt =====
-- What the read loop of agent/src/control/server.rs sends on, from a stream in several reads.
use buildomat.Prelude.{
  ℕ, zero, suc, ◌+◌, ◌*◌, ◌≤◌, ◌<◌, ◌≡◌, refl, sym, ap, subst, ◌∙◌, true, false, List, [], ◌∷◌,
  ◌++◌, Option, none, some, Result, ok, err, arith, length,
}
use mathlib.Core.List.{append_assoc, flatten}
use buildomat.Agent.Decoder.{Message, Decoder, TakeError, new, pack, take_message}
use buildomat.Agent.Server.{Drained, is_request, drain, drained, serve, read_in}
use buildomat.Agent.Decoder.Turns.{grown}
use buildomat.Agent.Decoder.Ended.{take_message-fin}
use buildomat.Agent.Decoder.Resume.{take_message_total, take_message-grown, take_message-resumed}
use buildomat.Agent.Decoder.Frames.{holding, take-pack, take_nothing, ingest_open}
use buildomat.Agent.Server.Loop.{
  drained_more, requested-eq-some, requested_next, served_next, grown-nil,
}

module _ {E : Type 0} (from_slice : List ℕ → Result E Message) where
  drain_more :
      (f g : ℕ) (d : Decoder E) (r : Drained E)
      → f ≤ g
      → drain from_slice f d ≡ some r
      → drain from_slice g d ≡ some r
  unfolding drain
  drain_more zero g d r l h = cc
  drain_more (suc f) zero d r l h = absurd (omega arith)
  drain_more (suc f) (suc g) d r l h =
      drained_more (drain from_slice f) (drain from_slice g) (take_message from_slice d) r
        (λ x y e. drain_more f g x y (omega arith) e) h

  abbrev IsIdle : Decoder E → Type 0
  IsIdle d = (d.fin ≡ false) × (take_message from_slice d ≡ some (d, ok none))

  -- A loop over a longer queue, cut in two: first on the front part, then on the rest.
  record Split (f : ℕ) (d : Decoder E) (ys : List ℕ) (r : Drained E) : Type 0 where
    first : Drained E
    second : Drained E
    runs_first : drain from_slice f d ≡ some first
    no_failure : first.failure ≡ none
    idle : IsIdle first.decoder
    runs_second : drain from_slice f (grown first.decoder ys) ≡ some second
    joins : r ≡ record second { sent = first.sent ++ second.sent }

  wait-IsIdle :
      (d d' : Decoder E)
      → d.fin ≡ false
      → take_message from_slice d ≡ some (d', ok none)
      → IsIdle d'
  wait-IsIdle d d' nf e = (
    take_message-fin from_slice d d' (ok none) false nf e,
    ap (take_message from_slice) (sym (grown-nil d'))
        ∙ take_message-resumed from_slice d d' [] nf e
        ∙ ap (take_message from_slice) (grown-nil d)
        ∙ e,
  )

  taken-Split :
      (f : ℕ) (d d' : Decoder E) (ys : List ℕ) (t : Result (TakeError E) (Option Message))
      (r : Drained E)
      → ((x : Decoder E) (y : Drained E)
          → x.fin ≡ false
          → y.failure ≡ none
          → drain from_slice f (grown x ys) ≡ some y
          → Split f x ys y)
      → d.fin ≡ false
      → r.failure ≡ none
      → take_message from_slice d ≡ some (d', t)
      → drain from_slice (suc f) (grown d ys) ≡ some r
      → Split (suc f) d ys r
  unfolding drain drained
  taken-Split f d d' ys (ok none) r ih nf ok_r e h = record {
    first = record { decoder = d'; sent = []; failure = none };
    second = r;
    runs_first = rw e;
    no_failure = refl;
    idle = wait-IsIdle d d' nf e;
    runs_second = rw (take_message-resumed from_slice d d' ys nf e) h;
    joins = refl;
  }
  taken-Split f d d' ys (ok (some m)) r ih nf ok_r e h =
      let g = take_message-grown from_slice d d' ys (ok (some m)) nf (λ x. ground arith) e in
      let (y, run, fine, whole, is) =
        requested-eq-some (drain from_slice f) (grown d' ys) m (is_request m.payload) r ok_r
          (rw g at h) in
      let s = ih d' y (take_message-fin from_slice d d' (ok (some m)) false nf e) fine run in
      record {
        first = record s.first { sent = m ∷ s.first.sent };
        second = s.second;
        runs_first = rw e (
            requested_next (drain from_slice f) d' m (is_request m.payload) s.first is
              s.runs_first);
        no_failure = s.no_failure;
        idle = s.idle;
        runs_second =
            drain_more f (suc f) (grown s.first.decoder ys) s.second (omega arith) s.runs_second;
        joins = whole ∙ ap (λ (z : Drained E). record z { sent = m ∷ z.sent }) s.joins;
      }
  taken-Split f d d' ys (err x) r ih nf ok_r e h =
      let g = take_message-grown from_slice d d' ys (err x) nf (λ y. cc) e in
      absurd (ground (arith, rw g at h))

  drain-Split :
      (f : ℕ) (d : Decoder E) (ys : List ℕ) (r : Drained E)
      → d.fin ≡ false
      → r.failure ≡ none
      → drain from_slice f (grown d ys) ≡ some r
      → Split f d ys r
  unfolding drain
  drain-Split zero d ys r nf ok_r h = absurd (ground arith)
  drain-Split (suc f) d ys r nf ok_r h =
      let (p, e, _) = take_message_total from_slice d in
      taken-Split f d p.0 ys p.1 r (λ x y nf' ok_y h'. drain-Split f x ys y nf' ok_y h') nf ok_r e h

  idle_drain :
      (f : ℕ) (d : Decoder E) (r : Drained E)
      → IsIdle d
      → drain from_slice f d ≡ some r
      → r ≡ record { decoder = d; sent = []; failure = none }
  unfolding drain drained
  idle_drain zero d r i h = cc
  idle_drain (suc f) d r i h = ground (arith, rw i.1 at h)

  -- The reads of a connection do what one loop over all their bytes does.
  serve-drain :
      (f : ℕ) (d : Decoder E) (chunks : List (List ℕ)) (r : Drained E)
      → IsIdle d
      → r.failure ≡ none
      → drain from_slice f (grown d (flatten chunks)) ≡ some r
      → serve from_slice f d chunks ≡ some r
  unfolding serve flatten read_in
  serve-drain f d [] r i ok_r h = ap some (sym (idle_drain f d r i (rw (grown-nil d) at h)))
  serve-drain f d (c ∷ cs) r i ok_r h =
      let s = drain-Split f (grown d c) (flatten cs) r i.0 ok_r (
        subst (λ q. drain from_slice f (record d { readq = q }) ≡ some r)
          (sym (append_assoc d.readq c (flatten cs))) h) in
      rw (ingest_open d c i.0, s.runs_first)
        (served_next (λ x. serve from_slice f x cs) s.first s.second r s.no_failure
          (serve-drain f s.first.decoder cs s.second s.idle (cc (ok_r, s.joins)) s.runs_second)
          s.joins)

  -- The messages of a stream, their frames, and that each is a request of at most a GiB.
  abbrev pub Packed : (Message → Result E (List ℕ)) → List Message → List (List ℕ) → Type 0
  Packed to_vec [] [] = Unit
  Packed to_vec (m ∷ ms) (f ∷ fs) =
      (pack to_vec m ≡ ok f)
      × (length f ≤ 8 + 1024 * 1024 * 1024)
      × (is_request m.payload ≡ true)
      × Packed to_vec ms fs
  Packed to_vec _ _ = ⊥

  module _ (to_vec : Message → Result E (List ℕ))
      (codec : (m : Message) (buf : List ℕ) → to_vec m ≡ ok buf → from_slice buf ≡ ok m) where
    drain_frames :
        (ms : List Message) (frames : List (List ℕ))
        → Packed to_vec ms frames
        → drain from_slice (suc (length ms)) (holding false (flatten frames))
          ≡ some (record { decoder = holding false []; sent = ms; failure = none })
    unfolding drain drained flatten
    drain_frames [] [] p = rw (take_nothing from_slice)
    drain_frames [] (f ∷ fs) p = absurd p
    drain_frames (m ∷ ms) [] p = absurd p
    drain_frames (m ∷ ms) (f ∷ fs) p =
        rw (take-pack from_slice to_vec codec false m f (flatten fs) p.0 p.1) (
          requested_next (drain from_slice (suc (length ms))) (holding false (flatten fs)) m
            (is_request m.payload) _ p.2 (drain_frames ms fs p.3))

    -- Take a JSON codec that reads back what it has written. When the bytes that a new connection
    -- reads are the frames of a list of requests, each at most a GiB, then however those bytes are
    -- cut into reads, the loop sends on exactly those requests, in order, without a failure, and ends
    -- at rest with an empty queue; fuel above the number of requests is enough.
    pub serve_frames :
        (ms : List Message) (frames chunks : List (List ℕ)) (f : ℕ)
        → Packed to_vec ms frames
        → flatten chunks ≡ flatten frames
        → length ms < f
        → serve from_slice f new chunks ≡ some (record { decoder = new; sent = ms; failure = none })
    unfolding new
    serve_frames ms frames chunks f p cut l =
        serve-drain f new chunks _ (refl, take_nothing from_slice) refl
          (rw cut (
            drain_more (suc (length ms)) f (holding false (flatten frames)) _ l
              (drain_frames ms frames p)))
