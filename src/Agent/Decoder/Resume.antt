-- ===== src/Agent/Decoder/Resume.antt =====
-- `Decoder::take` of agent/src/control/protocol.rs on a queue that grows.
use buildomat.Prelude.{
  ℕ, zero, suc, ◌+◌, ◌≤◌, ◌≡◌, refl, sym, subst, ◌∙◌, ◌≢◌, false, List, Option, none, some, Result,
  ok, err, arith, length, take, drop,
}
use native.Mathlib.Decide.{dec_lt}
use buildomat.Agent.Decoder.{
  Message, Decoder, State, rest, version, header, failed, TakeError, Flow, again, wait, done,
  parsed, in_state, turn, take_loop, take_message, starved, Taken, follow,
}
use buildomat.Agent.Decoder.Turns.{
  rank_le, need, grown, grown_flow, in_state-grown, in_state-wait, take_loop_more, take_loop_total,
}
use buildomat.Agent.Decoder.Ended.{parsed-done, in_state-fin_again}

module _ {E : Type 0} where
  follow-grown :
      (go go' : Decoder E → Taken E) (bs : List ℕ) (w : Flow E) (d' : Decoder E)
      (r : Result (TakeError E) (Option Message))
      → ((d : Decoder E)
          → w ≡ again d
          → go d ≡ some (d', r)
          → go' (grown d bs) ≡ some (grown d' bs, r))
      → follow go w ≡ some (d', r)
      → follow go' (grown_flow bs w) ≡ some (grown d' bs, r)
  unfolding follow grown_flow starved
  follow-grown go go' bs (again d) d' r k h = k d refl h
  follow-grown go go' bs (wait d) d' r k h = ground arith
  follow-grown go go' bs (done d x) d' r k h = ground arith

  follow-resumed :
      (go go' : Decoder E → Taken E) (bs : List ℕ) (w : Flow E) (d' : Decoder E)
      (p : Decoder E × Result (TakeError E) (Option Message))
      → ((d : Decoder E) → w ≢ wait d)
      → ((d : Decoder E) → w ≢ done d (ok none))
      → ((d : Decoder E) → w ≡ again d → go d ≡ some (d', ok none) → go' (grown d bs) ≡ some p)
      → follow go w ≡ some (d', ok none)
      → follow go' (grown_flow bs w) ≡ some p
  unfolding follow grown_flow
  follow-resumed go go' bs (again d) d' p nw nd k h = k d refl h
  follow-resumed go go' bs (wait d) d' p nw nd k h = absurd (nw d refl)
  follow-resumed go go' bs (done d x) d' p nw nd k h = absurd (nd d (ground arith))

  wait-starved :
      (go : Decoder E → Taken E) (d d' : Decoder E)
      → follow go (wait d) ≡ some (d', ok none)
      → d' ≡ d
  unfolding follow starved
  wait-starved go d d' h = ground arith

  parsed-wait : (d d' : Decoder E) (r : Result E Message) → parsed d r ≢ wait d'
  unfolding parsed
  parsed-wait d d' (ok m) h = cc
  parsed-wait d d' (err e) h = cc

module _ {E : Type 0} (from_slice : List ℕ → Result E Message) where
  in_state-ne-wait :
      (s : State E) (d d' : Decoder E) → need s ≤ length d.readq → in_state from_slice s d ≢ wait d'
  unfolding in_state need
  in_state-ne-wait rest d d' n h = ground arith
  in_state-ne-wait version d d' n h = ground arith
  in_state-ne-wait (header k) d d' n h =
      ground
        (arith, parsed-wait (record d { readq = drop k d.readq }) d' (from_slice (take k d.readq)))
  in_state-ne-wait (failed e) d d' n h = cc

  in_state-ne-done :
      (s : State E) (d d' : Decoder E) → d.fin ≡ false → in_state from_slice s d ≢ done d' (ok none)
  unfolding in_state
  in_state-ne-done rest d d' n h = ground arith
  in_state-ne-done version d d' n h = ground arith
  in_state-ne-done (header k) d d' n h =
      ground
        (arith, parsed-done (record d { readq = drop k d.readq }) d' (from_slice (take k d.readq)))
  in_state-ne-done (failed e) d d' n h = ground arith

  take_loop-grown :
      (f : ℕ) (d d' : Decoder E) (bs : List ℕ) (r : Result (TakeError E) (Option Message))
      → d.fin ≡ false
      → r ≢ ok none
      → take_loop from_slice f d ≡ some (d', r)
      → take_loop from_slice f (grown d bs) ≡ some (grown d' bs, r)
  unfolding take_loop turn follow starved
  take_loop-grown zero d d' bs r nf nw h = cc
  take_loop-grown (suc f) d d' bs r nf nw h = elim (dec_lt (length d.readq) (need d.state)) [
    | yes short ↦ absurd (ground (arith, in_state-wait from_slice d.state d nf short))
    | no enough ↦ rw (in_state-grown from_slice d.state d bs nf (omega arith)) (
        follow-grown (take_loop from_slice f) (take_loop from_slice f) bs
          (in_state from_slice d.state d) d' r
          (λ x e k.
            take_loop-grown f x d' bs r (in_state-fin_again from_slice d.state d x nf e) nw k)
          h)
  ]

  take_loop-resumed :
      (f g k : ℕ) (d d' : Decoder E) (bs : List ℕ)
      (p : Decoder E × Result (TakeError E) (Option Message))
      → d.fin ≡ false
      → f + g ≤ k
      → take_loop from_slice f d ≡ some (d', ok none)
      → take_loop from_slice g (grown d' bs) ≡ some p
      → take_loop from_slice k (grown d bs) ≡ some p
  unfolding take_loop turn follow starved
  take_loop-resumed zero g k d d' bs p nf l h t = cc
  take_loop-resumed (suc f) g zero d d' bs p nf l h t = absurd (omega arith)
  take_loop-resumed (suc f) g (suc k) d d' bs p nf l h t =
      elim (dec_lt (length d.readq) (need d.state)) [
        | yes short ↦ take_loop_more from_slice g (suc k) (grown d bs) p (omega arith) (
            subst (λ x. take_loop from_slice g (grown x bs) ≡ some p)
              (wait-starved (take_loop from_slice f) d d'
                (rw (in_state-wait from_slice d.state d nf short) at h))
              t)
        | no enough ↦ rw (in_state-grown from_slice d.state d bs nf (omega arith)) (
            follow-resumed (take_loop from_slice f) (take_loop from_slice k) bs
              (in_state from_slice d.state d) d' p (λ x. in_state-ne-wait d.state d x (omega arith))
              (λ x. in_state-ne-done d.state d x nf)
              (λ x e w.
                take_loop-resumed f g k x d' bs p (in_state-fin_again from_slice d.state d x nf e)
                  (omega arith) w t)
              h)
      ]

  -- `take` always comes back: four turns of its loop are enough, and more fuel changes nothing.
  pub take_message_total :
      (d : Decoder E)
      → (p : Decoder E × Result (TakeError E) (Option Message)) × (take_message from_slice d
          ≡ some p)
        × ((f : ℕ) → 4 ≤ f → take_loop from_slice f d ≡ some p)
  unfolding take_message
  take_message_total d =
      let (p, e) = take_loop_total from_slice 4 d (rank_le d.state) in
      (p, e, λ f h. take_loop_more from_slice 4 f d p h e)

  -- While the stream is open, a `take` that yields a message or an error yields the same one when
  -- more bytes stand behind it, and leaves those bytes on the queue.
  pub take_message-grown :
      (d d' : Decoder E) (bs : List ℕ) (r : Result (TakeError E) (Option Message))
      → d.fin ≡ false
      → r ≢ ok none
      → take_message from_slice d ≡ some (d', r)
      → take_message from_slice (grown d bs) ≡ some (grown d' bs, r)
  unfolding take_message
  take_message-grown d d' bs r nf nw h = take_loop-grown 4 d d' bs r nf nw h

  -- While the stream is open, a `take` that finds too few bytes loses nothing: once more bytes have
  -- come, the next `take` does what a single one would have done on all the bytes.
  pub take_message-resumed :
      (d d' : Decoder E) (bs : List ℕ)
      → d.fin ≡ false
      → take_message from_slice d ≡ some (d', ok none)
      → take_message from_slice (grown d' bs) ≡ take_message from_slice (grown d bs)
  unfolding take_message
  take_message-resumed d d' bs nf h =
      let (p, e, m) = take_message_total (grown d bs) in
      let (q, e') = take_loop_total from_slice 4 (grown d' bs) (rank_le d'.state) in
      e'
      ∙ sym (take_loop-resumed 4 4 8 d d' bs q nf (omega arith) h e')
      ∙ m 8 (omega arith)
      ∙ sym (m 4 (omega arith))
