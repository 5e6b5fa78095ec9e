-- ===== src/Agent/Decoder/Ended.antt =====
-- `Decoder::take` of agent/src/control/protocol.rs at the end of the stream.
use buildomat.Prelude.{
  ℕ, zero, suc, ◌≡◌, refl, subst, ◌∙◌, ◌≢◌, Bool, true, false, List, Option, none, some, Result, ok,
  err, arith, take, drop,
}
use buildomat.Agent.Decoder.{
  Message, Decoder, State, rest, version, header, failed, TakeError, Flow, again, wait, done,
  parsed, in_state, turn, take_loop, take_message, starved, ended, Taken, follow,
}

abbrev pub decoder_of : {E : Type 0} → Flow E → Decoder E
decoder_of (again d) = d
decoder_of (wait d) = d
decoder_of (done d r) = d

-- What a finished stream may answer with when it has no message.
abbrev AtEnd : {E : Type 0} → Decoder E → Type 0
AtEnd d = (ended d ≡ true) × (d.state ≡ rest)

module _ {E : Type 0} where
  pub parsed-done : (d d' : Decoder E) (r : Result E Message) → parsed d r ≢ done d' (ok none)
  unfolding parsed
  parsed-done d d' (ok m) h = ground arith
  parsed-done d d' (err e) h = cc

  -- No turn touches `fin`.
  parsed-fin : (d : Decoder E) (r : Result E Message) → (decoder_of (parsed d r)).fin ≡ d.fin
  unfolding parsed
  parsed-fin d (ok m) = refl
  parsed-fin d (err e) = refl

  follow-fin :
      (go : Decoder E → Taken E) (w : Flow E) (b : Bool) (d' : Decoder E)
      (r : Result (TakeError E) (Option Message))
      → (decoder_of w).fin ≡ b
      → ((d : Decoder E) → d.fin ≡ b → go d ≡ some (d', r) → d'.fin ≡ b)
      → follow go w ≡ some (d', r)
      → d'.fin ≡ b
  unfolding follow starved
  follow-fin go (again d) b d' r k ih h = ih d k h
  follow-fin go (wait d) b d' r k ih h = ground arith
  follow-fin go (done d x) b d' r k ih h = ground arith

  follow-ended :
      (go : Decoder E → Taken E) (w : Flow E) (d' : Decoder E)
      → (decoder_of w).fin ≡ true
      → ((d : Decoder E) → w ≡ done d (ok none) → AtEnd d)
      → ((d : Decoder E) → d.fin ≡ true → go d ≡ some (d', ok none) → AtEnd d')
      → follow go w ≡ some (d', ok none)
      → AtEnd d'
  unfolding follow starved
  follow-ended go (again d) d' k now ih h = ih d k h
  follow-ended go (wait d) d' k now ih h = absurd (ground arith)
  follow-ended go (done d x) d' k now ih h = subst AtEnd (ground arith) (now d (ground arith))

module _ {E : Type 0} (from_slice : List ℕ → Result E Message) where
  pub in_state-fin :
      (s : State E) (d : Decoder E) → (decoder_of (in_state from_slice s d)).fin ≡ d.fin
  unfolding in_state
  in_state-fin rest d = ground arith
  in_state-fin version d = ground arith
  in_state-fin (header n) d =
      ground (arith, parsed-fin (record d { readq = drop n d.readq }) (from_slice (take n d.readq)))
  in_state-fin (failed e) d = refl

  pub in_state-fin_again :
      (s : State E) (d x : Decoder E)
      → d.fin ≡ false
      → in_state from_slice s d ≡ again x
      → x.fin ≡ false
  in_state-fin_again s d x nf e = subst (λ w. (decoder_of w).fin ≡ false) e (in_state-fin s d ∙ nf)

  pub take_loop-fin :
      (f : ℕ) (d d' : Decoder E) (r : Result (TakeError E) (Option Message)) (b : Bool)
      → d.fin ≡ b
      → take_loop from_slice f d ≡ some (d', r)
      → d'.fin ≡ b
  unfolding take_loop turn
  take_loop-fin zero d d' r b k h = cc
  take_loop-fin (suc f) d d' r b k h =
      follow-fin (take_loop from_slice f) (in_state from_slice d.state d) b d' r
        (in_state-fin d.state d ∙ k) (λ x e t. take_loop-fin f x d' r b e t) h

  pub take_message-fin :
      (d d' : Decoder E) (r : Result (TakeError E) (Option Message)) (b : Bool)
      → d.fin ≡ b
      → take_message from_slice d ≡ some (d', r)
      → d'.fin ≡ b
  unfolding take_message
  take_message-fin d d' r b k h = take_loop-fin 4 d d' r b k h

  in_state-ended :
      (s : State E) (d d' : Decoder E)
      → d.state ≡ s
      → in_state from_slice s d ≡ done d' (ok none)
      → AtEnd d'
  unfolding in_state ended
  in_state-ended rest d d' e h = ground arith
  in_state-ended version d d' e h = absurd (ground arith)
  in_state-ended (header n) d d' e h = absurd (
      ground
        (arith, parsed-done (record d { readq = drop n d.readq }) d' (from_slice (take n d.readq))))
  in_state-ended (failed x) d d' e h = absurd (ground arith)

  take_loop-ended :
      (f : ℕ) (d d' : Decoder E)
      → d.fin ≡ true
      → take_loop from_slice f d ≡ some (d', ok none)
      → AtEnd d'
  unfolding take_loop turn
  take_loop-ended zero d d' k h = absurd (ground arith)
  take_loop-ended (suc f) d d' k h =
      follow-ended (take_loop from_slice f) (in_state from_slice d.state d) d'
        (in_state-fin d.state d ∙ k) (λ x e. in_state-ended d.state d x refl e)
        (λ x e t. take_loop-ended f x d' e t) h

  -- When the stream is over, `take` answers that there is no message only if every byte has been
  -- used and the decoder stands between two frames: a stream that ends inside a frame is an error.
  pub take_message-ended :
      (d d' : Decoder E)
      → d.fin ≡ true
      → take_message from_slice d ≡ some (d', ok none)
      → (ended d' ≡ true) × (d'.state ≡ rest)
  unfolding take_message
  take_message-ended d d' k h = take_loop-ended 4 d d' k h
