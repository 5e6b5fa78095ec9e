-- ===== src/Agent/Decoder/Turns.antt =====
-- The turns of the loop of `Decoder::take`, agent/src/control/protocol.rs.
use buildomat.Prelude.{
  ℕ, zero, suc, ◌≤◌, ◌<◌, ◌≡◌, refl, false, List, [], ◌∷◌, ◌++◌, Option, some, Result, ok, err,
  arith, length, take, drop, length-append, take-append, drop-append,
}
use buildomat.Agent.Decoder.{
  Message, Decoder, State, rest, version, header, failed, TakeError, Flow, again, wait, done,
  get_u32_le, parsed, in_state, turn, take_loop, starved, Taken, follow,
}

-- How many turns a state has before it at most.
pub rank : {E : Type 0} → State E → ℕ
rank rest = 4
rank version = 3
rank (header n) = 2
rank (failed e) = 1

rank_pos : {E : Type 0} (s : State E) → 0 < rank s
unfolding rank
rank_pos rest = omega arith
rank_pos version = omega arith
rank_pos (header n) = omega arith
rank_pos (failed e) = omega arith

pub rank_le : {E : Type 0} (s : State E) → rank s ≤ 4
unfolding rank
rank_le rest = omega arith
rank_le version = omega arith
rank_le (header n) = omega arith
rank_le (failed e) = omega arith

abbrev pub IsTaken : {E : Type 0} → Taken E → Type 0
IsTaken {E} t = (p : Decoder E × Result (TakeError E) (Option Message)) × (t ≡ some p)

-- More bytes at the end of the queue.
abbrev pub grown : {E : Type 0} → Decoder E → List ℕ → Decoder E
grown d bs = record d { readq = d.readq ++ bs }

get_u32_le-append : (q bs : List ℕ) → 4 ≤ length q → get_u32_le (q ++ bs) ≡ get_u32_le q
unfolding get_u32_le
get_u32_le-append (a ∷ b ∷ c ∷ d ∷ q) bs h = refl
get_u32_le-append [] bs h = absurd (omega arith)
get_u32_le-append (a ∷ []) bs h = absurd (omega arith)
get_u32_le-append (a ∷ b ∷ []) bs h = absurd (omega arith)
get_u32_le-append (a ∷ b ∷ c ∷ []) bs h = absurd (omega arith)

-- How many bytes a state waits for.
unfoldable pub need : {E : Type 0} → State E → ℕ
need rest = 4
need version = 4
need (header n) = n
need (failed e) = 0

unfoldable pub grown_flow : {E : Type 0} → List ℕ → Flow E → Flow E
grown_flow bs (again d) = again (grown d bs)
grown_flow bs (wait d) = wait (grown d bs)
grown_flow bs (done d r) = done (grown d bs) r

module _ {E : Type 0} where
  follow_more :
      (go go' : Decoder E → Taken E) (w : Flow E)
      (p : Decoder E × Result (TakeError E) (Option Message))
      → ((d : Decoder E) → go d ≡ some p → go' d ≡ some p)
      → follow go w ≡ some p
      → follow go' w ≡ some p
  unfolding follow
  follow_more go go' (again d) p k h = k d h
  follow_more go go' (wait d) p k h = h
  follow_more go go' (done d r) p k h = h

  follow_total :
      (go : Decoder E → Taken E) (w : Flow E)
      → ((d : Decoder E) → w ≡ again d → IsTaken (go d))
      → IsTaken (follow go w)
  unfolding follow
  follow_total go (again d) k = k d refl
  follow_total go (wait d) k = (starved d, refl)
  follow_total go (done d r) k = ((d, r), refl)

module _ {E : Type 0} (from_slice : List ℕ → Result E Message) where
  at_header-rank :
      (n : ℕ) (d d' : Decoder E) (r : Result E Message)
      → parsed (record d { readq = drop n d.readq }) r ≡ again d'
      → rank d'.state < 2
  unfolding parsed rank
  at_header-rank n d d' (ok m) h = cc
  at_header-rank n d d' (err e) h = ground arith

  pub in_state-rank :
      (s : State E) (d d' : Decoder E) → in_state from_slice s d ≡ again d' → rank d'.state < rank s
  unfolding in_state rank
  in_state-rank rest d d' h = ground arith
  in_state-rank version d d' h = ground arith
  in_state-rank (header n) d d' h =
      ground (arith, at_header-rank n d d' (from_slice (take n d.readq)))
  in_state-rank (failed e) d d' h = cc

  parsed-grown :
      (d : Decoder E) (r : Result E Message) (bs : List ℕ)
      → parsed (grown d bs) r ≡ grown_flow bs (parsed d r)
  unfolding parsed grown_flow
  parsed-grown d (ok m) bs = refl
  parsed-grown d (err e) bs = refl

  -- A turn that has its bytes does the same with more bytes behind them.
  pub in_state-grown :
      (s : State E) (d : Decoder E) (bs : List ℕ)
      → d.fin ≡ false
      → need s ≤ length d.readq
      → in_state from_slice s (grown d bs) ≡ grown_flow bs (in_state from_slice s d)
  unfolding in_state need grown_flow
  in_state-grown rest d bs nf h =
      ground
        (arith, length-append d.readq bs, get_u32_le-append d.readq bs, drop-append 4 d.readq bs)
  in_state-grown version d bs nf h =
      ground
        (arith, length-append d.readq bs, get_u32_le-append d.readq bs, drop-append 4 d.readq bs)
  in_state-grown (header n) d bs nf h = ground (
    arith,
    length-append d.readq bs,
    take-append n d.readq bs,
    drop-append n d.readq bs,
    parsed-grown (record d { readq = drop n d.readq }) (from_slice (take n d.readq)) bs,
  )
  in_state-grown (failed e) d bs nf h = refl

  pub in_state-wait :
      (s : State E) (d : Decoder E)
      → d.fin ≡ false
      → length d.readq < need s
      → in_state from_slice s d ≡ wait d
  unfolding in_state need
  in_state-wait rest d nf h = ground arith
  in_state-wait version d nf h = ground arith
  in_state-wait (header n) d nf h = ground arith
  in_state-wait (failed e) d nf h = absurd (omega arith)

  -- More fuel changes no result.
  pub take_loop_more :
      (f g : ℕ) (d : Decoder E) (p : Decoder E × Result (TakeError E) (Option Message))
      → f ≤ g
      → take_loop from_slice f d ≡ some p
      → take_loop from_slice g d ≡ some p
  unfolding take_loop
  take_loop_more zero g d p h e = cc
  take_loop_more (suc f) zero d p h e = absurd (omega arith)
  take_loop_more (suc f) (suc g) d p h e =
      follow_more (take_loop from_slice f) (take_loop from_slice g) (turn from_slice d) p
        (λ d' k. take_loop_more f g d' p (omega arith) k) e

  pub take_loop_total :
      (f : ℕ) (d : Decoder E) → rank d.state ≤ f → IsTaken (take_loop from_slice f d)
  unfolding take_loop turn
  take_loop_total zero d h = absurd (omega (arith, rank_pos d.state))
  take_loop_total (suc f) d h =
      follow_total (take_loop from_slice f) (turn from_slice d)
        λ d' e. take_loop_total f d' (omega (arith, in_state-rank d.state d d' e))
