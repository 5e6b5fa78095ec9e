-- ===== src/Agent/Server/Loop.antt =====
-- The steps of the loop over `take`.
use buildomat.Prelude.{
  ◌≡◌, refl, ap, Bool, true, false, [], ◌∷◌, ◌++◌, Option, none, some, ok, err, arith, Option-cases,
  inl, inr,
}
use mathlib.Core.List.{append-nil}
use buildomat.Agent.Decoder.{Message, Decoder, Taken}
use buildomat.Agent.Server.{Drained, is_request, drained, requested, served, sent_before}
use buildomat.Agent.Decoder.Turns.{grown}

module _ {E : Type 0} where
  pub requested_more :
      (go go' : Decoder E → Option (Drained E)) (d : Decoder E) (m : Message) (b : Bool)
      (r : Drained E)
      → ((x : Drained E) → go d ≡ some x → go' d ≡ some x)
      → requested go d m b ≡ some r
      → requested go' d m b ≡ some r
  unfolding requested
  requested_more go go' d m false r k h = h
  requested_more go go' d m true r k h = elim (Option-cases (go d)) [
    | inl e ↦ ground arith
    | inr (x, e) ↦ rw (k x e) (rw e at h)
  ]

  pub drained_more :
      (go go' : Decoder E → Option (Drained E)) (t : Taken E) (r : Drained E)
      → ((d : Decoder E) (r : Drained E) → go d ≡ some r → go' d ≡ some r)
      → drained go t ≡ some r
      → drained go' t ≡ some r
  unfolding drained
  drained_more go go' none r k h = cc
  drained_more go go' (some (d, ok none)) r k h = h
  drained_more go go' (some (d, ok (some m))) r k h =
      requested_more go go' d m (is_request m.payload) r (k d) h
  drained_more go go' (some (d, err e)) r k h = h

  -- A request is sent on, and the loop goes on without a failure only after requests.
  pub requested-eq-some :
      (go : Decoder E → Option (Drained E)) (d : Decoder E) (m : Message) (b : Bool) (r : Drained E)
      → r.failure ≡ none
      → requested go d m b ≡ some r
      → (x : Drained E) × (go d ≡ some x)
        × (x.failure ≡ none)
        × (r ≡ record x { sent = m ∷ x.sent })
        × (b ≡ true)
  unfolding requested
  requested-eq-some go d m false r nf h = ground arith
  requested-eq-some go d m true r nf h = elim (Option-cases (go d)) [
    | inl e ↦ ground arith
    | inr (x, e) ↦ (x, e, ground arith, ground arith, refl)
  ]

pub requested_next :
    {E : Type 0} (go : Decoder E → Option (Drained E)) (d : Decoder E) (m : Message) (b : Bool)
    (x : Drained E)
    → b ≡ true
    → go d ≡ some x
    → requested go d m b ≡ some (record x { sent = m ∷ x.sent })
unfolding requested
requested_next go d m b x t e = ground arith

pub served_next :
    {E : Type 0} (go : Decoder E → Option (Drained E)) (a b r : Drained E)
    → a.failure ≡ none
    → go a.decoder ≡ some b
    → r ≡ record b { sent = a.sent ++ b.sent }
    → served go (some a) ≡ some r
unfolding served sent_before
served_next go a b r nf e j = ground arith

pub grown-nil : {E : Type 0} (d : Decoder E) → grown d [] ≡ d
grown-nil d = ap (λ q. record d { readq = q }) (append-nil d.readq)
