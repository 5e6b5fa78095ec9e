-- ===== src/Agent/Server.antt =====
-- agent/src/control/server.rs, the reading half of `handle_client_turn`: what the loop over `take`
-- leaves, the requests it has sent on, and the error it stopped at.
pub mod Loop
pub mod Stream
pub mod Examples
use buildomat.Prelude.{
  ℕ, zero, suc, Bool, true, false, List, [], ◌∷◌, ◌++◌, Option, none, some, Result, ok, err,
}
use buildomat.Agent.Decoder.{
  Payload, store_get, store_put, metadata_addresses, Message, Decoder, TakeError, Taken,
  take_message, ingest_bytes,
}

-- The requests of the control program, and no other payload.
pub is_request : Payload → Bool
is_request (store_get _) = true
is_request (store_put _ _ _) = true
is_request metadata_addresses = true
is_request _ = false

pub data ServeError (E : Type 0) : Type 0 where
  taking : TakeError E → ServeError E
  unexpected : Payload → ServeError E

pub record Drained (E : Type 0) : Type 0 where
  pub decoder : Decoder E
  pub sent : List Message
  pub failure : Option (ServeError E)

module _ {E : Type 0} where
  sent_first : Message → Option (Drained E) → Option (Drained E)
  sent_first m none = none
  sent_first m (some r) = some (record r { sent = m ∷ r.sent })

  pub requested : (Decoder E → Option (Drained E)) → Decoder E → Message → Bool → Option (Drained E)
  unfolding sent_first
  requested go d m true = sent_first m (go d)
  requested go d m false =
      some (record { decoder = d; sent = []; failure = some (unexpected m.payload) })

  pub drained : (Decoder E → Option (Drained E)) → Taken E → Option (Drained E)
  unfolding requested is_request
  drained go none = none
  drained go (some (d, ok none)) = some (record { decoder = d; sent = []; failure = none })
  drained go (some (d, ok (some m))) = requested go d m (is_request m.payload)
  drained go (some (d, err e)) = some (record { decoder = d; sent = []; failure = some (taking e) })

  sent_before : List Message → Option (Drained E) → Option (Drained E)
  sent_before ms none = none
  sent_before ms (some r) = some (record r { sent = ms ++ r.sent })

module _ {E : Type 0} where
  read_in : (Decoder E → Option (Drained E)) → Option (Decoder E) → Option (Drained E)
  read_in go none = none
  read_in go (some d) = go d

  served_rest :
      (Decoder E → Option (Drained E)) → Drained E → Option (ServeError E) → Option (Drained E)
  unfolding sent_before
  served_rest go r none = sent_before r.sent (go r.decoder)
  served_rest go r (some e) = some r

  pub served : (Decoder E → Option (Drained E)) → Option (Drained E) → Option (Drained E)
  unfolding served_rest
  served go none = none
  served go (some r) = served_rest go r r.failure

module _ {E : Type 0} (from_slice : List ℕ → Result E Message) where
  -- `while let Some(msg) = decoder.take()?`, on fuel.
  pub drain : ℕ → Decoder E → Option (Drained E)
  drain zero d = none
  drain (suc f) d = drained (drain f) (take_message from_slice d)

  -- One read after another: the bytes go to the decoder, and the loop runs. An error closes the
  -- connection.
  pub serve : ℕ → Decoder E → List (List ℕ) → Option (Drained E)
  serve f d [] = some (record { decoder = d; sent = []; failure = none })
  serve f d (chunk ∷ chunks) =
      read_in (λ x. served (λ y. serve f y chunks) (drain f x)) (ingest_bytes d chunk)
