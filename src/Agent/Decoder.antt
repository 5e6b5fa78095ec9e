-- ===== src/Agent/Decoder.antt =====
-- agent/src/control/protocol.rs: the framed messages on the control socket. `serde_json` is a
-- parameter; a byte is a number below 256.
pub mod Turns
pub mod Ended
pub mod Resume
pub mod Frames
pub mod Examples
use buildomat.Prelude.{
  ℕ, zero, suc, ◌+◌, ◌*◌, ◌/◌, ◌%◌, ◌^◌, Bool, true, false, ◌&&◌, List, [], ◌∷◌, ◌++◌, Option, none,
  some, String, Result, ok, err, ltb, ◌==◌, if◌then◌else◌, length, take, drop, is_empty,
}

pub record StoreEntry : Type 0 where
  pub name : String
  pub value : String
  pub secret : Bool

-- types/src/metadata.rs
pub record FactoryAddresses : Type 0 where
  pub name : String
  pub cidr : String
  pub first : String
  pub count : ℕ  -- u32
  pub routed : Bool
  pub gateway : Option String

pub data Payload : Type 0 where
  ack : Payload
  error : String → Payload
  store_get : String → Payload
  store_get_result : Option StoreEntry → Payload
  store_put : String → String → Bool → Payload
  metadata_addresses : Payload
  metadata_addresses_result : List FactoryAddresses → Payload

pub record Message : Type 0 where
  pub id : ℕ  -- u64
  pub payload : Payload

-- `put_u32_le` and `get_u32_le`. The second is called with at least four bytes in the queue.
unfoldable pub put_u32_le : ℕ → List ℕ
put_u32_le n = n % 256 ∷ (n / 2 ^ 8) % 256 ∷ (n / 2 ^ 16) % 256 ∷ (n / 2 ^ 24) % 256 ∷ []

unfoldable pub get_u32_le : List ℕ → ℕ
get_u32_le (a ∷ b ∷ c ∷ d ∷ rest) = a + b * 2 ^ 8 + c * 2 ^ 16 + d * 2 ^ 24
get_u32_le _ = 0

-- What `Message::pack` fails with: the encoder's error, or the panic of `unwrap` on a length that
-- does not fit in 32 bits.
pub data PackError (E : Type 0) : Type 0 where
  json : E → PackError E
  length_panic : PackError E

pub data DecodeError (E : Type 0) : Type 0 where
  version_mismatch : ℕ → DecodeError E
  packet_length : ℕ → DecodeError E
  bad_frame : E → DecodeError E

pub data State (E : Type 0) : Type 0 where
  rest : State E
  version : State E
  header : ℕ → State E
  failed : DecodeError E → State E

pub record Decoder (E : Type 0) : Type 0 where
  pub fin : Bool
  pub readq : List ℕ
  pub state : State E

pub data TakeError (E : Type 0) : Type 0 where
  decode : DecodeError E → TakeError E
  abrupt_end : TakeError E

-- What one turn of the loop in `take` does: `continue`, `break`, or `return`.
pub data Flow (E : Type 0) : Type 0 where
  again : Decoder E → Flow E
  wait : Decoder E → Flow E
  done : Decoder E → Result (TakeError E) (Option Message) → Flow E

module _ {E : Type 0} where
  -- `panic` of `unwrap` where the length does not fit in 32 bits.
  pack_frame : List ℕ → Result (PackError E) (List ℕ)
  pack_frame buf =
      if ltb (length buf) (2 ^ 32)
      then ok (put_u32_le 1 ++ (put_u32_le (length buf) ++ buf))
      else err length_panic

  pack_encoded : Result E (List ℕ) → Result (PackError E) (List ℕ)
  unfolding pack_frame
  pack_encoded (ok buf) = pack_frame buf
  pack_encoded (err e) = err (json e)

  unfoldable pub new : Decoder E
  new = record { fin = false; readq = []; state = rest }

  -- `none` is the failed assertion.
  pub ingest_bytes : Decoder E → List ℕ → Option (Decoder E)
  ingest_bytes d input = if d.fin then none else some (record d { readq = d.readq ++ input })

  pub ingest_eof : Decoder E → Decoder E
  ingest_eof d = record d { fin = true }

  pub ended : Decoder E → Bool
  ended d = d.fin && is_empty d.readq

  after_version : ℕ → State E
  after_version v = if v == 1 then version else failed (version_mismatch v)

  after_length : ℕ → State E
  after_length n = if ltb (1024 * 1024 * 1024) n then failed (packet_length n) else header n

  at_rest : Decoder E → Flow E
  unfolding after_version
  at_rest d =
      if d.fin && is_empty d.readq
      then done d (ok none)
      else if ltb (length d.readq) 4
      then wait d
      else again (record d { readq = drop 4 d.readq; state = after_version (get_u32_le d.readq) })

  at_version : Decoder E → Flow E
  unfolding after_length
  at_version d =
      if ltb (length d.readq) 4
      then wait d
      else again (record d { readq = drop 4 d.readq; state = after_length (get_u32_le d.readq) })

  -- The frame has been parsed, and its bytes are off the queue.
  pub parsed : Decoder E → Result E Message → Flow E
  parsed d (ok msg) = done (record d { state = rest }) (ok (some msg))
  parsed d (err e) = again (record d { state = failed (bad_frame e) })

  -- `break`: fewer bytes than the frame wants.
  starved : Decoder E → Decoder E × Result (TakeError E) (Option Message)
  starved d = (d, if d.fin then err abrupt_end else ok none)

-- The decoder that `take` leaves, and what it returns.
abbrev pub Taken : Type 0 → Type 0
Taken E = Option (Decoder E × Result (TakeError E) (Option Message))

module _ {E : Type 0} where
  -- The end of a turn: go round again, `break`, or `return`.
  follow : (Decoder E → Taken E) → Flow E → Taken E
  unfolding starved
  follow go (again d) = go d
  follow go (wait d) = some (starved d)
  follow go (done d r) = some (d, r)

module _ {E : Type 0} (to_vec : Message → Result E (List ℕ)) where
  pub pack : Message → Result (PackError E) (List ℕ)
  unfolding pack_encoded
  pack m = pack_encoded (to_vec m)

module _ {E : Type 0} (from_slice : List ℕ → Result E Message) where
  at_header : ℕ → Decoder E → Flow E
  unfolding parsed
  at_header n d =
      if ltb (length d.readq) n
      then wait d
      else parsed (record d { readq = drop n d.readq }) (from_slice (take n d.readq))

  pub in_state : State E → Decoder E → Flow E
  unfolding at_rest at_version at_header
  in_state rest d = at_rest d
  in_state version d = at_version d
  in_state (header n) d = at_header n d
  in_state (failed e) d = done d (err (decode e))

  turn : Decoder E → Flow E
  turn d = in_state d.state d

  -- The loop of `take`, on fuel; `none` means that the fuel ran out.
  pub take_loop : ℕ → Decoder E → Taken E
  take_loop zero d = none
  take_loop (suc f) d = follow (take_loop f) (turn d)

  -- From `rest` the loop makes at most four turns: version, length, frame, error.
  pub take_message : Decoder E → Taken E
  take_message d = take_loop 4 d
