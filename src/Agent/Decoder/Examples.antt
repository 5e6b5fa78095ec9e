-- ===== src/Agent/Decoder/Examples.antt =====
-- Runs of the decoder, over a codec that knows two of the payloads.
use buildomat.Prelude.{
  ℕ, ◌≡◌, refl, subst, true, false, List, [], ◌∷◌, ◌++◌, Option, none, some, ◌≤◌, Result, ok, err,
  String, arith,
}
use buildomat.Agent.Decoder.{
  Message, Payload, ack, metadata_addresses, Decoder, TakeError, State, rest, version, put_u32_le,
  get_u32_le, pack, take_message, ended, take_loop, in_state, turn, follow,
}
use buildomat.Agent.Decoder.Turns.{grown}
use buildomat.Agent.Decoder.Ended.{take_message-ended}
use buildomat.Agent.Decoder.Resume.{take_message_total, take_message-grown, take_message-resumed}
use buildomat.Agent.Decoder.Frames.{take-pack, holding}

abbrev encode : ℕ → Payload → Result String (List ℕ)
encode i ack = ok (i ∷ 0 ∷ [])
encode i metadata_addresses = ok (i ∷ 1 ∷ [])
encode i _ = err "not supported"

abbrev pub to_vec : Message → Result String (List ℕ)
to_vec m = encode m.id m.payload

abbrev pub from_slice : List ℕ → Result String Message
from_slice (i ∷ ℕ.zero ∷ []) = ok (record { id = i; payload = ack })
from_slice (i ∷ ℕ.suc ℕ.zero ∷ []) = ok (record { id = i; payload = metadata_addresses })
from_slice _ = err "no message"

encode_codec :
    (i : ℕ) (p : Payload) (buf : List ℕ)
    → encode i p ≡ ok buf
    → from_slice buf ≡ ok (record { id = i; payload = p })
encode_codec i ack buf h =
    let e : i ∷ 0 ∷ [] ≡ buf = ground arith in
    subst (λ b. from_slice b ≡ ok (record { id = i; payload = ack })) e refl
encode_codec i metadata_addresses buf h =
    let e : i ∷ 1 ∷ [] ≡ buf = ground arith in
    subst (λ b. from_slice b ≡ ok (record { id = i; payload = metadata_addresses })) e refl
encode_codec i _ buf h = absurd (ground arith)

pub codec : (m : Message) (buf : List ℕ) → to_vec m ≡ ok buf → from_slice buf ≡ ok m
codec m buf h = encode_codec m.id m.payload buf h

abbrev pub lookup_request : Message
lookup_request = record { id = 7; payload = metadata_addresses }

abbrev pub frame : List ℕ
frame = 1 ∷ 0 ∷ 0 ∷ 0 ∷ 2 ∷ 0 ∷ 0 ∷ 0 ∷ 7 ∷ 1 ∷ []

pub frame_packs : pack to_vec lookup_request ≡ ok frame
unfolding pack put_u32_le
frame_packs = refl

take-pack_example :
    take_message from_slice (holding false (frame ++ (1 ∷ 0 ∷ [])))
    ≡ some (holding false (1 ∷ 0 ∷ []), ok (some lookup_request))
take-pack_example =
    take-pack from_slice to_vec codec false lookup_request frame (1 ∷ 0 ∷ []) frame_packs
      (omega arith)

abbrev half_read : Decoder String
half_read = record { fin = false; readq = 1 ∷ 0 ∷ 0 ∷ 0 ∷ 2 ∷ []; state = rest }

abbrev waiting : Decoder String
waiting = record { fin = false; readq = 2 ∷ []; state = version }

half_read_waits : take_message from_slice half_read ≡ some (waiting, ok none)
unfolding take_message take_loop turn in_state follow get_u32_le
half_read_waits = refl

take_message_total_example :
    (p : Decoder String × Result (TakeError String) (Option Message)) × (take_message from_slice
        half_read
      ≡ some p)
    × ((f : ℕ) → 4 ≤ f → take_loop from_slice f half_read ≡ some p)
take_message_total_example = take_message_total from_slice half_read

take_message-resumed_example :
    take_message from_slice (grown waiting (0 ∷ 0 ∷ 0 ∷ 7 ∷ 1 ∷ []))
    ≡ take_message from_slice (grown half_read (0 ∷ 0 ∷ 0 ∷ 7 ∷ 1 ∷ []))
take_message-resumed_example =
    take_message-resumed from_slice half_read waiting (0 ∷ 0 ∷ 0 ∷ 7 ∷ 1 ∷ []) refl half_read_waits

take_message-grown_example :
    take_message from_slice (grown (holding false frame) (1 ∷ []))
    ≡ some (grown (holding false []) (1 ∷ []), ok (some lookup_request))
take_message-grown_example =
    take_message-grown from_slice (holding false frame) (holding false []) (1 ∷ [])
      (ok (some lookup_request)) refl (λ e. ground arith) frame_taken
  where
    frame_taken :
        take_message from_slice (holding false frame)
        ≡ some (holding false [], ok (some lookup_request))
    frame_taken =
        take-pack from_slice to_vec codec false lookup_request frame [] frame_packs (omega arith)

all_read : take_message from_slice (holding true []) ≡ some (holding true [], ok none)
unfolding take_message take_loop turn in_state follow
all_read = refl

take_message-ended_example :
    (ended (holding {E = String} true []) ≡ true) × (◌≡◌ {A = State String} rest rest)
take_message-ended_example =
    take_message-ended from_slice (holding true []) (holding true []) refl all_read
