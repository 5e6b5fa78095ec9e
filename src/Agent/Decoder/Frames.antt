-- ===== src/Agent/Decoder/Frames.antt =====
-- `Message::pack` against `Decoder::take`, agent/src/control/protocol.rs.
use buildomat.Prelude.{
  false, [], none, ℕ, ◌+◌, ◌^◌, ◌*◌, ◌≤◌, ◌<◌, ◌≡◌, refl, ap, ◌∙◌, Bool, List, ◌++◌, some, Result,
  ok, arith, length, length-append, take-length, drop-length,
}
use buildomat.Agent.Decoder.Turns.{grown}
use buildomat.Agent.Decoder.{
  ingest_bytes, take_loop, follow, Message, Decoder, rest, put_u32_le, get_u32_le, pack,
  take_message, take_loop, turn, in_state, follow, header, version, again, done,
}

get_u32_le-put_u32_le : (n : ℕ) (tail : List ℕ) → n < 2 ^ 32 → get_u32_le (put_u32_le n ++ tail) ≡ n
unfolding get_u32_le put_u32_le
get_u32_le-put_u32_le n tail h = omega arith

pack-eq-ok :
    {E : Type 0} (to_vec : Message → Result E (List ℕ)) (m : Message) (frame : List ℕ)
    → pack to_vec m ≡ ok frame
    → (buf : List ℕ) × (to_vec m ≡ ok buf)
      × (length buf < 2 ^ 32)
      × (frame ≡ put_u32_le 1 ++ (put_u32_le (length buf) ++ buf))
unfolding pack
pack-eq-ok to_vec m frame h = ground arith

frame_append :
    (buf tail : List ℕ)
    → (put_u32_le 1 ++ (put_u32_le (length buf) ++ buf)) ++ tail
      ≡ put_u32_le 1 ++ (put_u32_le (length buf) ++ (buf ++ tail))
unfolding put_u32_le
frame_append buf tail = refl

frame_length :
    (buf : List ℕ) → length (put_u32_le 1 ++ (put_u32_le (length buf) ++ buf)) ≡ 8 + length buf
unfolding put_u32_le
frame_length buf = omega arith

-- A frame on the queue of a resting decoder.
abbrev pub holding : {E : Type 0} → Bool → List ℕ → Decoder E
holding fin q = record { fin = fin; readq = q; state = rest }

module _ {E : Type 0} (from_slice : List ℕ → Result E Message) where
  turn-rest :
      (fin : Bool) (q : List ℕ)
      → turn from_slice (holding fin (put_u32_le 1 ++ q))
        ≡ again (record { fin = fin; readq = q; state = version })
  unfolding turn in_state put_u32_le get_u32_le
  turn-rest fin q = ground arith

  turn-version :
      (fin : Bool) (n : ℕ) (q : List ℕ)
      → n ≤ 1024 * 1024 * 1024
      → turn from_slice (record { fin = fin; readq = put_u32_le n ++ q; state = version })
        ≡ again (record { fin = fin; readq = q; state = header n })
  unfolding turn in_state put_u32_le
  turn-version fin n q h = ground (arith, get_u32_le-put_u32_le n q)

  turn-header :
      (fin : Bool) (buf tail : List ℕ) (m : Message)
      → from_slice buf ≡ ok m
      → turn from_slice (record { fin = fin; readq = buf ++ tail; state = header (length buf) })
        ≡ done (holding fin tail) (ok (some m))
  unfolding turn in_state
  turn-header fin buf tail m e =
      ground (arith, length-append buf tail, take-length buf tail, drop-length buf tail)

  take_frame :
      (fin : Bool) (buf tail : List ℕ) (m : Message)
      → length buf ≤ 1024 * 1024 * 1024
      → from_slice buf ≡ ok m
      → take_message from_slice
          (holding fin (put_u32_le 1 ++ (put_u32_le (length buf) ++ (buf ++ tail))))
        ≡ some (holding fin tail, ok (some m))
  unfolding take_message take_loop follow
  take_frame fin buf tail m l e = rw (
    turn-rest fin (put_u32_le (length buf) ++ (buf ++ tail)),
    turn-version fin (length buf) (buf ++ tail) l,
    turn-header fin buf tail m e,
  )

  module _ (to_vec : Message → Result E (List ℕ)) where
    -- Take a JSON codec that reads back what it has written. When `pack` gives a frame for a message
    -- and the encoded message is at most a GiB, a resting decoder whose queue starts with the frame
    -- yields that message, and is at rest again with exactly the bytes behind the frame.
    pub take-pack :
        ((m : Message) (buf : List ℕ) → to_vec m ≡ ok buf → from_slice buf ≡ ok m)
        → (fin : Bool) (m : Message) (frame tail : List ℕ) → pack to_vec m ≡ ok frame
        → length frame ≤ 8 + 1024 * 1024 * 1024
        → take_message from_slice (holding fin (frame ++ tail))
          ≡ some (holding fin tail, ok (some m))
    take-pack codec fin m frame tail p l =
        let (buf, e, _, f) = pack-eq-ok to_vec m frame p in
        rw (ap (λ x. x ++ tail) f ∙ frame_append buf tail)
          (take_frame fin buf tail m (omega (arith, ap length f, frame_length buf)) (codec m buf e))

-- An open decoder takes in any bytes; an idle one has no message.
pub ingest_open :
    {E : Type 0} (d : Decoder E) (c : List ℕ) → d.fin ≡ false → ingest_bytes d c ≡ some (grown d c)
unfolding ingest_bytes
ingest_open d c nf = ground arith

pub take_nothing :
    {E : Type 0} (from_slice : List ℕ → Result E Message)
    → take_message from_slice (holding false []) ≡ some (holding false [], ok none)
unfolding take_message take_loop turn in_state follow
take_nothing from_slice = refl
