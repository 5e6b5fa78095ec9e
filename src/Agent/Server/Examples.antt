-- ===== src/Agent/Server/Examples.antt =====
-- A connection that sends a request twice.
use buildomat.Prelude.{◌≡◌, refl, [], ◌∷◌, none, some, arith}
use mathlib.Core.List.{flatten}
use buildomat.Agent.Decoder.{new}
use buildomat.Agent.Decoder.Examples.{codec, to_vec, from_slice, lookup_request, frame, frame_packs}
use buildomat.Agent.Server.{is_request, serve}
use buildomat.Agent.Server.Stream.{serve_frames}

-- Three reads: in the middle of a header, and of a body.
serve_frames_example :
    serve from_slice 3 new (
      (1 ∷ 0 ∷ 0 ∷ [])
      ∷ (0 ∷ 2 ∷ 0 ∷ 0 ∷ 0 ∷ 7 ∷ [])
      ∷ (1 ∷ 1 ∷ 0 ∷ 0 ∷ 0 ∷ 2 ∷ 0 ∷ 0 ∷ 0 ∷ 7 ∷ 1 ∷ [])
      ∷ [])
    ≡ some (record { decoder = new; sent = lookup_request ∷ lookup_request ∷ []; failure = none })
unfolding is_request flatten
serve_frames_example =
    serve_frames from_slice to_vec codec (lookup_request ∷ lookup_request ∷ []) (frame ∷ frame ∷ [])
      _ 3 (frame_packs, omega arith, refl, (frame_packs, omega arith, refl, tt)) refl (omega arith)
