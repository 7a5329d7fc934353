-- ===== src/Native/FrameTests.antt =====
-- Frames at concrete bytes.
use iicp_client_rust.Base.{ℕ, ◌≡◌, refl, List, [], ◌∷◌, ◌++◌, ok, err, arith, length}
use iicp_client_rust.Native.Frames.{
  try_encode_frame, decode_frame, payload_truncated, unsupported_version,
}
use iicp_client_rust.Native.Frames.Codec.{
  framed, encoded, IsRepeated, decode_frame-try_encode_frame, try_encode_frame-decode_frame,
}

abbrev ping : List ℕ
ping = encoded 9 (1 ∷ 2 ∷ 3 ∷ []) 0

decode_frame-try_encode_frame_example :
    (out : List ℕ) × (try_encode_frame 9 (1 ∷ 2 ∷ 3 ∷ []) 0 ≡ ok out)
    × (decode_frame (out ++ 7 ∷ []) ≡ ok (framed 9 (1 ∷ 2 ∷ 3 ∷ []) 0, length out))
decode_frame-try_encode_frame_example =
    decode_frame-try_encode_frame 9 0 (1 ∷ 2 ∷ 3 ∷ []) (7 ∷ []) (omega arith)

ping_lem : decode_frame ping ≡ ok (framed 9 (1 ∷ 2 ∷ 3 ∷ []) 0, 15)
unfolding decode_frame
ping_lem = refl

try_encode_frame-decode_frame_example : IsRepeated ping 15 (framed 9 (1 ∷ 2 ∷ 3 ∷ []) 0)
try_encode_frame-decode_frame_example =
    try_encode_frame-decode_frame ping (framed 9 (1 ∷ 2 ∷ 3 ∷ []) 0) 15 ping_lem

cut_lem :
    decode_frame (73 ∷ 73 ∷ 67 ∷ 80 ∷ 1 ∷ 9 ∷ 0 ∷ 0 ∷ 0 ∷ 0 ∷ 0 ∷ 3 ∷ 1 ∷ [])
    ≡ err (payload_truncated 15 13)
unfolding decode_frame
cut_lem = refl

old_version :
    decode_frame (73 ∷ 73 ∷ 67 ∷ 80 ∷ 2 ∷ 9 ∷ 0 ∷ 0 ∷ 0 ∷ 0 ∷ 0 ∷ 0 ∷ [])
    ≡ err (unsupported_version 2)
unfolding decode_frame
old_version = refl
