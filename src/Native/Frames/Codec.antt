-- ===== src/Native/Frames/Codec.antt =====
-- Frames of src/iicp_tcp.rs that were encoded are decoded again.
use iicp_client_rust.Base.{
  ℕ, ◌+◌, ◌/◌, ◌%◌, ◌≤◌, ◌≡◌, ap, List, [], ◌∷◌, ◌++◌, ok, arith, length, drop, take-append,
  append_nil, subst, sym, ◌∙◌, length-append, length-take, length-drop,
}
use iicp_client_rust.Native.Frames.{
  iicp_magic, framing_version, frame_header_len, max_frame_payload, IicpFrame, to_be_bytes,
  from_be_bytes, as_u32, try_encode_frame, byte, payload_len, frame_of, decode_frame,
}

be_bytes_lem :
    (n : ℕ)
    → n ≤ max_frame_payload
    → from_be_bytes (n / 16777216 % 256) (n / 65536 % 256) (n / 256 % 256) (n % 256) ≡ n
be_bytes_lem n h = omega arith

abbrev pub encoded : ℕ → List ℕ → ℕ → List ℕ
encoded msg_type payload flags =
    iicp_magic
    ++ (framing_version ∷ msg_type ∷ flags ∷ 0 ∷ to_be_bytes (as_u32 (length payload)) ++ payload)

payload_len-encoded :
    (msg_type flags : ℕ) (payload rest : List ℕ)
    → length payload ≤ max_frame_payload
    → payload_len (encoded msg_type payload flags ++ rest) ≡ length payload
payload_len-encoded t flags payload rest h = omega arith

abbrev pub framed : ℕ → List ℕ → ℕ → IicpFrame
framed msg_type payload flags = record {
  version = framing_version;
  msg_type = msg_type;
  flags = flags;
  payload = payload;
}

frame_of-encoded :
    (msg_type flags : ℕ) (payload rest : List ℕ)
    → length payload ≤ max_frame_payload
    → frame_of (encoded msg_type payload flags ++ rest) ≡ framed msg_type payload flags
frame_of-encoded t flags payload rest h =
    ap (λ p. framed t p flags)
      (rw (payload_len-encoded t flags payload rest h) (take-append payload rest))

decode_frame-encoded :
    (msg_type flags : ℕ) (payload rest : List ℕ)
    → length payload ≤ max_frame_payload
    → decode_frame (encoded msg_type payload flags ++ rest)
      ≡ ok (framed msg_type payload flags, frame_header_len + length payload)
unfolding decode_frame
decode_frame-encoded t flags payload rest h = ground (
  arith,
  payload_len-encoded t flags payload rest h,
  frame_of-encoded t flags payload rest h,
  length-append payload rest,
)

try_encode_frame-encoded :
    (msg_type flags : ℕ) (payload : List ℕ)
    → length payload ≤ max_frame_payload
    → try_encode_frame msg_type payload flags ≡ ok (encoded msg_type payload flags)
unfolding try_encode_frame
try_encode_frame-encoded t flags payload h = ground arith

-- A payload within the limit is encoded, and whatever bytes follow, decoding gives the frame back
-- with the number of bytes that it takes.
pub decode_frame-try_encode_frame :
    (msg_type flags : ℕ) (payload rest : List ℕ)
    → length payload ≤ max_frame_payload
    → (out : List ℕ) × (try_encode_frame msg_type payload flags ≡ ok out)
      × (decode_frame (out ++ rest) ≡ ok (framed msg_type payload flags, length out))
decode_frame-try_encode_frame t flags payload rest h = (
  encoded t payload flags,
  try_encode_frame-encoded t flags payload h,
  decode_frame-encoded t flags payload rest h
      ∙ ap (λ k. ok (framed t payload flags, k)) (omega arith),
)

-- What the tests of decoding leave.
pub record IsDecoded (bytes : List ℕ) (f : IicpFrame) (n : ℕ) : Type 0 where
  pub frame : f ≡ frame_of bytes
  pub size : n ≡ frame_header_len + payload_len bytes
  pub version : byte bytes 4 ≡ framing_version
  pub bounded : payload_len bytes ≤ max_frame_payload
  pub whole : n ≤ length bytes

decode_frame-IsDecoded :
    (bytes : List ℕ) (f : IicpFrame) (n : ℕ) → decode_frame bytes ≡ ok (f, n) → IsDecoded bytes f n
unfolding decode_frame
decode_frame-IsDecoded bytes f n h = record {
  frame = ground arith;
  size = ground arith;
  version = ground arith;
  bounded = ground arith;
  whole = ground arith;
}

length-payload :
    (bytes : List ℕ) (n : ℕ)
    → n ≡ frame_header_len + payload_len bytes
    → n ≤ length bytes
    → length (frame_of bytes).payload ≡ payload_len bytes
length-payload bytes n size whole = omega (
  arith,
  length-take (payload_len bytes) (drop frame_header_len bytes),
  length-drop frame_header_len bytes,
)

-- A frame of the given bytes that can be sent on.
abbrev pub IsRepeated : List ℕ → ℕ → IicpFrame → Type 0
IsRepeated bytes n f =
    (n ≤ length bytes)
    × (n ≡ frame_header_len + length f.payload)
    × (length f.payload ≤ max_frame_payload)
    × ((out : List ℕ) × (try_encode_frame f.msg_type f.payload f.flags ≡ ok out)
        × (decode_frame out ≡ ok (f, n)))

-- A frame that was decoded is within the limit and the bytes given, and encoding it again gives bytes
-- that decode to the same frame.
pub try_encode_frame-decode_frame :
    (bytes : List ℕ) (f : IicpFrame) (n : ℕ) → decode_frame bytes ≡ ok (f, n) → IsRepeated bytes n f
try_encode_frame-decode_frame bytes f n h =
    let v = decode_frame-IsDecoded bytes f n h in
    let q = frame_of bytes in
    let fit : length q.payload ≡ payload_len bytes = length-payload bytes n v.size v.whole in
    let room : length q.payload ≤ max_frame_payload = omega (arith, v.bounded) in
    let same : framed q.msg_type q.payload q.flags ≡ q =
      ap (λ w. record q { version = w }) (sym v.version) in
    let again : decode_frame (encoded q.msg_type q.payload q.flags) ≡ ok (q, n) =
      ap decode_frame (sym (append_nil (encoded q.msg_type q.payload q.flags)))
      ∙ decode_frame-encoded q.msg_type q.flags q.payload [] room
      ∙ ap (λ g. ok (g, frame_header_len + length q.payload)) same
      ∙ ap (λ k. ok (q, k)) (omega (arith, v.size)) in
    subst (IsRepeated bytes n) (sym v.frame) (
      v.whole,
      omega (arith, v.size),
      room,
      (
        encoded q.msg_type q.payload q.flags,
        try_encode_frame-encoded q.msg_type q.flags q.payload room,
        again,
      ),
    )
