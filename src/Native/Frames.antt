-- ===== src/Native/Frames.antt =====
-- The frames of src/iicp_tcp.rs: a header of twelve bytes and a payload. A byte is a number below 256, a `usize`
-- one below 2 ^ 64. The error of a frame is the text of its message in the source, with the same values.
pub mod Codec
use iicp_client_rust.Base.{
  ℕ, ◌+◌, ◌*◌, ◌/◌, ◌%◌, ◌^◌, Bool, true, false, not, List, [], ◌∷◌, ◌++◌, Option, none, some,
  Result, ok, err, ltb, eqb, length, take, drop, first, if◌then◌else◌,
}
use iicp_client_rust.Base.Words.{u64_mod}
use iicp_client_rust.Base.Texts.{codes_eq}

abbrev pub iicp_magic : List ℕ
iicp_magic = b'I' ∷ b'I' ∷ b'C' ∷ b'P' ∷ []

abbrev pub framing_version : ℕ
framing_version = 1

abbrev pub frame_header_len : ℕ
frame_header_len = 12

-- 16 * 1024 * 1024.
abbrev pub max_frame_payload : ℕ
max_frame_payload = 16777216

pub record IicpFrame : Type 0 where
  pub version : ℕ
  pub msg_type : ℕ
  pub flags : ℕ
  pub payload : List ℕ

pub data FrameError : Type 0 where
  payload_too_large : ℕ → FrameError
  too_short : ℕ → FrameError
  invalid_magic : List ℕ → FrameError
  unsupported_version : ℕ → FrameError
  length_overflow : FrameError
  payload_truncated : ℕ → ℕ → FrameError

-- `u32::to_be_bytes` and `u32::from_be_bytes`.
abbrev pub to_be_bytes : ℕ → List ℕ
to_be_bytes n = n / 16777216 % 256 ∷ n / 65536 % 256 ∷ n / 256 % 256 ∷ n % 256 ∷ []

abbrev pub from_be_bytes : ℕ → ℕ → ℕ → ℕ → ℕ
from_be_bytes a b c d = a * 16777216 + b * 65536 + c * 256 + d

-- `n as u32`.
abbrev pub as_u32 : ℕ → ℕ
as_u32 n = n % 4294967296

unfoldable pub try_encode_frame : ℕ → List ℕ → ℕ → Result FrameError (List ℕ)
try_encode_frame msg_type payload flags =
    if ltb max_frame_payload (length payload)
    then err (payload_too_large (length payload))
    else ok (
        iicp_magic
        ++ (framing_version ∷ msg_type ∷ flags ∷ 0 ∷ to_be_bytes (as_u32 (length payload))
            ++ payload))

-- `data[i]`; out of range, where the source panics, it is 0, which no call reaches.
abbrev pub byte : List ℕ → ℕ → ℕ
byte bytes i = or_zero (first (drop i bytes))
  where
    or_zero : Option ℕ → ℕ
    or_zero none = 0
    or_zero (some b) = b

abbrev pub payload_len : List ℕ → ℕ
payload_len bytes = from_be_bytes (byte bytes 8) (byte bytes 9) (byte bytes 10) (byte bytes 11)

abbrev pub frame_of : List ℕ → IicpFrame
frame_of bytes = record {
  version = byte bytes 4;
  msg_type = byte bytes 5;
  flags = byte bytes 6;
  payload = take (payload_len bytes) (drop frame_header_len bytes);
}

-- The frame and the number of bytes that it takes.
unfoldable pub decode_frame : List ℕ → Result FrameError (IicpFrame × ℕ)
decode_frame bytes =
    if ltb (length bytes) frame_header_len
    then err (too_short (length bytes))
    else if not (codes_eq (take 4 bytes) iicp_magic)
    then err (invalid_magic (take 4 bytes))
    else if not (eqb (byte bytes 4) framing_version)
    then err (unsupported_version (byte bytes 4))
    else if ltb max_frame_payload (payload_len bytes)
    then err (payload_too_large (payload_len bytes))
    else if not (ltb (frame_header_len + payload_len bytes) u64_mod)
    then err length_overflow
    else if ltb (length bytes) (frame_header_len + payload_len bytes)
    then err (payload_truncated (frame_header_len + payload_len bytes) (length bytes))
    else ok (frame_of bytes, frame_header_len + payload_len bytes)
