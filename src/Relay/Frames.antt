-- ===== src/Relay/Frames.antt =====
-- The frames that src/relay_session.rs writes and reads, which have the form of src/iicp_tcp.rs. What is
-- read of a connection is the list of the bytes that have come, and the bytes that are left.
pub mod Reading
use iicp_client_rust.Base.{
  ℕ, ◌+◌, Bool, true, false, not, List, [], ◌∷◌, ◌++◌, Result, ok, err, ltb, length, take, drop,
  if◌then◌else◌,
}
use iicp_client_rust.Base.Texts.{codes_eq}
use iicp_client_rust.Native.Frames.{
  iicp_magic, framing_version, frame_header_len, to_be_bytes, as_u32, byte, payload_len,
}

unfoldable pub make_frame : ℕ → List ℕ → List ℕ
make_frame msg_type payload =
    iicp_magic
    ++ (framing_version ∷ msg_type ∷ 0 ∷ 0 ∷ to_be_bytes (as_u32 (length payload)) ++ payload)

-- Why a frame is not read; the connection ends before the header or the payload is whole.
pub data ReadError : Type 0 where
  unexpected_eof : ReadError
  bad_magic : List ℕ → ReadError
  payload_too_large : ℕ → ReadError

-- 16 * 1024 * 1024.
abbrev pub max_payload_len : ℕ
max_payload_len = 16777216

-- The type and the payload of the next frame, and the bytes after it.
unfoldable pub read_frame : List ℕ → Result ReadError ((ℕ × List ℕ) × List ℕ)
read_frame bytes =
    if ltb (length bytes) frame_header_len
    then err unexpected_eof
    else if not (codes_eq (take 4 bytes) iicp_magic)
    then err (bad_magic (take 4 bytes))
    else if ltb max_payload_len (payload_len bytes)
    then err (payload_too_large (payload_len bytes))
    else if ltb (length bytes) (frame_header_len + payload_len bytes)
    then err unexpected_eof
    else ok (
      (byte bytes 5, take (payload_len bytes) (drop frame_header_len bytes)),
      drop (frame_header_len + payload_len bytes) bytes,
    )
