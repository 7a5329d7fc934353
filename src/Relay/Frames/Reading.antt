-- ===== src/Relay/Frames/Reading.antt =====
-- The frames of src/relay_session.rs beside those of src/iicp_tcp.rs.
use iicp_client_rust.Base.{ℕ, ◌≤◌, ◌≡◌, ◌∙◌, refl, ap, List, [], ◌∷◌, ◌++◌, ok, arith, length, drop}
use iicp_client_rust.Native.Frames.{IicpFrame, try_encode_frame, decode_frame, max_frame_payload}
use iicp_client_rust.Native.Frames.Codec.{decode_frame-try_encode_frame, framed}
use iicp_client_rust.Relay.Frames.{make_frame, read_frame, max_payload_len}

make_frame-try_encode_frame :
    (msg_type : ℕ) (payload : List ℕ)
    → length payload ≤ max_frame_payload
    → try_encode_frame msg_type payload 0 ≡ ok (make_frame msg_type payload)
unfolding try_encode_frame make_frame
make_frame-try_encode_frame msg_type payload fits = ground arith

-- What the decoder accepts, the relay reads as the same type and payload, with the bytes left that the
-- decoder does not take.
read_frame-decode_frame :
    (bytes : List ℕ) (f : IicpFrame) (n : ℕ)
    → decode_frame bytes ≡ ok (f, n)
    → read_frame bytes ≡ ok ((f.msg_type, f.payload), drop n bytes)
unfolding decode_frame read_frame
read_frame-decode_frame bytes f n h = ground arith

drop-append : (xs ys : List ℕ) → drop (length xs) (xs ++ ys) ≡ ys
drop-append [] ys = refl
drop-append (x ∷ xs) ys = drop-append xs ys

-- A frame within the limit that is made is the one that the encoder gives, and is read as its type and
-- payload, with whatever bytes follow left.
pub read_frame-make_frame :
    (msg_type : ℕ) (payload rest : List ℕ)
    → length payload ≤ max_payload_len
    → (try_encode_frame msg_type payload 0 ≡ ok (make_frame msg_type payload))
      × (read_frame (make_frame msg_type payload ++ rest) ≡ ok ((msg_type, payload), rest))
read_frame-make_frame msg_type payload rest fits =
    let (out, encodes, decodes) = decode_frame-try_encode_frame msg_type 0 payload rest fits in
    let made = make_frame-try_encode_frame msg_type payload fits in
    let same : out ≡ make_frame msg_type payload = ground arith in
    (
      made,
      rw (← same) (
          read_frame-decode_frame (out ++ rest) (framed msg_type payload 0) (length out) decodes
          ∙ ap (λ r. ok ((msg_type, payload), r)) (drop-append out rest)),
    )
