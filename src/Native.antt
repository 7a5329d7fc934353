-- ===== src/Native.antt =====
-- Native calls: src/native_response_sequence.rs, src/native_call_identity.rs and the frames of src/iicp_tcp.rs.
pub mod Responses
pub mod Calls
pub mod Frames
mod Tests
mod FrameTests
